-- ===== src/KeysPage.antt =====
-- app/dashboard/api-keys/page.tsx: the state of `ApiKeysPage`, and its handlers cut at each
-- `await`. The effect depends on `fetchKeys`, which `useCallback` makes anew whenever `call` is
-- another function; `useApi` returns another one at each render. So the effect runs after every
-- render, and each part of a handler that changes the state starts a listing.
pub mod View
pub mod Requests
pub mod Laws
pub mod Races
mod Examples
use lifygo.Prelude.{
  Bool, true, false, not, ◌||◌, Option, none, some, List, [], ◌∷◌, ◌++◌, String, if◌then◌else◌,
  ◌===◌, ◌&&◌, truthy, trim, keep, is_some,
}
use lifygo.Http.{Body, str, Settled, fulfilled, rejected, message}
use lifygo.Features.{ApiKey, ApiKeyResponse}

pub record State : Type 0 where
  pub name : String
  pub keys : List ApiKey
  pub new_key : Option ApiKeyResponse
  pub loading : Bool
  pub deleting : Option String
  pub error : String
  pub copied : Bool

abbrev pub initial : State
initial = record {
  name = "";
  keys = [];
  new_key = none;
  loading = false;
  deleting = none;
  error = "";
  copied = false;
}

pub data Call : Type 0 where
  set_name : String → Call
  -- a key pressed in the name's input
  key_down : String → Call
  create : Call
  delete copy : String → Call

-- What is waited for. A deletion keeps the id of `newKey` that its handler's closure has seen, and
-- a creation is followed by a listing of its own.
pub data Pending : Type 0 where
  list_keys : Pending
  create_key : Body → Pending
  list_after_create : Pending
  delete_key : String → Option String → Pending
  write_clipboard : String → Pending
  copied_timer : Pending

pub data Completion : Type 0 where
  keys_listed keys_listed_after : Settled (List ApiKey) → Completion
  key_created : Body → Settled ApiKeyResponse → Completion
  key_deleted : String → Option String → Settled (Unit {0}) → Completion
  clipboard_written : String → Settled (Unit {0}) → Completion
  timer_fired : Completion

abbrev pub pending_of : Completion → Pending
pending_of (keys_listed r) = list_keys
pending_of (keys_listed_after r) = list_after_create
pending_of (key_created b r) = create_key b
pending_of (key_deleted id seen r) = delete_key id seen
pending_of (clipboard_written text r) = write_clipboard text
pending_of timer_fired = copied_timer

-- `x === id` for a state that is a text or `null`.
abbrev pub is_id : Option String → String → Bool
is_id none id = false
is_id (some x) id = x === id

-- `newKey?.id`.
abbrev pub id_of : Option ApiKeyResponse → Option String
id_of none = none
id_of (some k) = some k.id

-- The effect after a render. React renders if a setter has got another value than the state holds;
-- a new array or object always is one.
after_render : Bool → List Pending
after_render true = list_keys ∷ []
after_render false = []

handle_create : State → State × List Pending
unfolding after_render
handle_create s = if not (truthy (trim s.name)) then (s, []) else (
  record s { error = ""; loading = true; copied = false },
  create_key (("name", str (trim s.name)) ∷ [])
      ∷ after_render (truthy s.error || not s.loading || s.copied),
)

handle_delete : String → State → State × List Pending
unfolding after_render
handle_delete id s = (
  record s { deleting = some id },
  delete_key id (id_of s.new_key) ∷ after_render (not (is_id s.deleting id)),
)

-- `e.key === "Enter" && name && handleCreate()`.
handle_key_down : String → State → State × List Pending
unfolding handle_create
handle_key_down key s = if key === "Enter" && truthy s.name then handle_create s else (s, [])

-- A handler up to its first `await`.
unfoldable pub start : Call → State → State × List Pending
unfolding handle_create handle_delete handle_key_down after_render trim
start (set_name v) s = (record s { name = v }, after_render (not (s.name === v)))
start (key_down key) s = handle_key_down key s
start create s = handle_create s
start (delete id) s = handle_delete id s
start (copy text) s = (s, write_clipboard text ∷ [])

-- `fetchKeys` from its `await` on: the state, and whether it is another one.
fetched : Settled (List ApiKey) → State → State × Bool
fetched (fulfilled ks) s = (record s { keys = ks }, true)
fetched (rejected e) s =
    let m = message e "Failed to load keys" in (record s { error = m }, not (s.error === m))

created : Settled ApiKeyResponse → State → State × List Pending
unfolding after_render
created (fulfilled k) s =
    (record s { new_key = some k; name = "" }, list_after_create ∷ after_render true)
created (rejected e) s =
    let m = message e "Failed to create key" in
    (record s { error = m; loading = false }, after_render (not (s.error === m) || s.loading))

-- `setKeys(prev => prev.filter(…))`, `if (newKey?.id === id) setNewKey(null)`.
deleted : String → Option String → Settled (Unit {0}) → State → State × List Pending
unfolding after_render
deleted id seen (fulfilled u) s = (
  record s {
    keys = keep (λ k. not (k.id === id)) s.keys;
    new_key = if is_id seen id then none else s.new_key;
    deleting = none;
  },
  after_render true,
)
deleted id seen (rejected e) s =
    let m = message e "Failed to delete key" in
    (
      record s { error = m; deleting = none },
      after_render (not (s.error === m) || is_some s.deleting),
    )

clipboard_settled : Settled (Unit {0}) → State → State × List Pending
unfolding after_render
clipboard_settled (fulfilled u) s =
    (record s { copied = true }, copied_timer ∷ after_render (not s.copied))
clipboard_settled (rejected e) s = (s, [])

-- A handler from an `await` on.
unfoldable pub finish : Completion → State → State × List Pending
unfolding fetched created deleted clipboard_settled after_render
finish (keys_listed r) s = ((fetched r s).0, after_render (fetched r s).1)
finish (keys_listed_after r) s =
    (record ((fetched r s).0) { loading = false }, after_render ((fetched r s).1 || s.loading))
finish (key_created b r) s = created r s
finish (key_deleted id seen r) s = deleted id seen r s
finish (clipboard_written text r) s = clipboard_settled r s
finish timer_fired s = (record s { copied = false }, after_render s.copied)
