-- ===== src/KeysPage/Races.antt =====
-- A deletion decides by the key that its handler had seen, not by the key that is shown when it
-- settles.
use lifygo.Prelude.{
  ◌≡◌, refl, Bool, true, false, ◌||◌, none, some, [], ◌∷◌, ◌++◌, String, ◌===◌, any, any_of_In, In,
  inl, inr, arith, truthy, trim,
}
use text.Mathlib.TextEquality.{eq_iff}
use lifygo.Html.{gestures}
use lifygo.Http.{fulfilled}
use lifygo.Features.{ApiKey, ApiKeyResponse}
use lifygo.Locale.{Locale}
use lifygo.Page.{System, Reach, opened, here, next, press, settle}
use lifygo.KeysPage.{
  State, Call, set_name, create, delete, Pending, list_keys, delete_key, keys_listed_after,
  key_created, key_deleted, start, finish, is_id,
}
use lifygo.KeysPage.View.{view}
use lifygo.KeysPage.View.Offers.{caused, copy_offers, create_offers, row_offers}
use lifygo.KeysPage.Requests.{keys_page}

abbrev is_create_call : Call → Bool
is_create_call create = true
is_create_call _ = false

abbrev is_set_name : String → Call → Bool
is_set_name v (set_name x) = x === v
is_set_name v _ = false

abbrev is_delete_call : String → Call → Bool
is_delete_call id (delete x) = x === id
is_delete_call id _ = false

create_of : (e : Call) → is_create_call e ≡ true → e ≡ create
create_of create h = refl
create_of _ h = cc

set_name_of : (v : String) (e : Call) → is_set_name v e ≡ true → e ≡ set_name v
set_name_of v (set_name x) h = ground (arith, eq_iff x v)
set_name_of v _ h = cc

delete_of : (id : String) (e : Call) → is_delete_call id e ≡ true → e ≡ delete id
delete_of id (delete x) h = ground (arith, eq_iff x id)
delete_of id _ h = cc

module _ (env : Locale) (s : State) where
  call_of :
      (p : Call → Bool) (v : String) (c : Call)
      → ((e : Call) → p e ≡ true → e ≡ c)
      → (copy_offers p v env s s.new_key
          || create_offers p v env s
          || any (row_offers p v env s) s.keys)
        ≡ true
      → In c (gestures v (view env s))
  call_of p v c only h = let (e, i, t) = caused p v env s h in rw (only e t) at i

  pub create_offered :
      s.loading ≡ false → truthy (trim s.name) ≡ true → In create (gestures "" (view env s))
  create_offered a b = call_of is_create_call "" create create_of (ground arith)

  pub set_name_offered :
      (v : String) → s.loading ≡ false → In (set_name v) (gestures v (view env s))
  set_name_offered v a =
      call_of (is_set_name v) v (set_name v) (set_name_of v) (ground (arith, eq_iff v v))

  delete_offered :
      (k : ApiKey)
      → In k s.keys
      → is_id s.deleting k.id ≡ false
      → In (delete k.id) (gestures "" (view env s))
  delete_offered k i a =
      let p = is_delete_call k.id in
      let row : row_offers p "" env s k ≡ true = ground (arith, eq_iff k.id k.id) in
      call_of p "" (delete k.id) (delete_of k.id)
        (ground (arith, any_of_In (row_offers p "" env s) s.keys i row))

-- A key whose raw text was never shown for longer than a moment can be lost: for any two created
-- keys the page can reach a state where the second one is in the box that shows it once, and a
-- deletion of the first one, started before, empties the box when it settles.
pub raw_key_lost :
    (env : Locale) (a b : ApiKeyResponse)
    → (t : System State Pending) × Reach (keys_page env) t
      × (t.page.new_key ≡ some b)
      × In (delete_key a.id (some a.id)) t.in_flight
      × ((finish (key_deleted a.id (some a.id) (fulfilled tt)) t.page).0.new_key ≡ none)
unfolding keys_page start finish
raw_key_lost env a b =
    let r0 : Reach (keys_page env) (opened (keys_page env)) = here in
    let r1 = next r0 (press _ "a" (set_name "a") (set_name_offered env _ "a" refl)) in
    let r2 = next r1 (press _ "" create (create_offered env _ refl refl)) in
    let r3 =
      next r2 (
        settle _ (key_created _ (fulfilled a)) (list_keys ∷ list_keys ∷ []) (list_keys ∷ [])
          refl) in
    let r4 = next r3 (
      settle _ (keys_listed_after (fulfilled (a.api_key ∷ [])))
        (list_keys ∷ list_keys ∷ list_keys ∷ []) (list_keys ∷ []) refl) in
    let r5 = next r4 (press _ "" (delete a.id) (delete_offered env _ a.api_key (inl refl) refl)) in
    let r6 = next r5 (press _ "b" (set_name "b") (set_name_offered env _ "b" refl)) in
    let r7 = next r6 (press _ "" create (create_offered env _ refl refl)) in
    let five = list_keys ∷ list_keys ∷ list_keys ∷ list_keys ∷ list_keys ∷ [] in
    let before = five ++ delete_key a.id (some a.id) ∷ list_keys ∷ list_keys ∷ [] in
    let r8 = next r7 (settle _ (key_created _ (fulfilled b)) before (list_keys ∷ []) refl) in
    (_, r8, refl, inr (inr (inr (inr (inr (inl refl))))), ground (arith, eq_iff a.id a.id))
