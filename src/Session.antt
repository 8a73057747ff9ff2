-- ===== src/Session.antt =====
-- components/auth-provider-local.tsx: the session of the local provider, with what it does to the
-- browser: the cookie that the middleware reads, and the location.
pub mod SignOut
mod Examples
use lifygo.Prelude.{
  Bool, true, false, Option, none, some, List, [], ◌∷◌, String, if◌then◌else◌, or_else, ◌+s◌,
}
use lifygo.Http.{Settled, fulfilled, rejected, Response, is_ok, Sent}

pub record User : Type 0 where
  pub id : String
  pub name : String
  pub email : String

-- A cookie `lifygo_token`; scripts neither read nor write one that is `HttpOnly`.
pub record Cookie : Type 0 where
  pub value : String
  pub http_only : Bool

-- The state of the provider, and of the browser around it.
pub record State : Type 0 where
  pub user : Option User
  pub is_loaded : Bool
  pub cookie : Option Cookie
  pub location : String

abbrev pub initial : Option Cookie → String → State
initial cookie location = record {
  user = none;
  is_loaded = false;
  cookie = cookie;
  location = location;
}

pub data Pending : Type 0 where
  me signing_out : Pending

-- With the answer to a sign-out comes what its `Set-Cookie` header does, if it has one.
pub data Completion : Type 0 where
  me_fetched : Settled (Response User) → Completion
  signed_out : Settled (Response (Unit {0})) → Option (Option Cookie) → Completion

abbrev pub api_url : String → String
api_url env = or_else env "http://localhost:8080"

abbrev pub request_of : String → Pending → Sent
request_of env me = record {
  url = api_url env +s "/auth/me";
  method = none;
  body = none;
  headers = [];
  credentials = "include";
}
request_of env signing_out = record {
  url = api_url env +s "/auth/signout";
  method = some "POST";
  body = none;
  headers = [];
  credentials = "include";
}

-- `fetchUser`, behind its `await fetch(…)`.
unfoldable pub fetched_user : Settled (Response User) → Option User
fetched_user (rejected e) = none
fetched_user (fulfilled res) =
    if is_ok res.status
    then elim res.json [ rejected e ↦ none | fulfilled data' ↦ some data'.payload ]
    else none

-- `document.cookie = "lifygo_token=; Path=/; Max-Age=0"`.
unfoldable pub expire : Option Cookie → Option Cookie
expire none = none
expire (some c) = if c.http_only then some c else none

-- What the browser does with an answer's header, before the script goes on.
abbrev pub stored : Option (Option Cookie) → Option Cookie → Option Cookie
stored none cookie = cookie
stored (some c) cookie = c

-- What follows the `await` of the effect, or of `signOut`; a request that fails ends `signOut`.
unfoldable pub finish : Completion → State → State
unfolding fetched_user expire
finish (me_fetched r) s = record s { user = fetched_user r; is_loaded = true }
finish (signed_out (rejected e) header) s = s
finish (signed_out (fulfilled res) header) s = record s {
  user = none;
  cookie = expire (stored header s.cookie);
  location = "/sign-in";
}

-- `getToken`.
unfoldable pub get_token : Settled (Option String)
get_token = fulfilled none
