-- ===== src/Http.antt =====
-- lib/endpoints.ts, lib/api.ts and lib/use-api.ts: the paths of the API, and the call of it.
pub mod Endpoints
pub mod Laws
pub mod Calls
mod Examples
use lifygo.Prelude.{
  JsNumber, ℕ, ◌≡◌, refl, ◌⊎◌, inl, inr, Bool, true, false, ◌&&◌, ◌||◌, Option, none, some, List,
  [], ◌∷◌, ◌++◌, String, if◌then◌else◌, ◌==◌, ltb, ◌===◌, truthy, or_else, ◌+s◌,
}

pub data Value : Type 0 where
  str : String → Value
  num : JsNumber → Value
  bool : Bool → Value

-- The object that is given to `JSON.stringify`: its own enumerable properties in order.
abbrev pub Body : Type 0
Body = List (String × Value)

abbrev pub Headers : Type 0
Headers = List (String × String)

-- Writing a property: in place if the key is there, at the end if not.
unfoldable pub set_key {ℓ} : {V : Type ℓ} → String → V → List (String × V) → List (String × V)
set_key k v [] = (k, v) ∷ []
set_key k v ((j, w) ∷ m) = if j === k then (j, v) ∷ m else (j, w) ∷ set_key k v m

-- Reading a property; `none` is `undefined`.
unfoldable pub get_key {ℓ} : {V : Type ℓ} → String → List (String × V) → Option V
get_key k [] = none
get_key k ((j, v) ∷ m) = if j === k then some v else get_key k m

-- `{ ...a, ...b }`.
unfoldable pub spread {ℓ} : {V : Type ℓ} → List (String × V) → List (String × V) → List (String × V)
unfolding set_key
spread a [] = a
spread a ((k, v) ∷ b) = spread (set_key k v a) b

pub record RequestInit : Type 0 where
  pub method : Option String
  pub body : Option Body
  pub headers : Headers
  pub credentials : Option String

-- What `fetch` is given.
pub record Sent : Type 0 where
  pub url : String
  pub method : Option String
  pub body : Option Body
  pub headers : Headers
  pub credentials : String

-- What a `catch` receives: an `Error` with its message, or some other value.
pub data Thrown : Type 0 where
  error : String → Thrown
  other_value : Thrown

-- `err instanceof Error ? err.message : fallback`.
abbrev pub message : Thrown → String → String
message (error m) fallback = m
message other_value fallback = fallback

-- A settled promise.
pub data Settled (A : Type 0) : Type 0 where
  fulfilled : A → Settled A
  rejected : Thrown → Settled A

pub Settled-cases :
    {A : Type 0} (r : Settled A) → ((a : A) × (r ≡ fulfilled a)) ⊎ ((e : Thrown) × (r ≡ rejected e))
Settled-cases (fulfilled a) = inl (a, refl)
Settled-cases (rejected e) = inr (e, refl)

-- A parsed response body: its `error` property, "" where that is absent, and the body read as the
-- type that the caller names.
pub record Reply (T : Type 0) : Type 0 where
  pub error : String
  pub payload : T

pub record Response (T : Type 0) : Type 0 where
  pub status : ℕ
  pub json : Settled (Reply T)

-- The path, if any, that the browser is sent to, and the promise.
pub record Fetched (T : Type 0) : Type 0 where
  pub navigated : Option String
  pub result : Settled T

abbrev pub init : RequestInit
init = record { method = none; body = none; headers = []; credentials = none }

abbrev pub post : Body → RequestInit
post b = record init { method = some "POST"; body = some b }

abbrev pub delete : RequestInit
delete = record init { method = some "DELETE" }

-- `res.ok`: the status is in the range 200 to 299.
abbrev pub is_ok : ℕ → Bool
is_ok status = ltb 199 status && ltb status 300

-- `fetch(...)` of `apiFetch`: the caller's headers are spread over the fixed ones.
request_of : String → String → String → RequestInit → Sent
unfolding spread
request_of api_url path api_key options = record {
  url = api_url +s path;
  method = options.method;
  body = options.body;
  headers =
      spread (("Content-Type", "application/json") ∷ ("X-API-Key", api_key) ∷ []) options.headers;
  credentials = elim options.credentials [ none ↦ "omit" | some c ↦ or_else c "omit" ];
}

-- The session is gone, and the user has to sign in again.
is_signed_out : ℕ → String → Bool
is_signed_out status message =
    status == 401 && (message === "invalid session" || message === "missing credentials")

module _ {T : Type 0} where
  -- What follows `await res.json()`.
  finish : ℕ → Reply T → Fetched T
  unfolding is_signed_out
  finish status data' =
      if is_ok status
      then record { navigated = none; result = fulfilled data'.payload }
      else record {
        navigated = if is_signed_out status data'.error then some "/sign-in" else none;
        result = rejected (error (or_else data'.error "Request failed"));
      }

  parse : Response T → Fetched T
  unfolding finish
  parse res = elim res.json [
    | rejected e ↦ record { navigated = none; result = rejected e }
    | fulfilled data' ↦ finish res.status data'
  ]

  -- What follows `await fetch(…)`.
  unfoldable pub respond : Settled (Response T) → Fetched T
  unfolding parse
  respond (rejected e) = record { navigated = none; result = rejected e }
  respond (fulfilled res) = parse res

-- The headers of `call`, with what `getToken()` resolved to; `none` is `null`.
with_token : Option String → Headers → Headers
unfolding set_key
with_token none h = h
with_token (some t) h = if truthy t then set_key "Authorization" ("Bearer " +s t) h else h

module _ {T : Type 0} (api_url : String) (fetch : Sent → Settled (Response T)) where
  unfoldable pub api_fetch : String → String → RequestInit → Fetched T
  unfolding request_of respond
  api_fetch path api_key options = respond (fetch (request_of api_url path api_key options))

  -- `call` of `useApi`; `getToken()` may reject.
  unfoldable pub call : Settled (Option String) → String → RequestInit → Fetched T
  unfolding api_fetch with_token spread
  call (rejected e) path options = record { navigated = none; result = rejected e }
  call (fulfilled token) path options = api_fetch path "" (record options {
    headers = with_token token (spread [] options.headers);
    credentials = some "include";
  })
