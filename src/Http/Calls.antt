-- ===== src/Http/Calls.antt =====
-- What the call of the API sends, and how it reports each outcome.
use lifygo.Prelude.{
  ◌≡◌, ◌↔◌, refl, ◌⊎◌, inl, inr, true, Option, none, some, List, [], ◌∷◌, String, arith,
  if◌then◌else◌, truthy, ◌+s◌,
}
use text.Mathlib.TextEquality.{eq_iff}
use lifygo.Http.{
  RequestInit, Sent, Response, Reply, Settled, fulfilled, rejected, Thrown, is_ok, Settled-cases,
  respond, call,
}

-- The header of a session token; local sessions have none.
abbrev authorization : Option String → List (String × String)
authorization none = []
authorization (some t) = if truthy t then ("Authorization", "Bearer " +s t) ∷ [] else []

-- A page's call, which gives no headers of its own, sends one request: to the API's address, with
-- the method and the body of the caller, as JSON, with an empty API key, the session's cookies, and
-- the token, if there is one, as bearer; and it ends as that request does. If the token cannot be
-- had, nothing is sent.
pub call_sends :
    {T : Type 0} (api_url : String) (fetch : Sent → Settled (Response T)) (token : Option String)
    (path : String) (o : RequestInit) (e : Thrown)
    → o.headers ≡ []
    → (call api_url fetch (fulfilled token) path o
        ≡ respond (
            fetch (record {
              url = api_url +s path;
              method = o.method;
              body = o.body;
              headers =
                  ("Content-Type", "application/json") ∷ ("X-API-Key", "") ∷ authorization token;
              credentials = "include";
            })))
      × (call api_url fetch (rejected e) path o ≡ record { navigated = none; result = rejected e })
unfolding call
call_sends api_url fetch none path o e h = ground arith
call_sends api_url fetch (some t) path o e h = ground arith

module _ {T : Type 0} where
  -- A call is fulfilled exactly when a response came with a status from 200 to 299 and a body that
  -- could be parsed, and then with that body.
  pub fulfilled_iff :
      (r : Settled (Response T)) (x : T)
      → ((respond r).result ≡ fulfilled x) ↔ (
          (res : Response T) × (body : Reply T) × (r ≡ fulfilled res)
          × (is_ok res.status ≡ true)
          × (res.json ≡ fulfilled body)
          × (body.payload ≡ x))
  unfolding respond
  fulfilled_iff (rejected e) x = (λ h. cc, λ h. cc (h.2))
  fulfilled_iff (fulfilled res) x = elim (Settled-cases res.json) [
    | inl (body, q) ↦ (λ h. (res, body, refl, ground arith, q, ground arith), λ h. ground arith)
    | inr (e, q) ↦ (λ h. ground arith, λ h. ground arith)
  ]

  -- The browser is sent to the sign-in page exactly when a response came with the status 401 and
  -- one of the two messages of a lost session; it is never sent anywhere else.
  pub navigated_iff :
      (r : Settled (Response T)) (p : String)
      → ((respond r).navigated ≡ some p) ↔ (
          (res : Response T) × (body : Reply T) × (r ≡ fulfilled res)
          × (res.json ≡ fulfilled body)
          × (res.status ≡ 401)
          × ((body.error ≡ "invalid session") ⊎ (body.error ≡ "missing credentials"))
          × (p ≡ "/sign-in"))
  unfolding respond
  navigated_iff (rejected e) p = (λ h. cc, λ h. cc (h.2))
  navigated_iff (fulfilled res) p = elim (Settled-cases res.json) [
    | inl (body, q) ↦ (
      λ h. (
        res,
        body,
        refl,
        q,
        ground (arith, eq_iff body.error "invalid session"),
        ground
            (arith, eq_iff body.error "invalid session", eq_iff body.error "missing credentials"),
        ground arith,
      ),
      λ h.
          ground
            (arith, eq_iff body.error "invalid session", eq_iff body.error "missing credentials"),
    )
    | inr (e, q) ↦ (λ h. ground arith, λ h. ground arith)
  ]
