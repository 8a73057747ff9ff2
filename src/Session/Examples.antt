-- ===== src/Session/Examples.antt =====
-- The theorem about the session at a concrete input.
use lifygo.Prelude.{◌≡◌, refl, Option, none, some, String, has_prefix, true}
use lifygo.Http.{Response, fulfilled}
use lifygo.Proxy.{local_middleware, redirect}
use lifygo.Proxy.Laws.{is_shown}
use lifygo.Session.{State, initial, Cookie, finish, signed_out}
use lifygo.Session.SignOut.{request_for, sign_out_answered}

abbrev token : Cookie
token = record { value = "jwt"; http_only = true }

abbrev signed_in : State
signed_in = record (initial (some token) "/dashboard") {
  user = some (record { id = "u"; name = "Ada"; email = "ada@example.com" });
  is_loaded = true;
}

abbrev unavailable : Response (Unit {0})
unavailable = record { status = 503; json = fulfilled (record { error = ""; payload = tt }) }

sign_out_answered_example :
    let t = λ (header : Option (Option Cookie)).
      finish (signed_out (fulfilled unavailable) header) signed_in in
    let host : Option String = some "dashboard.lifygo.com" in
    ((t none).user ≡ none)
    × ((t none).location ≡ "/sign-in")
    × (is_shown (has_prefix "/dashboard") (request_for (t none) host "/dashboard") ≡ true)
    × (local_middleware (has_prefix "/dashboard") (request_for (t (some none)) host "/dashboard")
        ≡ redirect "/sign-in")
sign_out_answered_example =
    sign_out_answered (has_prefix "/dashboard") signed_in token unavailable
      (some "dashboard.lifygo.com") "/dashboard" refl refl refl refl refl
