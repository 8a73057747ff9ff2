-- ===== src/Session/SignOut.antt =====
-- What a sign-out leaves behind, and what the middleware makes of it.
use lifygo.Prelude.{◌≡◌, refl, Bool, true, Option, none, some, String, truthy}
use lifygo.Http.{fulfilled, Response}
use lifygo.Proxy.{NextRequest, redirect, local_middleware}
use lifygo.Proxy.Laws.{
  is_shown, shown_with_cookie, redirected_without_cookie, has_cookie, has_no_cookie,
}
use lifygo.Session.{Cookie, State, finish, signed_out}

-- The value that the middleware reads of a cookie.
abbrev pub value_of : Option Cookie → Option String
value_of none = none
value_of (some c) = some c.value

-- The request of a page that the browser makes, with its cookie.
abbrev pub request_for : State → Option String → String → NextRequest
request_for s host pathname = record { host = host; token = value_of s.cookie; pathname = pathname }

-- A sign-out that is answered, with any status, ends the session on the page and sends the browser to
-- the sign-in page. The next request of a protected page, to whatever host, is then redirected there if
-- the answer has removed the cookie; if it has not, and the cookie is `HttpOnly`, a page of the
-- dashboard is shown, if need be behind one redirect, as the script cannot remove the cookie.
pub sign_out_answered :
    (protected : String → Bool) (s : State) (c : Cookie) (res : Response (Unit {0}))
    (host : Option String) (path : String)
    → s.cookie ≡ some c
    → c.http_only ≡ true
    → truthy c.value ≡ true
    → protected path ≡ true
    → protected "/dashboard" ≡ true
    → let t = λ (header : Option (Option Cookie)). finish (signed_out (fulfilled res) header) s in
      ((t none).user ≡ none)
      × ((t none).location ≡ "/sign-in")
      × (is_shown protected (request_for (t none) host path) ≡ true)
      × (local_middleware protected (request_for (t (some none)) host path) ≡ redirect "/sign-in")
unfolding finish
sign_out_answered protected s c res host path e h v p root =
    let left : NextRequest = record { host = host; token = some c.value; pathname = path } in
    (
      refl,
      refl,
      rw (e, h) (shown_with_cookie protected left (has_cookie left c.value refl v) p root),
      redirected_without_cookie protected (record { host = host; token = none; pathname = path })
          (has_no_cookie (record { host = host; token = none; pathname = path }) refl) p,
    )
