-- ===== src/Proxy/Examples.antt =====
-- The theorems about the middleware at concrete requests.
use lifygo.Prelude.{◌≡◌, refl, Bool, true, false, Option, none, some, String}
use text.Mathlib.Text.{starts_with}
use lifygo.Proxy.{NextRequest, middleware}
use lifygo.Proxy.Laws.{has_session, is_redirect, redirected, dashboard_needs_sign_in, redirects_end}

-- The documented reading of "/dashboard(.*)".
abbrev matcher : String → Bool
matcher path = starts_with path "/dashboard"

abbrev visit : Option String → String → NextRequest
visit token path = record { host = some "dashboard.lifygo.com"; token = token; pathname = path }

dashboard_needs_sign_in_example :
    has_session (some "local") false (visit (some "t") "/dashboard/jobs") ≡ true
unfolding middleware
dashboard_needs_sign_in_example =
    dashboard_needs_sign_in matcher (some "local") false (visit (some "t") "/dashboard/jobs") refl

redirects_end_example :
    let req = visit none "/" in
    is_redirect (
      middleware matcher
        (some "local")
        false
        (redirected req (middleware matcher (some "local") false req)))
    ≡ false
unfolding middleware
redirects_end_example = redirects_end matcher (some "local") false (visit none "/") refl refl
