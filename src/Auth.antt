-- ===== src/Auth.antt =====
-- The local provider of accounts: app/sign-in and app/sign-up, and what their two forms share.
pub mod SignIn
pub mod SignUp
pub mod Laws
mod Examples
use lifygo.Prelude.{Bool, some, [], ◌∷◌, String, or_else, ◌+s◌, if◌then◌else◌, truthy}
use lifygo.Html.{Html, text, el, ◌<+>◌, when, div, icon, span, attr, choose}
use lifygo.Http.{Body, Settled, fulfilled, rejected, error, message, Response, Sent, is_ok}

-- The variables that the build puts in; "" where one is not set.
pub record Env : Type 0 where
  pub api_url : String
  pub sign_in_redirect : String
  pub sign_up_redirect : String
  pub is_production : Bool

abbrev api_url : Env → String
api_url env = or_else env.api_url "http://localhost:8080"

-- `DASHBOARD_URL`, with the variable of the page.
abbrev pub dashboard_url : Env → String → String
dashboard_url env redirect =
    or_else redirect (if env.is_production then "https://dashboard.lifygo.com" else "/dashboard")

-- The request of a form.
unfoldable pub form_request : Env → String → Body → Sent
form_request env path body = record {
  url = api_url env +s path;
  method = some "POST";
  body = some body;
  headers = ("Content-Type", "application/json") ∷ [];
  credentials = "include";
}

-- The body of the `try` behind `await fetch(…)`: it ends, or throws. An answer that is fine is not
-- parsed.
unfoldable pub check : String → Settled (Response (Unit {0})) → Settled (Unit {0})
check fallback (rejected e) = rejected e
check fallback (fulfilled res) = if is_ok res.status then fulfilled tt else elim res.json [
  | rejected e ↦ rejected e
  | fulfilled data' ↦ rejected (error (or_else data'.error fallback))
]

abbrev pub error_box : {E : Type 0} → String → Html E
error_box message = when (truthy message) (div (text message))

-- The texts in the button, while the form waits and else.
abbrev pub button_text : {E : Type 0} → Bool → String → String → Html E
button_text loading busy idle =
    choose loading (icon "Loader2" <+> span (text busy)) (span (text idle) <+> icon "ArrowRight")

abbrev pub logo : {E : Type 0} → Html E
logo = el "Link" (attr "href" "https://lifygo.com" ∷ []) (icon "Image")
