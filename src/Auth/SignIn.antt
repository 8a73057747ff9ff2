-- ===== src/Auth/SignIn.antt =====
-- app/sign-in/[[...sign-in]]/page.tsx: the state of `LocalSignInForm`, its handler cut at the `await`s, and its tree. The browser
-- submits a form through its button, by a click or by Enter, and so not while that is disabled. Its
-- checks of `required` are not modelled, so that the model submits more.
use lifygo.Prelude.{Bool, true, false, Option, none, some, List, [], ◌∷◌, String}
use lifygo.Html.{
  Html, text, ◌<+>◌, el, attr, disabled, on_click, on_change, div, span, para, nothing,
}
use lifygo.Http.{Body, str, Settled, fulfilled, rejected, message, Response, Sent}
use lifygo.Auth.{Env, dashboard_url, check, form_request, error_box, button_text, logo}

-- The fields of the form, and where the browser was last sent.
pub record State : Type 0 where
  pub email : String
  pub password : String
  pub error : String
  pub loading : Bool
  pub assigned : Option String

abbrev pub initial : State
initial = record { email = ""; password = ""; error = ""; loading = false; assigned = none }

pub data Call : Type 0 where
  set_email set_password : String → Call
  submit : Call

-- The request to /auth/signin, with its body.
pub data Pending : Type 0 where
  submit_call : Body → Pending

-- What `fetch` settled to, with what reading the body settles to.
pub data Completion : Type 0 where
  submitted : Body → Settled (Response (Unit {0})) → Completion

abbrev pub pending_of : Completion → Pending
pending_of (submitted b r) = submit_call b

abbrev pub body_of : State → Body
body_of s = ("email", str s.email) ∷ ("password", str s.password) ∷ []

unfoldable pub request_of : Env → Pending → Sent
unfolding form_request
request_of env (submit_call b) = form_request env "/auth/signin" b

unfoldable pub start : Call → State → State × List Pending
start (set_email v) s = (record s { email = v }, [])
start (set_password v) s = (record s { password = v }, [])
start submit s = (record s { error = ""; loading = true }, submit_call (body_of s) ∷ [])

ended : Env → Settled (Unit {0}) → State → State
ended env (fulfilled u) s = record s {
  assigned = some (dashboard_url env env.sign_in_redirect);
  loading = false;
}
ended env (rejected e) s = record s { error = message e "Sign in failed"; loading = false }

unfoldable pub finish : Env → Completion → State → State × List Pending
unfolding ended check
finish env (submitted b r) s = (ended env (check "Sign in failed" r) s, [])

form_header : Html Call
form_header = div (
    logo
    <+> span (text "Console AUTH")
    <+> el "h1" [] (text "Sign in to LifyGo")
    <+> para (text "Enter your developer credentials"))

form_footer : Html Call
form_footer = div (
    para
      (text "Don't have an account? " <+> el "Link" (attr "href" "/sign-up" ∷ []) (text "Sign up")))

unfoldable pub view : State → Html Call
unfolding form_header form_footer
view s = div (
    form_header
    <+> el "form" [] (
        div (
          el "label" (attr "htmlFor" "email" ∷ []) (text "Email")
          <+> el "input"
              (attr "id" "email"
                ∷ attr "type" "email"
                ∷ attr "value" s.email
                ∷ on_change set_email
                ∷ attr "required" "true"
                ∷ attr "placeholder" "developer@company.com"
                ∷ [])
              nothing)
        <+> div (
            div (el "label" (attr "htmlFor" "password" ∷ []) (text "Password"))
            <+> el "input"
                (attr "id" "password"
                  ∷ attr "type" "password"
                  ∷ attr "value" s.password
                  ∷ on_change set_password
                  ∷ attr "required" "true"
                  ∷ attr "placeholder" "••••••••••••"
                  ∷ [])
                nothing)
        <+> error_box s.error
        <+> el "button" (attr "type" "submit" ∷ on_click submit ∷ disabled s.loading ∷ [])
            (button_text s.loading "Authenticating..." "Sign in"))
    <+> form_footer)
