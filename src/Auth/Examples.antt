-- ===== src/Auth/Examples.antt =====
-- The theorems about the local forms at concrete inputs.
use lifygo.Prelude.{◌≡◌, refl, true, [], ◌∷◌, count, In, inl, inr, if◌then◌else◌}
use lifygo.Html.{gestures}
use lifygo.Http.{str}
use lifygo.Page.{System, Reach, opened, here, next, press}
use lifygo.Auth.{Env}
use lifygo.Auth.SignIn
use lifygo.Auth.Laws.{sign_in_page, anything, one_sign_in}

abbrev production : Env
production = record {
  api_url = "https://api.lifygo.com";
  sign_in_redirect = "";
  sign_up_redirect = "";
  is_production = true;
}

abbrev signing_in : System SignIn.State SignIn.Pending
signing_in = record {
  page = record SignIn.initial { loading = true };
  in_flight = SignIn.submit_call (("email", str "") ∷ ("password", str "") ∷ []) ∷ [];
}

session_button : In SignIn.submit (gestures "" (SignIn.view SignIn.initial))
unfolding SignIn.view gestures
session_button = inr (inr (inl refl))

signing_in_reached : Reach (sign_in_page production) signing_in
unfolding sign_in_page SignIn.start
signing_in_reached =
    let r0 : Reach (sign_in_page production) (opened (sign_in_page production)) = here in
    next r0 (press _ "" SignIn.submit session_button)

one_sign_in_example :
    count anything signing_in.in_flight ≡ (if signing_in.page.loading then 1 else 0)
one_sign_in_example = one_sign_in production signing_in_reached
