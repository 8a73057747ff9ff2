-- ===== src/Auth/Laws.antt =====
-- The forms of the local provider: the requests in flight.
use lifygo.Prelude.{
  ◌+◌, ◌≡◌, refl, Bool, true, false, not, [], String, count, In, arith, if◌then◌else◌,
}
use lifygo.Html.{gestures, offers, offers_of_In}
use lifygo.Page.{Page, System, Reach}
use lifygo.Page.InFlight.{bit, Tracks, Reach-Counted}
use lifygo.Auth.{Env}
use lifygo.Auth.SignIn
use lifygo.Auth.SignUp

unfoldable pub sign_in_page : Env → Page SignIn.State SignIn.Call SignIn.Pending SignIn.Completion
sign_in_page env = record {
  initial = SignIn.initial;
  mount = [];
  view = SignIn.view;
  start = SignIn.start;
  finish = SignIn.finish env;
  pending_of = SignIn.pending_of;
}

unfoldable pub sign_up_page : Env → Page SignUp.State SignUp.Call SignUp.Pending SignUp.Completion
sign_up_page env = record {
  initial = SignUp.initial;
  mount = [];
  view = SignUp.view;
  start = SignUp.start;
  finish = SignUp.finish env;
  pending_of = SignUp.pending_of;
}

abbrev pub anything : {Q : Type 0} → Q → Bool
anything q = true

abbrev is_sign_in : SignIn.Call → Bool
is_sign_in SignIn.submit = true
is_sign_in _ = false

abbrev is_sign_up : SignUp.Call → Bool
is_sign_up SignUp.submit = true
is_sign_up _ = false

sign_in-offers :
    (v : String) (s : SignIn.State) → offers is_sign_in v (SignIn.view s) ≡ not s.loading
unfolding SignIn.view offers
sign_in-offers v s = ground arith

sign_up-offers :
    (v : String) (s : SignUp.State) → offers is_sign_up v (SignUp.view s) ≡ not s.loading
unfolding SignUp.view offers
sign_up-offers v s = ground arith

session_starts :
    (s : SignIn.State) (v : String) (e : SignIn.Call)
    → In e (gestures v (SignIn.view s))
    → bit s.loading + count anything (SignIn.start e s).1 ≡ bit (SignIn.start e s).0.loading
unfolding SignIn.start
session_starts s v SignIn.submit i =
    ground (arith, sign_in-offers v s, offers_of_In is_sign_in v (SignIn.view s) i refl)
session_starts s v _ i = ground arith

registration_starts :
    (s : SignUp.State) (v : String) (e : SignUp.Call)
    → In e (gestures v (SignUp.view s))
    → bit s.loading + count anything (SignUp.start e s).1 ≡ bit (SignUp.start e s).0.loading
unfolding SignUp.start
registration_starts s v SignUp.submit i =
    ground (arith, sign_up-offers v s, offers_of_In is_sign_up v (SignUp.view s) i refl)
registration_starts s v _ i = ground arith

sign_in-Tracks : (env : Env) → Tracks (sign_in_page env) (λ s. s.loading) anything
unfolding sign_in_page
sign_in-Tracks env = record {
  at_start = refl;
  on_press = session_starts;
  on_settle = λ s d h. unfold SignIn.finish in ground (arith, h refl);
}

sign_up-Tracks : (env : Env) → Tracks (sign_up_page env) (λ s. s.loading) anything
unfolding sign_up_page
sign_up-Tracks env = record {
  at_start = refl;
  on_press = registration_starts;
  on_settle = λ s d h. unfold SignUp.finish in ground (arith, h refl);
}

-- In every reachable state of the sign-in form one request is in flight if the form is loading, and
-- none if it is not.
pub one_sign_in :
    (env : Env) {t : System SignIn.State SignIn.Pending}
    → Reach (sign_in_page env) t
    → count anything t.in_flight ≡ (if t.page.loading then 1 else 0)
one_sign_in env r = Reach-Counted (sign_in-Tracks env) r

-- In every reachable state of the sign-up form one request is in flight if the form is loading, and
-- none if it is not.
pub one_sign_up :
    (env : Env) {t : System SignUp.State SignUp.Pending}
    → Reach (sign_up_page env) t
    → count anything t.in_flight ≡ (if t.page.loading then 1 else 0)
one_sign_up env r = Reach-Counted (sign_up-Tracks env) r
