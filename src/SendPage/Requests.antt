-- ===== src/SendPage/Requests.antt =====
-- The playground as a system of gestures and settling calls.
use lifygo.Prelude.{◌+◌, ◌≡◌, refl, Bool, true, false, [], String, count, In, arith, if◌then◌else◌}
use lifygo.Html.{gestures}
use lifygo.Locale.{Locale}
use lifygo.Page.{Page, System, Reach}
use lifygo.Page.InFlight.{bit, Tracks, Reach-Counted}
use lifygo.SendPage.{
  State, Call, send_email, send_otp, verify_otp, reset, Pending, email_call, otp_call, verify_call,
  Completion, pending_of, initial, start, finish,
}
use lifygo.SendPage.View.{view}
use lifygo.SendPage.View.Offers.{offered}

unfoldable pub send_page : Locale → Page State Call Pending Completion
send_page env = record {
  initial = initial;
  mount = [];
  view = view env;
  start = start;
  finish = λ d s. (finish d s, []);
  pending_of = pending_of;
}

abbrev pub is_email : Pending → Bool
is_email (email_call b) = true
is_email _ = false

abbrev pub is_otp : Pending → Bool
is_otp (otp_call b) = true
is_otp _ = false

abbrev pub is_verify : Pending → Bool
is_verify (verify_call b) = true
is_verify _ = false

abbrev pub is_send_email_call : Call → Bool
is_send_email_call send_email = true
is_send_email_call _ = false

abbrev pub is_send_otp_call : Call → Bool
is_send_otp_call send_otp = true
is_send_otp_call _ = false

abbrev pub is_verify_call : Call → Bool
is_verify_call verify_otp = true
is_verify_call _ = false

module _ (env : Locale) (s : State) (v : String) where
  start-email :
      (e : Call)
      → In e (gestures v (view env s))
      → bit s.email_loading + count is_email (start e s).1 ≡ bit (start e s).0.email_loading
  unfolding start
  start-email send_email i = ground (arith, offered is_send_email_call v env s send_email i refl)
  start-email reset i = ground arith
  start-email _ i = ground arith

  start-otp :
      (e : Call)
      → In e (gestures v (view env s))
      → bit s.otp_loading + count is_otp (start e s).1 ≡ bit (start e s).0.otp_loading
  unfolding start
  start-otp send_otp i = ground (arith, offered is_send_otp_call v env s send_otp i refl)
  start-otp _ i = ground arith

  start-verify :
      (e : Call)
      → In e (gestures v (view env s))
      → bit s.verify_loading + count is_verify (start e s).1 ≡ bit (start e s).0.verify_loading
  unfolding start
  start-verify verify_otp i = ground (arith, offered is_verify_call v env s verify_otp i refl)
  start-verify _ i = ground arith

module _ (env : Locale) where
  email-Tracks : Tracks (send_page env) (λ s. s.email_loading) is_email
  unfolding send_page
  email-Tracks = record {
    at_start = refl;
    on_press = start-email env;
    on_settle = λ s d h. unfold finish in ground (arith, h);
  }

  otp-Tracks : Tracks (send_page env) (λ s. s.otp_loading) is_otp
  unfolding send_page
  otp-Tracks = record {
    at_start = refl;
    on_press = start-otp env;
    on_settle = λ s d h. unfold finish in ground (arith, h);
  }

  verify-Tracks : Tracks (send_page env) (λ s. s.verify_loading) is_verify
  unfolding send_page
  verify-Tracks = record {
    at_start = refl;
    on_press = start-verify env;
    on_settle = λ s d h. unfold finish in ground (arith, h);
  }

  -- In every reachable state of the playground each of the three requests is in flight exactly
  -- once if its flag is set and not at all if it is not.
  pub requests_in_flight :
      {t : System State Pending}
      → Reach (send_page env) t
      → (count is_email t.in_flight ≡ (if t.page.email_loading then 1 else 0))
        × (count is_otp t.in_flight ≡ (if t.page.otp_loading then 1 else 0))
        × (count is_verify t.in_flight ≡ (if t.page.verify_loading then 1 else 0))
  requests_in_flight r =
      (Reach-Counted email-Tracks r, Reach-Counted otp-Tracks r, Reach-Counted verify-Tracks r)
