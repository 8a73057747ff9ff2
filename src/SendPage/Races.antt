-- ===== src/SendPage/Races.antt =====
-- `Reset` stays enabled while a verification is running.
use lifygo.Prelude.{
  ◌≡◌, refl, Bool, true, false, ◌||◌, none, some, [], ◌∷◌, ◌++◌, String, ◌===◌, In, arith, is_some,
  truthy, trim, js_length,
}
use text.Mathlib.TextEquality.{eq_iff}
use lifygo.Html.{gestures}
use lifygo.Http.{str, fulfilled}
use lifygo.Features.{SendOtpResponse, VerifyOtpResponse}
use lifygo.Locale.{Locale}
use lifygo.Page.{System, Reach, here, next, press, settle}
use lifygo.SendPage.{
  State, Call, set_otp_to, set_otp_code, send_otp, verify_otp, reset, Pending, otp_call,
  verify_call, otp_was_sent, otp_verified, start, finish, otp_body, verify_body,
}
use lifygo.SendPage.View.{view}
use lifygo.SendPage.View.Offers.{caused, email_offers, otp_offers}
use lifygo.SendPage.Requests.{send_page, is_send_otp_call, is_verify_call}

abbrev is_reset_call : Call → Bool
is_reset_call reset = true
is_reset_call _ = false

abbrev is_set_otp_to : String → Call → Bool
is_set_otp_to v (set_otp_to x) = x === v
is_set_otp_to v _ = false

abbrev is_set_otp_code : String → Call → Bool
is_set_otp_code v (set_otp_code x) = x === v
is_set_otp_code v _ = false

set_otp_to_of : (v : String) (e : Call) → is_set_otp_to v e ≡ true → e ≡ set_otp_to v
set_otp_to_of v (set_otp_to x) h = ground (arith, eq_iff x v)
set_otp_to_of v _ h = cc

set_otp_code_of : (v : String) (e : Call) → is_set_otp_code v e ≡ true → e ≡ set_otp_code v
set_otp_code_of v (set_otp_code x) h = ground (arith, eq_iff x v)
set_otp_code_of v _ h = cc

send_otp_of : (e : Call) → is_send_otp_call e ≡ true → e ≡ send_otp
send_otp_of send_otp h = refl
send_otp_of _ h = cc

verify_of : (e : Call) → is_verify_call e ≡ true → e ≡ verify_otp
verify_of verify_otp h = refl
verify_of _ h = cc

reset_of : (e : Call) → is_reset_call e ≡ true → e ≡ reset
reset_of reset h = refl
reset_of _ h = cc

module _ (env : Locale) (s : State) where
  -- A call that is recognised by a test is made from the view when the test is among the offers.
  pub call_of :
      (p : Call → Bool) (v : String) (c : Call)
      → ((e : Call) → p e ≡ true → e ≡ c)
      → (email_offers p v env s || otp_offers p v env s) ≡ true
      → In c (gestures v (view env s))
  call_of p v c only h = let (e, i, t) = caused p v env s h in rw (only e t) at i

module _ (env : Locale) {t : System State Pending} (r : Reach (send_page env) t) where
  pub Reach-set_otp_to :
      (v : String)
      → is_some t.page.otp_sent ≡ false
      → t.page.otp_loading ≡ false
      → Reach
          (send_page env)
          (record { page = record (t.page) { otp_to = v }; in_flight = t.in_flight ++ [] })
  unfolding send_page start
  Reach-set_otp_to v a b = next r (
      press t v (set_otp_to v) (
        call_of env t.page (is_set_otp_to v) v (set_otp_to v) (set_otp_to_of v)
          (ground (arith, eq_iff v v))))

  pub Reach-send_otp :
      is_some t.page.otp_sent ≡ false
      → t.page.otp_loading ≡ false
      → truthy (trim t.page.otp_to) ≡ true
      → Reach (send_page env) (record {
        page = record (t.page) {
          otp_error = "";
          otp_sent = none;
          otp_result = none;
          otp_loading = true;
        };
        in_flight = t.in_flight ++ otp_call (otp_body t.page) ∷ [];
      })
  unfolding send_page start
  Reach-send_otp a b c = next r (
      press t "" send_otp
        (call_of env t.page is_send_otp_call "" send_otp send_otp_of (ground arith)))

  Reach-set_otp_code :
      (v : String)
      → is_some t.page.otp_sent ≡ true
      → t.page.verify_loading ≡ false
      → is_some t.page.otp_result ≡ false
      → Reach
          (send_page env)
          (record { page = record (t.page) { otp_code = v }; in_flight = t.in_flight ++ [] })
  unfolding send_page start
  Reach-set_otp_code v a b c = next r (
      press t v (set_otp_code v) (
        call_of env t.page (is_set_otp_code v) v (set_otp_code v) (set_otp_code_of v)
          (ground (arith, eq_iff v v))))

  Reach-verify :
      is_some t.page.otp_sent ≡ true
      → t.page.verify_loading ≡ false
      → is_some t.page.otp_result ≡ false
      → js_length t.page.otp_code ≡ 6
      → Reach (send_page env) (record {
        page = record (t.page) { otp_error = ""; otp_result = none; verify_loading = true };
        in_flight = t.in_flight ++ verify_call (verify_body t.page) ∷ [];
      })
  unfolding send_page start
  Reach-verify a b c d = next r (
      press t "" verify_otp
        (call_of env t.page is_verify_call "" verify_otp verify_of (ground arith)))

  Reach-reset :
      is_some t.page.otp_sent ≡ true
      → Reach (send_page env) (record {
        page = record (t.page) {
          otp_sent = none;
          otp_code = "";
          otp_result = none;
          otp_error = "";
        };
        in_flight = t.in_flight ++ [];
      })
  unfolding send_page start
  Reach-reset a =
      next r (press t "" reset (call_of env t.page is_reset_call "" reset reset_of (ground arith)))

-- A verification that is running when the user presses `Reset` and asks for a code for another
-- address is reported as the verification of that address: for any two addresses and any code of
-- six characters, the page can reach a state that shows the second address, a code sent to it and a
-- verified result, where the only verification ever asked for was that of the first address.
pub verified_for_another :
    (env : Locale) (v w code : String) (a b : SendOtpResponse) (r : VerifyOtpResponse)
    → truthy (trim v) ≡ true
    → truthy (trim w) ≡ true
    → js_length code ≡ 6
    → (t : System State Pending) × Reach (send_page env) t
      × (t.page.otp_to ≡ w)
      × (t.page.otp_sent ≡ some b)
      × (t.in_flight ≡ verify_call (("email", str v) ∷ ("code", str code) ∷ []) ∷ [])
      × ((finish
            (otp_verified (("email", str v) ∷ ("code", str code) ∷ []) (fulfilled r))
            t.page).otp_result
          ≡ some r)
unfolding send_page finish
verified_for_another env v w code a b r hv hw hc =
    let asked = ("email", str v) ∷ ("code", str code) ∷ [] in
    let r1 = Reach-set_otp_to env here v refl refl in
    let r2 = Reach-send_otp env r1 refl refl hv in
    let r3 = next r2 (settle _ (otp_was_sent (("to", str v) ∷ []) (fulfilled a)) [] [] refl) in
    let r4 = Reach-set_otp_code env r3 code refl refl refl in
    let r5 = Reach-verify env r4 refl refl refl hc in
    let r6 = Reach-reset env r5 refl in
    let r7 = Reach-set_otp_to env r6 w refl refl in
    let r8 = Reach-send_otp env r7 refl refl hw in
    let r9 = next r8 (
      settle _ (otp_was_sent (("to", str w) ∷ []) (fulfilled b)) (verify_call asked ∷ []) []
        refl) in
    (_, r9, refl, refl, refl, refl)
