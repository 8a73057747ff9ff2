-- ===== src/SendPage/Examples.antt =====
-- The theorems about the playground at concrete runs.
use lifygo.Prelude.{◌≡◌, refl, true, some, [], ◌∷◌, String, count, trim, if◌then◌else◌}
use lifygo.Http.{Body, str, fulfilled}
use lifygo.Features.{SendOtpResponse, VerifyOtpResponse}
use lifygo.Locale.{Locale}
use lifygo.Page.{System, Reach, here}
use lifygo.SendPage.{State, Pending, verify_call, otp_call, otp_verified, initial, finish}
use lifygo.SendPage.Requests.{send_page, is_email, is_otp, is_verify, requests_in_flight}
use lifygo.SendPage.Races.{Reach-set_otp_to, Reach-send_otp, verified_for_another}

abbrev utc : Locale
utc = record { to_iso = λ s. fulfilled s; date = λ s. s; date_time = λ s. s; time = λ s. s }

abbrev code_asked : System State Pending
code_asked = record {
  page = record initial { otp_to = "a@b.c"; otp_loading = true };
  in_flight = otp_call (("to", str "a@b.c") ∷ []) ∷ [];
}

code_asked_reached : Reach (send_page utc) code_asked
unfolding send_page
code_asked_reached =
    Reach-send_otp utc (Reach-set_otp_to utc here "a@b.c" refl refl) refl refl (unfold trim in refl)

requests_in_flight_example :
    (count is_email code_asked.in_flight ≡ (if code_asked.page.email_loading then 1 else 0))
    × (count is_otp code_asked.in_flight ≡ (if code_asked.page.otp_loading then 1 else 0))
    × (count is_verify code_asked.in_flight ≡ (if code_asked.page.verify_loading then 1 else 0))
requests_in_flight_example = requests_in_flight utc code_asked_reached

abbrev sent_to : String → SendOtpResponse
sent_to address = record { email = address; expires_at = "2026-01-01T09:05:00Z" }

abbrev verified_answer : VerifyOtpResponse
verified_answer = record { email = "a@b.c"; verified = true; verified_at = "2026-01-01T09:01:00Z" }

abbrev asked : Body
asked = ("email", str "a@b.c") ∷ ("code", str "123456") ∷ []

verified_for_another_example :
    (t : System State Pending) × Reach (send_page utc) t
    × (t.page.otp_to ≡ "d@e.f")
    × (t.page.otp_sent ≡ some (sent_to "d@e.f"))
    × (t.in_flight ≡ verify_call asked ∷ [])
    × ((finish (otp_verified asked (fulfilled verified_answer)) t.page).otp_result
        ≡ some verified_answer)
unfolding trim
verified_for_another_example =
    verified_for_another utc "a@b.c" "d@e.f" "123456" (sent_to "a@b.c") (sent_to "d@e.f")
      verified_answer refl refl refl
