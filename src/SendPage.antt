-- ===== src/SendPage.antt =====
-- app/dashboard/send/page.tsx: the state of `SendPage`, and its handlers cut at each `await`.
pub mod View
pub mod Requests
pub mod Outcomes
pub mod Races
mod Examples
use lifygo.Prelude.{Bool, true, false, Option, none, some, List, [], ◌∷◌, String}
use lifygo.Http.{Body, str, bool, Settled, fulfilled, rejected, message}
use lifygo.Features.{SendEmailResponse, SendOtpResponse, VerifyOtpResponse}

pub record EmailForm : Type 0 where
  pub to : String
  pub subject : String
  pub body : String

pub record State : Type 0 where
  pub email_form : EmailForm
  pub email_result : Option SendEmailResponse
  pub email_loading : Bool
  pub email_error : String
  pub otp_to : String
  pub otp_code : String
  pub otp_sent : Option SendOtpResponse
  pub otp_result : Option VerifyOtpResponse
  pub otp_loading : Bool
  pub verify_loading : Bool
  pub otp_error : String

abbrev pub initial : State
initial = record {
  email_form = record { to = ""; subject = ""; body = "" };
  email_result = none;
  email_loading = false;
  email_error = "";
  otp_to = "";
  otp_code = "";
  otp_sent = none;
  otp_result = none;
  otp_loading = false;
  verify_loading = false;
  otp_error = "";
}

-- What a control's handler calls: the setters of the inputs, the three requests, and `Reset`.
pub data Call : Type 0 where
  set_to set_subject set_body set_otp_to set_otp_code : String → Call
  send_email send_otp verify_otp reset : Call

-- The calls of the API that are waited for, with their bodies.
pub data Pending : Type 0 where
  email_call otp_call verify_call : Body → Pending

pub data Completion : Type 0 where
  email_sent : Body → Settled SendEmailResponse → Completion
  otp_was_sent : Body → Settled SendOtpResponse → Completion
  otp_verified : Body → Settled VerifyOtpResponse → Completion

abbrev pub pending_of : Completion → Pending
pending_of (email_sent b r) = email_call b
pending_of (otp_was_sent b r) = otp_call b
pending_of (otp_verified b r) = verify_call b

abbrev pub email_body : State → Body
email_body s =
    ("to", str s.email_form.to)
    ∷ ("subject", str s.email_form.subject)
    ∷ ("body", str s.email_form.body)
    ∷ ("is_html", bool false)
    ∷ []

abbrev pub otp_body : State → Body
otp_body s = ("to", str s.otp_to) ∷ []

abbrev pub verify_body : State → Body
verify_body s = ("email", str s.otp_to) ∷ ("code", str s.otp_code) ∷ []

handle_send_email : State → State × List Pending
handle_send_email s = (
  record s { email_error = ""; email_result = none; email_loading = true },
  email_call (email_body s) ∷ [],
)

handle_send_otp : State → State × List Pending
handle_send_otp s = (
  record s { otp_error = ""; otp_sent = none; otp_result = none; otp_loading = true },
  otp_call (otp_body s) ∷ [],
)

handle_verify_otp : State → State × List Pending
handle_verify_otp s = (
  record s { otp_error = ""; otp_result = none; verify_loading = true },
  verify_call (verify_body s) ∷ [],
)

-- The inline handler of the `Reset` button.
handle_reset : State → State
handle_reset s = record s { otp_sent = none; otp_code = ""; otp_result = none; otp_error = "" }

set_email_form : EmailForm → State → State
set_email_form f s = record s { email_form = f }

-- A handler up to its first `await`.
unfoldable pub start : Call → State → State × List Pending
unfolding handle_send_email handle_send_otp handle_verify_otp handle_reset set_email_form
start (set_to v) s = (set_email_form (record (s.email_form) { to = v }) s, [])
start (set_subject v) s = (set_email_form (record (s.email_form) { subject = v }) s, [])
start (set_body v) s = (set_email_form (record (s.email_form) { body = v }) s, [])
start (set_otp_to v) s = (record s { otp_to = v }, [])
start (set_otp_code v) s = (record s { otp_code = v }, [])
start send_email s = handle_send_email s
start send_otp s = handle_send_otp s
start verify_otp s = handle_verify_otp s
start reset s = (handle_reset s, [])

email_settled : Settled SendEmailResponse → State → State
email_settled (fulfilled r) s = record s { email_result = some r; email_loading = false }
email_settled (rejected e) s = record s {
  email_error = message e "Failed to execute delivery";
  email_loading = false;
}

otp_settled : Settled SendOtpResponse → State → State
otp_settled (fulfilled r) s = record s { otp_sent = some r; otp_loading = false }
otp_settled (rejected e) s = record s {
  otp_error = message e "Failed to dispatch auth token";
  otp_loading = false;
}

verify_settled : Settled VerifyOtpResponse → State → State
verify_settled (fulfilled r) s = record s { otp_result = some r; verify_loading = false }
verify_settled (rejected e) s = record s {
  otp_error = message e "Verification rejected";
  verify_loading = false;
}

-- A handler from its `await` on.
unfoldable pub finish : Completion → State → State
unfolding email_settled otp_settled verify_settled
finish (email_sent b r) s = email_settled r s
finish (otp_was_sent b r) s = otp_settled r s
finish (otp_verified b r) s = verify_settled r s
