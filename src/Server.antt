-- ===== src/Server.antt =====
-- apps/api, the server behind the pages: errors and answers as its Go packages build them.
pub mod Logs
pub mod Jobs
pub mod Keys
pub mod Access
pub mod Otp
pub mod Scheduler
mod Examples
use lifygo.Prelude.{ℕ, Option, none, some, String, ◌≡◌, refl, ◌⊎◌, inl, inr, ◌+s◌}

-- The variables of internal/model/errors.go that the modelled services use. They are pointers, and `==` tells
-- them from each other and from every error that wraps one.
pub data Sentinel : Type 0 where
  not_found unauthorized job_limit_reached : Sentinel
  name_required type_invalid schedule_type_invalid cron_expression_required run_at_required :
      Sentinel
  webhook_url_required email_to_required email_subject_required email_body_required : Sentinel
  to_required email_required otp_not_found otp_invalid : Sentinel
  already_exists api_key_name_required api_key_limit_reached : Sentinel

pub data GoError : Type 0 where
  sentinel : Sentinel → GoError
  -- `fmt.Errorf` of a text, or an error of another package
  made : String → GoError
  -- `fmt.Errorf("…: %w", err)`
  wrapped : String → GoError → GoError

abbrev pub sentinel_text : Sentinel → String
sentinel_text not_found = "record not found"
sentinel_text unauthorized = "unauthorized"
sentinel_text job_limit_reached = "job limit reached — upgrade to add more jobs"
sentinel_text name_required = "job name is required"
sentinel_text type_invalid = "job type must be webhook or email"
sentinel_text schedule_type_invalid = "schedule type must be cron or one_time"
sentinel_text cron_expression_required = "cron expression is required for cron jobs"
sentinel_text run_at_required = "run_at is required for one-time jobs"
sentinel_text webhook_url_required = "webhook url is required for webhook jobs"
sentinel_text email_to_required = "email to is required for email jobs"
sentinel_text email_subject_required = "email subject is required for email jobs"
sentinel_text email_body_required = "email body is required for email jobs"
sentinel_text to_required = "to address is required"
sentinel_text email_required = "email is required"
sentinel_text otp_not_found = "otp not found or already used"
sentinel_text otp_invalid = "otp code is invalid"
sentinel_text already_exists = "record already exists"
sentinel_text api_key_name_required = "api key name is required"
sentinel_text api_key_limit_reached = "api key limit reached"

-- The text that `%v` prints of an error.
unfoldable pub error_text : GoError → String
error_text (sentinel name) = sentinel_text name
error_text (made text) = text
error_text (wrapped text e) = text +s (": " +s error_text e)

-- What a function returns: a value, or an error.
pub data Result {ℓ} (A : Type ℓ) : Type ℓ where
  ok : A → Result A
  err : GoError → Result A

-- What follows a step that did not fail.
abbrev pub ◌>>=◌ : {A B : Type 0} → Result A → (A → Result B) → Result B
r >>= next = elim r [ err e ↦ err e | ok value ↦ next value ]

infixl 5 ◌>>=◌ ◌>>◌
abbrev pub ◌>>◌ : {B : Type 0} → Result (Unit {0}) → Result B → Result B
err e >> next = err e
ok done >> next = next

-- `if err := …; err != nil { return nil, err }`.
abbrev pub refuse : Option GoError → Result (Unit {0})
refuse none = ok tt
refuse (some e) = err e

pub Result-cases :
    {A : Type 0} (r : Result A) → ((a : A) × (r ≡ ok a)) ⊎ ((e : GoError) × (r ≡ err e))
Result-cases (ok a) = inl (a, refl)
Result-cases (err e) = inr (e, refl)

-- What a handler writes: `respond` with a status and a value, or `respondError`.
pub data Answer (A : Type 0) : Type 0 where
  respond : ℕ → A → Answer A
  respond_error : ℕ → String → Answer A

abbrev pub status_of : {A : Type 0} → Answer A → ℕ
status_of (respond n a) = n
status_of (respond_error n m) = n
