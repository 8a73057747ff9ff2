-- ===== src/Server/Otp.antt =====
-- One-time passwords: `SendOTP` and `VerifyOTP` of internal/service/email.go, with
-- internal/model/otp.go, `IncrementOTPCount` of internal/service/usage.go, and the operations of
-- internal/redis/redis.go on what Redis holds. Times are in seconds.
pub mod Codes
pub mod Limit
pub mod Daily
pub mod Race
pub mod Guess
mod Examples
use lifygo.Prelude.{
  ℕ, ◌+◌, Bool, true, false, not, Option, none, some, List, [], ◌∷◌, String, if◌then◌else◌, ◌===◌,
  ◌==◌, ltb, truthy, keep, byte_length, ◌+s◌,
}
use lifygo.Http.{get_key, set_key}
use lifygo.Server.{
  Sentinel, not_found, unauthorized, to_required, email_required, otp_not_found, otp_invalid,
  GoError, sentinel, made, wrapped, error_text, Result, ok, err, refuse,
}

-- A text that Redis forgets at its time.
pub record Code : Type 0 where
  pub value : String
  pub expires : ℕ

-- An e-mail that a server has taken, with the key of the user's count of that day.
pub record Mail : Type 0 where
  pub usage_key : String
  pub to_address : String
  pub code : String

-- The codes and the counts in Redis. A count is kept for 48 hours, longer than its day.
pub record State : Type 0 where
  pub codes : List (String × Code)
  pub counts : List (String × ℕ)
  pub mails : List Mail

-- What a call meets: the clock, the random code, the check of an address, the failures of Redis and
-- of the log, what the mailers are and answer, and what commands of other clients do to the codes
-- between the GET and the DEL of a check, which `GetAndDelete` sends in one pipeline, or, where it
-- fails, what is left of them.
pub record World : Type 0 where
  pub now : ℕ
  pub day : String
  pub generated : Result String
  pub is_valid_email : String → Bool
  pub set_failure : Option GoError
  pub get_failure : Option GoError
  pub between : List (String × Code) → List (String × Code)
  pub increment_failure : Option GoError
  pub expire_failure : Option GoError
  pub has_smtp_config : Option (String → Bool)
  pub counts_usage : Bool
  pub mailer : Result (Unit {0})
  pub default_mailer : Result (Unit {0})
  pub own_send : Result (Unit {0})
  pub default_send : Result (Unit {0})
  pub log_failure : Option GoError

abbrev pub otp_redis_key : String → String → String
otp_redis_key user email = "otp:" +s (user +s (":" +s email))

abbrev pub otp_count_key : String → String → String
otp_count_key user day = "usage:otp:" +s (user +s (":" +s day))

-- `OTPTTl`, ten minutes.
abbrev pub otp_ttl : ℕ
otp_ttl = 600

abbrev pub free_tier_otp_limit : ℕ
free_tier_otp_limit = 50

-- `errors.Is(err, model.ErrNotFound)`.
unfoldable pub is_not_found : GoError → Bool
is_not_found (sentinel not_found) = true
is_not_found (sentinel _) = false
is_not_found (made text) = false
is_not_found (wrapped text e) = is_not_found e

-- The number under a key, 0 if there is none.
unfoldable pub count_at : String → List (String × ℕ) → ℕ
unfolding get_key
count_at key counts = elim (get_key key counts) [ none ↦ 0 | some n ↦ n ]

-- What is sent of a mail through the user's server, or the default one if he has none. The outer
-- result fails where there is no mailer.
outgoing : World → Result (Result (Unit {0}))
unfolding is_not_found
outgoing w = elim w.mailer [
  | ok m ↦ ok w.own_send
  | err e ↦
      if is_not_found e
      then elim w.default_mailer [
        | err f ↦ err (wrapped "failed to get default mailer" f)
        | ok m ↦ ok w.default_send
      ]
      else err (wrapped "failed to get mailer" e)
]

-- `%v` of the error of a delivery.
outcome_text : Result (Unit {0}) → String
unfolding error_text
outcome_text (ok done) = "<nil>"
outcome_text (err e) = error_text e

logged : World → State → String → Result (Unit {0}) → Result String × State
unfolding outcome_text
logged w s to outcome = elim w.log_failure [
  | some e ↦ (err (wrapped ("send status: " +s (outcome_text outcome +s ", log error")) e), s)
  | none ↦ elim outcome [
    | err e ↦ (err (wrapped "failed to send otp email" e), s)
    | ok done ↦ (ok to, s)
  ]
]

mailed : State → Mail → Result (Unit {0}) → State
mailed s m (ok done) = record s { mails = m ∷ s.mails }
mailed s m (err e) = s

unfoldable pub deliver : World → State → String → String → String → Result String × State
unfolding outgoing logged mailed
deliver w s user to code = elim (outgoing w) [
  | err e ↦ (err e, s)
  | ok outcome ↦
      logged w
        (mailed s (record { usage_key = otp_count_key user w.day; to_address = to; code = code })
          outcome)
        to outcome
]

abbrev pub counted : World → State → String → State
counted w s user =
    let key = otp_count_key user w.day in
    record s { counts = set_key key (count_at key s.counts + 1) s.counts }

-- `IncrementOTPCount`, and the limit of users without a server of their own.
unfoldable pub metered : World → State → String → String → String → Result String × State
unfolding count_at set_key deliver
metered w s user to code = elim w.increment_failure [
  | some e ↦ (err (wrapped "failed to check usage" (wrapped "failed to increment otp count" e)), s)
  | none ↦ elim w.expire_failure [
    | some e ↦ (
      err (wrapped "failed to check usage" (wrapped "failed to set otp count expiry" e)),
      counted w s user,
    )
    | none ↦
        if ltb (count_at (otp_count_key user w.day) s.counts + 1) free_tier_otp_limit
        then deliver w (counted w s user) user to code
        else (
          err (made "free tier limit reached: 50 OTPs per day. Self-host for unlimited sending."),
          counted w s user,
        )
  ]
]

abbrev pub is_metered : World → String → Bool
is_metered w user = elim w.has_smtp_config [
  | none ↦ false
  | some has ↦ if not (has user) then w.counts_usage else false
]

-- `Validate`, then the address.
unfoldable pub send_refusal : World → String → String → Option GoError
send_refusal w user to =
    if not (truthy user)
    then some (wrapped "invalid input" (sentinel unauthorized))
    else if not (truthy to)
    then some (wrapped "invalid input" (sentinel to_required))
    else if not (w.is_valid_email to)
    then some (wrapped "invalid to address" (made "invalid email address"))
    else none

abbrev pub stored : World → State → String → String → String → State
stored w s user to code = record s {
  codes =
      set_key (otp_redis_key user to) (record { value = code; expires = w.now + otp_ttl }) s.codes;
}

-- The code is stored before the limit is looked at.
unfoldable pub issue : World → State → String → String → Result String × State
unfolding set_key metered deliver
issue w s user to = elim w.generated [
  | err e ↦ (err (wrapped "failed to generate otp" e), s)
  | ok code ↦ elim w.set_failure [
    | some e ↦ (err (wrapped "failed to store otp" e), s)
    | none ↦
        if is_metered w user
        then metered w (stored w s user to code) user to code
        else deliver w (stored w s user to code) user to code
  ]
]

unfoldable pub send_otp : World → State → String → String → Result String × State
unfolding send_refusal issue
send_otp w s user to = elim (send_refusal w user to) [
  | some e ↦ (err e, s)
  | none ↦ issue w s user to
]

-- `Validate` of the input of a verification.
unfoldable pub verify_refusal : String → String → String → Option Sentinel
verify_refusal user email code =
    if not (truthy user)
    then some unauthorized
    else if not (truthy email)
    then some email_required
    else if not (truthy code)
    then some otp_invalid
    else if not (byte_length code == 6)
    then some otp_invalid
    else none

-- GET, "" where there is nothing, or no longer.
unfoldable pub live_code : ℕ → String → List (String × Code) → String
unfolding get_key
live_code now key codes = elim (get_key key codes) [
  | none ↦ ""
  | some c ↦ if ltb now c.expires then c.value else ""
]

-- DEL.
unfoldable pub without : String → List (String × Code) → List (String × Code)
without key codes = keep (λ (entry : String × Code). not (entry.0 === key)) codes

abbrev pub checked : String → String → String → Result String
checked found email code =
    if not (truthy found)
    then err (sentinel otp_not_found)
    else if found === code
    then ok email
    else err (sentinel otp_invalid)

unfoldable pub verify_otp : World → State → String → String → String → Result String × State
unfolding verify_refusal live_code without
verify_otp w s user email code = elim (verify_refusal user email code) [
  | some e ↦ (err (wrapped "invalid input" (sentinel e)), s)
  | none ↦ elim w.get_failure [
    | some e ↦ (err (wrapped "failed to retrieve otp" e), record s { codes = w.between s.codes })
    | none ↦
        let key = otp_redis_key user email in
        (
          checked (live_code w.now key s.codes) email code,
          record s { codes = without key (w.between s.codes) },
        )
  ]
]
