-- ===== src/Server/Otp/Examples.antt =====
-- Codes for Ada, who has no server of her own.
use lifygo.Prelude.{
  ℕ, ◌≡◌, ◌≢◌, ◌≤◌, refl, true, false, none, some, List, [], ◌∷◌, String, map, arith,
}
use lifygo.Server.{otp_not_found, sentinel, ok, err}
use lifygo.Server.Otp.{
  State, World, send_otp, verify_otp, verify_refusal, send_refusal, checked, live_code, count_at,
}
use lifygo.Server.Otp.Codes.{verify_otp-send_otp}
use lifygo.Http.{get_key}
use lifygo.Server.Otp.Guess.{IsQuiet, AllQuiet, one_guess}
use lifygo.Server.Otp.Race.{Command, Interleaved, pipeline, replies, verify_race}
use lifygo.Server.Otp.Limit.{limit_error, limit_replaces_code}
use lifygo.Server.Otp.Daily.{
  Event, sends, verifies, run, mails_under, all_free, is_free, daily_mails,
}

abbrev nothing : State
nothing = record { codes = []; counts = []; mails = [] }

-- Everything works, through the default server.
abbrev works : ℕ → String → World
works now code = record {
  now = now;
  day = "2025-05-01";
  generated = ok code;
  is_valid_email = λ a. true;
  set_failure = none;
  get_failure = none;
  between = λ m. m;
  increment_failure = none;
  expire_failure = none;
  has_smtp_config = some (λ u. false);
  counts_usage = true;
  mailer = ok tt;
  default_mailer = ok tt;
  own_send = ok tt;
  default_send = ok tt;
  log_failure = none;
}

sent_and_verified :
    (verify_otp
      (works 500 "")
      (send_otp (works 0 "123456") nothing "u1" "ada@example.com").1
      "u1"
      "ada@example.com"
      "123456").0
    ≡ ok "ada@example.com"
unfolding send_otp verify_otp
sent_and_verified = refl

-- A wrong guess, and meanwhile a code for somebody else, and a third check.
abbrev meanwhile : List Event
meanwhile =
    sends (works 2 "777777") "u1" "bob@example.com"
    ∷ verifies (works 3 "") "u1" "bob@example.com" "777777"
    ∷ []

one_guess_example :
    (verify_otp
      (works 4 "")
      (run
        (verify_otp
          (works 1 "")
          (send_otp (works 0 "123456") nothing "u1" "ada@example.com").1
          "u1"
          "ada@example.com"
          "123450").1
        meanwhile)
      "u1"
      "ada@example.com"
      "123456").0
    ≡ err (sentinel otp_not_found)
unfolding verify_refusal AllQuiet IsQuiet
one_guess_example =
    one_guess (works 1 "") (works 4 "")
      (send_otp (works 0 "123456") nothing "u1" "ada@example.com").1 meanwhile "u1"
      "ada@example.com" "123450" "123456" refl refl refl refl (refl, (λ m h. h, tt))

verify_otp-send_otp_example :
    (verify_otp
      (works 500 "")
      (send_otp (works 0 "123456") nothing "u1" "ada@example.com").1
      "u1"
      "ada@example.com"
      "123456").0
    ≡ ok "ada@example.com"
unfolding verify_refusal send_refusal
verify_otp-send_otp_example =
    verify_otp-send_otp (works 0 "123456") (works 500 "") nothing "u1" "ada@example.com" "123456"
      refl refl refl refl refl (omega arith)

-- Ada has been mailed 654321 as the last code that the limit allows.
abbrev spent : State
spent = record {
  codes = ("otp:u1:ada@example.com", record { value = "654321"; expires = 700 }) ∷ [];
  counts = ("usage:otp:u1:2025-05-01", 49) ∷ [];
  mails = [];
}

limit_replaces_code_example :
    ((send_otp (works 200 "123456") spent "u1" "ada@example.com").0 ≡ err limit_error)
    × ((send_otp (works 200 "123456") spent "u1" "ada@example.com").1.mails ≡ [])
    × (get_key "otp:u1:ada@example.com"
          (send_otp (works 200 "123456") spent "u1" "ada@example.com").1.codes
        ≡ some (record { value = "123456"; expires = 800 }))
    × ((verify_otp
          (works 201 "")
          (send_otp (works 200 "123456") spent "u1" "ada@example.com").1
          "u1"
          "ada@example.com"
          "654321").0
        ≢ ok "ada@example.com")
unfolding verify_refusal send_refusal count_at
limit_replaces_code_example =
    limit_replaces_code (works 200 "123456") spent "u1" "ada@example.com" "123456" refl refl refl
      refl refl refl (omega arith) (works 201 "") "654321" refl refl refl

abbrev morning : List Event
morning =
    sends (works 0 "123456") "u1" "ada@example.com"
    ∷ verifies (works 9 "") "u1" "ada@example.com" "123456"
    ∷ sends (works 20 "111111") "u1" "bob@example.com"
    ∷ []

daily_mails_example : mails_under "usage:otp:u1:2025-05-01" (run nothing morning).mails ≤ 49
unfolding all_free is_free
daily_mails_example = daily_mails "usage:otp:u1:2025-05-01" nothing morning refl refl

verify_race_example :
    (cs : List Command) × Interleaved
      (pipeline "otp:u1:ada@example.com")
      (pipeline "otp:u1:ada@example.com")
      cs
    × (map (λ found. checked found "ada@example.com" "654321") (replies 201 spent.codes cs)
        ≡ ok "ada@example.com" ∷ ok "ada@example.com" ∷ [])
unfolding verify_refusal live_code
verify_race_example = verify_race 201 spent.codes "u1" "ada@example.com" "654321" refl refl
