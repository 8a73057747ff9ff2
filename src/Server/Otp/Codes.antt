-- ===== src/Server/Otp/Codes.antt =====
-- What a code is good for: one check, within ten minutes.
use lifygo.Prelude.{
  ℕ, ◌+◌, ◌<◌, ◌≡◌, refl, none, List, [], ◌∷◌, String, arith, Bool-cases, inl, inr, ap, ◌∙◌,
}
use text.Mathlib.TextEquality.{eq_iff}
use lifygo.Http.{get_key}
use lifygo.Http.Laws.{get_key-set_key}
use lifygo.Server.{Result, ok}
use lifygo.Server.Otp.{
  Code, State, World, otp_redis_key, otp_ttl, send_otp, issue, metered, deliver, verify_otp,
  verify_refusal, live_code, without, checked, stored, counted, send_refusal, is_metered,
}

pub get_key-without : (k : String) (m : List (String × Code)) → get_key k (without k m) ≡ none
unfolding get_key without
get_key-without k [] = refl
get_key-without k ((j, v) ∷ m) = ground (arith, eq_iff j k, get_key-without k m)

pub verify_well_formed :
    (w : World) (s : State) (user email code : String)
    → verify_refusal user email code ≡ none
    → w.get_failure ≡ none
    → verify_otp w s user email code ≡ (
      checked (live_code w.now (otp_redis_key user email) s.codes) email code,
      record s { codes = without (otp_redis_key user email) (w.between s.codes) },
    )
unfolding verify_otp
verify_well_formed w s user email code a f = rw (verify_otp, a, f) refl

deliver-codes :
    (w : World) (s : State) (user to code : String) → (deliver w s user to code).1.codes ≡ s.codes
unfolding deliver
deliver-codes w s user to code = ground arith

metered-codes :
    (w : World) (s : State) (user to code : String) → (metered w s user to code).1.codes ≡ s.codes
unfolding metered
metered-codes w s user to code = ground (arith, deliver-codes w (counted w s user) user to code)

-- A code that is generated and stored stays stored, however the delivery ends.
pub issue-codes :
    (w : World) (s : State) (user to code : String)
    → w.generated ≡ ok code
    → w.set_failure ≡ none
    → (issue w s user to).1.codes ≡ (stored w s user to code).codes
unfolding issue
issue-codes w s user to code g f = elim (Bool-cases (is_metered w user)) [
  | inl m ↦ rw (issue, g, f, m) (metered-codes w (stored w s user to code) user to code)
  | inr m ↦ rw (issue, g, f, m) (deliver-codes w (stored w s user to code) user to code)
]

pub live-stored :
    (w : World) (s : State) (user to code : String) (now : ℕ)
    → now < w.now + otp_ttl
    → live_code now (otp_redis_key user to) (stored w s user to code).codes ≡ code
unfolding live_code
live-stored w s user to code now h =
    let key = otp_redis_key user to in
    let cell : Code = record { value = code; expires = w.now + otp_ttl } in
    rw (live_code, get_key-set_key key key cell s.codes, (eq_iff key key).1 refl)
      (ground (arith, h))

pub checked-same :
    (user to code : String) → verify_refusal user to code ≡ none → checked code to code ≡ ok to
unfolding verify_refusal
checked-same user to code a = ground (arith, eq_iff code code)

-- A code that was sent, however the delivery ended, and is given in the first check within ten minutes
-- is verified.
pub verify_otp-send_otp :
    (w v : World) (s : State) (user to code : String)
    → send_refusal w user to ≡ none
    → w.generated ≡ ok code
    → w.set_failure ≡ none
    → verify_refusal user to code ≡ none
    → v.get_failure ≡ none
    → v.now < w.now + 600
    → (verify_otp v (send_otp w s user to).1 user to code).0 ≡ ok to
unfolding send_otp
verify_otp-send_otp w v s user to code r g f a get h =
    rw (send_otp, r)
      (ap (λ (q : Result String × State). q.0)
          (verify_well_formed v (issue w s user to).1 user to code a get)
        ∙ ap (λ m. checked (live_code v.now (otp_redis_key user to) m) to code)
            (issue-codes w s user to code g f)
        ∙ ap (λ found. checked found to code) (live-stored w s user to code v.now h)
        ∙ checked-same user to code a)
