-- ===== src/Server/Otp/Limit.antt =====
-- The daily limit of codes for users without a server of their own.
use lifygo.Prelude.{
  ℕ, ◌+◌, ◌≤◌, ◌≡◌, ◌≢◌, refl, true, false, none, some, String, ◌===◌, ltb, arith, Bool-cases, inl,
  inr, ap, sym, ◌∙◌,
}
use text.Mathlib.TextEquality.{eq_iff}
use lifygo.Http.{get_key}
use lifygo.Http.Laws.{get_key-set_key}
use lifygo.Server.{GoError, made, Result, ok, err}
use lifygo.Server.Otp.{
  Code, State, World, otp_redis_key, otp_count_key, otp_ttl, send_otp, issue, metered, verify_otp,
  verify_refusal, live_code, checked, stored, counted, send_refusal, is_metered, count_at,
}
use lifygo.Server.Otp.Codes.{verify_well_formed}

abbrev pub limit_error : GoError
limit_error = made "free tier limit reached: 50 OTPs per day. Self-host for unlimited sending."

module _ (w : World) (s : State) (user to code : String) (accepted : send_refusal w user to ≡ none)
    (generated : w.generated ≡ ok code) (sets : w.set_failure ≡ none)
    (free : is_metered w user ≡ true) (increments : w.increment_failure ≡ none)
    (expires : w.expire_failure ≡ none)
    (spent : 49 ≤ count_at (otp_count_key user w.day) s.counts) where
  refused : send_otp w s user to ≡ (err limit_error, counted w (stored w s user to code) user)
  unfolding send_otp
  refused =
      let over : ltb (count_at (otp_count_key user w.day) s.counts + 1) 50 ≡ false = ground arith in
      rw (send_otp, accepted, issue, generated, sets, free, metered, increments, expires, over) refl

  stored_code :
      get_key (otp_redis_key user to) (stored w s user to code).codes
      ≡ some (record { value = code; expires = w.now + 600 })
  stored_code =
      let key = otp_redis_key user to in
      let cell : Code = record { value = code; expires = w.now + otp_ttl } in
      rw (get_key-set_key key key cell s.codes, (eq_iff key key).1 refl) refl

  -- A code given in the check is not the one that is found under the key.
  replaced :
      (now : ℕ) (old : String)
      → (code === old) ≡ false
      → checked (live_code now (otp_redis_key user to) (stored w s user to code).codes) to old
        ≢ ok to
  unfolding live_code
  replaced now old differs =
      let key = otp_redis_key user to in
      let cell : Code = record { value = code; expires = w.now + otp_ttl } in
      rw (live_code, get_key-set_key key key cell s.codes, (eq_iff key key).1 refl)
        (elim (Bool-cases (ltb now (w.now + otp_ttl))) [
          | inl early ↦ rw early (ground (arith, differs))
          | inr late ↦ rw late (ground arith)
        ])

  -- When a user without a server has asked for 49 codes on a day, the next one is refused, with a text
  -- that speaks of 50, and not mailed, but its code is stored for ten minutes: one that was mailed to
  -- the same address before is no longer verified.
  pub limit_replaces_code :
      (v : World) (old : String)
      → verify_refusal user to old ≡ none
      → v.get_failure ≡ none
      → (code === old) ≡ false
      → ((send_otp w s user to).0 ≡ err limit_error)
        × ((send_otp w s user to).1.mails ≡ s.mails)
        × (get_key (otp_redis_key user to) (send_otp w s user to).1.codes
            ≡ some (record { value = code; expires = w.now + 600 }))
        × ((verify_otp v (send_otp w s user to).1 user to old).0 ≢ ok to)
  unfolding send_otp
  limit_replaces_code v old a get differs = (
    ap (λ q. q.0) refused,
    ap (λ q. q.1.mails) refused,
    ap (λ q. get_key (otp_redis_key user to) q.1.codes) refused ∙ stored_code,
    λ same. replaced v.now old differs (
        sym (
          ap (λ (r : Result String × State). r.0)
            (ap (λ q. verify_otp v q.1 user to old) refused
              ∙ verify_well_formed v (counted w (stored w s user to code) user) user to old a get))
        ∙ same),
  )
