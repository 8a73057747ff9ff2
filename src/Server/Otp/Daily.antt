-- ===== src/Server/Otp/Daily.antt =====
-- How many codes are mailed under one count, over any sequence of calls.
use lifygo.Prelude.{
  ℕ, ◌+◌, ◌<◌, ◌≤◌, ◌≡◌, refl, Bool, true, List, [], ◌∷◌, String, if◌then◌else◌, ◌===◌, arith,
  count, Bool-cases, Option-cases, inl, inr, ap, sym, ◌∙◌, ◌&&◌, ◌⊎◌, subst,
}
use text.Mathlib.TextEquality.{eq_iff}
use lifygo.Http.{set_key}
use lifygo.Http.Laws.{get_key-set_key}
use lifygo.Server.{Result-cases}
use lifygo.Server.Otp.{
  Mail, State, World, otp_count_key, send_otp, issue, metered, deliver, verify_otp, stored, counted,
  is_metered, count_at,
}

-- A call of one of the two services, in the world it meets.
pub data Event : Type 0 where
  sends : World → String → String → Event
  verifies : World → String → String → String → Event

unfoldable pub happen : State → Event → State
unfolding send_otp verify_otp
happen s (sends w user to) = (send_otp w s user to).1
happen s (verifies w user email code) = (verify_otp w s user email code).1

unfoldable pub run : State → List Event → State
unfolding happen
run s [] = s
run s (e ∷ es) = run (happen s e) es

-- The user of a request has no server of his own, and calls are counted.
unfoldable pub is_free : Event → Bool
is_free (sends w user to) = is_metered w user
is_free (verifies w user email code) = true

unfoldable pub all_free : List Event → Bool
unfolding is_free
all_free [] = true
all_free (e ∷ es) = is_free e && all_free es

unfoldable pub mails_under : String → List Mail → ℕ
mails_under k mails = count (λ (m : Mail). m.usage_key === k) mails

module _ (k : String) where
  -- The mails under the count are no more than it says, and than 49.
  IsBounded : State → Type 0
  IsBounded s = (mails_under k s.mails ≤ count_at k s.counts) × (mails_under k s.mails ≤ 49)

  -- What a call adds to the count.
  unfoldable share : World → String → ℕ
  share w user = if otp_count_key user w.day === k then 1 else 0

  pub count_at-set_key :
      (j : String) (n : ℕ) (m : List (String × ℕ))
      → count_at k (set_key j n m) ≡ (if j === k then n else count_at k m)
  unfolding count_at
  count_at-set_key j n m = elim (Bool-cases (j === k)) [
    | inl same ↦ rw (count_at, get_key-set_key j k n m, same) refl
    | inr other ↦ rw (count_at, get_key-set_key j k n m, other) refl
  ]

  counted-count :
      (w : World) (s : State) (user : String)
      → count_at k (counted w s user).counts ≡ count_at k s.counts + share w user
  unfolding share
  counted-count w s user =
      let j = otp_count_key user w.day in
      let n = count_at j s.counts in
      count_at-set_key j (n + 1) s.counts ∙ elim (Bool-cases (j === k)) [
        | inl same ↦ rw same (ap (λ i. count_at i s.counts + 1) ((eq_iff j k).0 same))
        | inr other ↦ rw other (omega arith)
      ]

  deliver-counts :
      (w : World) (s : State) (user to code : String)
      → (deliver w s user to code).1.counts ≡ s.counts
  unfolding deliver
  deliver-counts w s user to code = ground arith

  deliver-mails :
      (w : World) (s : State) (user to code : String)
      → mails_under k (deliver w s user to code).1.mails ≤ share w user + mails_under k s.mails
  unfolding deliver mails_under share
  deliver-mails w s user to code = ground arith

  share-cases :
      (w : World) (user : String) (m : List (String × ℕ))
      → (share w user ≡ 0)
        ⊎ ((share w user ≡ 1) × (count_at (otp_count_key user w.day) m ≡ count_at k m))
  unfolding share
  share-cases w user m = elim (Bool-cases (otp_count_key user w.day === k)) [
    | inl same ↦
        inr (rw same refl, ap (λ i. count_at i m) ((eq_iff (otp_count_key user w.day) k).0 same))
    | inr other ↦ inl (rw other refl)
  ]

  -- The counted state of a call that is not delivered.
  counted-IsBounded :
      (w : World) (s : State) (user : String) → IsBounded s → IsBounded (counted w s user)
  unfolding IsBounded
  counted-IsBounded w s user h = (omega (arith, counted-count w s user, h.0), h.1)

  delivered-IsBounded :
      (w : World) (s : State) (user to code : String)
      → count_at (otp_count_key user w.day) s.counts + 1 < 50
      → IsBounded s
      → IsBounded (deliver w (counted w s user) user to code).1
  unfolding IsBounded
  delivered-IsBounded w s user to code few h =
      let c = counted-count w s user in
      let d = ap (count_at k) (deliver-counts w (counted w s user) user to code) in
      let m = deliver-mails w (counted w s user) user to code in
      elim (share-cases w user s.counts) [
        | inl zero_share ↦ (omega arith, omega arith)
        | inr one ↦ (omega arith, omega arith)
      ]

  metered-cases :
      (w : World) (s : State) (user to code : String)
      → ((metered w s user to code).1 ≡ s)
        ⊎ ((metered w s user to code).1 ≡ counted w s user)
        ⊎ ((count_at (otp_count_key user w.day) s.counts + 1 < 50)
            × ((metered w s user to code).1 ≡ (deliver w (counted w s user) user to code).1))
  unfolding metered
  metered-cases w s user to code = ground arith

  metered-IsBounded :
      (w : World) (s : State) (user to code : String)
      → IsBounded s
      → IsBounded (metered w s user to code).1
  metered-IsBounded w s user to code h = elim (metered-cases w s user to code) [
    | inl same ↦ subst IsBounded (sym same) h
    | inr (inl only_counted) ↦ subst IsBounded (sym only_counted) (counted-IsBounded w s user h)
    | inr (inr (few, sent)) ↦
        subst IsBounded (sym sent) (delivered-IsBounded w s user to code few h)
  ]

  issue-cases :
      (w : World) (s : State) (user to : String)
      → is_metered w user ≡ true
      → ((issue w s user to).1 ≡ s)
        ⊎ ((code : String) × ((issue w s user to).1
              ≡ (metered w (stored w s user to code) user to code).1))
  unfolding issue
  issue-cases w s user to free = elim (Result-cases w.generated) [
    | inr (e, failed) ↦ inl (rw (issue, failed) refl)
    | inl (code, made_up) ↦ elim (Option-cases w.set_failure) [
      | inr (e, failed) ↦ inl (rw (issue, made_up, failed) refl)
      | inl fine ↦ inr (code, rw (issue, made_up, fine, free) refl)
    ]
  ]

  issue-IsBounded :
      (w : World) (s : State) (user to : String)
      → is_metered w user ≡ true
      → IsBounded s
      → IsBounded (issue w s user to).1
  unfolding IsBounded
  issue-IsBounded w s user to free h = elim (issue-cases w s user to free) [
    | inl same ↦ subst IsBounded (sym same) h
    | inr (code, tried) ↦
        subst IsBounded (sym tried) (metered-IsBounded w (stored w s user to code) user to code h)
  ]

  pub send-cases :
      (w : World) (s : State) (user to : String)
      → ((send_otp w s user to).1 ≡ s) ⊎ ((send_otp w s user to).1 ≡ (issue w s user to).1)
  unfolding send_otp
  send-cases w s user to = ground arith

  verify-mails :
      (w : World) (s : State) (user email code : String)
      → ((verify_otp w s user email code).1.mails ≡ s.mails)
        × ((verify_otp w s user email code).1.counts ≡ s.counts)
  unfolding verify_otp
  verify-mails w s user email code = (ground arith, ground arith)

  happen-IsBounded :
      (s : State) (e : Event) → is_free e ≡ true → IsBounded s → IsBounded (happen s e)
  unfolding happen is_free IsBounded
  happen-IsBounded s (sends w user to) free h = elim (send-cases w s user to) [
    | inl same ↦ subst IsBounded (sym same) h
    | inr issued ↦ subst IsBounded (sym issued) (issue-IsBounded w s user to free h)
  ]
  happen-IsBounded s (verifies w user email code) free h =
      let (m, c) = verify-mails w s user email code in rw (m, c) h

  run-IsBounded :
      (s : State) (es : List Event) → all_free es ≡ true → IsBounded s → IsBounded (run s es)
  unfolding all_free run
  run-IsBounded s [] free h = h
  run-IsBounded s (e ∷ es) free h =
      run-IsBounded (happen s e) es (ground arith) (happen-IsBounded s e (ground arith) h)

-- Whatever codes are asked for and checked, with whatever failures of Redis, of the mailers and of
-- the log, no more than 49 codes are mailed under the count of a user and a day, if they start with
-- no mail and the users have no server of their own.
pub daily_mails :
    (k : String) (s : State) (es : List Event)
    → s.mails ≡ []
    → all_free es ≡ true
    → mails_under k (run s es).mails ≤ 49
unfolding IsBounded mails_under
daily_mails k s es fresh free =
    (run-IsBounded k s es free (rw fresh (omega arith), rw fresh (omega arith))).1
