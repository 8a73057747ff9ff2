-- ===== src/Server/Otp/Guess.antt =====
-- What a check leaves for the checks that start after it has ended.
use lifygo.Prelude.{
  ◌+◌, ◌≡◌, refl, false, none, List, [], ◌∷◌, String, ◌===◌, arith, Option-cases, inl, inr, ap, ◌∙◌,
}
use lifygo.Http.{get_key}
use lifygo.Http.Laws.{get_key-set_key}
use lifygo.Server.{otp_not_found, sentinel, Result, err, Result-cases}
use lifygo.Server.Otp.{
  Code, State, World, otp_redis_key, otp_ttl, issue, verify_otp, verify_refusal, live_code, without,
  stored,
}
use lifygo.Server.Otp.Codes.{get_key-without, verify_well_formed, issue-codes}
use lifygo.Server.Otp.Daily.{Event, sends, verifies, happen, run, send-cases}

-- No code is put under the key: by a request to send one, or by other clients between the two commands
-- of a check.
unfoldable pub IsQuiet : String → Event → Type 0
IsQuiet key (sends w user to) = (otp_redis_key user to === key) ≡ false
IsQuiet key (verifies w user email code) =
    (m : List (String × Code)) → get_key key m ≡ none → get_key key (w.between m) ≡ none

unfoldable pub AllQuiet : String → List Event → Type 0
unfolding IsQuiet
AllQuiet key [] = Unit {0}
AllQuiet key (e ∷ es) = IsQuiet key e × AllQuiet key es

module _ (key : String) where
  IsGone : State → Type 0
  IsGone s = get_key key s.codes ≡ none

  without_more :
      (k : String) (m : List (String × Code))
      → get_key key m ≡ none
      → get_key key (without k m) ≡ none
  unfolding get_key without
  without_more k [] h = refl
  without_more k ((j, v) ∷ m) h = ground (arith, without_more k m)

  verify-IsGone :
      (w : World) (s : State) (user email code : String)
      → ((m : List (String × Code)) → get_key key m ≡ none → get_key key (w.between m) ≡ none)
      → IsGone s
      → IsGone (verify_otp w s user email code).1
  unfolding IsGone verify_otp
  verify-IsGone w s user email code quiet h = ground (
    arith,
    quiet s.codes h,
    without_more (otp_redis_key user email) (w.between s.codes) (quiet s.codes h),
  )

  stored-IsGone :
      (w : World) (s : State) (user to code : String)
      → (otp_redis_key user to === key) ≡ false
      → IsGone s
      → IsGone (stored w s user to code)
  unfolding IsGone
  stored-IsGone w s user to code other h =
      let cell : Code = record { value = code; expires = w.now + otp_ttl } in
      get_key-set_key (otp_redis_key user to) key cell s.codes ∙ rw other h

  issue-IsGone :
      (w : World) (s : State) (user to : String)
      → (otp_redis_key user to === key) ≡ false
      → IsGone s
      → IsGone (issue w s user to).1
  unfolding IsGone issue
  issue-IsGone w s user to other h = elim (Result-cases w.generated) [
    | inr (e, failed) ↦ rw (issue, failed) h
    | inl (code, drawn) ↦ elim (Option-cases w.set_failure) [
      | inr (e, failed) ↦ rw (issue, drawn, failed) h
      | inl fine ↦
          ap (get_key key) (issue-codes w s user to code drawn fine)
          ∙ stored-IsGone w s user to code other h
    ]
  ]

  happen-IsGone : (s : State) (e : Event) → IsQuiet key e → IsGone s → IsGone (happen s e)
  unfolding IsGone IsQuiet happen
  happen-IsGone s (sends w user to) quiet h = elim (send-cases key w s user to) [
    | inl same ↦ rw same h
    | inr issued ↦ rw issued (issue-IsGone w s user to quiet h)
  ]
  happen-IsGone s (verifies w user email code) quiet h = verify-IsGone w s user email code quiet h

  run-IsGone : (s : State) (es : List Event) → AllQuiet key es → IsGone s → IsGone (run s es)
  unfolding AllQuiet run
  run-IsGone s [] quiet h = h
  run-IsGone s (e ∷ es) (q, quiet) h = run-IsGone (happen s e) es quiet (happen-IsGone s e q h)

-- A check that is well formed, and that Redis answers, uses up the code, whatever code is given in it,
-- and whatever other clients do between its two commands: a check of that user and address that starts
-- after it finds none, whatever was sent and checked meanwhile, as long as no code was put under the
-- same key again.
pub one_guess :
    (w v : World) (s : State) (es : List Event) (user email guess code : String)
    → verify_refusal user email guess ≡ none
    → verify_refusal user email code ≡ none
    → w.get_failure ≡ none
    → v.get_failure ≡ none
    → AllQuiet (otp_redis_key user email) es
    → (verify_otp v (run (verify_otp w s user email guess).1 es) user email code).0
      ≡ err (sentinel otp_not_found)
unfolding IsGone live_code
one_guess w v s es user email guess code a b f g quiet =
    let key = otp_redis_key user email in
    let used = (verify_otp w s user email guess).1 in
    let gone : get_key key used.codes ≡ none =
      ap (λ (r : Result String × State). get_key key r.1.codes)
        (verify_well_formed w s user email guess a f)
      ∙ get_key-without key (w.between s.codes) in
    ap (λ (r : Result String × State). r.0) (verify_well_formed v (run used es) user email code b g)
    ∙ rw (live_code, run-IsGone key used es quiet gone) refl
