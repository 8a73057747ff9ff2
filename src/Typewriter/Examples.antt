-- ===== src/Typewriter/Examples.antt =====
-- The theorem about the typewriter at concrete phrases.
use lifygo.Prelude.{
  suc, ◌+◌, ◌-◌, ◌*◌, ◌%◌, ◌≡◌, refl, true, false, some, List, [], ◌∷◌, length, arith,
}
use lifygo.Typewriter.{Units, State, slice, ticks, phrase_at}
use lifygo.Typewriter.Laws.{cycle}

-- "cron", "otp".
abbrev phrases : List Units
phrases = (99 ∷ 114 ∷ 111 ∷ 110 ∷ []) ∷ (111 ∷ 116 ∷ 112 ∷ []) ∷ []

otp_current : phrase_at phrases (1 % length phrases) ≡ some (111 ∷ 116 ∷ 112 ∷ [])
unfolding phrase_at
otp_current = refl

cycle_example :
    let p : Units = 111 ∷ 116 ∷ 112 ∷ [] in
    let s : State = record { phrase_index = 1; text = []; is_deleting = false } in
    (ticks phrases 2 s ≡ some (record s { text = slice 2 p }))
    × (ticks phrases (2 + suc (length p)) s
        ≡ some (record s { text = slice (length p - 2) p; is_deleting = true }))
    × (ticks phrases (2 * length p + 2) s
        ≡ some (record s { phrase_index = (1 + 1) % length phrases }))
cycle_example = cycle phrases 1 (111 ∷ 116 ∷ 112 ∷ []) otp_current 2 (omega arith)
