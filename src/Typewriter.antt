-- ===== src/Typewriter.antt =====
-- components/useful/typewriter.tsx: the text that `Typewriter` writes and removes.
pub mod Laws
mod Examples
use lifygo.Prelude.{
  ℕ, zero, suc, ◌+◌, ◌-◌, ◌%◌, Bool, true, false, not, ◌&&◌, Option, none, some, List, [], ◌∷◌,
  length, ◌==◌, if◌then◌else◌,
}

-- A text as its UTF-16 code units, which `length` counts and `slice` cuts.
abbrev pub Units : Type 0
Units = List ℕ

pub record State : Type 0 where
  pub phrase_index : ℕ
  pub text : Units
  pub is_deleting : Bool

abbrev pub initial : State
initial = record { phrase_index = 0; text = []; is_deleting = false }

-- `a === b` of two texts.
unfoldable pub same : Units → Units → Bool
same [] [] = true
same [] (y ∷ ys) = false
same (x ∷ xs) [] = false
same (x ∷ xs) (y ∷ ys) = x == y && same xs ys

-- `current.slice(0, n)`.
unfoldable pub slice : ℕ → Units → Units
slice zero xs = []
slice (suc n) [] = []
slice (suc n) (x ∷ xs) = x ∷ slice n xs

-- `phrases[i]`.
unfoldable pub phrase_at : List Units → ℕ → Option Units
phrase_at [] i = none
phrase_at (p ∷ ps) zero = some p
phrase_at (p ∷ ps) (suc i) = phrase_at ps i

-- The callback of the timeout, with the current phrase.
unfoldable pub fired : ℕ → Units → State → State
unfolding same slice
fired phrases current s =
    if not s.is_deleting && same s.text current
    then record s { is_deleting = true }
    else if s.is_deleting && same s.text []
    then record s { is_deleting = false; phrase_index = (s.phrase_index + 1) % phrases }
    else record s {
      text = slice (if s.is_deleting then length s.text - 1 else length s.text + 1) current;
    }

-- One timeout after a render. Without phrases there is no current one, and the callback throws.
unfoldable pub tick : List Units → State → Option State
unfolding phrase_at fired
tick phrases s = elim (phrase_at phrases (s.phrase_index % length phrases)) [
  | none ↦ none
  | some current ↦ some (fired (length phrases) current s)
]

and_then : Option State → (State → Option State) → Option State
and_then none f = none
and_then (some s) f = f s

-- n timeouts.
unfoldable pub ticks : List Units → ℕ → State → Option State
unfolding and_then
ticks phrases zero s = some s
ticks phrases (suc n) s = and_then (ticks phrases n s) (tick phrases)

-- The delay before the next timeout, in milliseconds.
unfoldable pub delay : Units → State → ℕ
delay current s =
    if not s.is_deleting && same s.text current then 1600 else if s.is_deleting then 45 else 85
