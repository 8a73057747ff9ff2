-- ===== src/Prelude/Number.antt =====
-- JavaScript numbers, as far as the pages use them.
use Prim.Native.Nat.{ℕ, ◌+◌, ◌*◌, ◌-◌}
use Prim.Native.Char.{code}
use Prim.Native.String.{String, [], ◌∷◌}
use mathlib.Core.Bool.{Bool, ◌&&◌}
use mathlib.Core.Option.{Option, none, some}
use mathlib.Core.Path.{◌≡◌, refl}
use lifygo.Prelude.Tests.{ltb, if◌then◌else◌}
use lifygo.Prelude.Text.{trim, js_length}

pub data JsNumber : Type 0 where
  int : ℕ → JsNumber
  -- the value of `Number(s)` for any other text `s`, `NaN` among them
  parsed : String → JsNumber

is_digit : ℕ → Bool
is_digit c = ltb 47 c && ltb c 58

-- The value of a run of digits behind the digits read so far.
digits_from : ℕ → String → Option ℕ
unfolding is_digit
digits_from n [] = some n
digits_from n (c ∷ s) =
    let rest = digits_from (10 * n + (code c - 48)) s in if is_digit (code c) then rest else none

-- `Number(s)`: surrounding white space is dropped, and nothing is 0. Up to fifteen digits are read
-- exactly.
unfoldable pub number_of : String → JsNumber
unfolding digits_from trim
number_of s =
    if ltb (js_length (trim s)) 16
    then elim (digits_from 0 (trim s)) [ some n ↦ int n | none ↦ parsed s ]
    else parsed s

number_of_tests : number_of " 0587 " ≡ int 587
unfolding number_of
number_of_tests = refl

number_of_empty : number_of "" ≡ int 0
unfolding number_of
number_of_empty = refl
