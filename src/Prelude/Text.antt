-- ===== src/Prelude/Text.antt =====
-- Strings as the source uses them: truthiness, `||`, `length` in UTF-16 units, and `trim`.
use Prim.Native.Nat.{ℕ, ◌+◌}
use Prim.Native.Char.{Char, code}
use Prim.Native.String
use Prim.Native.String.{String, [], ◌∷◌}
use mathlib.Core.Bool.{Bool, true, false, not, ◌||◌, ◌&&◌}
use mathlib.Core.Path.{sym, ap, ◌≡◌, refl}
use native.Mathlib.Omega.{arith}
use text.Mathlib.Text.{◌==◌ as str_eq}
use mathlib.Core.Logic.{inl, inr}
use text.Mathlib.TextEquality.{eq_iff}
use text.Mathlib.TextLemmas.{cons-ne-nil, nil-append, cons-append}
use lifygo.Prelude.Tests.{Bool-cases, ltb, ◌==◌, if◌then◌else◌}

infix 50 ◌===◌
-- `s === t` on strings.
abbrev pub ◌===◌ : String → String → Bool
s === t = str_eq s t

-- A string is falsy exactly when it is empty.
abbrev pub truthy : String → Bool
truthy [] = false
truthy (c ∷ s) = true

-- `s || t`.
abbrev pub or_else : String → String → String
or_else [] t = t
or_else (c ∷ s) t = c ∷ s

infixl 65 ◌+s◌
abbrev pub ◌+s◌ : String → String → String
s +s t = String.◌++◌ s t

-- White space and line terminators of ECMAScript.
is_space : ℕ → Bool
is_space c =
    (ltb 8 c && ltb c 14)
    || c == 32
    || c == 160
    || c == 0x1680
    || (ltb 0x1fff c && ltb c 0x200b)
    || c == 0x2028
    || c == 0x2029
    || c == 0x202f
    || c == 0x205f
    || c == 0x3000
    || c == 0xfeff

trim_start : String → String
trim_start [] = []
trim_start (c ∷ s) = let rest = trim_start s in if is_space (code c) then rest else c ∷ s

-- Drops the white space before the end: a space goes if nothing is left behind it.
keep_end : Char → String → String
keep_end c [] = if is_space (code c) then [] else c ∷ []
keep_end c (d ∷ s) = c ∷ d ∷ s

trim_end : String → String
trim_end [] = []
trim_end (c ∷ s) = keep_end c (trim_end s)

-- `s.trim()`.
unfoldable pub trim : String → String
unfolding trim_start trim_end keep_end is_space
trim s = trim_end (trim_start s)

-- `s.length`: a code point above 0xffff is two UTF-16 units.
abbrev pub js_length : String → ℕ
js_length [] = 0
js_length (c ∷ s) = (if ltb (code c) 0x10000 then 1 else 2) + js_length s

trim_test : trim "  a b " ≡ "a b"
unfolding trim
trim_test = refl

pub or_else-if : (s t : String) → or_else s t ≡ (if truthy s then s else t)
or_else-if [] t = refl
or_else-if (c ∷ s) t = refl

pub not-eq_empty : (s : String) → not (s === "") ≡ truthy s
not-eq_empty [] = refl
not-eq_empty (c ∷ s) = elim (Bool-cases ((c ∷ s) === "")) [
  | inl e ↦ absurd (cons-ne-nil c s ((eq_iff (c ∷ s) "").0 e))
  | inr e ↦ rw e refl
]

pub not-empty_eq : (s : String) → not ("" === s) ≡ truthy s
not-empty_eq [] = refl
not-empty_eq (c ∷ s) = elim (Bool-cases ("" === (c ∷ s))) [
  | inl e ↦ absurd (cons-ne-nil c s (sym ((eq_iff "" (c ∷ s)).0 e)))
  | inr e ↦ rw e refl
]

-- `s` begins with the text `p`.
abbrev pub has_prefix : String → String → Bool
has_prefix [] s = true
has_prefix (c ∷ p) [] = false
has_prefix (c ∷ p) (d ∷ s) = code c == code d && has_prefix p s

-- What is left of a text behind as many characters as `p` has.
unfoldable pub dropped : String → String → String
dropped [] s = s
dropped (c ∷ p) [] = []
dropped (c ∷ p) (d ∷ s) = dropped p s

-- `strings.TrimPrefix(s, p)`.
unfoldable pub trim_prefix : String → String → String
unfolding dropped
trim_prefix s p = if has_prefix p s then dropped p s else s

-- `len(s)` of Go: the bytes of its UTF-8.
abbrev pub byte_length : String → ℕ
byte_length s = String.len s

has_prefix-append : (p t : String) → has_prefix p (p +s t) ≡ true
has_prefix-append [] t = refl
has_prefix-append (c ∷ p) t = rw cons-append (ground (has_prefix-append p t, arith))

dropped-append : (p t : String) → dropped p (p +s t) ≡ t
unfolding dropped
dropped-append [] t = nil-append t
dropped-append (c ∷ p) t = rw cons-append (dropped-append p t)

pub trim_prefix-append : (p t : String) → trim_prefix (p +s t) p ≡ t
unfolding trim_prefix
trim_prefix-append p t = rw (has_prefix-append p t) (dropped-append p t)

size : String → ℕ
size [] = 0
size (c ∷ s) = 1 + size s

size-append : (s t : String) → size (s +s t) ≡ size s + size t
unfolding size
size-append [] t = rw (nil-append t) (omega arith)
size-append (c ∷ s) t = rw cons-append (omega (arith, size-append s t))

pub append_longer : (c : Char) (s t : String) → (t === ((c ∷ s) +s t)) ≡ false
unfolding size
append_longer c s t = elim (Bool-cases (t === ((c ∷ s) +s t))) [
  | inl same ↦
      absurd (omega (arith, ap size ((eq_iff t ((c ∷ s) +s t)).0 same), size-append (c ∷ s) t))
  | inr other ↦ other
]

pub truthy-append : (c : Char) (s t : String) → truthy ((c ∷ s) +s t) ≡ true
truthy-append c s t = rw cons-append refl
