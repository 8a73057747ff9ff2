-- ===== src/Prelude/Decimal.antt =====
-- Decimal numbers: `String(n)` of JavaScript and `strconv.Atoi` of Go.
use Prim.Native.Nat.{ℕ, zero, suc, ◌+◌, ◌-◌, ◌*◌, ◌/◌, ◌%◌, ◌^◌, ◌<◌}
use Prim.Native.Char.{Char, code}
use Prim.Native.String.{String, [], ◌∷◌}
use mathlib.Core.Path.{◌≡◌, refl, ap}
use mathlib.Core.Bool.{true, ◌&&◌}
use mathlib.Core.Logic.{dite, ite, if_pos, if_neg}
use mathlib.Core.Option.{Option, none, some}
use mathlib.Core.WellFounded as Wf
use mathlib.Core.WellFounded.{Acc, Acc-prop, WellFounded}
use native.Mathlib.Decide.{dec_lt}
use native.Mathlib.Omega.{arith}
use lifygo.Prelude.Text.{truthy}
use lifygo.Prelude.Tests.{ltb, ◌==◌, if◌then◌else◌}

-- The digit of a number below ten.
pub digit : ℕ → Char
digit zero = "0"
digit (suc zero) = "1"
digit (suc (suc zero)) = "2"
digit (suc (suc (suc zero))) = "3"
digit (suc (suc (suc (suc zero)))) = "4"
digit (suc (suc (suc (suc (suc zero))))) = "5"
digit (suc (suc (suc (suc (suc (suc zero)))))) = "6"
digit (suc (suc (suc (suc (suc (suc (suc zero))))))) = "7"
digit (suc (suc (suc (suc (suc (suc (suc (suc zero)))))))) = "8"
digit n = "9"

pub code-digit : (n : ℕ) → n < 10 → code (digit n) ≡ 48 + n
unfolding digit
code-digit zero h = refl
code-digit (suc zero) h = refl
code-digit (suc (suc zero)) h = refl
code-digit (suc (suc (suc zero))) h = refl
code-digit (suc (suc (suc (suc zero)))) h = refl
code-digit (suc (suc (suc (suc (suc zero))))) h = refl
code-digit (suc (suc (suc (suc (suc (suc zero)))))) h = refl
code-digit (suc (suc (suc (suc (suc (suc (suc zero))))))) h = refl
code-digit (suc (suc (suc (suc (suc (suc (suc (suc zero)))))))) h = refl
code-digit (suc (suc (suc (suc (suc (suc (suc (suc (suc zero))))))))) h = refl
code-digit (suc (suc (suc (suc (suc (suc (suc (suc (suc (suc n)))))))))) h = absurd (omega arith)

Acc-below : (k n : ℕ) → n < k → Acc ◌<◌ n
Acc-below zero n h = absurd (omega arith)
Acc-below (suc k) n h = Acc.intro n (λ m lt. Acc-below k m (omega arith))

lt_wf : WellFounded ◌<◌
unfolding Acc-below
lt_wf = record { apply = λ n. Acc-below (suc n) n (omega arith) }

pub tenth : {n : ℕ} → 0 < n → n / 10 < n
tenth h = omega arith

-- A text with the digits of a positive number put in front, the last one first.
put : String → (n : ℕ) → Acc ◌<◌ n → String
put text n (Acc.intro _ below) =
    dite (dec_lt 0 n) (λ more. put (digit (n % 10) ∷ text) (n / 10) (below (n / 10) (tenth more)))
      (λ done. text)

digits : ℕ → String → String
unfolding put lt_wf dec_lt digit
digits n text = put text n (lt_wf.apply n)

-- `String(n)` of a number below 10 ^ 21.
unfoldable pub decimal : ℕ → String
unfolding digits
decimal zero = "0"
decimal (suc n) = digits (suc n) []

-- A Go `int`, in 64 bits; `negsuc n` is -(n + 1).
pub data ℤ : Type 0 where
  pos negsuc : ℕ → ℤ

-- `n`, if it is at most the limit.
within : ℕ → ℕ → Option ℕ
within limit n = if ltb limit n then none else some n

scan : String → ℕ → Option ℕ
scan [] n = some n
scan (c ∷ s) n =
    let rest = scan s (n * 10 + (code c - 48)) in
    if ltb 47 (code c) && ltb (code c) 58 then rest else none

-- A run of one digit or more.
unsigned : String → Option ℕ
unfolding scan
unsigned [] = none
unsigned (c ∷ s) = scan (c ∷ s) 0

negative : ℕ → ℤ
negative n = if n == 0 then pos 0 else negsuc (n - 1)

-- `strconv.Atoi`: a sign or none, and digits; an error outside of 64 bits.
unfoldable pub atoi : String → Option ℤ
unfolding within unsigned negative
atoi [] = none
atoi (c ∷ s) =
    if code c == 45
    then elim (unsigned s) [
      | none ↦ none
      | some n ↦ elim (within (2 ^ 63) n) [ none ↦ none | some m ↦ some (negative m) ]
    ]
    else elim (unsigned (if code c == 43 then s else c ∷ s)) [
      | none ↦ none
      | some n ↦ elim (within (2 ^ 63 - 1) n) [ none ↦ none | some m ↦ some (pos m) ]
    ]

atoi_tests : (atoi "-120" ≡ some (negsuc 119)) × (atoi "12a" ≡ none)
unfolding atoi scan
atoi_tests = (refl, refl)

decimal_test : decimal 9070 ≡ "9070"
unfolding decimal
decimal_test = refl

same_put : (text : String) (n : ℕ) (v w : Acc ◌<◌ n) → put text n v ≡ put text n w
same_put text n v w = ap (put text n) (Acc-prop v w)

put_step :
    (text : String) (n : ℕ) (v : Acc ◌<◌ n)
    → put text n v
      ≡ ite (dec_lt 0 n) (put (digit (n % 10) ∷ text) (n / 10) (lt_wf.apply (n / 10))) text
unfolding put
put_step text n (Acc.intro _ below) =
    ap (λ t. dite (dec_lt 0 n) t (λ _. text))
      λ i more.
        same_put (digit (n % 10) ∷ text) (n / 10) (below (n / 10) (tenth more))
          (lt_wf.apply (n / 10)) i

digits_step :
    (n : ℕ) (text : String)
    → digits n text ≡ ite (dec_lt 0 n) (digits (n / 10) (digit (n % 10) ∷ text)) text
unfolding digits
digits_step n text = put_step text n (lt_wf.apply n)

scan_last : (n : ℕ) (out : String) → scan (digit (n % 10) ∷ out) (n / 10) ≡ scan out n
unfolding scan
scan_last n out = ground (arith, code-digit (n % 10))

scan-digits : (n : ℕ) (out : String) → scan (digits n out) 0 ≡ scan out n
scan-digits n =
    Wf.induction lt_wf {C = λ m. (out : String) → scan (digits m out) 0 ≡ scan out m} n
      λ m ih out. grind (arith, digits_step m out, scan_last m out, ih (m / 10))

-- Nothing but digits.
abbrev pub IsNumeral : String → Type 0
IsNumeral [] = Unit {0}
IsNumeral (c ∷ s) = (47 < code c) × (code c < 58) × IsNumeral s

-- A digit first.
abbrev Leads : String → Type 0
Leads [] = ⊥
Leads (c ∷ s) = (47 < code c) × (code c < 58)

digit-IsNumeral : (n : ℕ) (s : String) → IsNumeral s → IsNumeral (digit (n % 10) ∷ s)
digit-IsNumeral n s h = let e = code-digit (n % 10) (omega arith) in (omega arith, omega arith, h)

digit-Leads : (n : ℕ) (s : String) → Leads (digit (n % 10) ∷ s)
digit-Leads n s = let e = code-digit (n % 10) (omega arith) in (omega arith, omega arith)

digits-IsNumeral : (n : ℕ) (out : String) → IsNumeral out → IsNumeral (digits n out)
digits-IsNumeral n =
    Wf.induction lt_wf {C = λ m. (out : String) → IsNumeral out → IsNumeral (digits m out)} n
      λ m ih out h. elim (dec_lt 0 m) [
        | yes p ↦
            rw (digits_step m out, if_pos _ p) (ih (m / 10) (tenth p) _ (digit-IsNumeral m out h))
        | no p ↦ rw (digits_step m out, if_neg _ p) h
      ]

digits-Leads : (n : ℕ) (out : String) → Leads out → Leads (digits n out)
digits-Leads n =
    Wf.induction lt_wf {C = λ m. (out : String) → Leads out → Leads (digits m out)} n λ m ih out h.
      elim (dec_lt 0 m) [
        | yes p ↦ rw (digits_step m out, if_pos _ p) (ih (m / 10) (tenth p) _ (digit-Leads m out))
        | no p ↦ rw (digits_step m out, if_neg _ p) h
      ]

digits_pos-Leads : (n : ℕ) → 0 < n → Leads (digits n [])
digits_pos-Leads n p =
    rw (digits_step n [], if_pos _ p) (digits-Leads (n / 10) _ (digit-Leads n []))

pub decimal-IsNumeral : (n : ℕ) → IsNumeral (decimal n)
unfolding decimal
decimal-IsNumeral zero = omega arith
decimal-IsNumeral (suc n) = digits-IsNumeral (suc n) [] tt

decimal-Leads : (n : ℕ) → Leads (decimal n)
unfolding decimal
decimal-Leads zero = omega arith
decimal-Leads (suc n) = digits_pos-Leads (suc n) (omega arith)

scan-decimal : (n : ℕ) → scan (decimal n) 0 ≡ some n
unfolding decimal scan
scan-decimal zero = refl
scan-decimal (suc n) = scan-digits (suc n) []

Leads-truthy : (s : String) → Leads s → truthy s ≡ true
Leads-truthy [] l = absurd l
Leads-truthy (c ∷ s) l = refl

pub truthy-decimal : (n : ℕ) → truthy (decimal n) ≡ true
truthy-decimal n = Leads-truthy (decimal n) (decimal-Leads n)

atoi_of_scan :
    (s : String) (n : ℕ) → Leads s → scan s 0 ≡ some n → n < 2 ^ 63 → atoi s ≡ some (pos n)
unfolding atoi
atoi_of_scan [] n l e b = absurd l
atoi_of_scan (c ∷ s) n l e b = ground arith

-- A number of 63 bits is read back from its decimal print.
pub atoi-decimal : (n : ℕ) → n < 2 ^ 63 → atoi (decimal n) ≡ some (pos n)
atoi-decimal n b = atoi_of_scan (decimal n) n (decimal-Leads n) (scan-decimal n) b
