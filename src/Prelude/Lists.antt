-- ===== src/Prelude/Lists.antt =====
-- Lists: length, membership as a chain of alternatives, Boolean search, removal of one position.
use Prim.Native.Nat.{ℕ, zero, suc, ◌+◌}
use mathlib.Core.Path.{◌≡◌, refl, ap, sym, ◌∙◌}
use mathlib.Core.Logic.{◌⊎◌, ◌↔◌, inl, inr}
use mathlib.Core.Bool.{Bool, true, false, ◌||◌}
use mathlib.Core.Option.{Option, none, some}
use mathlib.Core.List.{List, [], ◌∷◌, ◌++◌}
use native.Mathlib.Omega.{arith}
use lifygo.Prelude.Tests.{if◌then◌else◌, Bool-cases}

module _ {ℓ} {A : Type ℓ} where
  abbrev pub length : List A → ℕ
  length [] = 0
  length (x ∷ xs) = suc (length xs)

  abbrev pub any : (A → Bool) → List A → Bool
  any p [] = false
  any p (x ∷ xs) = p x || any p xs

  -- `Array.prototype.filter`.
  abbrev pub keep : (A → Bool) → List A → List A
  keep p [] = []
  keep p (x ∷ xs) = if p x then x ∷ keep p xs else keep p xs

  -- `xs.slice(0, n)`, `LIMIT n`.
  unfoldable pub take : ℕ → List A → List A
  take zero xs = []
  take (suc n) [] = []
  take (suc n) (x ∷ xs) = x ∷ take n xs

  -- `xs.slice(n)`, `OFFSET n`.
  abbrev pub drop : ℕ → List A → List A
  drop zero xs = xs
  drop (suc n) [] = []
  drop (suc n) (x ∷ xs) = drop n xs

  -- How many elements satisfy a test.
  abbrev pub count : (A → Bool) → List A → ℕ
  count p [] = 0
  count p (x ∷ xs) = (if p x then 1 else 0) + count p xs

  pub any-append : (p : A → Bool) (xs ys : List A) → any p (xs ++ ys) ≡ any p xs || any p ys
  any-append p [] ys = refl
  any-append p (x ∷ xs) ys = ground (arith, any-append p xs ys)

  pub count-append : (p : A → Bool) (xs ys : List A) → count p (xs ++ ys) ≡ count p xs + count p ys
  count-append p [] ys = omega arith
  count-append p (x ∷ xs) ys = omega (arith, count-append p xs ys)

  pub any_none : (p : A → Bool) (xs : List A) → ((x : A) → p x ≡ false) → any p xs ≡ false
  any_none p [] h = refl
  any_none p (x ∷ xs) h = rw (h x, any_none p xs h)

true≢false : true ≡ false → ⊥
true≢false h = cc

module _ {A : Type 0} where
  -- `a` stands in the list.
  abbrev pub In : A → List A → Type 0
  In a [] = ⊥
  In a (x ∷ xs) = (a ≡ x) ⊎ In a xs

  pub In-append : (a : A) (xs ys : List A) → In a (xs ++ ys) → In a xs ⊎ In a ys
  In-append a [] ys h = inr h
  In-append a (x ∷ xs) ys (inl e) = inl (inl e)
  In-append a (x ∷ xs) ys (inr h) = ground (arith, In-append a xs ys h)

  pub any_of_In : (p : A → Bool) {a : A} (xs : List A) → In a xs → p a ≡ true → any p xs ≡ true
  any_of_In p [] h e = absurd h
  any_of_In p (x ∷ xs) (inl q) e = rw (← q, e) refl
  any_of_In p (x ∷ xs) (inr h) e = ground (arith, any_of_In p xs h e)

  pub In-of_any : (p : A → Bool) (xs : List A) → any p xs ≡ true → (a : A) × In a xs × (p a ≡ true)
  In-of_any p [] h = cc
  In-of_any p (x ∷ xs) h = elim (Bool-cases (p x)) [
    | inl e ↦ (x, inl refl, e)
    | inr e ↦ let (a, i, t) = In-of_any p xs (ground arith) in (a, inr i, t)
  ]

  -- What a filter keeps.
  pub In-keep : (p : A → Bool) (a : A) (xs : List A) → In a (keep p xs) ↔ (In a xs × (p a ≡ true))
  In-keep p a [] = (λ h. absurd h, λ h. h.0)
  In-keep p a (x ∷ xs) =
      let (to, from) = In-keep p a xs in
      elim (Bool-cases (p x)) [
        | inl e ↦ rw e (
          elim [ inl q ↦ (inl q, rw q e) | inr i ↦ (inr (to i).0, (to i).1) ],
          λ h. elim (h.0) [ inl q ↦ inl q | inr i ↦ inr (from (i, h.1)) ],
        )
        | inr e ↦ rw e (
          λ i. (inr (to i).0, (to i).1),
          λ h. elim (h.0) [
            | inl q ↦ absurd (true≢false (sym (h.1) ∙ ap p q ∙ e))
            | inr i ↦ from (i, h.1)
          ],
        )
      ]

module _ {A : Type 0} where
  -- The element at an index.
  abbrev pub elem_at : List A → ℕ → Option A
  elem_at [] i = none
  elem_at (x ∷ xs) zero = some x
  elem_at (x ∷ xs) (suc i) = elem_at xs i

  pub In-elem_at : {a : A} (xs : List A) (i : ℕ) → elem_at xs i ≡ some a → In a xs
  In-elem_at [] i e = cc
  In-elem_at (x ∷ xs) zero e = inl (ground arith)
  In-elem_at (x ∷ xs) (suc i) e = inr (In-elem_at xs i e)
