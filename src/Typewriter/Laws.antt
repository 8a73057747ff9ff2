-- ===== src/Typewriter/Laws.antt =====
-- components/useful/typewriter.tsx: a phrase is written, removed, and followed by the next.
use lifygo.Prelude.{
  ℕ, zero, suc, ◌+◌, ◌-◌, ◌*◌, ◌%◌, ◌≤◌, ◌<◌, ◌≡◌, refl, ap, ◌∙◌, Bool, true, false, some, List, [],
  ◌∷◌, length, arith, Bool-cases, inl, inr,
}
use lifygo.Typewriter.{Units, State, same, slice, phrase_at, fired, tick, ticks}

same_refl : (p : Units) → same p p ≡ true
unfolding same
same_refl [] = refl
same_refl (x ∷ p) = ground (arith, same_refl p)

same-length : (p q : Units) → same p q ≡ true → length p ≡ length q
unfolding same
same-length [] [] h = refl
same-length [] (y ∷ q) h = cc
same-length (x ∷ p) [] h = cc
same-length (x ∷ p) (y ∷ q) h = ground (arith, same-length p q)

length-slice : (k : ℕ) (p : Units) → k ≤ length p → length (slice k p) ≡ k
unfolding slice
length-slice zero p h = refl
length-slice (suc k) [] h = absurd (omega arith)
length-slice (suc k) (x ∷ p) h = ground (arith, length-slice k p)

slice_all : (p : Units) → slice (length p) p ≡ p
unfolding slice
slice_all [] = refl
slice_all (x ∷ p) = ground (arith, slice_all p)

same_short : (k : ℕ) (p : Units) → k < length p → same (slice k p) p ≡ false
same_short k p h = elim (Bool-cases (same (slice k p) p)) [
  | inl e ↦ absurd (omega (arith, same-length (slice k p) p e, length-slice k p (omega arith)))
  | inr e ↦ e
]

same_nonempty : (k : ℕ) (p : Units) → suc k ≤ length p → same (slice (suc k) p) [] ≡ false
unfolding same slice
same_nonempty k [] h = absurd (omega arith)
same_nonempty k (x ∷ p) h = refl

module _ (n i : ℕ) (p : Units) where
  abbrev writing : ℕ → State
  writing k = record { phrase_index = i; text = slice k p; is_deleting = false }

  abbrev removing : ℕ → State
  removing k = record { phrase_index = i; text = slice k p; is_deleting = true }

  writes : (k : ℕ) → k < length p → fired n p (writing k) ≡ writing (suc k)
  unfolding fired
  writes k h =
      let e : k + 1 ≡ suc k = omega arith in
      rw (same_short k p h, length-slice k p (omega arith), e) refl

  turns : fired n p (writing (length p)) ≡ removing (length p)
  unfolding fired
  turns = rw (slice_all p, same_refl p) refl

  removes : (k : ℕ) → suc k ≤ length p → fired n p (removing (suc k)) ≡ removing k
  unfolding fired
  removes k h =
      rw (same_nonempty k p h, length-slice (suc k) p h) (ap (λ m. removing m) (omega arith))

  moves :
      fired n p (removing 0) ≡ record { phrase_index = (i + 1) % n; text = []; is_deleting = false }
  unfolding fired slice same
  moves = refl

module _ (phrases : List Units) (i : ℕ) (p : Units)
    (h : phrase_at phrases (i % length phrases) ≡ some p) where
  abbrev count : ℕ
  count = length phrases

  abbrev at_phrase : Units → Bool → State
  at_phrase text deleting = record { phrase_index = i; text = text; is_deleting = deleting }

  tick-fired :
      (x : Units) (d : Bool) → tick phrases (at_phrase x d) ≡ some (fired count p (at_phrase x d))
  unfolding tick
  tick-fired x d = rw (tick, h) refl

  -- A timeout of the current phrase, behind those before it.
  further :
      (k : ℕ) (s : State) (x : Units) (d : Bool) (t : State)
      → ticks phrases k s ≡ some (at_phrase x d)
      → fired count p (at_phrase x d) ≡ t
      → ticks phrases (suc k) s ≡ some t
  unfolding ticks
  further k s x d t e f = rw e (tick-fired x d ∙ ap (λ now. some now) f)

  writing-ticks :
      (k : ℕ) → k ≤ length p → ticks phrases k (writing count i p 0) ≡ some (writing count i p k)
  unfolding ticks
  writing-ticks zero b = refl
  writing-ticks (suc k) b =
      further k _ _ _ _ (writing-ticks k (omega arith)) (writes count i p k (omega arith))

  removing-ticks :
      (k : ℕ)
      → k ≤ length p
      → ticks phrases (k + suc (length p)) (writing count i p 0)
        ≡ some (removing count i p (length p - k))
  removing-ticks zero b =
      let e : 0 + suc (length p) ≡ suc (length p) = omega arith in
      let z : length p - 0 ≡ length p = omega arith in
      rw (e, z)
        (further (length p) _ _ _ _ (writing-ticks (length p) (omega arith)) (turns count i p))
  removing-ticks (suc k) b =
      let m : suc k + suc (length p) ≡ suc (k + suc (length p)) = omega arith in
      let e : length p - k ≡ suc (length p - suc k) = omega arith in
      rw m (
        further (k + suc (length p)) _ _ _ _ (removing-ticks k (omega arith))
          (rw e (removes count i p (length p - suc k) (omega arith))))

  -- From the start of a phrase, k timeouts write its first k units, for k up to its length; one more
  -- turns, k further ones remove its last k, and one more starts the next phrase, after the last one
  -- the first.
  pub cycle :
      (k : ℕ)
      → k ≤ length p
      → let s : State = record { phrase_index = i; text = []; is_deleting = false } in
        (ticks phrases k s ≡ some (record s { text = slice k p }))
        × (ticks phrases (k + suc (length p)) s
            ≡ some (record s { text = slice (length p - k) p; is_deleting = true }))
        × (ticks phrases (2 * length p + 2) s
            ≡ some (record s { phrase_index = (i + 1) % length phrases }))
  unfolding slice
  cycle k b = (
    writing-ticks k b,
    removing-ticks k b,
    let e : 2 * length p + 2 ≡ suc (length p + suc (length p)) = omega arith in
        let z : length p - length p ≡ 0 = omega arith in
        rw e (
          further (length p + suc (length p)) _ _ _ _ (removing-ticks (length p) (omega arith))
            (rw z (moves count i p))),
  )
