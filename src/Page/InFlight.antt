-- ===== src/Page/InFlight.antt =====
-- A flag of a page's state that counts the calls of one kind in flight.
use lifygo.Prelude.{
  ℕ, ◌+◌, ◌≡◌, refl, sym, ap, ◌∙◌, Bool, true, false, List, [], ◌∷◌, ◌++◌, String, In, count,
  count-append, any, any-append, ◌⊎◌, if◌then◌else◌, arith, inl, inr,
}
use lifygo.Html.{gestures}
use lifygo.Page.{Page, System, settled, Step, press, settle, Reach, here, next}

abbrev pub bit : Bool → ℕ
bit b = if b then 1 else 0

bit_pos :
    {Q : Type 0} (kind : Q → Bool) (b : Bool) (q : Q) (before after : List Q)
    → kind q ≡ true
    → count kind before + count kind (q ∷ after) ≡ bit b
    → b ≡ true
bit_pos kind true q before after k e = refl
bit_pos kind false q before after k e = ground arith

-- A call of the kind that settles was counted, so the flag was set.
pub flag_set :
    {Q : Type 0} (kind : Q → Bool) (b : Bool) (q : Q) (calls before after : List Q)
    → calls ≡ before ++ q ∷ after
    → kind q ≡ true
    → count kind calls ≡ bit b
    → b ≡ true
flag_set kind b q calls before after e k c =
    let split = sym (ap (count kind) e) ∙ c in
    bit_pos kind b q before after k (omega (arith, count-append kind before (q ∷ after)))

-- What a page's handlers have to do for `busy` to say that a call of this kind is in flight.
pub record Tracks {S C Q D : Type 0} (P : Page S C Q D) (busy : S → Bool) (kind : Q → Bool)
    : Type 0 where
  pub at_start : count kind P.mount ≡ bit (busy P.initial)
  pub on_press :
      (s : S) (v : String) (e : C)
      → In e (gestures v (P.view s))
      → bit (busy s) + count kind (P.start e s).1 ≡ bit (busy (P.start e s).0)
  pub on_settle :
      (s : S) (d : D)
      → (kind (P.pending_of d) ≡ true → busy s ≡ true)
      → bit (busy s) + count kind (P.finish d s).1
        ≡ bit (busy (P.finish d s).0) + bit (kind (P.pending_of d))

module _ {S C Q D : Type 0} {P : Page S C Q D} {busy : S → Bool} {kind : Q → Bool}
    (h : Tracks P busy kind) where
  abbrev Counted : System S Q → Type 0
  Counted t = count kind t.in_flight ≡ bit (busy t.page)

  -- A call in flight is behind each completion.
  settled-Counted :
      (t : System S Q) (d : D) (before after : List Q)
      → t.in_flight ≡ before ++ P.pending_of d ∷ after
      → Counted t
      → Counted (settled P t d (before ++ after))
  settled-Counted t d before after e c =
      let q = P.pending_of d in
      let split = sym (ap (count kind) e) ∙ c in
      let parts = count-append kind before (q ∷ after) in
      let flagged : kind q ≡ true → busy t.page ≡ true =
        λ k. bit_pos kind (busy t.page) q before after k (omega arith) in
      omega (
        arith,
        count-append kind before after,
        count-append kind (before ++ after) (P.finish d t.page).1,
        h.on_settle t.page d flagged,
      )

  Step-Counted : {t u : System S Q} → Step P t u → Counted t → Counted u
  Step-Counted (press t v e i) c =
      omega (arith, count-append kind t.in_flight (P.start e t.page).1, h.on_press t.page v e i)
  Step-Counted (settle t d before after e) c = settled-Counted t d before after e c

  -- In every reachable state the flag is set exactly when one call of the kind is in flight, and
  -- there is never a second one.
  pub Reach-Counted : {t : System S Q} → Reach P t → count kind t.in_flight ≡ bit (busy t.page)
  Reach-Counted here = h.at_start
  Reach-Counted (next r st) = Step-Counted st (Reach-Counted r)

-- What the handlers have to do for `busy` to be set only while a call of the kind is in flight.
pub record Marks {S C Q D : Type 0} (P : Page S C Q D) (busy : S → Bool) (kind : Q → Bool)
    : Type 0 where
  pub at_start : busy P.initial ≡ false
  pub on_press :
      (s : S) (e : C)
      → busy (P.start e s).0 ≡ true
      → (busy s ≡ true) ⊎ (any kind (P.start e s).1 ≡ true)
  pub on_settle :
      (s : S) (d : D)
      → busy (P.finish d s).0 ≡ true
      → ((busy s ≡ true) × (kind (P.pending_of d) ≡ false)) ⊎ (any kind (P.finish d s).1 ≡ true)

any-remove :
    {Q : Type 0} (kind : Q → Bool) (q : Q) (before after : List Q)
    → kind q ≡ false
    → any kind (before ++ q ∷ after) ≡ true
    → any kind (before ++ after) ≡ true
any-remove kind q [] after k h = ground arith
any-remove kind q (x ∷ before) after k h = ground (arith, any-remove kind q before after k)

module _ {S C Q D : Type 0} {P : Page S C Q D} {busy : S → Bool} {kind : Q → Bool}
    (h : Marks P busy kind) where
  abbrev Marked : System S Q → Type 0
  Marked t = busy t.page ≡ true → any kind t.in_flight ≡ true

  settled-Marked :
      (t : System S Q) (d : D) (before after : List Q)
      → t.in_flight ≡ before ++ P.pending_of d ∷ after
      → Marked t
      → Marked (settled P t d (before ++ after))
  settled-Marked t d before after e m b = elim (h.on_settle t.page d b) [
    | inl (old, other) ↦ ground (
      arith,
      any-append kind (before ++ after) (P.finish d t.page).1,
      any-remove kind (P.pending_of d) before after other (sym (ap (any kind) e) ∙ m old),
    )
    | inr new ↦ ground (arith, any-append kind (before ++ after) (P.finish d t.page).1)
  ]

  Step-Marked : {t u : System S Q} → Step P t u → Marked t → Marked u
  Step-Marked (press t v e i) m b = elim (h.on_press t.page e b) [
    | inl old ↦ ground (arith, any-append kind t.in_flight (P.start e t.page).1, m old)
    | inr new ↦ ground (arith, any-append kind t.in_flight (P.start e t.page).1)
  ]
  Step-Marked (settle t d before after e) m b = settled-Marked t d before after e m b

  -- In every reachable state, a set flag means that a call of the kind is in flight.
  pub Reach-Marked : {t : System S Q} → Reach P t → busy t.page ≡ true → any kind t.in_flight ≡ true
  Reach-Marked here b = absurd (ground (arith, h.at_start))
  Reach-Marked (next r st) b = Step-Marked st (Reach-Marked r) b
