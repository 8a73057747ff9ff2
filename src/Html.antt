-- ===== src/Html.antt =====
-- The element tree that a page renders, with the handlers that its controls carry. `E` is the
-- type of the page's handler calls. Fixed class names carry no behaviour and are left out.
use lifygo.Prelude.{
  JsNumber, ℕ, Bool, true, false, ◌||◌, ◌≡◌, refl, List, [], ◌∷◌, ◌++◌, String, arith,
  if◌then◌else◌, any, any-append, In, any_of_In, length, ◌==◌, sym, ◌∙◌,
}

pub data Attr (E : Type 0) : Type 0 where
  attr : String → String → Attr E
  attr_number : String → JsNumber → Attr E
  disabled : Bool → Attr E
  on_click : E → Attr E
  on_change : (String → E) → Attr E
  on_key : (String → List E) → Attr E

infixr 60 ◌<+>◌
pub data Html (E : Type 0) : Type 0 where
  nothing : Html E
  text : String → Html E
  -- a number, which React prints
  number : ℕ → Html E
  ◌<+>◌ : Html E → Html E → Html E
  el : String → List (Attr E) → Html E → Html E

module _ {E : Type 0} where
  -- `items.map((x) => …)` in a tree.
  abbrev pub each : {A : Type 0} → (A → Html E) → List A → Html E
  each f [] = nothing
  each f (x ∷ xs) = f x <+> each f xs

  -- `{test && (…)}`.
  abbrev pub when : Bool → Html E → Html E
  when true h = h
  when false h = nothing

  abbrev pub icon : String → Html E
  icon name = el name [] nothing

  is_disabled : List (Attr E) → Bool
  is_disabled [] = false
  is_disabled (disabled b ∷ ats) = b || is_disabled ats
  is_disabled (a ∷ ats) = is_disabled ats

  -- What an element's own handlers call when it is clicked, or `v` is typed or pressed in it.
  own : String → List (Attr E) → List E
  own v [] = []
  own v (on_click e ∷ ats) = e ∷ own v ats
  own v (on_change f ∷ ats) = f v ∷ own v ats
  own v (on_key f ∷ ats) = f v ++ own v ats
  own v (a ∷ ats) = own v ats

  -- All handler calls that a user can cause on a rendered tree. A disabled control makes none.
  unfoldable pub gestures : String → Html E → List E
  unfolding is_disabled own
  gestures v nothing = []
  gestures v (text t) = []
  gestures v (number n) = []
  gestures v (a <+> b) = gestures v a ++ gestures v b
  gestures v (el tag ats h) = (if is_disabled ats then [] else own v ats) ++ gestures v h

  -- Whether one of them passes a test.
  unfoldable pub offers : (E → Bool) → String → Html E → Bool
  unfolding is_disabled own
  offers p v nothing = false
  offers p v (text t) = false
  offers p v (number n) = false
  offers p v (a <+> b) = offers p v a || offers p v b
  offers p v (el tag ats h) = any p (if is_disabled ats then [] else own v ats) || offers p v h

  pub any-gestures : (p : E → Bool) (v : String) (h : Html E) → any p (gestures v h) ≡ offers p v h
  unfolding gestures offers
  any-gestures p v nothing = refl
  any-gestures p v (text t) = refl
  any-gestures p v (number n) = refl
  any-gestures p v (a <+> b) =
      rw (any-append p (gestures v a) (gestures v b), any-gestures p v a, any-gestures p v b)
  any-gestures p v (el tag ats h) =
      rw (
        any-append p (if is_disabled ats then [] else own v ats) (gestures v h),
        any-gestures p v h,
      )

  -- A call that can be caused and passes the test is offered.
  pub offers_of_In :
      (p : E → Bool) (v : String) (h : Html E) {e : E}
      → In e (gestures v h)
      → p e ≡ true
      → offers p v h ≡ true
  offers_of_In p v h i t = sym (any-gestures p v h) ∙ any_of_In p (gestures v h) i t

  -- A list whose items offer nothing offers nothing.
  pub offers-each_none :
      {A : Type 0} (p : E → Bool) (v : String) (f : A → Html E) (xs : List A)
      → ((x : A) → offers p v (f x) ≡ false)
      → offers p v (each f xs) ≡ false
  unfolding offers
  offers-each_none p v f [] h = refl
  offers-each_none p v f (x ∷ xs) h = rw (h x, offers-each_none p v f xs h)

  -- `{test ? (…) : (…)}`.
  abbrev pub choose : Bool → Html E → Html E → Html E
  choose true a b = a
  choose false a b = b

  abbrev pub div : Html E → Html E
  div h = el "div" [] h

  abbrev pub span : Html E → Html E
  span h = el "span" [] h

  abbrev pub para : Html E → Html E
  para h = el "p" [] h

  pub offers-choose :
      (p : E → Bool) (v : String) (t : Bool) (a b : Html E)
      → offers p v (choose t a b) ≡ (if t then offers p v a else offers p v b)
  offers-choose p v true a b = refl
  offers-choose p v false a b = refl

  -- What a list offers, some item does.
  pub offers-each :
      {A : Type 0} (p : E → Bool) (q : A → Bool) (v : String) (f : A → Html E) (xs : List A)
      → ((x : A) → offers p v (f x) ≡ q x)
      → offers p v (each f xs) ≡ any q xs
  unfolding offers
  offers-each p q v f [] h = refl
  offers-each p q v f (x ∷ xs) h = rw (h x, offers-each p q v f xs h)

  -- `{xs.length === 0 ? (…) : (…)}`, where the first tree offers nothing.
  pub offers-choose_list :
      {A : Type 0} (p : E → Bool) (q : A → Bool) (v : String) (xs : List A) (a b : Html E)
      → offers p v a ≡ false
      → offers p v b ≡ any q xs
      → offers p v (choose (length xs == 0) a b) ≡ any q xs
  offers-choose_list p q v [] a b h k = h
  offers-choose_list p q v (x ∷ xs) a b h k = ground arith
