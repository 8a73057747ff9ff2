-- ===== src/Carousel/Laws.antt =====
-- components/dashboard/overview/DashboardCarousel.tsx: the shown slide.
use lifygo.Prelude.{
  ℕ, zero, suc, ◌+◌, ◌%◌, ◌<◌, ◌≡◌, refl, ◌∙◌, Bool, true, false, some, inl, inr, ltb, arith, In,
  String, not, ap, Bool-cases,
}
use lifygo.Html.{Html, gestures, offers, offers_of_In}
use lifygo.Carousel.{
  State, initial, Call, prev_slide, next_slide, set_current, click, mouse_enter, mouse_leave,
  interval, happen, slide_at, slides, view, slide_panel, Slide,
}

-- A click is possible on a control of the rendered carousel, anything else always.
pub data Step : State → State → Type 0 where
  clicks :
      (s : State) (h : Html Call) (v : String) (e : Call)
      → view s ≡ some h
      → In e (gestures v h)
      → Step s (happen (click e) s)
  enters : (s : State) → Step s (happen mouse_enter s)
  leaves : (s : State) → Step s (happen mouse_leave s)
  elapses : (s : State) → Step s (happen interval s)

pub data Reach : State → Type 0 where
  here : Reach initial
  next : {s t : State} → Reach s → Step s t → Reach t

slide_in_range : (i : ℕ) → i < 3 → (x : Slide) × (slide_at slides i ≡ some x)
unfolding slide_at
slide_in_range zero b = (_, refl)
slide_in_range (suc zero) b = (_, refl)
slide_in_range (suc (suc zero)) b = (_, refl)
slide_in_range (suc (suc (suc i))) b = absurd (omega arith)

shown : (s : State) → s.current < 3 → (x : Slide) × (view s ≡ some (slide_panel s x))
unfolding view
shown s b = let (x, e) = slide_in_range s.current b in (x, rw e refl)

abbrev leaves_range : Call → Bool
leaves_range (set_current i) = not (ltb i 3)
leaves_range _ = false

dots_in_range :
    (s : State) (x : Slide) (v : String) → offers leaves_range v (slide_panel s x) ≡ false
unfolding slide_panel offers
dots_in_range s x v = refl

offered :
    (s : State) (h : Html Call) (v : String) (e : Call)
    → view s ≡ some h
    → In e (gestures v h)
    → s.current < 3
    → leaves_range e ≡ false
offered s h v e q i b =
    let (x, shows) = shown s b in
    let same : h ≡ slide_panel s x = cc in
    elim (Bool-cases (leaves_range e)) [
      | inl t ↦ absurd (
          ground (
            arith,
            offers_of_In leaves_range v h i t,
            ap (offers leaves_range v) same,
            dots_in_range s x v,
          ))
      | inr f ↦ f
    ]

click-bound :
    (e : Call) (s : State)
    → leaves_range e ≡ false
    → s.current < 3
    → (happen (click e) s).current < 3
unfolding happen
click-bound prev_slide s f b = ground arith
click-bound next_slide s f b = ground arith
click-bound (set_current i) s f b = ground arith

Step-bound : {s t : State} → Step s t → s.current < 3 → t.current < 3
Step-bound (clicks s h v e q i) b = click-bound e s (offered s h v e q i b) b
Step-bound (enters s) b = unfold happen in b
Step-bound (leaves s) b = unfold happen in b
Step-bound (elapses s) b = unfold happen in ground arith

Reach-bound : {s : State} → Reach s → s.current < 3
Reach-bound here = omega arith
Reach-bound (next r st) = Step-bound st (Reach-bound r)

-- In every reachable state the carousel renders.
pub renders : {s : State} → Reach s → (h : Html Call) × (view s ≡ some h)
renders r = let (x, e) = shown _ (Reach-bound r) in (slide_panel _ x, e)

-- n intervals.
abbrev pub intervals : ℕ → State → State
intervals zero s = s
intervals (suc n) s = happen interval (intervals n s)

undo_next :
    (s : State) → s.current < 3 → happen (click prev_slide) (happen (click next_slide) s) ≡ s
unfolding happen
undo_next s b = ap (λ i. record s { current = i }) (ground arith)

undo_prev :
    (s : State) → s.current < 3 → happen (click next_slide) (happen (click prev_slide) s) ≡ s
unfolding happen
undo_prev s b = ap (λ i. record s { current = i }) (ground arith)

intervals_hovered : (n : ℕ) (s : State) → s.is_hovered ≡ true → intervals n s ≡ s
unfolding happen
intervals_hovered zero s h = refl
intervals_hovered (suc n) s h = rw (intervals_hovered n s h, h) refl

next_mod :
    (s : State) (k : ℕ)
    → s.is_hovered ≡ false
    → s.current ≡ k % 3
    → (happen interval s).current ≡ (suc k) % 3
unfolding happen
next_mod s k h e = ground arith

free : (n : ℕ) (s : State) → s.is_hovered ≡ false → (intervals n s).is_hovered ≡ false
unfolding happen
free zero s h = h
free (suc n) s h = ground (arith, free n s h)

intervals_free :
    (n : ℕ) (s : State)
    → s.current < 3
    → s.is_hovered ≡ false
    → (intervals n s).current ≡ (s.current + n) % 3
intervals_free zero s b h = omega arith
intervals_free (suc n) s b h =
    next_mod (intervals n s) (s.current + n) (free n s h) (intervals_free n s b h) ∙ omega arith

-- From a slide that exists, the buttons undo one another, and n intervals without the pointer over
-- the carousel lead n slides on, around the end; with it they change nothing.
pub rotation :
    (s : State) (n : ℕ)
    → s.current < 3
    → (happen (click prev_slide) (happen (click next_slide) s) ≡ s)
      × (happen (click next_slide) (happen (click prev_slide) s) ≡ s)
      × (s.is_hovered ≡ false → (intervals n s).current ≡ (s.current + n) % 3)
      × (s.is_hovered ≡ true → intervals n s ≡ s)
rotation s n b = (undo_next s b, undo_prev s b, intervals_free n s b, intervals_hovered n s)
