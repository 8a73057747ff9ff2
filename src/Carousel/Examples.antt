-- ===== src/Carousel/Examples.antt =====
-- The theorems about the carousel at concrete inputs.
use lifygo.Prelude.{[], ◌∷◌, ◌≡◌, refl, false, some, inl}
use lifygo.Html.{Html, gestures}
use lifygo.Carousel.{Slide, slides, State, initial, Call, prev_slide, happen, view, slide_panel}
use lifygo.Carousel.Laws.{clicks, Reach, here, next, renders}

abbrev last : State
last = record { current = 2; is_hovered = false }

abbrev first : Slide
first = elim slides [
  | [] ↦ record { tag = ""; title = ""; description = ""; action_text = ""; action_href = "" }
  | x ∷ xs ↦ x
]

one_back : Reach last
unfolding happen
one_back =
    let r0 : Reach initial = here in
    next r0 (
      clicks initial (slide_panel initial first) "" prev_slide (unfold view in refl)
        (unfold slide_panel gestures in inl refl))

renders_example : (h : Html Call) × (view last ≡ some h)
renders_example = renders one_back
