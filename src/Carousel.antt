-- ===== src/Carousel.antt =====
-- components/dashboard/overview/DashboardCarousel.tsx: the carousel of hints on the overview page.
pub mod Laws
mod Examples
use lifygo.Prelude.{
  ℕ, zero, suc, ◌+◌, ◌-◌, Bool, true, false, Option, none, some, List, [], ◌∷◌, String, length,
  ◌==◌, if◌then◌else◌,
}
use lifygo.Html.{Html, text, ◌<+>◌, el, attr, on_click, icon, div, span, para, nothing}

pub record Slide : Type 0 where
  pub tag : String
  pub title : String
  pub description : String
  pub action_text : String
  pub action_href : String

abbrev pub slides : List Slide
slides =
    record {
      tag = "Email";
      title = "Your emails go through Resend";
      description =
          "Free tier emails are delivered via the LifyGo Resend relay. Set your from address and you are done. No SMTP config, no DNS records, no domain verification.";
      action_text = "Configure from address";
      action_href = "/dashboard/smtp";
    }
    ∷ record {
      tag = "Security";
      title = "API keys should never leave your server";
      description =
          "Make all LifyGo calls from your backend. Never expose your API key in client side code or mobile apps. A leaked key can send emails as you.";
      action_text = "Manage API keys";
      action_href = "/dashboard/api-keys";
    }
    ∷ record {
      tag = "Jobs";
      title = "Schedule anything with a cron expression";
      description =
          "Create recurring webhooks or email jobs. Every execution is logged with status, duration, and response code. One time jobs mark themselves complete after first run.";
      action_text = "View your jobs";
      action_href = "/dashboard/jobs";
    }
    ∷ []

pub record State : Type 0 where
  pub current : ℕ
  pub is_hovered : Bool

abbrev pub initial : State
initial = record { current = 0; is_hovered = false }

pub data Call : Type 0 where
  -- the buttons, and the dot of a slide
  prev_slide next_slide : Call
  set_current : ℕ → Call

-- What happens to the carousel: a click, the pointer, or six seconds on the page's clock.
pub data Event : Type 0 where
  click : Call → Event
  mouse_enter mouse_leave interval : Event

unfoldable pub next_slide_of : ℕ → ℕ
next_slide_of prev = if prev == length slides - 1 then 0 else prev + 1

unfoldable pub prev_slide_of : ℕ → ℕ
prev_slide_of prev = if prev == 0 then length slides - 1 else prev - 1

unfoldable pub clicked : Call → State → State
unfolding next_slide_of prev_slide_of
clicked prev_slide s = record s { current = prev_slide_of s.current }
clicked next_slide s = record s { current = next_slide_of s.current }
clicked (set_current i) s = record s { current = i }

-- The effect keeps no interval while the pointer is over the carousel.
unfoldable pub happen : Event → State → State
unfolding clicked next_slide_of
happen (click e) s = clicked e s
happen mouse_enter s = record s { is_hovered = true }
happen mouse_leave s = record s { is_hovered = false }
happen interval s = if s.is_hovered then s else record s { current = next_slide_of s.current }

-- `slides[i]`; `none` is `undefined`, of which the render reads a property and throws.
unfoldable pub slide_at : List Slide → ℕ → Option Slide
slide_at [] i = none
slide_at (x ∷ xs) zero = some x
slide_at (x ∷ xs) (suc i) = slide_at xs i

-- The dots of the slides from the index `i` on.
dots : ℕ → ℕ → List Slide → Html Call
dots current i [] = nothing
dots current i (x ∷ xs) =
    el "button"
      (on_click (set_current i)
        ∷ attr "className" (
            if i == current
            then "w-6 bg-foreground"
            else "w-2 bg-muted hover:bg-muted-foreground/40")
        ∷ [])
      nothing
    <+> dots current (i + 1) xs

unfoldable pub slide_panel : State → Slide → Html Call
unfolding dots
slide_panel s x = div (
    div (
      div (
        div (span (text "Did you know") <+> span nothing <+> span (text x.tag))
        <+> div (
            el "button" (on_click prev_slide ∷ []) (icon "ChevronLeft")
            <+> el "button" (on_click next_slide ∷ []) (icon "ChevronRight")))
      <+> div (el "h3" [] (text x.title) <+> para (text x.description))
      <+> div (
          el "a" (attr "href" x.action_href ∷ []) (text x.action_text <+> icon "ArrowRight")
          <+> div (dots s.current 0 slides))))

-- The rendered carousel; `none` if the render throws.
unfoldable pub view : State → Option (Html Call)
unfolding slide_at
view s = elim (slide_at slides s.current) [ none ↦ none | some x ↦ some (slide_panel s x) ]
