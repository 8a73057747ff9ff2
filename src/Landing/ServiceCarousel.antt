-- ===== src/Landing/ServiceCarousel.antt =====
-- components/sections/CarouselPage.tsx: the three services, one of which is shown.
use lifygo.Prelude.{
  ℕ, ◌+◌, ◌≡◌, refl, Bool, false, Option, none, some, List, [], ◌∷◌, String, ◌==◌, if◌then◌else◌,
  elem_at, not, ltb,
}
use lifygo.Html.{Html, text, ◌<+>◌, el, attr, on_click, div, span, para, nothing, offers}

pub record Feature : Type 0 where
  pub id : String
  pub title : String
  pub description : String
  pub image : String

abbrev pub features : List Feature
features =
    record {
      id = "01";
      title = "Transactional email & OTP";
      description =
          "Send welcome emails, password resets, and alerts through your own SMTP or our free relay. Verify users with single-use OTP codes — no shared IP pools, no per-message fees.";
      image = "jobs.png";
    }
    ∷ record {
      id = "02";
      title = "Cron jobs & webhooks";
      description =
          "Schedule recurring webhooks that hit any URL on a cron schedule. Use one-time or recurring jobs to trigger emails, clean databases, or run reports.";
      image = "logs.png";
    }
    ∷ record {
      id = "03";
      title = "API keys & logs";
      description =
          "Manage API keys per environment. Every send and every job execution is logged — full visibility into what your application is doing, with zero extra setup.";
      image = "apikey.png";
    }
    ∷ []

-- `activeIndex`
abbrev pub initial : ℕ
initial = 0

pub data Call : Type 0 where
  set_active_index : ℕ → Call

unfoldable pub clicked : Call → ℕ → ℕ
clicked (set_active_index i) active_index = i

-- `features.map((f, i) => …)`, from the index `i` on.
abbrev mapped : (ℕ → Feature → Html Call) → ℕ → List Feature → Html Call
mapped f i [] = nothing
mapped f i (x ∷ xs) = f i x <+> mapped f (i + 1) xs

abbrev tab : ℕ → ℕ → Feature → Html Call
tab active_index i f =
    el "button"
      (on_click (set_active_index i)
        ∷ attr "className" (
            if i == active_index
            then "bg-white text-neutral-900 shadow-sm ring-1 ring-neutral-200/50"
            else "text-neutral-500 hover:text-neutral-700")
        ∷ [])
      (text f.title)

abbrev dot : ℕ → ℕ → Feature → Html Call
dot active_index i f =
    el "button"
      (on_click (set_active_index i)
        ∷ attr "className"
            (if i == active_index then "w-6 bg-neutral-800" else "w-1.5 bg-neutral-200")
        ∷ [])
      nothing

abbrev screenshot : ℕ → ℕ → Feature → Html Call
screenshot active_index i f =
    el "img"
      (attr "src" f.image
        ∷ attr "alt" f.title
        ∷ attr "className" (if i == active_index then "block opacity-100" else "hidden opacity-0")
        ∷ [])
      nothing

unfoldable pub panel : ℕ → Feature → Html Call
panel active_index f = el "section" [] (
    div (
      span (text "Everything you need")
      <+> el "h2" [] (text "One API, three primitives.")
      <+> para (
          text
            "Stop stitching together SendGrid, Twilio, and cron jobs. LifyGo handles email, OTP, and scheduling in a single integration."))
    <+> div (mapped (tab active_index) 0 features)
    <+> div (
        div (
          span (text f.id)
          <+> el "h3" [] (text f.title)
          <+> para (text f.description)
          <+> div (mapped (dot active_index) 0 features))
        <+> div (div (mapped (screenshot active_index) 0 features))))

-- The rendered section; `none` if `features[activeIndex]` is `undefined`, of which it reads a property.
unfoldable pub view : ℕ → Option (Html Call)
unfolding panel
view active_index = elim (elem_at features active_index) [
  | none ↦ none
  | some f ↦ some (panel active_index f)
]

abbrev leaves_range : Call → Bool
leaves_range (set_active_index i) = not (ltb i 3)

-- No button of a rendered section selects a service that does not exist.
pub offers-panel : (i : ℕ) (f : Feature) (v : String) → offers leaves_range v (panel i f) ≡ false
unfolding panel offers
offers-panel i f v = refl
