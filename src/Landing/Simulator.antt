-- ===== src/Landing/Simulator.antt =====
-- components/useful/EmailDeliverySimulator.tsx: a delivery that is shown step by step, with three
-- seconds for each.
use lifygo.Prelude.{ℕ, zero, suc, ◌≡◌, refl, [], ◌∷◌}
use lifygo.Html.{Html, text, ◌<+>◌, el, attr, icon, div, span, para, nothing}

pub data Step : Type 0 where
  idle sending delivered : Step

-- The `setStep` of the interval.
unfoldable pub tick : Step → Step
tick idle = sending
tick sending = delivered
tick delivered = idle

-- n intervals from the first render.
unfoldable pub after : ℕ → Step
unfolding tick
after zero = idle
after (suc n) = tick (after n)

-- There is nothing to click.
pub data Call : Type 0 where

abbrev badge : Step → Html Call
badge sending =
    el "span" (attr "className" "bg-amber-50 text-amber-700 border border-amber-200" ∷ [])
      (text "POST /v1/send")
badge _ =
    el "span" (attr "className" "bg-neutral-50 text-neutral-600 border border-neutral-200" ∷ [])
      (text "READY")

abbrev router_panel : Step → Html Call
router_panel step = div (
    div (div (icon "Terminal" <+> span (text "LifyGo Core API Router")) <+> badge step)
    <+> div (
        div (
          span (text "# Payload")
          <+> el "pre" [] (
              text
                "{\n  \"to\": \"user@domain.com\",\n  \"template\": \"welcome_otp\",\n  \"vars\": { \"code\": \"482019\" }\n}"))
        <+> div (span (text "Transport Layer:") <+> span (text "Custom SMTP Server"))))

abbrev inbox : Html Call
inbox = div (
    div (
      div (
        div (icon "Mail" <+> span (text "Inbox (user@domain.com)"))
        <+> span (icon "CheckCircle2" <+> text " Delivered"))
      <+> div (
          div (div (text "Welcome to your app!") <+> div (text "From: security@yourdomain.com"))
          <+> para (
              text
                "Your verification identity protocol sequence is complete. Use the following code to authorize your production instance access token:")
          <+> div (text "482019")))
    <+> div (span (text "Latency: 42ms") <+> span (text "via TLS / Port 587")))

abbrev outcome_panel : Step → Html Call
outcome_panel idle = div (
    icon "Clock"
    <+> para (text "Awaiting API trigger...")
    <+> para (text "Payload will route in real-time."))
outcome_panel sending = div (
    div (div nothing)
    <+> para (text "Processing transactional delivery")
    <+> para (text "Bypassing internal queues..."))
outcome_panel delivered = inbox

unfoldable pub view : Step → Html Call
view step = div (
    div (span (text "Live Execution Stream"))
    <+> div (router_panel step <+> div (outcome_panel step)))

tick_thrice : (s : Step) → tick (tick (tick s)) ≡ s
unfolding tick
tick_thrice idle = refl
tick_thrice sending = refl
tick_thrice delivered = refl

-- Every three intervals the delivery is where it was.
pub after_round : (n : ℕ) → after (suc (suc (suc n))) ≡ after n
unfolding after
after_round n = tick_thrice (after n)
