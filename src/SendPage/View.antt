-- ===== src/SendPage/View.antt =====
-- app/dashboard/send/page.tsx: the element tree of `SendPage`. The content of both tabs is kept in
-- the tree.
pub mod Offers
use lifygo.Prelude.{
  Bool, true, false, not, ◌&&◌, ◌||◌, ◌==◌, Option, none, some, List, [], ◌∷◌, String, truthy, trim,
  js_length, is_some,
}
use lifygo.Html.{
  Html, nothing, text, ◌<+>◌, el, Attr, attr, disabled, on_click, on_change, when, choose, icon,
  div, para,
}
use lifygo.Features.{SendOtpResponse}
use lifygo.Locale.{Locale}
use lifygo.SendPage.{
  State, Call, set_to, set_subject, set_body, set_otp_to, set_otp_code, send_email, send_otp,
  verify_otp, reset,
}

-- An `Input` under its `Label`.
input : String → String → String → String → (String → Call) → Bool → Html Call
input id label placeholder value change off = div (
    el "Label" (attr "htmlFor" id ∷ []) (text label)
    <+> el "Input"
        (attr "id" id
          ∷ attr "placeholder" placeholder
          ∷ attr "value" value
          ∷ on_change change
          ∷ disabled off
          ∷ [])
        nothing)

error_box : String → Html Call
error_box message = when (truthy message) (div (icon "AlertCircle" <+> para (text message)))

send_button : State → Html Call
send_button s =
    el "Button"
      (on_click send_email
        ∷ disabled (
            s.email_loading
            || not (truthy s.email_form.to)
            || not (truthy s.email_form.subject)
            || not (truthy s.email_form.body))
        ∷ [])
      (choose s.email_loading (icon "Loader2") (icon "Send") <+> text "Send Test Email")

email_panel : State → Html Call
unfolding input send_button
email_panel s = div (
    input "email-to" "Recipient" "recipient@example.com" s.email_form.to set_to s.email_loading
    <+> input "email-subject" "Subject" "Test Email Subject" s.email_form.subject set_subject
        s.email_loading
    <+> input "email-body" "Message Body" "Enter message body text..." s.email_form.body set_body
        s.email_loading
    <+> send_button s)

email_outcome : State → Html Call
unfolding error_box
email_outcome s = div (
    div (icon "Terminal" <+> el "h2" [] (text "Response Stream"))
    <+> error_box s.email_error
    <+> choose (is_some s.email_result)
        (div (
          icon "CheckCircle2"
          <+> div (
              para (text "Email sent successfully")
              <+> para (text "Your test email was accepted for delivery."))))
        (choose (not (truthy s.email_error)) (div (text "Awaiting dispatch request...")) nothing))

send_otp_button : State → Html Call
send_otp_button s =
    el "Button" (on_click send_otp ∷ disabled (s.otp_loading || not (truthy (trim s.otp_to))) ∷ [])
      (choose s.otp_loading (icon "Loader2") (icon "KeyRound") <+> text "Send Verification Code")

code_panel : State → Html Call
code_panel s = div (
    div (
      div (
        el "Label" (attr "htmlFor" "otp-code" ∷ []) (text "6-Digit Code")
        <+> el "button" (on_click reset ∷ []) (icon "RotateCcw" <+> text "Reset"))
      <+> el "Input"
          (attr "id" "otp-code"
            ∷ attr "placeholder" "000000"
            ∷ attr "value" s.otp_code
            ∷ attr "maxLength" "6"
            ∷ on_change set_otp_code
            ∷ disabled (s.verify_loading || is_some s.otp_result)
            ∷ [])
          nothing)
    <+> el "Button"
        (on_click verify_otp
          ∷ disabled (s.verify_loading || not (js_length s.otp_code == 6) || is_some s.otp_result)
          ∷ [])
        (choose s.verify_loading (icon "Loader2") (icon "ShieldCheck") <+> text "Verify Code"))

otp_panel : State → Html Call
unfolding input
otp_panel s = div (
    input "otp-to" "Recipient Target Email" "user@example.com" s.otp_to set_otp_to
      (is_some s.otp_sent || s.otp_loading)
    <+> choose (not (is_some s.otp_sent)) (send_otp_button s) (code_panel s))

expires_at : Locale → Option SendOtpResponse → String
expires_at env none = ""
expires_at env (some r) = env.time r.expires_at

-- The four boxes of `Authentication Status`: a failure, a code that is out, a verified code, and
-- nothing sent yet.
pub shows_pending : State → Bool
shows_pending s = is_some s.otp_sent && not (is_some s.otp_result) && not (truthy s.otp_error)

pub shows_awaiting : State → Bool
shows_awaiting s = not (is_some s.otp_sent) && not (truthy s.otp_error)

otp_outcome : Locale → State → Html Call
unfolding error_box expires_at shows_pending shows_awaiting
otp_outcome env s = div (
    div (icon "Terminal" <+> el "h2" [] (text "Authentication Status"))
    <+> error_box s.otp_error
    <+> when (shows_pending s) (
        div (
          icon "Clock"
          <+> div (
              para (text "Verification Code Sent")
              <+> para (text "Expires at " <+> text (expires_at env s.otp_sent)))))
    <+> when (is_some s.otp_result) (
        div (
          icon "ShieldCheck"
          <+> div (
              para (text "OTP Verified")
              <+> para (text "Identity token authenticated successfully."))))
    <+> when (shows_awaiting s) (div (text "Awaiting OTP dispatch...")))

page_tabs : Html Call
page_tabs = el "TabsList" [] (
    el "TabsTrigger" (attr "value" "email" ∷ []) (icon "Mail" <+> text "Transactional Email")
    <+> el "TabsTrigger" (attr "value" "otp" ∷ []) (icon "KeyRound" <+> text "OTP Verification"))

pub view : Locale → State → Html Call
unfolding page_tabs
view env s = div (
    div (
      el "h1" [] (text "API Playground")
      <+> para (text "Simulate email dispatches and test authentication workflows in real-time."))
    <+> el "Tabs" (attr "defaultValue" "email" ∷ []) (
        page_tabs
        <+> el "TabsContent" (attr "value" "email" ∷ []) (div (email_panel s <+> email_outcome s))
        <+> el "TabsContent" (attr "value" "otp" ∷ []) (div (otp_panel s <+> otp_outcome env s))))
