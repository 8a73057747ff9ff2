-- ===== src/SmtpPage/View.antt =====
-- app/dashboard/smtp/page.tsx: the element tree of `SmtpPage`.
pub mod Offers
use lifygo.Prelude.{
  Bool, true, false, not, ◌||◌, ◌&&◌, List, [], ◌∷◌, ◌++◌, String, truthy, if◌then◌else◌,
}
use lifygo.Html.{
  Html, nothing, text, ◌<+>◌, el, Attr, attr, attr_number, disabled, on_click, on_change, when,
  choose, icon, div, span, para,
}
use lifygo.SmtpPage.{
  State, Call, set_from_address, set_host, set_port, set_username, set_password, save_from,
  save_smtp, remove, has_full_smtp, has_from,
}

error_banner : String → Html Call
error_banner message = when (truthy message) (div (icon "AlertCircle" <+> para (text message)))

success_banner : String → Html Call
success_banner message = when (truthy message) (div (icon "CheckCircle2" <+> para (text message)))

status_banner : State → Html Call
status_banner s = div (
    icon "Info"
    <+> div (
        choose (has_full_smtp s)
          (para (text "You are using your own SMTP server. Unlimited sending.")
            <+> para (text "All limits are lifted. You control the mail server."))
          (para (text "You are using the free relay.")
            <+> para (
                text
                  "Emails are sent via LifyGo. No SMTP configuration needed — just set your from address below."))))

spinner : Html Call
spinner = icon "Loader2"

remove_button : State → String → Html Call
unfolding spinner
remove_button s label =
    el "Button" (attr "variant" "ghost" ∷ on_click remove ∷ disabled (s.deleting || s.loading) ∷ [])
      (choose s.deleting spinner (text label))

-- The `From Address` card: its header, its input and its buttons.
from_card : State → Html Call
unfolding spinner remove_button
from_card s = div (
    div (
      span (text "From Address")
      <+> div (
          el "span"
            (attr "className" (if has_from s.config then "bg-emerald-500" else "bg-amber-500") ∷ [])
            nothing
          <+> span (text (if has_from s.config then "Configured" else "Not set"))))
    <+> div (
        div (
          el "Label" (attr "htmlFor" "from_address" ∷ []) (text "From Address")
          <+> el "Input"
              (attr "id" "from_address"
                ∷ attr "name" "from_address"
                ∷ attr "placeholder" "hello@yourdomain.com"
                ∷ attr "value" s.from_address
                ∷ on_change set_from_address
                ∷ [])
              nothing
          <+> para (text "The address your recipients see as the sender.")))
    <+> div (
        para (text "Your from address is all you need. Everything else is handled by LifyGo.")
        <+> div (
            when (has_from s.config) (remove_button s "Remove")
            <+> el "Button"
                (on_click save_from
                  ∷ disabled (s.loading || s.deleting || not (truthy s.from_address))
                  ∷ [])
                (when s.loading spinner
                  <+> text (if has_from s.config then "Update" else "Save")))))

-- An `Input` of a server form under its `Label` and a note beside that.
server_input : String → String → Html Call → String → List (Attr Call) → Html Call
server_input name label note placeholder rest = div (
    el "Label" (attr "htmlFor" name ∷ []) (text label)
    <+> note
    <+> el "Input" (attr "id" name ∷ attr "name" name ∷ attr "placeholder" placeholder ∷ rest)
        nothing)

-- The inputs that both server forms have: they differ in the password's label and hint.
server_inputs : State → Html Call → String → Html Call
unfolding server_input
server_inputs s note hint = div (
    div (
      server_input "host" "Host" nothing "smtp.gmail.com"
        (attr "value" s.smtp.host ∷ on_change set_host ∷ [])
      <+> server_input "port" "Port" nothing "587"
          (attr "type" "number" ∷ attr_number "value" s.smtp.port ∷ on_change set_port ∷ []))
    <+> server_input "username" "Username" nothing "you@domain.com"
        (attr "value" s.smtp.username ∷ on_change set_username ∷ [])
    <+> server_input "password" "Password" note hint
        (attr "type" "password" ∷ attr "value" s.smtp.password ∷ on_change set_password ∷ []))

save_smtp_button : State → String → Html Call
unfolding spinner
save_smtp_button s label =
    el "Button"
      (on_click save_smtp ∷ disabled (s.loading || s.deleting || not (truthy s.smtp.host)) ∷ [])
      (choose s.loading spinner (text label))

-- The card for a first server, and the card for the one in use.
connect_card : State → Html Call
unfolding server_inputs save_smtp_button
connect_card s = div (
    div (span (text "Bring your own SMTP (optional)"))
    <+> server_inputs s nothing "Enter your SMTP password"
    <+> div (save_smtp_button s "Connect SMTP"))

edit_card : State → Html Call
unfolding server_inputs save_smtp_button remove_button
edit_card s = div (
    div (
      span (text "SMTP Server Settings")
      <+> div
          (el "span" (attr "className" "bg-emerald-500" ∷ []) nothing <+> span (text "Connected")))
    <+> server_inputs s (span (text "Encrypted at rest")) "Enter new password"
    <+> div (remove_button s "Disconnect" <+> save_smtp_button s "Save Changes"))

self_host_note : Html Call
self_host_note = para (
    text "Want unlimited sending and full control?"
    <+> text " "
    <+> el "a"
        (attr "href" "https://docs.lifygo.com/guides/self-hosting"
          ∷ attr "target" "_blank"
          ∷ attr "rel" "noopener noreferrer"
          ∷ [])
        (text "Self-host LifyGo")
    <+> text " "
    <+> text "and bring your own SMTP.")

pub view : State → Html Call
unfolding error_banner success_banner status_banner self_host_note
view s = div (
    div (
      el "h1" [] (text "Email Configuration")
      <+> para (text "Set the address your recipients see. LifyGo handles delivery."))
    <+> error_banner s.error
    <+> success_banner s.success
    <+> status_banner s
    <+> from_card s
    <+> when (not (has_full_smtp s)) (connect_card s)
    <+> when (has_full_smtp s) (edit_card s)
    <+> when (not (has_full_smtp s)) self_host_note)
