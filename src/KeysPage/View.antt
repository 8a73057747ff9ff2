-- ===== src/KeysPage/View.antt =====
-- app/dashboard/api-keys/page.tsx: the element tree of `ApiKeysPage`.
pub mod Offers
use lifygo.Prelude.{
  Bool, true, false, not, ◌||◌, ◌==◌, Option, none, some, List, [], ◌∷◌, String, length, truthy,
  trim,
}
use lifygo.Html.{
  Html, nothing, text, ◌<+>◌, el, Attr, attr, disabled, on_click, on_change, on_key, each, when,
  choose, icon, div, span, para,
}
use lifygo.Features.{ApiKey, ApiKeyResponse}
use lifygo.Locale.{Locale}
use lifygo.KeysPage.{State, Call, set_name, key_down, create, delete, copy, is_id}

error_banner : String → Html Call
error_banner message = when (truthy message) (div (icon "AlertCircle" <+> para (text message)))

-- The box with the raw key, while there is a new key.
new_key_box : State → Option ApiKeyResponse → Html Call
new_key_box s none = nothing
new_key_box s (some k) = div (
    div (el "h3" [] (text "Save your new API key"))
    <+> para (
        text
          "For security reasons, we will only show this key once. Please copy it and store it somewhere safe.")
    <+> div (
        el "code" [] (text k.key)
        <+> el "Button" (on_click (copy k.key) ∷ attr "variant" "outline" ∷ []) (
            choose s.copied (icon "Check" <+> span (text "Copied"))
              (icon "Copy" <+> span (text "Copy")))))

create_panel : State → Html Call
create_panel s = div (
    el "h2" [] (text "Create new key")
    <+> div (
        el "Input"
          (attr "placeholder" "e.g. Production Worker"
            ∷ attr "value" s.name
            ∷ on_change set_name
            ∷ on_key (λ key. key_down key ∷ [])
            ∷ disabled s.loading
            ∷ [])
          nothing
        <+> el "Button" (on_click create ∷ disabled (s.loading || not (truthy (trim s.name))) ∷ [])
            (when s.loading (icon "Loader2") <+> text "Generate Key")))

last_used : Locale → Option String → Html Call
last_used env none = span (text "Unused")
last_used env (some t) = choose (truthy t) (text (env.date t)) (span (text "Unused"))

key_row : Locale → State → ApiKey → Html Call
unfolding last_used
key_row env s k = el "tr" [] (
    el "td" [] (text k.name)
    <+> el "td" [] (text (env.date k.created_at))
    <+> el "td" [] (last_used env k.last_used_at)
    <+> el "td" [] (
        el "Button"
          (attr "variant" "ghost"
            ∷ attr "size" "icon"
            ∷ on_click (delete k.id)
            ∷ disabled (is_id s.deleting k.id)
            ∷ attr "title" "Revoke key"
            ∷ [])
          (choose (is_id s.deleting k.id) (icon "Loader2") (icon "Trash2"))))

no_keys : Html Call
no_keys = div (text "No API keys configured.")

keys_table : Locale → State → Html Call
unfolding key_row
keys_table env s = div (
    el "table" [] (
      el "thead" [] (
        el "tr" [] (
          el "th" [] (text "Name")
          <+> el "th" [] (text "Created")
          <+> el "th" [] (text "Last Used")
          <+> el "th" [] nothing))
      <+> el "tbody" [] (each (key_row env s) s.keys)))

keys_panel : Locale → State → Html Call
keys_panel env s = choose (length s.keys == 0) no_keys (keys_table env s)

pub view : Locale → State → Html Call
unfolding error_banner
view env s = div (
    div (
      el "h1" [] (text "API Keys")
      <+> para (
          text
            "Manage your secret tokens to securely authenticate programmatic requests to the API."))
    <+> error_banner s.error
    <+> new_key_box s s.new_key
    <+> div (create_panel s <+> div (keys_panel env s)))
