-- ===== src/Dashboard.antt =====
-- The frame of the dashboard's pages: app/dashboard/layout.tsx, components/dashboard/nav-items.ts,
-- dashboard-header.tsx and user-menu.tsx of the same folder.
pub mod View
pub mod Items
mod Examples
use lifygo.Prelude.{
  ℕ, zero, suc, Bool, true, false, not, Option, none, some, List, [], ◌∷◌, String, Char, code,
  if◌then◌else◌, ◌===◌, ◌==◌, truthy, keep, take, length, ltb, ◌≡◌, refl,
}
use lifygo.Query.{pieces}
use Prim.Native.String

-- `sidebarOpen`
pub record State : Type 0 where
  pub sidebar_open : Bool

abbrev pub initial : State
initial = record { sidebar_open = true }

pub data Call : Type 0 where
  toggle_sidebar sign_out : Call
  -- a link, followed here or in a new tab
  follow opens_tab : String → Call
  theme_toggle : Call

-- `setSidebarOpen((open) => !open)`; the other calls leave the layout's state.
unfoldable pub clicked : Call → State → State
clicked toggle_sidebar s = record { sidebar_open = not s.sidebar_open }
clicked _ s = s

-- `onOpenChange` of the sidebar's provider.
unfoldable pub open_changed : Bool → State → State
open_changed open' s = record { sidebar_open = open' }

pub record NavItem : Type 0 where
  pub href : String
  pub label : String
  pub icon_name : String

abbrev nav_item : String → String → String → NavItem
nav_item href label icon_name = record { href = href; label = label; icon_name = icon_name }

abbrev pub nav_items : List NavItem
nav_items =
    nav_item "/dashboard" "Overview" "LayoutDashboard"
    ∷ nav_item "/dashboard/smtp" "SMTP Config" "Server"
    ∷ nav_item "/dashboard/api-keys" "API Keys" "Key"
    ∷ nav_item "/dashboard/send" "Send Test" "Send"
    ∷ nav_item "/dashboard/logs" "Logs" "FileText"
    ∷ nav_item "/dashboard/jobs" "Jobs" "CalendarRange"
    ∷ []

-- The item of the shown page.
abbrev pub is_active : String → NavItem → Bool
is_active pathname item = pathname === item.href

-- `pathname.split("/").filter(Boolean)`.
unfoldable pub segments : String → List String
unfolding pieces
segments pathname = keep truthy (pieces b'/' pathname)

-- `s.replace(/-/g, " ")`.
dashes_as_spaces : String → String
dashes_as_spaces String.[] = ""
dashes_as_spaces (String.◌∷◌ c s) =
    let rest = dashes_as_spaces s in
    if code c == b'-' then String.◌∷◌ " " rest else String.◌∷◌ c rest

last_of : List String → Option String
last_of [] = none
last_of (s ∷ []) = some s
last_of (s ∷ t ∷ ss) = last_of (t ∷ ss)

-- What follows `Dashboard` in the breadcrumb, if there is more than one segment.
unfoldable pub crumb : String → Option String
unfolding segments dashes_as_spaces last_of
crumb pathname =
    if ltb 1 (length (segments pathname))
    then elim (last_of (segments pathname)) [ none ↦ none | some s ↦ some (dashes_as_spaces s) ]
    else none

-- `names.map((n) => n[0]).join("")`, of names in the basic plane of Unicode; the first of an empty one
-- is `undefined`, which joins as nothing.
firsts : List String → String
firsts [] = ""
firsts (String.[] ∷ names) = firsts names
firsts ((String.◌∷◌ c s) ∷ names) = String.◌∷◌ c (firsts names)

slice_text : ℕ → String → String
slice_text zero s = ""
slice_text (suc n) String.[] = ""
slice_text (suc n) (String.◌∷◌ c s) = String.◌∷◌ c (slice_text n s)

-- `initials`, with `toUpperCase` as a parameter; "" stands for `null`, which is tested alike.
unfoldable pub initials : (String → String) → String → String
unfolding firsts slice_text pieces
initials to_upper name =
    if truthy name then slice_text 2 (to_upper (firsts (pieces b' ' name))) else ""

crumb_test : crumb "/dashboard/api-keys" ≡ some "api keys"
unfolding crumb
crumb_test = refl

initials_test : initials (λ s. s) "Ada King  Lovelace" ≡ "AK"
unfolding initials
initials_test = refl
