-- ===== src/Dashboard/View.antt =====
-- The rendered frame: the sidebar, the header, and the menu of the user under the local provider. A
-- page's own content is left out; the menus' contents are kept in the tree.
use lifygo.Prelude.{Option, none, some, [], ◌∷◌, String, if◌then◌else◌, truthy, or_else}
use lifygo.Html.{Html, nothing, text, ◌<+>◌, el, attr, on_click, icon, div, span, choose, each}
use lifygo.Session.{User}
use lifygo.Dashboard.{
  State, Call, toggle_sidebar, sign_out, follow, opens_tab, theme_toggle, NavItem, nav_items,
  is_active, crumb, initials,
}

abbrev link : String → Html Call → Html Call
link href h = el "Link" (attr "href" href ∷ on_click (follow href) ∷ []) h

abbrev toggle_label : State → String
toggle_label s = if s.sidebar_open then "Collapse sidebar" else "Expand sidebar"

abbrev sidebar_header : State → Html Call
sidebar_header s =
    link "https://lifygo.com" (div (icon "Image") <+> div (icon "Image"))
    <+> el "SidebarMenuButton"
        (attr "tooltip" (toggle_label s)
          ∷ attr "aria-label" (toggle_label s)
          ∷ on_click toggle_sidebar
          ∷ [])
        (choose s.sidebar_open (icon "ChevronLeft") (icon "ChevronRight"))

unfoldable pub item_button : String → NavItem → Html Call
item_button pathname item =
    el "SidebarMenuButton"
      (attr "isActive" (if is_active pathname item then "true" else "false")
        ∷ attr "tooltip" item.label
        ∷ [])
      (link item.href (icon item.icon_name <+> span (text item.label)))

-- The user's initials, or an icon.
abbrev avatar : String → Html Call
avatar letters = choose (truthy letters) (span (text letters)) (icon "User")

unfoldable pub user_menu : (String → String) → Option User → Html Call
unfolding initials
user_menu to_upper none = nothing
user_menu to_upper (some user) =
    el "Button" [] (avatar (initials to_upper user.name))
    <+> div (
        div (avatar (initials to_upper user.name))
        <+> div (span (text (or_else user.name "User Account")) <+> span (text user.email)))
    <+> el "DropdownMenuItem" (on_click sign_out ∷ []) (icon "LogOut" <+> text "Sign out")

abbrev breadcrumb : String → Html Call
breadcrumb pathname = el "nav" [] (
    link "/dashboard" (icon "LayoutDashboard" <+> span (text "Dashboard"))
    <+> elim (crumb pathname) [
      | none ↦ nothing
      | some title ↦ icon "ChevronRight" <+> span (text title)
    ])

abbrev quick_actions : Html Call
quick_actions =
    el "Button" [] (icon "Plus" <+> span (text "Quick Action"))
    <+> el "DropdownMenuLabel" [] (text "New Dispatch")
    <+> link "/dashboard/jobs?type=webhook" (icon "Webhook" <+> span (text "Schedule Webhook"))
    <+> link "/dashboard/jobs?type=email" (icon "Send" <+> span (text "Send Email Job"))

unfoldable pub header : String → Html Call
unfolding crumb
header pathname = el "header" [] (
    breadcrumb pathname
    <+> div (
        quick_actions
        <+> el "a"
            (attr "href" "https://docs.lifygo.com"
              ∷ attr "target" "_blank"
              ∷ on_click (opens_tab "https://docs.lifygo.com")
              ∷ [])
            (icon "BookOpen")
        <+> span (text "Documentation")
        <+> div (text "v1.0.4-prod")
        <+> el "ThemeToggle" (on_click theme_toggle ∷ []) nothing
        <+> el "Button" (attr "aria-label" "Sign out" ∷ on_click sign_out ∷ []) (icon "LogOut")
        <+> span (text "Sign out")))

unfoldable pub view : (String → String) → String → Option User → State → Html Call
unfolding item_button user_menu header
view to_upper pathname user s =
    el "Sidebar" [] (
      el "SidebarHeader" [] (sidebar_header s)
      <+> each (item_button pathname) nav_items
      <+> el "SidebarFooter" [] (span (text "System online") <+> user_menu to_upper user))
    <+> header pathname
