-- ===== src/Site/View.antt =====
-- The rendered navbar and footer, and `LayoutWrapper` around a page's own content, which is left out.
use lifygo.Prelude.{
  Bool, true, false, not, ◌||◌, none, some, List, [], ◌∷◌, String, if◌then◌else◌, ℕ,
}
use lifygo.Html.{
  Html, nothing, text, number, ◌<+>◌, el, attr, on_click, icon, div, span, para, choose, when, each,
}
use lifygo.Site.{Navbar, Call, toggle_menu, toggle_features, follow, opens_tab, Site, is_dashboard}

-- A link that is followed in the same tab.
abbrev pub link : Bool → String → Html Call → Html Call
link closes href h = el "Link" (attr "href" href ∷ on_click (follow closes href) ∷ []) h

-- `target="_blank"`.
abbrev pub tab_link : Bool → String → Html Call → Html Call
tab_link closes href h =
    el "a" (attr "href" href ∷ attr "target" "_blank" ∷ on_click (opens_tab closes href) ∷ []) h

abbrev feature_link : String → String → String → Html Call
feature_link name title description =
    link false "/dashboard" (div (icon name) <+> div (div (text title) <+> para (text description)))

abbrev core_features : Html Call
core_features = div (
    div (text "Core Features")
    <+> para (text "Powerful tools for your infrastructure.")
    <+> div (
        feature_link "Mail" "Transactional Email & OTP"
          "Send emails and passcodes via your SMTP without shared infra."
        <+> feature_link "Webhook" "Cron Jobs & Scheduling"
            "Schedule recurring webhooks to any endpoint cleanly."))

abbrev get_started : Html Call
get_started = div (
    div (text "Get Started")
    <+> el "h3" [] (text "Build without limits.")
    <+> para (
        text
          "Integrate effortlessly. View our guides to master scheduling and email delivery in minutes.")
    <+> div (
        tab_link false "https://docs.lifygo.com" (text "Read the docs" <+> icon "ArrowRight")
        <+> link false "/dashboard" (text "Go to dashboard" <+> icon "ArrowRight")
        <+> link false "/security" (icon "ShieldAlert" <+> text "Important Security Notice")))

abbrev desktop_menu : Html Call
desktop_menu = div (
    el "NavigationMenuTrigger" [] (text "Features")
    <+> div (core_features <+> get_started)
    <+> link false "/how-it-works" (text "How it works")
    <+> tab_link false "https://docs.lifygo.com" (text "Docs")
    <+> tab_link false "https://github.com/lifygo/lifygo" (icon "GithubIcon" <+> text "GitHub")
    <+> tab_link false "https://www.linkedin.com/company/lifygo/about/" (icon "LinkedInIcon"))

abbrev account_links : Html Call
account_links = div (
    link false "/sign-in" (text "Log in")
    <+> tab_link false "https://dashboard.lifygo.com" (text "Sign up"))

abbrev mobile_features : Html Call
mobile_features = div (
    link true "/dashboard" (icon "Mail" <+> text "Transactional Email & OTP")
    <+> link true "/dashboard" (icon "Webhook" <+> text "Cron Jobs & Scheduling")
    <+> div nothing
    <+> link false "https://docs.lifygo.com" (text "Read the docs")
    <+> link false "/dashboard" (text "Go to dashboard")
    <+> link false "/security" (text "Important Security Notice"))

abbrev mobile_account : Html Call
mobile_account = div (
    link true "/sign-in" (text "Log in")
    <+> tab_link true "https://dashboard.lifygo.com" (text "Sign up"))

abbrev mobile_menu : Navbar → Html Call
mobile_menu n = div (
    div (
      el "button" (on_click toggle_features ∷ []) (
        span (text "Features")
        <+> el "ChevronDown"
            (attr "className" (if n.mobile_features_open then "rotate-180" else "") ∷ []) nothing)
      <+> when n.mobile_features_open mobile_features)
    <+> link true "/how-it-works" (text "How it works")
    <+> tab_link false "https://docs.lifygo.com" (text "Docs")
    <+> tab_link false "https://github.com/lifygo/lifygo" (text "GitHub")
    <+> tab_link false "https://www.linkedin.com/company/lifygo/about/" (text "LinkedIn")
    <+> mobile_account)

abbrev top_bar : Navbar → Html Call
top_bar n = div (
    link false "/" (icon "Image")
    <+> desktop_menu
    <+> account_links
    <+> el "button" (on_click toggle_menu ∷ [])
        (choose n.mobile_menu_open (icon "X") (icon "Menu")))

unfoldable pub navbar_view : Navbar → Html Call
navbar_view n = div (
    el "header"
      (attr "className" (
          if n.scrolled || n.mobile_menu_open
          then "bg-[#0A0A0A]/90 backdrop-blur-md border-b border-white/[0.04]"
          else "bg-transparent border-b border-transparent")
        ∷ [])
      (top_bar n <+> when n.mobile_menu_open (mobile_menu n)))

-- A column of the footer, all of whose links open tabs.
abbrev tab_items : List (String × String) → Html Call
tab_items items = each (λ (href, title). el "li" [] (tab_link false href (text title))) items

abbrev footer_columns : Html Call
footer_columns = div (
    div (
      el "h4" [] (text "Product")
      <+> el "li" [] (link false "/how-it-works" (text "How it works"))
      <+> el "li" []
          (tab_link false "https://docs.lifygo.com" (text "Docs" <+> icon "ArrowUpRight"))
      <+> tab_items (("https://github.com/lifygo/lifygo", "GitHub") ∷ []))
    <+> div (
        el "h4" [] (text "Resources")
        <+> tab_items (
            ("https://docs.lifygo.com", "API Reference")
            ∷ ("https://docs.lifygo.com/guides/gmail-smtp", "Gmail SMTP guide")
            ∷ ("https://docs.lifygo.com/guides/self-hosting", "Self-hosting guide")
            ∷ []))
    <+> div (
        el "h4" [] (text "Legal")
        <+> tab_items (("https://github.com/lifygo/lifygo/blob/main/LICENSE", "AGPL-3.0") ∷ [])))

abbrev footer_line : ℕ → Html Call
footer_line current_year = div (
    span (text "© " <+> number current_year <+> text " LifyGo. Open source under AGPL-3.0.")
    <+> span (text "|")
    <+> span (
        text "Powered by "
        <+> tab_link false "https://go.dev" (text "Go")
        <+> text ", "
        <+> tab_link false "https://aws.amazon.com" (text "AWS")
        <+> text ", and "
        <+> tab_link false "https://clerk.com" (text "Clerk")))

abbrev social_links : Html Call
social_links = div (
    tab_link false "https://github.com/lifygo/lifygo" (icon "GithubIcon")
    <+> tab_link false "https://www.linkedin.com/company/lifygo/about/" (icon "LinkedInIcon"))

unfoldable pub footer : ℕ → Html Call
footer current_year = el "footer" [] (
    div (el "h1" [] (text "LIFYGO"))
    <+> div (
        link false "/" (icon "Image")
        <+> para (
            text
              "Transactional email, OTP verification, and cron job scheduling. Free hosted or self-host. Open source.")
        <+> footer_columns)
    <+> div (footer_line current_year <+> social_links))

unfoldable pub view : Bool → ℕ → Site → Html Call
unfolding is_dashboard navbar_view footer
view host year s = elim s.pathname [
  | none ↦ nothing
  | some p ↦
      when (not (is_dashboard host p)) (navbar_view s.navbar)
      <+> when (not (is_dashboard host p)) (footer year)
]
