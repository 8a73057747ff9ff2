-- ===== src/Overview/View.antt =====
-- app/dashboard/page.tsx: the element tree of `DashboardOverview`. Its links have no handlers of the
-- page's own, so it makes no handler call.
use lifygo.Prelude.{
  ◌||◌, ◌==◌, Option, none, some, List, String, length, ◌===◌, truthy, int, [], ◌∷◌, if◌then◌else◌,
}
use lifygo.Html.{
  Html, text, number, ◌<+>◌, el, attr, attr_number, each, when, choose, icon, div, span, para,
  nothing,
}
use lifygo.Features.{DashboardStats}
use lifygo.Overview.{
  State, Format, Task, checklist, setup_incomplete, progress, Metric, metrics, Activity, activities,
}

unfoldable pub unavailable : String → Html ⊥
unavailable error =
    div
      (icon "AlertCircle" <+> div (el "h5" [] (text "Dashboard unavailable") <+> para (text error)))

loading_panel : Html ⊥
loading_panel = div (icon "Loader2" <+> para (text "Loading your workspace..."))

page_header : Html ⊥
page_header = el "header" [] (
    div (
      el "h1" [] (text "Overview")
      <+> para (text "Monitor your email delivery and job execution in real-time."))
    <+> div (
        el "Link" (attr "href" "/dashboard/jobs" ∷ []) (text "Jobs" <+> icon "ArrowUpRight")
        <+> el "Link" (attr "href" "/dashboard/logs" ∷ []) (text "Logs" <+> icon "ArrowUpRight")))

task_item : Task → Html ⊥
task_item item = el "li" [] (
    choose item.done (icon "CheckCircle2") (icon "Circle")
    <+> el "Link"
        (attr "href" item.href ∷ attr "className" (if item.done then "line-through" else "") ∷ [])
        (text item.label))

setup_section : DashboardStats → Html ⊥
unfolding task_item
setup_section stats = el "section" [] (
    div (
      div (
        el "h2" [] (text "Get Started")
        <+> para (text "Complete your workspace setup to start sending emails.")
        <+> div (
            div (el "div" (attr_number "style.width%" (int (progress stats)) ∷ []) nothing)
            <+> span (number (progress stats) <+> text "%")))
      <+> div (el "ul" [] (each task_item (checklist stats)))))

metric_card : Metric → Html ⊥
metric_card item =
    div (div (span (text item.label) <+> icon item.image) <+> div (span (text item.value)))

activity_row : Format → Activity → Html ⊥
activity_row env activity =
    let successful = activity.status === "sent" || activity.status === "success" in
    el "tr" [] (
      el "td" [] (
        div (
          el "div" (attr "className" (if successful then "bg-emerald-500" else "bg-red-500") ∷ [])
            nothing
          <+> span (text activity.status)))
      <+> el "td" [] (
          div (
            el "Badge" (attr "variant" "secondary" ∷ []) (text activity.kind)
            <+> span (text activity.title)))
      <+> el "td" [] (text activity.detail)
      <+> el "td" [] (text (env.moment activity.timestamp)))

activity_table : Format → List Activity → Html ⊥
unfolding activity_row
activity_table env xs = div (
    el "table" [] (
      el "thead" [] (
        el "tr" [] (
          el "th" [] (text "Status")
          <+> el "th" [] (text "Event")
          <+> el "th" [] (text "Details")
          <+> el "th" [] (text "Timestamp")))
      <+> el "tbody" [] (each (activity_row env) xs)))

activity_section : Format → DashboardStats → Html ⊥
unfolding activities
activity_section env stats = el "section" [] (
    div (el "h2" [] (text "Activity Stream"))
    <+> choose (length (activities env stats) == 0) (div (text "No activity recorded yet"))
        (activity_table env (activities env stats)))

main_panel : Format → DashboardStats → Html ⊥
unfolding metric_card
main_panel env stats = div (
    page_header
    <+> icon "DashboardCarousel"
    <+> when (setup_incomplete stats) (setup_section stats)
    <+> el "section" [] (each metric_card (metrics env stats))
    <+> activity_section env stats)

pub content : Format → Option DashboardStats → Html ⊥
content env none = loading_panel
content env (some stats) = main_panel env stats

unfoldable pub view : Format → State → Html ⊥
view env s = if truthy s.error then unavailable s.error else content env s.stats
