-- ===== src/JobsPage/View.antt =====
-- app/dashboard/jobs/page.tsx: the element tree of `JobsPage`. The tabs of components/ui/tabs.tsx
-- call `onValueChange` with the value of the trigger that is clicked; the content of every tab is
-- kept in the tree.
pub mod Offers
use lifygo.Prelude.{
  ℕ, Bool, true, false, not, ◌||◌, ◌==◌, Option, none, some, List, [], ◌∷◌, ◌++◌, String, length,
  if◌then◌else◌, ◌===◌, truthy,
}
use lifygo.Html.{
  Html, nothing, text, number, ◌<+>◌, el, Attr, attr, disabled, on_click, on_change, each, when,
  choose, icon, div, span, para,
}
use lifygo.Http.{get_key}
use lifygo.Features.{
  Job, JobType, webhook, email, type_text, JobScheduleType, cron, one_time, schedule_text,
  JobStatus, active, completed, failed, status_text,
}
use lifygo.Locale.{Locale}
use lifygo.JobsPage.{
  JobExecution, Form, Field, name, cron_expression, run_at, webhook_url, webhook_payload, email_to,
  email_subject, email_body, field_name, field_value, State, Call, change, set_job_type,
  set_schedule_type, create, delete, toggle, is_id,
}

page_header : Html Call
page_header = div (
    div (
      el "h1" [] (text "Scheduled Jobs")
      <+> div (
          icon "Server"
          <+> span (text "Open Source Tool")
          <+> span (text "•")
          <+> span (text "Deploy on your own VPS")))
    <+> para (
        text
          "Automate recurring webhooks and transactional email dispatches using cron schedules or one-time executions."))

error_banner : String → Html Call
error_banner message = when (truthy message) (div (icon "AlertCircle" <+> para (text message)))

success_banner : String → Html Call
success_banner message = when (truthy message) (div (icon "CheckCircle2" <+> para (text message)))

-- An `Input` of the form under its `Label`.
input : Field → String → String → List (Attr Call) → Form → Html Call
input f label placeholder more form = div (
    el "Label" (attr "htmlFor" (field_name f) ∷ []) (text label)
    <+> el "Input"
        (attr "id" (field_name f)
          ∷ attr "name" (field_name f)
          ∷ attr "placeholder" placeholder
          ∷ attr "value" (field_value f form)
          ∷ on_change (change f)
          ∷ more)
        nothing)

trigger : String → Call → String → String → Html Call
trigger value call image label =
    el "TabsTrigger" (attr "value" value ∷ on_click call ∷ []) (icon image <+> text label)

content : String → Html Call → Html Call
content value h = el "TabsContent" (attr "value" value ∷ []) h

target_tabs : State → Html Call
unfolding input trigger content
target_tabs s = div (
    el "Label" [] (text "Target Dispatch")
    <+> el "Tabs" (attr "value" (type_text s.job_type) ∷ []) (
        el "TabsList" [] (
          trigger "webhook" (set_job_type webhook) "Webhook" "Webhook"
          <+> trigger "email" (set_job_type email) "Mail" "Email")
        <+> content "webhook" (
            input webhook_url "Endpoint URL" "https://api.yourdomain.com/v1/sync" [] s.form
            <+> input webhook_payload "JSON Payload (Optional)" "{\"event\": \"scheduled_sync\"}" []
                s.form)
        <+> content "email" (
            input email_to "Recipient Email" "alerts@yourdomain.com" [] s.form
            <+> input email_subject "Subject" "Scheduled Job Executed" [] s.form
            <+> input email_body "Body Content" "Automated job dispatch notice." [] s.form)))

interval_tabs : State → Html Call
unfolding input trigger content
interval_tabs s = div (
    el "Label" [] (text "Execution Interval")
    <+> el "Tabs" (attr "value" (schedule_text s.schedule_type) ∷ []) (
        el "TabsList" [] (
          trigger "cron" (set_schedule_type cron) "RefreshCw" "Cron"
          <+> trigger "one_time" (set_schedule_type one_time) "Clock" "One-time")
        <+> content "cron"
            (input cron_expression "Cron Expression" "*/5 * * * * (Every 5 mins)" [] s.form)
        <+> content "one_time" (
            el "Label" (attr "htmlFor" "run_at" ∷ []) (text "Execution Date & Time")
            <+> el "Input"
                (attr "id" "run_at"
                  ∷ attr "name" "run_at"
                  ∷ attr "type" "datetime-local"
                  ∷ attr "value" s.form.run_at
                  ∷ on_change (change run_at)
                  ∷ [])
                nothing)))

create_button : State → Html Call
create_button s =
    el "Button" (on_click create ∷ disabled (s.loading || not (truthy s.form.name)) ∷ [])
      (when s.loading (icon "Loader2") <+> text "Create Job")

create_panel : State → Html Call
unfolding input target_tabs interval_tabs create_button
create_panel s = div (
    el "h2" [] (text "Schedule New Job")
    <+> div (
        input name "Job Name" "weekly-report-sync" [] s.form
        <+> target_tabs s
        <+> interval_tabs s
        <+> create_button s))

no_jobs : Html Call
no_jobs = div (
    icon "Clock"
    <+> para (text "No jobs scheduled")
    <+> para (text "Configure a webhook or email trigger to automate background tasks."))

-- The text of the `Schedule` column; an empty `run_at` is falsy.
schedule_cell : Locale → Job → String
schedule_cell env j = elim j.schedule_type [
  | cron ↦ elim j.cron_expression [ some c ↦ c | none ↦ "" ]
  | one_time ↦ elim j.run_at [ some t ↦ (if truthy t then env.date t else "—") | none ↦ "—" ]
]

-- The class names that depend on the status: of the badge, and of its dot.
badge_class : JobStatus → String
badge_class active =
    "border-emerald-500/20 bg-emerald-500/10 text-emerald-600 dark:text-emerald-400"
badge_class completed = "border-sky-500/20 bg-sky-500/10 text-sky-600 dark:text-sky-400"
badge_class failed = "border-red-500/20 bg-red-500/10 text-red-600 dark:text-red-400"
badge_class _ = "border-border bg-muted text-muted-foreground"

dot_class : JobStatus → String
dot_class active = "bg-emerald-500"
dot_class completed = "bg-sky-500"
dot_class failed = "bg-red-500"
dot_class _ = "bg-muted-foreground/50"

delete_button : State → Job → Html Call
delete_button s j =
    el "Button"
      (attr "variant" "ghost"
        ∷ attr "size" "icon"
        ∷ on_click (delete j.id)
        ∷ disabled (is_id s.deleting j.id)
        ∷ [])
      (choose (is_id s.deleting j.id) (icon "Loader2") (icon "Trash2"))

is_webhook : JobType → Bool
is_webhook webhook = true
is_webhook email = false

-- The row of a job. Its last cell's button stops the propagation of its click to the row.
job_row : Locale → State → Job → Html Call
unfolding schedule_cell badge_class dot_class delete_button is_webhook
job_row env s j = el "tr" (on_click (toggle j.id) ∷ []) (
    el "td" [] (choose (is_id s.expanded_job j.id) (icon "ChevronDown") (icon "ChevronRight"))
    <+> el "td" [] (text j.name)
    <+> el "td" [] (
        span (
          choose (is_webhook j.kind) (icon "Webhook") (icon "Mail")
          <+> span (text (type_text j.kind))))
    <+> el "td" [] (text (schedule_cell env j))
    <+> el "td" [] (
        el "span" (attr "className" (badge_class j.status) ∷ []) (
          el "span" (attr "className" (dot_class j.status) ∷ []) nothing
          <+> text (status_text j.status)))
    <+> el "td" [] (delete_button s j))

-- `x ?? "—"`.
or_dash : Option String → Html Call
or_dash none = text "—"
or_dash (some t) = text t

-- The class name and the image of an execution's status.
execution_class : String → String
execution_class status =
    if status === "success"
    then "text-emerald-600 dark:text-emerald-400"
    else if status === "failed"
    then "text-red-600 dark:text-red-400"
    else "text-muted-foreground"

execution_icon : String → Html Call
execution_icon status =
    choose (status === "success") (icon "CheckCircle2")
      (choose (status === "failed") (icon "XCircle") nothing)

http_status_cell : Option ℕ → Html Call
http_status_cell none = text "—"
http_status_cell (some n) = number n

duration_cell : Option ℕ → Html Call
duration_cell none = text "—"
duration_cell (some n) = number n <+> text "ms"

execution_row : Locale → JobExecution → Html Call
unfolding or_dash execution_class execution_icon http_status_cell duration_cell
execution_row env e = el "tr" [] (
    el "td" [] (text (env.date_time e.executed_at))
    <+> el "td" [] (
        el "span" (attr "className" (execution_class e.status) ∷ [])
          (execution_icon e.status <+> text e.status))
    <+> el "td" [] (http_status_cell e.http_status)
    <+> el "td" [] (duration_cell e.duration_ms)
    <+> el "td" [] (or_dash e.error_message))

-- The list that `executions[job.id]?.map` goes through.
rows_of : Option (List JobExecution) → List JobExecution
rows_of none = []
rows_of (some es) = es

executions_table : Locale → List JobExecution → Html Call
unfolding execution_row
executions_table env es = div (
    el "table" [] (
      el "thead" [] (
        el "tr" [] (
          el "th" [] (text "Timestamp")
          <+> el "th" [] (text "Status")
          <+> el "th" [] (text "HTTP Status")
          <+> el "th" [] (text "Duration")
          <+> el "th" [] (text "Error Details")))
      <+> el "tbody" [] (each (execution_row env) es)))

-- `executions[job.id]?.length === 0`.
is_empty : Option (List JobExecution) → Bool
is_empty none = false
is_empty (some es) = length es == 0

executions_body : Locale → State → Job → Html Call
unfolding executions_table is_empty rows_of get_key
executions_body env s j =
    choose (is_id s.loading_executions j.id) (div (icon "Loader2" <+> text "Loading history...")) (
      choose (is_empty (get_key j.id s.executions)) (para (text "No executions logged yet."))
        (executions_table env (rows_of (get_key j.id s.executions))))

executions_panel : Locale → State → Job → Html Call
unfolding executions_body
executions_panel env s j = el "tr" [] (
    el "td" (attr "colSpan" "6" ∷ [])
      (div (span (text "Recent Executions") <+> executions_body env s j)))

job_item : Locale → State → Job → Html Call
unfolding job_row executions_panel
job_item env s j = job_row env s j <+> when (is_id s.expanded_job j.id) (executions_panel env s j)

jobs_table : Locale → State → Html Call
unfolding job_item
jobs_table env s = div (
    div (
      el "table" [] (
        el "thead" [] (
          el "tr" [] (
            el "th" [] nothing
            <+> el "th" [] (text "Job Name")
            <+> el "th" [] (text "Type")
            <+> el "th" [] (text "Schedule")
            <+> el "th" [] (text "Status")
            <+> el "th" [] nothing))
        <+> el "tbody" [] (each (job_item env s) s.jobs))))

jobs_panel : Locale → State → Html Call
unfolding no_jobs jobs_table
jobs_panel env s = div (
    div (el "h2" [] (text "Active Jobs (" <+> number (length s.jobs) <+> text ")"))
    <+> choose (length s.jobs == 0) no_jobs (jobs_table env s))

unfoldable pub view : Locale → State → Html Call
unfolding page_header error_banner success_banner create_panel jobs_panel
view env s = div (
    page_header
    <+> error_banner s.error
    <+> success_banner s.success
    <+> div (create_panel s <+> jobs_panel env s))
