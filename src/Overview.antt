-- ===== src/Overview.antt =====
-- app/dashboard/page.tsx: the state of `DashboardOverview`, its effect cut at the `await`, and what
-- a render computes from the statistics. The effect depends on `call`, which `useApi` makes anew at
-- each render: after a render the request of the last effect is cancelled and another one starts.
pub mod View
pub mod Activities
pub mod Setup
pub mod Requests
mod Examples
use lifygo.Prelude.{
  take, ℕ, zero, ◌+◌, ◌*◌, ◌/◌, suc, Bool, true, false, not, Option, none, some, List, [], ◌∷◌,
  ◌++◌, map, String, JsNumber, if◌then◌else◌, ltb, ◌==◌, ◌===◌, or_else, ◌+s◌, any, count, length,
}
use lifygo.Http.{Settled, fulfilled, rejected, message, spread, get_key}
use lifygo.Features.{
  DashboardStats, EmailLog, email_status_text, Job, JobExecution, ExecutionStatus, success,
}

-- What the browser makes of dates and numbers. The API's dates are after 1970.
pub record Format : Type 0 where
  -- `new Date(s).getTime()`
  pub get_time : String → ℕ
  -- `new Date(s).toLocaleString(undefined, …)`
  pub moment : String → String
  -- `n.toLocaleString()`
  pub grouped : ℕ → String
  -- `x.toFixed(1)`
  pub fixed : JsNumber → String

-- `effect` is the number of the effect that ran last; the `cancelled` of every other one is set.
pub record State : Type 0 where
  pub stats : Option DashboardStats
  pub error : String
  pub effect : ℕ

abbrev pub initial : State
initial = record { stats = none; error = ""; effect = 0 }

-- The request of an effect.
pub data Pending : Type 0 where
  fetch_stats : ℕ → Pending

pub data Completion : Type 0 where
  stats_fetched : ℕ → Settled DashboardStats → Completion

abbrev pub pending_of : Completion → Pending
pending_of (stats_fetched n r) = fetch_stats n

-- The effect after a render. React renders if a setter has got another value than the state holds.
after_render : Bool → State → State × List Pending
after_render true s = (record s { effect = suc s.effect }, fetch_stats (suc s.effect) ∷ [])
after_render false s = (s, [])

-- `fetchStats` from its `await` on, not cancelled.
fetched : Settled DashboardStats → State → State × List Pending
unfolding after_render
fetched (fulfilled data') s = after_render true (record s { stats = some data' })
fetched (rejected e) s =
    let m = message e "Failed to load statistics" in
    after_render (not (s.error === m)) (record s { error = m })

unfoldable pub finish : Completion → State → State × List Pending
unfolding fetched
finish (stats_fetched n r) s = if n == s.effect then fetched r s else (s, [])

pub record Task : Type 0 where
  pub done : Bool
  pub label : String
  pub href : String

abbrev pub checklist : DashboardStats → List Task
checklist stats =
    record {
      done = stats.has_smtp_config;
      label = "Connect SMTP credentials";
      href = "/dashboard/smtp";
    }
    ∷ record {
      done = ltb 0 stats.total_api_keys;
      label = "Generate API key";
      href = "/dashboard/api-keys";
    }
    ∷ record {
      done = ltb 0 stats.total_emails_sent;
      label = "Send test email";
      href = "/dashboard/send";
    }
    ∷ []

abbrev pub setup_incomplete : DashboardStats → Bool
setup_incomplete stats = any (λ c. not c.done) (checklist stats)

-- `Math.round((done / all) * 100)`, which no half meets for three tasks.
unfoldable pub progress : DashboardStats → ℕ
progress stats =
    let done = count (λ c. c.done) (checklist stats) in
    let all = length (checklist stats) in (200 * done + all) / (2 * all)

pub record Metric : Type 0 where
  pub label : String
  pub value : String
  pub image : String

abbrev pub metrics : Format → DashboardStats → List Metric
metrics env stats =
    record { label = "Emails Sent"; value = env.grouped stats.total_emails_sent; image = "Mail" }
    ∷ record {
      label = "Delivery Rate";
      value = env.fixed stats.success_rate +s "%";
      image = "Activity";
    }
    ∷ record { label = "Active Jobs"; value = env.grouped stats.active_jobs; image = "Clock" }
    ∷ record { label = "API Keys"; value = env.grouped stats.total_api_keys; image = "Key" }
    ∷ []

pub record Activity : Type 0 where
  pub id : String
  pub kind : String
  pub timestamp : String
  pub title : String
  pub detail : String
  pub status : String

abbrev execution_status : ExecutionStatus → String
execution_status success = "success"
execution_status ExecutionStatus.failed = "failed"

abbrev pub of_email : EmailLog → Activity
of_email log = record {
  id = "email-" +s log.id;
  kind = "email";
  timestamp = log.sent_at;
  title = or_else log.subject "Email delivery";
  detail = log.to;
  status = email_status_text log.status;
}

-- `new Map(jobs.map((job) => [job.id, job.name]))`.
unfoldable pub job_names : List Job → List (String × String)
unfolding spread
job_names jobs = spread [] (map (λ j. (j.id, j.name)) jobs)

unfoldable pub job_title : List (String × String) → String → String
unfolding get_key
job_title names id = elim (get_key id names) [
  | none ↦ "Scheduled job"
  | some name ↦ or_else name "Scheduled job"
]

abbrev pub of_execution : List (String × String) → JobExecution → Activity
of_execution names execution = record {
  id = "job-" +s execution.id;
  kind = "job";
  timestamp = execution.executed_at;
  title = job_title names execution.job_id;
  detail = "Cron execution";
  status = execution_status execution.status;
}

-- All entries, the e-mails first.
unfoldable pub entries : DashboardStats → List Activity
unfolding job_names
entries stats =
    map of_email stats.recent_email_logs
    ++ map (of_execution (job_names stats.recent_jobs))
        (elim stats.recent_job_executions [ none ↦ [] | some xs ↦ xs ])

module _ (env : Format) where
  -- `a.sort((x, y) => time(y) - time(x))`: the newest first; the sort is stable, so an entry stays
  -- before the later ones of the same time.
  unfoldable pub insert : Activity → List Activity → List Activity
  insert a [] = a ∷ []
  insert a (b ∷ bs) =
      let rest = insert a bs in
      if ltb (env.get_time a.timestamp) (env.get_time b.timestamp) then b ∷ rest else a ∷ b ∷ bs

  unfoldable pub sort : List Activity → List Activity
  unfolding insert
  sort [] = []
  sort (a ∷ xs) = insert a (sort xs)

unfoldable pub activities : Format → DashboardStats → List Activity
unfolding entries sort take
activities env stats = take 10 (sort env (entries stats))
