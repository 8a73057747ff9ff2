-- ===== src/Overview/Examples.antt =====
-- The theorems about the overview at concrete inputs.
use mathlib.Core.List.{Perm}
use lifygo.Prelude.{
  ◌++◌, List, ◌≤◌, ◌≡◌, refl, true, none, some, [], ◌∷◌, String, int, In, length, ltb, js_length,
  if◌then◌else◌,
}
use lifygo.Features.{DashboardStats, EmailLog, sent, JobExecution, success}
use lifygo.Page.{Reach}
use lifygo.Overview.{Format, State, Activity, fetch_stats, entries, activities}
use lifygo.Overview.View.{view, unavailable}
use lifygo.Overview.Activities.{newest_ten, time_of, Descending}
use lifygo.Overview.Requests.{overview_page, error_stays}

-- Times that are as long as their texts.
abbrev by_length : Format
by_length = record {
  get_time = js_length;
  moment = λ s. s;
  grouped = λ n. "many";
  fixed = λ x. "98.5";
}

abbrev log : String → String → EmailLog
log id sent_at = record {
  id = id;
  to = "ada@example.com";
  subject = "";
  status = sent;
  error_message = none;
  sent_at = sent_at;
}

abbrev run : JobExecution
run = record {
  id = "e";
  job_id = "j";
  status = success;
  http_status = some 200;
  error_message = none;
  duration_ms = some 12;
  executed_at = "xxx";
}

abbrev busy : DashboardStats
busy = record {
  total_emails_sent = 2;
  total_emails_failed = 0;
  success_rate = int 100;
  active_jobs = 1;
  total_api_keys = 0;
  has_smtp_config = true;
  recent_email_logs = log "a" "x" ∷ log "b" "xxxx" ∷ [];
  recent_jobs = [];
  recent_job_executions = some (run ∷ []);
}

abbrev quiet : DashboardStats
quiet = record busy { recent_email_logs = []; recent_job_executions = none }

newest_ten_example :
    let shown = activities by_length busy in
    let all = entries busy in
    (hidden : List Activity) × Perm (shown ++ hidden) all
    × (length shown ≡ (if ltb 10 (length all) then 10 else length all))
    × Descending by_length shown
    × ((a b : Activity) → In a shown → In b hidden → time_of by_length b ≤ time_of by_length a)
newest_ten_example = newest_ten by_length busy

error_stays_example :
    let s : State = record { stats = some quiet; error = "offline"; effect = 3 } in
    Reach (overview_page by_length) (record { page = s; in_flight = fetch_stats 3 ∷ [] })
    × (view by_length s ≡ unavailable "offline")
error_stays_example = error_stays by_length "offline" (busy ∷ quiet ∷ []) refl
