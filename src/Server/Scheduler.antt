-- ===== src/Server/Scheduler.antt =====
-- internal/service/scheduler.go: `tick`, with the query `ListActiveDue` of
-- internal/repository/job.go that claims the jobs, and `executeJob`, which a goroutine runs for each
-- claimed job. Moments are nanoseconds.
pub mod Due
pub mod Once
pub mod Outcome
mod Examples
use lifygo.Prelude.{
  ℕ, zero, suc, ◌+◌, ◌-◌, ◌*◌, ◌/◌, Bool, true, false, not, Option, none, some, List, [], ◌∷◌, ◌++◌,
  String, if◌then◌else◌, ◌===◌, ltb, ◌&&◌, ◌||◌, truthy, map, ◌+s◌, decimal, keep,
}
use lifygo.Server.{GoError, made, wrapped, error_text, Result, ok, err}
use lifygo.Server.Otp.{is_not_found}
use lifygo.Server.Jobs.{JobRow, CreateJobInput}

-- A row of `jobs`, with the column that the worker writes.
pub record Job : Type 0 where
  pub row : JobRow
  pub last_run_at : Option ℕ

-- What a goroutine meets: its clock, `Next` of a parsed expression (`none` is the zero time), the
-- webhook's answer, the mailers, and the failures of the database.
pub record World : Type 0 where
  pub now : ℕ
  pub parse_error : String → Option String
  pub next : String → ℕ → Option ℕ
  pub build_error : Option GoError
  pub response : Result ℕ
  pub mailer : Result (Unit {0})
  pub default_mailer : Result (Unit {0})
  pub own_send : Result (Unit {0})
  pub default_send : Result (Unit {0})
  pub execution_failure : Option GoError
  pub update_failure : Option GoError

-- A row of `job_executions`.
pub record Execution : Type 0 where
  pub job_id : String
  pub user_id : String
  pub status : String
  pub http_status : Option ℕ
  pub error_message : Option String

abbrev pub second : ℕ
second = 1000000000

abbrev pub minute : ℕ
minute = 60000000000

-- `Truncate(time.Minute)`, `date_trunc('minute', …)`.
abbrev pub truncated : ℕ → ℕ
truncated t = t / minute * minute

abbrev pub is_one_time : Job → Bool
is_one_time j = j.row.schedule_type === "one_time"

abbrev pub is_claimed : Job → Bool
is_claimed j = elim j.last_run_at [ none ↦ false | some t ↦ true ]

abbrev pub ran_before : ℕ → Job → Bool
ran_before t j = elim j.last_run_at [ none ↦ true | some run ↦ ltb run t ]

-- The condition of `ListActiveDue`.
unfoldable pub is_selected : ℕ → Job → Bool
is_selected now j =
    j.row.enabled
    && (j.row.status === "active"
        && (((j.row.schedule_type === "cron") && ran_before (truncated now) j)
            || (is_one_time j
                && (elim j.row.run_at [ none ↦ false | some t ↦ not (ltb now t) ]
                    && not (is_claimed j)))))

abbrev pub claim : ℕ → Job → Job
claim now j = record j { last_run_at = some now }

-- The rows that `ListActiveDue` returns, and the table that it leaves.
unfoldable pub list_active_due : ℕ → List Job → List Job × List Job
unfolding is_selected
list_active_due now jobs = (
  map (claim now) (keep (is_selected now) jobs),
  map (λ j. if is_selected now j then claim now j else j) jobs,
)

-- `!nextFire.After(…)`; the zero time is after nothing.
unfoldable pub is_due : (ℕ → Option ℕ) → ℕ → Bool
is_due next now =
    let start = truncated now in
    elim (next (start - second)) [
      | none ↦ true
      | some fire ↦ not (ltb (start + (minute - second)) fire)
    ]

unfoldable pub is_cron_due : World → String → Result Bool
unfolding is_due
is_cron_due w expr = elim (w.parse_error expr) [
  | some e ↦ err (wrapped "invalid cron expression" (made e))
  | none ↦ ok (is_due (w.next expr) w.now)
]

-- `executeWebhook`, up to the request, and the status of its answer.
unfoldable pub answer_of : Result ℕ → Option ℕ × Result (Unit {0})
answer_of (err e) = (none, err (wrapped "webhook request failed" e))
answer_of (ok n) =
    if ltb n 200 || not (ltb n 300)
    then (some n, err (made ("webhook returned non-2xx status: " +s decimal n)))
    else (some n, ok tt)

unfoldable pub execute_webhook : World → Job → Option ℕ × Result (Unit {0})
unfolding answer_of
execute_webhook w j = elim j.row.webhook_url [
  | none ↦ (none, err (made "webhook url is nil"))
  | some url ↦ elim w.build_error [
    | some e ↦ (none, err (wrapped "failed to build webhook request" e))
    | none ↦ answer_of w.response
  ]
]

abbrev sent : Result (Unit {0}) → Result (Unit {0})
sent (ok done) = ok done
sent (err e) = err (wrapped "failed to send email" e)

unfoldable pub send_mail : World → String → Result (Unit {0})
unfolding is_not_found
send_mail w user = elim w.mailer [
  | ok m ↦ sent w.own_send
  | err e ↦
      if is_not_found e
      then elim w.default_mailer [
        | err f ↦ err (wrapped ("failed to get default mailer for user " +s user) f)
        | ok m ↦ sent w.default_send
      ]
      else err (wrapped ("failed to get mailer for user " +s user) e)
]

abbrev has_mail : JobRow → Bool
has_mail r = elim r.email_to [
  | none ↦ false
  | some to ↦ elim r.email_subject [
    | none ↦ false
    | some subject ↦ elim r.email_body [ none ↦ false | some body ↦ true ]
  ]
]

unfoldable pub execute_email : World → Job → Result (Unit {0})
unfolding send_mail
execute_email w j =
    if has_mail j.row
    then send_mail w j.row.user_id
    else err (made "email job is missing required fields")

unfoldable pub deliver : World → Job → Option ℕ × Result (Unit {0})
unfolding execute_webhook execute_email
deliver w j =
    if j.row.kind === "webhook"
    then execute_webhook w j
    else if j.row.kind === "email"
    then (none, execute_email w j)
    else (none, ok tt)

-- Whether the goroutine goes on to execute; `Create` has checked that a cron job has an expression.
unfoldable pub goes_on : World → Job → Bool
unfolding is_cron_due
goes_on w j =
    if j.row.schedule_type === "cron"
    then elim j.row.cron_expression [
      | none ↦ false
      | some expr ↦ elim (is_cron_due w expr) [ err e ↦ false | ok due ↦ due ]
    ]
    else true

unfoldable pub execution_of : Job → Option ℕ × Result (Unit {0}) → Execution
unfolding error_text
execution_of j (http, outcome) = record {
  job_id = j.row.id;
  user_id = j.row.user_id;
  status = elim outcome [ ok done ↦ "success" | err e ↦ "failed" ];
  http_status = http;
  error_message = elim outcome [ ok done ↦ none | err e ↦ some (error_text e) ];
}

abbrev pub final_status : Result (Unit {0}) → String
final_status (ok done) = "completed"
final_status (err e) = "failed"

abbrev pub with_status : String → Job → Job
with_status status j = record j { row = record (j.row) { status = status } }

-- `UpdateStatus`.
unfoldable pub update_status : String → String → List Job → List Job
update_status id status jobs = map (λ j. if j.row.id === id then with_status status j else j) jobs

-- The database, the goroutines that run, each with its job, and the jobs that were executed, which
-- are not the server's state but what the world has seen.
pub record State : Type 0 where
  pub jobs : List Job
  pub running : List Job
  pub executions : List Execution
  pub executed : List Job

-- `executeJob`, from the delivery on.
unfoldable pub execute : World → State → Job → State
unfolding deliver execution_of update_status
execute w s j =
    let outcome = deliver w j in
    record s {
      executed = j ∷ s.executed;
      executions = elim w.execution_failure [
        | none ↦ execution_of j outcome ∷ s.executions
        | some e ↦ s.executions
      ];
      jobs = elim w.update_failure [
        | some e ↦ s.jobs
        | none ↦
            if is_one_time j
            then update_status j.row.id (final_status (outcome.1)) s.jobs
            else s.jobs
      ];
    }

unfoldable pub execute_job : World → State → Job → State
unfolding goes_on execute
execute_job w s j = if goes_on w j then execute w s j else s

-- How the query of a tick ends: with the claimed rows, with no claim, or with the claims made and the
-- rows not read, since `Scan` or `rows.Err()` failed behind the UPDATE.
pub data Tick : Type 0 where
  rows_read query_failed reading_failed : Tick

pub data Event : Type 0 where
  -- a scheduler ticks, at its clock
  ticks : ℕ → Tick → Event
  -- the goroutine at this place runs
  runs : ℕ → World → Event
  -- the process ends, and its goroutines with it
  stops : Event

unfoldable pub started : ℕ → List Job → Option Job
started i [] = none
started zero (j ∷ js) = some j
started (suc i) (j ∷ js) = started i js

unfoldable pub others : ℕ → List Job → List Job
others i [] = []
others zero (j ∷ js) = js
others (suc i) (j ∷ js) = j ∷ others i js

unfoldable pub happen : State → Event → State
unfolding list_active_due started others execute_job
happen s (ticks now query_failed) = s
happen s (ticks now reading_failed) =
    let (due, jobs) = list_active_due now s.jobs in record s { jobs = jobs }
happen s (ticks now rows_read) =
    let (due, jobs) = list_active_due now s.jobs in
    record s { jobs = jobs; running = due ++ s.running }
happen s (runs i w) = elim (started i s.running) [
  | none ↦ s
  | some j ↦ execute_job w (record s { running = others i s.running }) j
]
happen s stops = record s { running = [] }

unfoldable pub run : State → List Event → State
unfolding happen
run s [] = s
run s (e ∷ es) = run (happen s e) es
