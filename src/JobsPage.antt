-- ===== src/JobsPage.antt =====
-- app/dashboard/jobs/page.tsx: the state of `JobsPage`, and its handlers cut at each `await`.
-- A handler's first part gives the new state and the calls of the API that it starts; the part
-- behind the `await` takes what the call settled to.
pub mod View
pub mod Requests
pub mod Races
pub mod Listing
pub mod Laws
mod Examples
use lifygo.Prelude.{
  ℕ, Bool, true, false, not, ◌&&◌, ◌||◌, Option, none, some, List, [], ◌∷◌, ◌++◌, String,
  if◌then◌else◌, ◌===◌, truthy, keep,
}
use lifygo.Http.{Value, str, Body, Thrown, message, Settled, fulfilled, rejected, set_key, get_key}
use lifygo.Features.{Job, JobType, webhook, email, JobScheduleType, cron, one_time}
use lifygo.Locale.{Locale}

pub record JobExecution : Type 0 where
  pub id : String
  pub job_id : String
  pub user_id : String
  pub status : String
  pub http_status : Option ℕ
  pub error_message : Option String
  pub duration_ms : Option ℕ
  pub executed_at : String

pub record Form : Type 0 where
  pub name : String
  pub cron_expression : String
  pub run_at : String
  pub webhook_url : String
  pub webhook_payload : String
  pub email_to : String
  pub email_subject : String
  pub email_body : String

-- The names of the form's inputs, which `handleChange` takes from `e.target.name`.
pub data Field : Type 0 where
  name cron_expression run_at webhook_url webhook_payload email_to email_subject email_body : Field

abbrev pub field_name : Field → String
field_name name = "name"
field_name cron_expression = "cron_expression"
field_name run_at = "run_at"
field_name webhook_url = "webhook_url"
field_name webhook_payload = "webhook_payload"
field_name email_to = "email_to"
field_name email_subject = "email_subject"
field_name email_body = "email_body"

abbrev pub field_value : Field → Form → String
field_value name f = f.name
field_value cron_expression f = f.cron_expression
field_value run_at f = f.run_at
field_value webhook_url f = f.webhook_url
field_value webhook_payload f = f.webhook_payload
field_value email_to f = f.email_to
field_value email_subject f = f.email_subject
field_value email_body f = f.email_body

abbrev pub set_field : Field → String → Form → Form
set_field name v f = record f { name = v }
set_field cron_expression v f = record f { cron_expression = v }
set_field run_at v f = record f { run_at = v }
set_field webhook_url v f = record f { webhook_url = v }
set_field webhook_payload v f = record f { webhook_payload = v }
set_field email_to v f = record f { email_to = v }
set_field email_subject v f = record f { email_subject = v }
set_field email_body v f = record f { email_body = v }

abbrev pub empty_form : Form
empty_form = record {
  name = "";
  cron_expression = "";
  run_at = "";
  webhook_url = "";
  webhook_payload = "";
  email_to = "";
  email_subject = "";
  email_body = "";
}

pub record State : Type 0 where
  pub jobs : List Job
  pub error : String
  pub success : String
  pub loading : Bool
  pub deleting : Option String
  pub expanded_job : Option String
  pub executions : List (String × List JobExecution)
  pub loading_executions : Option String
  pub job_type : JobType
  pub schedule_type : JobScheduleType
  pub form : Form
  -- the flag of the first effect
  pub cancelled : Bool

abbrev pub initial : State
initial = record {
  jobs = [];
  error = "";
  success = "";
  loading = false;
  deleting = none;
  expanded_job = none;
  executions = [];
  loading_executions = none;
  job_type = webhook;
  schedule_type = cron;
  form = empty_form;
  cancelled = false;
}

-- The calls of the API that are waited for.
pub data Pending : Type 0 where
  list_jobs : Pending
  list_executions : String → Pending
  create_job : Body → Pending
  delete_job : String → Pending

-- What a control's handler calls.
pub data Call : Type 0 where
  change : Field → String → Call
  set_job_type : JobType → Call
  set_schedule_type : JobScheduleType → Call
  create : Call
  delete : String → Call
  toggle : String → Call

-- What an awaited call settled to.
pub data Completion : Type 0 where
  listed : Settled (List Job) → Completion
  executions_listed : String → Settled (List JobExecution) → Completion
  created : Body → Settled Job → Completion
  deleted : String → Settled (Unit {0}) → Completion

abbrev pub pending_of : Completion → Pending
pending_of (listed r) = list_jobs
pending_of (executions_listed id r) = list_executions id
pending_of (created b r) = create_job b
pending_of (deleted id r) = delete_job id

-- `x === id` for a state that is a text or `null`.
abbrev pub is_id : Option String → String → Bool
is_id none id = false
is_id (some x) id = x === id

-- `!executions[jobId]`: an empty array is truthy.
abbrev pub is_missing {ℓ} : {A : Type ℓ} → Option A → Bool
is_missing none = true
is_missing (some x) = false

toggle_executions : String → State → State × List Pending
unfolding get_key
toggle_executions id s =
    if is_id s.expanded_job id
    then (record s { expanded_job = none }, [])
    else (if is_missing (get_key id s.executions)
        then (
          record s { expanded_job = some id; loading_executions = some id },
          list_executions id ∷ [],
        )
        else (record s { expanded_job = some id }, []))

-- The `catch` and the `finally` of `handleCreate`.
create_failed : Thrown → State → State
create_failed e s = record s { error = message e "Failed to schedule job"; loading = false }

schedule_fields : Locale → State → Settled Body
schedule_fields env s = elim s.schedule_type [
  | cron ↦
      fulfilled
        (("schedule_type", str "cron") ∷ ("cron_expression", str s.form.cron_expression) ∷ [])
  | one_time ↦ elim (env.to_iso s.form.run_at) [
    | fulfilled t ↦ fulfilled (("schedule_type", str "one_time") ∷ ("run_at", str t) ∷ [])
    | rejected e ↦ rejected e
  ]
]

create_input : State → Body → Body
create_input s fields = elim s.job_type [
  | webhook ↦
      ("name", str s.form.name)
      ∷ ("type", str "webhook")
      ∷ (fields
          ++ (("webhook_url", str s.form.webhook_url)
              ∷ (if truthy s.form.webhook_payload
                  then ("webhook_payload", str s.form.webhook_payload) ∷ []
                  else [])))
  | email ↦
      ("name", str s.form.name)
      ∷ ("type", str "email")
      ∷ (fields
          ++ (("email_to", str s.form.email_to)
              ∷ ("email_subject", str s.form.email_subject)
              ∷ ("email_body", str s.form.email_body)
              ∷ []))
]

handle_create : Locale → State → State × List Pending
unfolding create_failed schedule_fields create_input
handle_create env s =
    let s' = record s { error = ""; success = ""; loading = true } in
    elim (schedule_fields env s) [
      | rejected e ↦ (create_failed e s', [])
      | fulfilled fields ↦ (s', create_job (create_input s fields) ∷ [])
    ]

handle_delete : String → State → State × List Pending
handle_delete id s = (record s { deleting = some id; error = "" }, delete_job id ∷ [])

-- A handler up to its first `await`.
unfoldable pub start : Locale → Call → State → State × List Pending
unfolding toggle_executions handle_create handle_delete
start env (change f v) s = (record s { form = set_field f v s.form }, [])
start env (set_job_type t) s = (record s { job_type = t }, [])
start env (set_schedule_type t) s = (record s { schedule_type = t }, [])
start env create s = handle_create env s
start env (delete id) s = handle_delete id s
start env (toggle id) s = toggle_executions id s

jobs_listed : Settled (List Job) → State → State
jobs_listed (fulfilled js) s = if s.cancelled then s else record s { jobs = js }
jobs_listed (rejected e) s =
    if s.cancelled then s else record s { error = message e "Failed to load jobs" }

executions_loaded : String → Settled (List JobExecution) → State → State
unfolding set_key
executions_loaded id (fulfilled xs) s = record s {
  executions = set_key id xs s.executions;
  loading_executions = none;
}
executions_loaded id (rejected e) s = record s {
  error = message e "Failed to load executions";
  loading_executions = none;
}

job_created : Settled Job → State → State
unfolding create_failed
job_created (fulfilled j) s = record s {
  jobs = j ∷ s.jobs;
  success = "Job scheduled successfully.";
  form = empty_form;
  loading = false;
}
job_created (rejected e) s = create_failed e s

job_deleted : String → Settled (Unit {0}) → State → State
job_deleted id (fulfilled u) s = record s {
  jobs = keep (λ j. not (j.id === id)) s.jobs;
  deleting = none;
}
job_deleted id (rejected e) s = record s {
  error = message e "Failed to delete job";
  deleting = none;
}

-- A handler from its `await` on.
unfoldable pub finish : Completion → State → State
unfolding jobs_listed executions_loaded job_created job_deleted
finish (listed r) s = jobs_listed r s
finish (executions_listed id r) s = executions_loaded id r s
finish (created b r) s = job_created r s
finish (deleted id r) s = job_deleted id r s
