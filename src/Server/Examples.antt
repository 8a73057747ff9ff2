-- ===== src/Server/Examples.antt =====
-- The theorems about the server at concrete inputs.
use lifygo.Prelude.{
  false, ◌≤◌, ◌≡◌, refl, true, none, some, List, [], ◌∷◌, String, if◌then◌else◌, ◌===◌, any, keep,
  length, count, arith,
}
use lifygo.Http.{Body, str, fulfilled}
use lifygo.Locale.{Locale}
use lifygo.JobsPage
use lifygo.Server.{ok, respond, respond_error}
use lifygo.Server.Logs.{LogRow}
use lifygo.Server.Jobs.{World, JobRow, CreateJobInput, find_id, admit, new_row}
use lifygo.Server.Jobs.Handlers.{post_job}
use lifygo.Server.Jobs.Limit.{active_of, creates, creates-limit}
use lifygo.Server.Jobs.Form.{wanted, form_refused, form_stored}
use lifygo.Server.Jobs.Executions.{ExecutionRow, is_foreign, get_executions, get_executions_answers}
use lifygo.Server.Jobs.Private.{Request, posts, removes, lists, Event, run, rows_of, private_tables}

abbrev log : String → String → LogRow
log id status = record { id = id; user_id = "u"; to_address = "a"; subject = "s"; status = status }

abbrev mailed : List LogRow
mailed = log "1" "sent" ∷ log "2" "failed" ∷ log "3" "sent" ∷ []

abbrev world : World
world = record {
  now = 10;
  parse_time = λ t. some 20;
  cron_error = λ e. none;
  insert_failure = none;
  select_failure = none;
  delete_failure = none;
  max_jobs_per_user = 2;
  has_smtp_config = none;
  new_id = "n";
}

abbrev input : CreateJobInput
input = record {
  user_id = "u";
  name = "ping";
  kind = "webhook";
  schedule_type = "cron";
  cron_expression = some "* * * * *";
  run_at = none;
  webhook_url = some "https://example.com";
  webhook_payload = none;
  email_to = none;
  email_subject = none;
  email_body = none;
}

abbrev row : JobRow
row = record { id = "j"; input = input; status = "active"; enabled = true }

creates-limit_example :
    count (active_of "u") (creates world (("a", input) ∷ ("b", input) ∷ []) (row ∷ [])) ≤ 2
creates-limit_example =
    creates-limit world (("a", input) ∷ ("b", input) ∷ []) (row ∷ []) "u" (omega arith)
      (omega arith)

abbrev utc : Locale
utc = record { to_iso = λ s. fulfilled s; date = λ s. s; date_time = λ s. s; time = λ s. s }

abbrev filled : JobsPage.State
filled = record JobsPage.initial {
  form = record JobsPage.empty_form {
    name = "ping";
    cron_expression = "* * * * *";
    webhook_url = "https://example.com";
  };
}

abbrev body : Body
body =
    ("name", str "ping")
    ∷ ("type", str "webhook")
    ∷ ("schedule_type", str "cron")
    ∷ ("cron_expression", str "* * * * *")
    ∷ ("webhook_url", str "https://example.com")
    ∷ []

asked : (JobsPage.start utc JobsPage.create filled).1 ≡ JobsPage.create_job body ∷ []
unfolding JobsPage.start
asked = refl

allowed : admit world [] (wanted "u" filled none) ≡ ok tt
unfolding admit
allowed = refl

form_stored_example : post_job world [] "u" body ≡ (
  respond 201 (new_row world (wanted "u" filled none)),
  new_row world (wanted "u" filled none) ∷ [],
)
form_stored_example = form_stored utc world "u" filled body none asked refl [] refl refl allowed

abbrev nameless : JobsPage.State
nameless = record JobsPage.initial {
  form = record JobsPage.empty_form { cron_expression = "* * * * *" };
}

abbrev short : Body
short =
    ("name", str "")
    ∷ ("type", str "webhook")
    ∷ ("schedule_type", str "cron")
    ∷ ("cron_expression", str "* * * * *")
    ∷ ("webhook_url", str "")
    ∷ []

asked_short : (JobsPage.start utc JobsPage.create nameless).1 ≡ JobsPage.create_job short ∷ []
unfolding JobsPage.start
asked_short = refl

form_refused_example : post_job world [] "u" short ≡ (respond_error 500 "failed to create job", [])
form_refused_example = form_refused utc world "u" nameless short none asked_short refl [] refl refl

-- Two users in one table.
abbrev event : String → Request → Event
event user r = record { user = user; world = world; request = r }

abbrev events : List Event
events =
    event "u" (posts body)
    ∷ event "v" (posts body)
    ∷ event "v" (removes "j")
    ∷ event "u" lists
    ∷ event "v" lists
    ∷ []

private_tables_example :
    keep (λ r. r.0 === "v") (run events (row ∷ []))
    ≡ run (keep (λ (e : Event). e.user === "v") events) (rows_of "v" (row ∷ []))
private_tables_example = private_tables "v" events (row ∷ [])

abbrev ran : List ExecutionRow
ran =
    record { id = "x"; job_id = "j"; user_id = "u"; status = "success" }
    ∷ record { id = "y"; job_id = "k"; user_id = "v"; status = "failed" }
    ∷ []

get_executions_answers_example :
    (rows : List ExecutionRow) × (length rows ≤ 100)
    × (any (is_foreign "j") rows ≡ false)
    × (get_executions world (row ∷ []) ran "u" "j" "/jobs/j/executions?limit=500"
        ≡ elim (find_id (row ∷ []) "j") [
          | none ↦ respond_error 500 "failed to list executions"
          | some j ↦
              if j.user_id === "u" then respond 200 rows else respond_error 404 "job not found"
        ])
get_executions_answers_example =
    get_executions_answers world (row ∷ []) ran "u" "j" "/jobs/j/executions?limit=500" refl refl
      refl
