-- ===== src/Server/Jobs/Handlers.antt =====
-- internal/handler/job.go: the handlers of the jobs, behind the middleware that knows the user.
use lifygo.Prelude.{ℕ, not, Option, none, some, List, String, if◌then◌else◌, truthy}
use lifygo.Http.{Body, str, num, bool, get_key}
use lifygo.Server.{
  not_found, job_limit_reached, name_required, type_invalid, schedule_type_invalid,
  cron_expression_required, run_at_required, webhook_url_required, email_to_required,
  email_subject_required, email_body_required, sentinel_text, GoError, sentinel, Result, ok, err,
  Answer, respond, respond_error,
}
use lifygo.Server.Jobs.{World, JobRow, CreateJobInput, create, get, list, delete}

pub record CreateJobRequest : Type 0 where
  pub name : Option String
  pub kind : Option String
  pub schedule_type : Option String
  pub cron_expression : Option String
  pub run_at : Option String
  pub webhook_url : Option String
  pub webhook_payload : Option String
  pub email_to : Option String
  pub email_subject : Option String
  pub email_body : Option String

-- A property for a field of texts: `none` if the decoder fails, `some none` if it is absent.
text_property : String → Body → Option (Option String)
unfolding get_key
text_property k b = elim (get_key k b) [
  | none ↦ some none
  | some (str s) ↦ some (some s)
  | some (num n) ↦ none
  | some (bool x) ↦ none
]

infixl 5 ◌>>=o◌
abbrev ◌>>=o◌ : {A B : Type 0} → Option A → (A → Option B) → Option B
none >>=o f = none
some a >>=o f = f a

-- `decodeJSON` of an object with each property once.
unfoldable pub decode : Body → Option CreateJobRequest
unfolding text_property
decode b = text_property "name" b >>=o λ name. text_property "type" b >>=o λ kind.
    text_property "schedule_type" b >>=o λ schedule_type.
    text_property "cron_expression" b >>=o λ cron_expression.
    text_property "run_at" b >>=o λ run_at. text_property "webhook_url" b >>=o λ webhook_url.
    text_property "webhook_payload" b >>=o λ webhook_payload.
    text_property "email_to" b >>=o λ email_to.
    text_property "email_subject" b >>=o λ email_subject.
    text_property "email_body" b >>=o λ email_body. some (record {
      name = name;
      kind = kind;
      schedule_type = schedule_type;
      cron_expression = cron_expression;
      run_at = run_at;
      webhook_url = webhook_url;
      webhook_payload = webhook_payload;
      email_to = email_to;
      email_subject = email_subject;
      email_body = email_body;
    })

-- The zero value of a field that is not a pointer.
abbrev or_zero : Option String → String
or_zero none = ""
or_zero (some s) = s

-- `run_at` as a moment: `none` if it is there and cannot be read.
unfoldable pub read_run_at : World → Option String → Option (Option ℕ)
read_run_at w none = some none
read_run_at w (some t) = elim (w.parse_time t) [ none ↦ none | some n ↦ some (some n) ]

unfoldable pub input_of : String → CreateJobRequest → Option ℕ → CreateJobInput
input_of user req run_at = record {
  user_id = user;
  name = or_zero req.name;
  kind = or_zero req.kind;
  schedule_type = or_zero req.schedule_type;
  cron_expression = req.cron_expression;
  run_at = run_at;
  webhook_url = req.webhook_url;
  webhook_payload = req.webhook_payload;
  email_to = req.email_to;
  email_subject = req.email_subject;
  email_body = req.email_body;
}

-- `switch err { … }`.
unfoldable pub create_refusal : {A : Type 0} → GoError → Answer A
create_refusal (sentinel job_limit_reached) = respond_error 422 (sentinel_text job_limit_reached)
create_refusal (sentinel name_required) = respond_error 400 (sentinel_text name_required)
create_refusal (sentinel type_invalid) = respond_error 400 (sentinel_text type_invalid)
create_refusal (sentinel schedule_type_invalid) =
    respond_error 400 (sentinel_text schedule_type_invalid)
create_refusal (sentinel cron_expression_required) =
    respond_error 400 (sentinel_text cron_expression_required)
create_refusal (sentinel run_at_required) = respond_error 400 (sentinel_text run_at_required)
create_refusal (sentinel webhook_url_required) =
    respond_error 400 (sentinel_text webhook_url_required)
create_refusal (sentinel email_to_required) = respond_error 400 (sentinel_text email_to_required)
create_refusal (sentinel email_subject_required) =
    respond_error 400 (sentinel_text email_subject_required)
create_refusal (sentinel email_body_required) =
    respond_error 400 (sentinel_text email_body_required)
create_refusal _ = respond_error 500 "failed to create job"

unfoldable pub created_answer : Result JobRow → Answer JobRow
unfolding create_refusal
created_answer (ok j) = respond 201 j
created_answer (err e) = create_refusal e

-- POST /jobs with a body that was read, and the table behind it.
unfoldable pub create_decoded :
    World → List JobRow → String → CreateJobRequest → Answer JobRow × List JobRow
unfolding read_run_at created_answer
create_decoded w table user req = elim (read_run_at w req.run_at) [
  | none ↦
      (respond_error 400 "invalid run_at format — use RFC3339 e.g. 2026-01-01T09:00:00Z", table)
  | some run_at ↦ (
    created_answer (create w table (input_of user req run_at)).0,
    (create w table (input_of user req run_at)).1,
  )
]

unfoldable pub post_job : World → List JobRow → String → Body → Answer JobRow × List JobRow
unfolding create_decoded
post_job w table user b =
    if not (truthy user) then (respond_error 401 "unauthorized", table) else elim (decode b) [
      | none ↦ (respond_error 400 "invalid request body", table)
      | some req ↦ create_decoded w table user req
    ]

-- `if err == model.ErrNotFound`, and else 500 with a text.
unfoldable pub not_found_or : {A : Type 0} → String → GoError → Answer A
not_found_or text (sentinel not_found) = respond_error 404 "job not found"
not_found_or text _ = respond_error 500 text

-- GET /jobs
unfoldable pub get_jobs : World → List JobRow → String → Answer (List JobRow)
unfolding list
get_jobs w table user =
    if not (truthy user) then respond_error 401 "unauthorized" else elim (list w table user) [
      | err e ↦ respond_error 500 "failed to list jobs"
      | ok jobs ↦ respond 200 jobs
    ]

-- GET /jobs/{id}
unfoldable pub get_job : World → List JobRow → String → String → Answer JobRow
unfolding get not_found_or
get_job w table user id =
    if not (truthy user)
    then respond_error 401 "unauthorized"
    else if not (truthy id)
    then respond_error 400 "job id is required"
    else elim (get w table id user) [
      | err e ↦ not_found_or "failed to get job" e
      | ok j ↦ respond 200 j
    ]

unfoldable pub delete_reply : Result (Unit {0}) → Answer String
unfolding not_found_or
delete_reply (err e) = not_found_or "failed to delete job" e
delete_reply (ok u) = respond 200 "job deleted"

-- DELETE /jobs/{id}
unfoldable pub delete_job : World → List JobRow → String → String → Answer String × List JobRow
unfolding delete delete_reply
delete_job w table user id =
    if not (truthy user)
    then (respond_error 401 "unauthorized", table)
    else if not (truthy id)
    then (respond_error 400 "job id is required", table)
    else (delete_reply (delete w table id user).0, (delete w table id user).1)
