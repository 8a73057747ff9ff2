-- ===== src/Server/Jobs.antt =====
-- internal/model/job.go, internal/service/job.go and the queries of internal/repository/job.go on a
-- table of jobs, the newest first. A rule of EventBridge is an extra whose failure is dropped, and
-- is left out.
pub mod Handlers
pub mod Errors
pub mod Limit
pub mod Form
pub mod Private
pub mod Executions
use lifygo.Prelude.{
  ℕ, zero, suc, Bool, true, false, not, ◌&&◌, ◌||◌, Option, none, some, List, [], ◌∷◌, String,
  if◌then◌else◌, ◌===◌, ltb, ◌==◌, truthy, count, keep, any, has_prefix, byte_length,
}
use lifygo.Server.{
  Sentinel, not_found, unauthorized, job_limit_reached, name_required, type_invalid,
  schedule_type_invalid, cron_expression_required, run_at_required, webhook_url_required,
  email_to_required, email_subject_required, email_body_required, GoError, sentinel, made, wrapped,
  Result, ok, err, ◌>>=◌, ◌>>◌, refuse,
}

-- `model.CreateJobInput`; a moment is a number of nanoseconds.
pub record CreateJobInput : Type 0 where
  pub user_id : String
  pub name : String
  pub kind : String
  pub schedule_type : String
  pub cron_expression : Option String
  pub run_at : Option ℕ
  pub webhook_url : Option String
  pub webhook_payload : Option String
  pub email_to : Option String
  pub email_subject : Option String
  pub email_body : Option String

-- `model.Job`, less the columns that only the worker writes and reads.
pub record JobRow : Type 0 where
  pub id : String
  pub input : CreateJobInput
  pub open input use *
  pub status : String
  pub enabled : Bool

-- What the service uses: the clock, the cron parser (the text of its error, if any), the database's
-- failures, the limit (0 for none), and, if it was given one, the check for a server of the user's.
pub record World : Type 0 where
  pub now : ℕ
  pub parse_time : String → Option ℕ
  pub cron_error : String → Option String
  pub insert_failure : Option String
  pub select_failure : Option String
  pub delete_failure : Option String
  pub max_jobs_per_user : ℕ
  pub has_smtp_config : Option (String → Bool)
  pub new_id : String

-- `p == nil || *p == ""`.
abbrev is_blank : Option String → Bool
is_blank none = true
is_blank (some s) = not (truthy s)

-- `*p`, behind a test that it is not nil.
abbrev deref : Option String → String
deref none = ""
deref (some s) = s

abbrev is_nil {ℓ} : {A : Type ℓ} → Option A → Bool
is_nil none = true
is_nil (some a) = false

validate_email : CreateJobInput → Option Sentinel
validate_email i =
    if is_blank i.email_to
    then some email_to_required
    else if is_blank i.email_subject
    then some email_subject_required
    else if is_blank i.email_body
    then some email_body_required
    else none

-- `Validate`; `none` is nil.
unfoldable pub validate : CreateJobInput → Option Sentinel
unfolding validate_email
validate i =
    if not (truthy i.user_id)
    then some unauthorized
    else if not (truthy i.name)
    then some name_required
    else if not (i.kind === "webhook") && not (i.kind === "email")
    then some type_invalid
    else if not (i.schedule_type === "cron") && not (i.schedule_type === "one_time")
    then some schedule_type_invalid
    else if i.schedule_type === "cron" && is_blank i.cron_expression
    then some cron_expression_required
    else if i.schedule_type === "one_time" && is_nil i.run_at
    then some run_at_required
    else if i.kind === "webhook" && is_blank i.webhook_url
    then some webhook_url_required
    else if i.kind === "email"
    then validate_email i
    else none

input_error : CreateJobInput → Option GoError
unfolding validate
input_error i = elim (validate i) [
  | none ↦ none
  | some e ↦ some (wrapped "invalid input" (sentinel e))
]

validate_cron_expression : World → String → Option GoError
validate_cron_expression w expr = elim (w.cron_error expr) [
  | none ↦ none
  | some e ↦ some (wrapped "invalid cron expression" (wrapped "invalid cron expression" (made e)))
]

cron_error_of : World → CreateJobInput → Option GoError
unfolding validate_cron_expression
cron_error_of w i =
    if i.schedule_type === "cron"
    then validate_cron_expression w (deref i.cron_expression)
    else none

-- `RunAt.Before(now)`.
past_error : World → CreateJobInput → Option GoError
past_error w i =
    if i.schedule_type === "one_time"
    then elim i.run_at [
      | none ↦ none
      | some t ↦ if ltb t w.now then some (made "run_at must be in the future") else none
    ]
    else none

validate_webhook_url : String → Option GoError
validate_webhook_url url =
    if byte_length url == 0
    then some (made "webhook url is required")
    else if ltb (byte_length url) 8
    then some (made "webhook url is too short")
    else if not (has_prefix "http://" url) && not (has_prefix "https://" url)
    then some (made "webhook url must start with http:// or https://")
    else none

url_error : World → CreateJobInput → Option GoError
unfolding validate_webhook_url
url_error w i =
    if i.kind === "webhook"
    then elim (validate_webhook_url (deref i.webhook_url)) [
      | none ↦ none
      | some e ↦ some (wrapped "invalid webhook url" e)
    ]
    else none

-- `WHERE user_id = $1`.
unfoldable pub list_by_user_id : World → List JobRow → String → Result (List JobRow)
list_by_user_id w table user = elim w.select_failure [
  | none ↦ ok (keep (λ (j : JobRow). j.user_id === user) table)
  | some e ↦ err (wrapped "failed to list jobs" (made e))
]

abbrev pub is_active : JobRow → Bool
is_active j = j.status === "active"

-- The two checks of the number of active jobs.
limited : World → List JobRow → String → ℕ → GoError → Result (Unit {0})
unfolding list_by_user_id
limited w table user limit e = elim (list_by_user_id w table user) [
  | err f ↦ err (wrapped "failed to count jobs" f)
  | ok jobs ↦ if ltb (count is_active jobs) limit then ok tt else err e
]

limit_check : World → List JobRow → String → Result (Unit {0})
unfolding limited
limit_check w table user =
    if ltb 0 w.max_jobs_per_user
    then limited w table user w.max_jobs_per_user (sentinel job_limit_reached)
    else ok tt

free_tier_check : World → List JobRow → String → Result (Unit {0})
unfolding limited
free_tier_check w table user = elim w.has_smtp_config [
  | none ↦ ok tt
  | some has ↦
      if not (has user)
      then limited w table user 3
          (made "free tier limit reached: 3 active jobs. Self-host for unlimited jobs.")
      else ok tt
]

abbrev pub new_row : World → CreateJobInput → JobRow
new_row w i = record { id = w.new_id; input = i; status = "active"; enabled = true }

-- All that `Create` does before it writes.
unfoldable pub admit : World → List JobRow → CreateJobInput → Result (Unit {0})
unfolding input_error cron_error_of past_error url_error limit_check free_tier_check
admit w table i = do
  refuse (input_error i)
  refuse (cron_error_of w i)
  refuse (past_error w i)
  refuse (url_error w i)
  limit_check w table i.user_id
  free_tier_check w table i.user_id

-- `INSERT INTO jobs … RETURNING …`, and the error that `Create` makes of a failure.
unfoldable pub insert_job : World → List JobRow → CreateJobInput → Result JobRow × List JobRow
insert_job w table i = elim w.insert_failure [
  | none ↦ (ok (new_row w i), new_row w i ∷ table)
  | some e ↦ (err (wrapped "failed to create job" (wrapped "failed to create job" (made e))), table)
]

unfoldable pub create : World → List JobRow → CreateJobInput → Result JobRow × List JobRow
unfolding admit insert_job
create w table i = elim (admit w table i) [ ok u ↦ insert_job w table i | err e ↦ (err e, table) ]

-- `SELECT … WHERE id = $1`; `id` is the key of the table.
unfoldable pub find_id : List JobRow → String → Option JobRow
find_id [] id = none
find_id (j ∷ table) id = if j.id === id then some j else find_id table id

unfoldable pub get_by_id : World → List JobRow → String → Result JobRow
unfolding find_id
get_by_id w table id = elim w.select_failure [
  | some e ↦ err (wrapped "failed to get job by id" (made e))
  | none ↦ elim (find_id table id) [ none ↦ err (sentinel not_found) | some j ↦ ok j ]
]

unfoldable pub get : World → List JobRow → String → String → Result JobRow
unfolding get_by_id
get w table id user =
    if not (truthy id) || not (truthy user)
    then err (sentinel not_found)
    else elim (get_by_id w table id) [
      | err e ↦ err (wrapped "failed to get job" e)
      | ok j ↦ if j.user_id === user then ok j else err (sentinel not_found)
    ]

unfoldable pub list : World → List JobRow → String → Result (List JobRow)
unfolding list_by_user_id
list w table user =
    if not (truthy user) then err (sentinel unauthorized) else elim (list_by_user_id w table user) [
      | err e ↦ err (wrapped "failed to list jobs" e)
      | ok jobs ↦ ok jobs
    ]

abbrev pub owns : String → String → JobRow → Bool
owns id user j = j.id === id && j.user_id === user

-- `DELETE FROM jobs WHERE id = $1 AND user_id = $2`.
delete_row : World → List JobRow → String → String → Result (Unit {0}) × List JobRow
delete_row w table id user = elim w.delete_failure [
  | some e ↦ (err (wrapped "failed to delete job" (made e)), table)
  | none ↦
      if any (owns id user) table
      then (ok tt, keep (λ j. not (owns id user j)) table)
      else (err (sentinel not_found), table)
]

delete_failed : Result (Unit {0}) → Result (Unit {0})
delete_failed (ok u) = ok u
delete_failed (err e) = err (wrapped "failed to delete job" e)

unfoldable pub delete : World → List JobRow → String → String → Result (Unit {0}) × List JobRow
unfolding delete_row delete_failed
delete w table id user =
    if not (truthy id) || not (truthy user)
    then (err (sentinel not_found), table)
    else (delete_failed (delete_row w table id user).0, (delete_row w table id user).1)
