-- ===== src/Server/Jobs/Form.antt =====
-- From the form of the jobs page through the body of its request to the row that the server stores.
use lifygo.Prelude.{
  ℕ, ◌≡◌, refl, ap, ◌∙◌, inl, inr, Bool, true, false, not, ◌&&◌, Option, none, some, List, [], ◌∷◌,
  String, if◌then◌else◌, truthy, arith, Option-cases,
}
use lifygo.Http.{Body, Settled, fulfilled, rejected, get_key}
use lifygo.Locale.{Locale}
use lifygo.Features.{type_text, cron, one_time, schedule_text}
use lifygo.JobsPage
use lifygo.JobsPage.{State, create_job, start}
use lifygo.JobsPage.Laws.{is_cron, is_webhook}
use lifygo.Server.{Sentinel, ok, respond, respond_error}
use lifygo.Server.Jobs.{World, JobRow, CreateJobInput, new_row, validate, admit, create, insert_job}
use lifygo.Server.Jobs.Handlers.{
  CreateJobRequest, decode, read_run_at, input_of, post_job, create_decoded,
}
use lifygo.Server.Jobs.Errors.{invalid_is_500}

-- A value for one of the choices only.
abbrev pub only {ℓ} : {A : Type ℓ} → Bool → A → Option A
only b a = if b then some a else none

-- The date of a one-time job, as the server reads what the page makes of it; `none` if one cannot.
abbrev pub moment : World → Locale → State → Option (Option ℕ)
moment w env s = elim s.schedule_type [
  | cron ↦ some none
  | one_time ↦ elim (env.to_iso s.form.run_at) [
    | rejected e ↦ none
    | fulfilled t ↦ elim (w.parse_time t) [ none ↦ none | some n ↦ some (some n) ]
  ]
]

-- What the form says.
abbrev pub wanted : String → State → Option ℕ → CreateJobInput
wanted user s run_at = record {
  user_id = user;
  name = s.form.name;
  kind = type_text s.job_type;
  schedule_type = schedule_text s.schedule_type;
  cron_expression = only (is_cron s.schedule_type) s.form.cron_expression;
  run_at = run_at;
  webhook_url = only (is_webhook s.job_type) s.form.webhook_url;
  webhook_payload =
      only (is_webhook s.job_type && truthy s.form.webhook_payload) s.form.webhook_payload;
  email_to = only (not (is_webhook s.job_type)) s.form.email_to;
  email_subject = only (not (is_webhook s.job_type)) s.form.email_subject;
  email_body = only (not (is_webhook s.job_type)) s.form.email_body;
}

-- The fields that the choices ask for are there.
abbrev pub is_complete : State → Bool
is_complete s =
    truthy s.form.name
    && (if is_cron s.schedule_type then truthy s.form.cron_expression else true)
    && (if is_webhook s.job_type
        then truthy s.form.webhook_url
        else truthy s.form.email_to && truthy s.form.email_subject && truthy s.form.email_body)

abbrev date_text : Settled String → Option String
date_text (rejected e) = none
date_text (fulfilled t) = some t

abbrev sent : Locale → State → CreateJobRequest
sent env s = record {
  name = some s.form.name;
  kind = some (type_text s.job_type);
  schedule_type = some (schedule_text s.schedule_type);
  cron_expression = only (is_cron s.schedule_type) s.form.cron_expression;
  run_at = if is_cron s.schedule_type then none else date_text (env.to_iso s.form.run_at);
  webhook_url = only (is_webhook s.job_type) s.form.webhook_url;
  webhook_payload =
      only (is_webhook s.job_type && truthy s.form.webhook_payload) s.form.webhook_payload;
  email_to = only (not (is_webhook s.job_type)) s.form.email_to;
  email_subject = only (not (is_webhook s.job_type)) s.form.email_subject;
  email_body = only (not (is_webhook s.job_type)) s.form.email_body;
}

module _ (env : Locale) (w : World) (user : String) (s : State) (b : Body) (run_at : Option ℕ)
    (asked : (start env JobsPage.create s).1 ≡ create_job b ∷ [])
    (read : moment w env s ≡ some run_at) where
  decode-asked : decode b ≡ some (sent env s)
  unfolding start decode get_key
  decode-asked = ground arith

  read-sent : read_run_at w (sent env s).run_at ≡ some run_at
  unfolding read_run_at
  read-sent = ground arith

  input-sent : input_of user (sent env s) run_at ≡ wanted user s run_at
  unfolding input_of
  input-sent = ground arith

  valid_complete : validate (wanted user s run_at) ≡ none → is_complete s ≡ true
  unfolding validate
  valid_complete v = ground arith

  refused : is_complete s ≡ false → (e : Sentinel) × (validate (wanted user s run_at) ≡ some e)
  refused h = elim (Option-cases (validate (wanted user s run_at))) [
    | inl v ↦ absurd (ground (arith, valid_complete v))
    | inr found ↦ found
  ]

  create-wanted :
      (table : List JobRow)
      → w.insert_failure ≡ none
      → admit w table (wanted user s run_at) ≡ ok tt
      → create w table (wanted user s run_at)
        ≡ (ok (new_row w (wanted user s run_at)), new_row w (wanted user s run_at) ∷ table)
  unfolding create
  create-wanted table f a = rw (a, create, f, insert_job) refl

  -- If a field is empty that the chosen type and schedule ask for, and the date of a one-time job is one
  -- that the server can read, the server answers the page's request with 500, whatever the other fields
  -- say, and stores nothing.
  pub form_refused :
      (table : List JobRow)
      → truthy user ≡ true
      → is_complete s ≡ false
      → post_job w table user b ≡ (respond_error 500 "failed to create job", table)
  form_refused table u h =
      let (e, v) = refused h in
      invalid_is_500 w table user b (sent env s) run_at e u decode-asked read-sent
        (ap validate input-sent ∙ v)

  -- If the page's request is admitted and the database answers, the row that is stored, and answered
  -- with 201, is exactly what the form says, with the date as the server reads it, of that user,
  -- active and enabled.
  pub form_stored :
      (table : List JobRow)
      → truthy user ≡ true
      → w.insert_failure ≡ none
      → admit w table (wanted user s run_at) ≡ ok tt
      → let row = new_row w (wanted user s run_at) in
        post_job w table user b ≡ (respond 201 row, row ∷ table)
  unfolding post_job
  form_stored table u f a =
      rw (u, decode-asked, create_decoded, read-sent, input-sent, create-wanted table f a) refl
