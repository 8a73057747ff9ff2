-- ===== src/JobsPage/Laws.antt =====
-- What the handlers of the jobs page do to its state, and what they ask the API for.
use lifygo.Prelude.{
  ◌≡◌, ◌≢◌, ◌↔◌, refl, Bool, true, false, not, Option, none, some, [], ◌∷◌, String, ◌===◌, In,
  In-keep, ◌⊎◌, inl, inr, arith, truthy, if◌then◌else◌,
}
use text.Mathlib.TextEquality.{eq_iff}
use lifygo.Http.{
  Body, Value, str, Settled, fulfilled, rejected, Settled-cases, Thrown, message, get_key,
}
use lifygo.Http.Laws.{get_key-set_key}
use lifygo.Locale.{Locale}
use lifygo.Features.{
  Job, JobType, webhook, email, type_text, JobScheduleType, cron, one_time, schedule_text,
}
use lifygo.Page.{System, press, settle, Run, stay, step}
use lifygo.JobsPage.{
  State, Call, create, toggle, Pending, create_job, Completion, listed, created, deleted,
  executions_listed, empty_form, start, finish, schedule_fields, create_input, is_missing,
}
use lifygo.JobsPage.Requests.{jobs_page}

not_same : (a b : String) → (not (a === b) ≡ true) ↔ (a ≢ b)
not_same a b = (λ h e. ground (arith, eq_iff a b), λ h. ground (arith, eq_iff a b))

-- When a deletion has succeeded, the list holds exactly the jobs that it held before whose id is
-- another one, and no row is marked as running.
pub finish-deleted :
    (id : String) (s : State)
    → ((j : Job) → In j (finish (deleted id (fulfilled tt)) s).jobs ↔ (In j s.jobs × (j.id ≢ id)))
      × ((finish (deleted id (fulfilled tt)) s).deleting ≡ none)
unfolding finish
finish-deleted id s = (
  λ j.
      let (to, from) = In-keep (λ (x : Job). not (x.id === id)) j s.jobs in
      (λ h. ((to h).0, (not_same j.id id).0 (to h).1), λ h. from (h.0, (not_same j.id id).1 h.1)),
  refl,
)

abbrev pub is_cron : JobScheduleType → Bool
is_cron cron = true
is_cron one_time = false

abbrev pub is_webhook : JobType → Bool
is_webhook webhook = true
is_webhook email = false

abbrev iso_of : Settled String → Option Value
iso_of (fulfilled t) = some (str t)
iso_of (rejected e) = none

-- What a creation asks for, read back by the names of the properties: the form's name, the chosen
-- type and schedule, and the fields of these and of no other; an empty payload is left out.
pub create_request :
    (env : Locale) (s : State) (b : Body)
    → (start env create s).1 ≡ create_job b ∷ []
    → (get_key "name" b ≡ some (str s.form.name))
      × (get_key "type" b ≡ some (str (type_text s.job_type)))
      × (get_key "schedule_type" b ≡ some (str (schedule_text s.schedule_type)))
      × (get_key "cron_expression" b
          ≡ (if is_cron s.schedule_type then some (str s.form.cron_expression) else none))
      × (get_key "run_at" b
          ≡ (if is_cron s.schedule_type then none else iso_of (env.to_iso s.form.run_at)))
      × (get_key "webhook_url" b
          ≡ (if is_webhook s.job_type then some (str s.form.webhook_url) else none))
      × (get_key "webhook_payload" b ≡ (
          if is_webhook s.job_type
          then (if truthy s.form.webhook_payload then some (str s.form.webhook_payload) else none)
          else none))
      × (get_key "email_to" b
          ≡ (if is_webhook s.job_type then none else some (str s.form.email_to)))
      × (get_key "email_subject" b
          ≡ (if is_webhook s.job_type then none else some (str s.form.email_subject)))
      × (get_key "email_body" b
          ≡ (if is_webhook s.job_type then none else some (str s.form.email_body)))
unfolding start get_key
create_request env s b h = ground arith

-- A creation that fails, whenever it does, leaves the list, the form and the choice of tabs as they
-- were: only the messages change, and the page is no longer loading.
pub create_fails :
    (env : Locale) (s : State) (b : Body) (e : Thrown)
    → finish (created b (rejected e)) (start env create s).0
      ≡ record s { error = message e "Failed to schedule job"; success = ""; loading = false }
unfolding start finish
create_fails env s b e = ground arith

-- If the date of a one-time job cannot be read, no call is made, and the page reports the error in
-- the same way; in every other case exactly one call is made, with the page loading and the
-- messages cleared.
pub create_starts :
    (env : Locale) (s : State)
    → ((e : Thrown) × (s.schedule_type ≡ one_time)
        × (env.to_iso s.form.run_at ≡ rejected e)
        × (start env create s ≡ (
          record s { error = message e "Failed to schedule job"; success = ""; loading = false },
          [],
        )))
      ⊎ ((b : Body) × (start env create s
            ≡ (record s { error = ""; success = ""; loading = true }, create_job b ∷ [])))
unfolding start
create_starts env s = elim (Settled-cases (schedule_fields env s)) [
  | inl (fields, q) ↦ inr (create_input s fields, ground arith)
  | inr (e, q) ↦ inl (e, ground arith, ground arith, ground arith)
]

-- A creation whose call was made and succeeds puts the new job in front of the list, empties the
-- form, and leaves what else the page shows as it was but for the messages.
pub create_succeeds :
    (env : Locale) (s : State) (b : Body) (j : Job)
    → (start env create s).1 ≡ create_job b ∷ []
    → finish (created b (fulfilled j)) (start env create s).0 ≡ record s {
      jobs = j ∷ s.jobs;
      error = "";
      success = "Job scheduled successfully.";
      form = empty_form;
      loading = false;
    }
unfolding start finish
create_succeeds env s b j h = ground arith

abbrev IsCached : String → State → Type 0
IsCached id s = is_missing (get_key id s.executions) ≡ false

start-IsCached :
    (env : Locale) (id : String) (e : Call) (s : State)
    → IsCached id s
    → IsCached id (start env e s).0
unfolding start
start-IsCached env id create s h = ground arith
start-IsCached env id _ s h = ground arith

finish-IsCached :
    (id : String) (d : Completion) (s : State) → IsCached id s → IsCached id (finish d s)
unfolding finish
finish-IsCached id (executions_listed x (fulfilled xs)) s h =
    ground (arith, get_key-set_key x id xs s.executions)
finish-IsCached id (listed r) s h = ground arith
finish-IsCached id _ s h = ground arith

module _ (env : Locale) (id : String) where
  Run-IsCached :
      {t u : System State Pending}
      → Run (jobs_page env) t u
      → IsCached id t.page
      → IsCached id u.page
  unfolding jobs_page
  Run-IsCached stay h = h
  Run-IsCached (step r (press t v e i)) h = start-IsCached env id e t.page (Run-IsCached r h)
  Run-IsCached (step r (settle t d before after e)) h =
      finish-IsCached id d t.page (Run-IsCached r h)

  -- Once the history of a job is loaded it stays loaded, whatever happens later, and opening or
  -- closing its row makes no call.
  pub toggle_cached :
      {t u : System State Pending}
      → Run (jobs_page env) t u
      → is_missing (get_key id t.page.executions) ≡ false
      → (is_missing (get_key id u.page.executions) ≡ false)
        × ((start env (toggle id) u.page).1 ≡ [])
  unfolding start
  toggle_cached r h = ground (arith, Run-IsCached r h)
