-- ===== src/JobsPage/Examples.antt =====
-- The theorems about the jobs page at concrete jobs, and tests of its handlers.
use lifygo.Prelude.{
  ◌≡◌, ◌≢◌, refl, inl, inr, true, none, some, [], ◌∷◌, String, ◌===◌, count, In, if◌then◌else◌,
}
use text.Mathlib.TextEquality.{eq_iff}
use lifygo.Html.{gestures}
use lifygo.Http.{Body, str, fulfilled, rejected, error, get_key}
use lifygo.Features.{Job, webhook, email, cron, one_time, active}
use lifygo.Locale.{Locale}
use lifygo.Page.{System, Reach, here, next, press}
use lifygo.JobsPage.{
  State, create, change, name, Pending, create_job, list_jobs, initial, empty_form, start,
}
use lifygo.JobsPage.View.{view}
use lifygo.JobsPage.Requests.{jobs_page, is_create, is_delete, create_in_flight}
use lifygo.JobsPage.Listing.{late_listing}
use lifygo.JobsPage.Races.{delete_twice}
use lifygo.JobsPage.Laws.{create_request}

-- A place whose clock reads one date.
abbrev utc : Locale
utc = record {
  to_iso = λ s.
      if s === "2026-01-01T09:00"
      then fulfilled "2026-01-01T09:00:00.000Z"
      else rejected (error "Invalid time value");
  date = λ s. s;
  date_time = λ s. s;
  time = λ s. s;
}

abbrev job : String → Job
job id = record {
  id = id;
  name = "sync";
  kind = webhook;
  schedule_type = cron;
  cron_expression = some "*/5 * * * *";
  run_at = none;
  webhook_url = some "https://example.com";
  webhook_payload = none;
  email_to = none;
  email_subject = none;
  email_body = none;
  status = active;
  enabled = true;
  created_at = "2026-01-01T00:00:00Z";
}

ids_differ : (job "a").id ≢ (job "b").id
ids_differ e = cc ((eq_iff "a" "b").1 e)

-- The page after a name was typed, and after a click on `Create Job` then.
typed : Reach (jobs_page utc) (record {
  page = record initial { form = record empty_form { name = "sync" } };
  in_flight = list_jobs ∷ [];
})
unfolding jobs_page start view gestures
typed = next here (press _ "sync" (change name "sync") (inl refl))

abbrev sync_form : State
sync_form = record initial { form = record empty_form { name = "sync" } }

abbrev sync_body : Body
sync_body =
    ("name", str "sync")
    ∷ ("type", str "webhook")
    ∷ ("schedule_type", str "cron")
    ∷ ("cron_expression", str "")
    ∷ ("webhook_url", str "")
    ∷ []

abbrev running : System State Pending
running = record {
  page = record sync_form { loading = true };
  in_flight = list_jobs ∷ create_job sync_body ∷ [];
}

create_offered : In create (gestures "" (view utc sync_form))
unfolding view gestures
create_offered = inr (inr (inr (inr (inr (inr (inr (inr (inr (inr (inr (inr (inl refl))))))))))))

running_reached : Reach (jobs_page utc) running
unfolding jobs_page start
running_reached = next typed (press _ "" create create_offered)

create_in_flight_example :
    count is_create running.in_flight ≡ (if running.page.loading then 1 else 0)
create_in_flight_example = create_in_flight utc running_reached

delete_twice_example :
    (t : System State Pending) × Reach (jobs_page utc) t
    × (count (is_delete (job "a").id) t.in_flight ≡ 2)
delete_twice_example = delete_twice utc (job "a") (job "b") ids_differ

late_listing_example :
    (t : System State Pending) × Reach (jobs_page utc) t
    × (t.in_flight ≡ [])
    × (t.page.success ≡ "Job scheduled successfully.")
    × (t.page.jobs ≡ job "b" ∷ [])
late_listing_example = late_listing utc "ping" (job "a") (job "b" ∷ []) refl

-- A one-time e-mail, at a date that can be read, and at none.
abbrev once : String → State
once at = record initial {
  job_type = email;
  schedule_type = one_time;
  form = record empty_form { name = "hello"; run_at = at; email_to = "a@b.c" };
}

abbrev once_body : Body
once_body =
    ("name", str "hello")
    ∷ ("type", str "email")
    ∷ ("schedule_type", str "one_time")
    ∷ ("run_at", str "2026-01-01T09:00:00.000Z")
    ∷ ("email_to", str "a@b.c")
    ∷ ("email_subject", str "")
    ∷ ("email_body", str "")
    ∷ []

once_asked : (start utc create (once "2026-01-01T09:00")).1 ≡ create_job once_body ∷ []
unfolding start
once_asked = refl

create_request_example :
    let s = once "2026-01-01T09:00" in
    (get_key "name" once_body ≡ some (str "hello"))
    × (get_key "type" once_body ≡ some (str "email"))
    × (get_key "schedule_type" once_body ≡ some (str "one_time"))
    × (get_key "cron_expression" once_body ≡ none)
    × (get_key "run_at" once_body ≡ some (str "2026-01-01T09:00:00.000Z"))
    × (get_key "webhook_url" once_body ≡ none)
    × (get_key "webhook_payload" once_body ≡ none)
    × (get_key "email_to" once_body ≡ some (str "a@b.c"))
    × (get_key "email_subject" once_body ≡ some (str ""))
    × (get_key "email_body" once_body ≡ some (str ""))
create_request_example = create_request utc (once "2026-01-01T09:00") once_body once_asked
