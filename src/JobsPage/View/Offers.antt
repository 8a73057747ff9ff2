-- ===== src/JobsPage/View/Offers.antt =====
-- Which handler calls the rendered page of the jobs allows.
use lifygo.Prelude.{Bool, false, not, ◌||◌, ◌&&◌, ◌≡◌, refl, String, arith, truthy, any}
use lifygo.Features.{Job}
use lifygo.Http.{get_key}
use lifygo.Html.{offers, offers-each_none, offers-each, offers-choose_list}
use lifygo.Locale.{Locale}
use lifygo.JobsPage.{
  JobExecution, Field, State, Call, create, delete, change, set_job_type, set_schedule_type, toggle,
  is_id,
}
use lifygo.JobsPage.View.{
  view, job_item, execution_row, executions_body, jobs_table, rows_of, create_panel, jobs_panel,
  no_jobs,
}
use lifygo.Features.{JobType, JobScheduleType}

module _ (p : Call → Bool) (v : String) (env : Locale) where
  execution_row-offers : (e : JobExecution) → offers p v (execution_row env e) ≡ false
  unfolding execution_row offers
  execution_row-offers e = ground arith

  executions_body-offers : (s : State) (j : Job) → offers p v (executions_body env s j) ≡ false
  unfolding executions_body offers
  executions_body-offers s j = ground (
    arith,
    offers-each_none p v (execution_row env) (rows_of (get_key j.id s.executions))
        execution_row-offers,
  )

  job_item-offers :
      (s : State) (j : Job)
      → offers p v (job_item env s j)
        ≡ p (toggle j.id) || (not (is_id s.deleting j.id) && p (delete j.id))
  unfolding job_item offers
  job_item-offers s j = ground (arith, executions_body-offers s j)

  -- A row offers its toggle, and its deletion unless that is the one marked as running.
  abbrev pub row_offers : State → Job → Bool
  row_offers s j = p (toggle j.id) || (not (is_id s.deleting j.id) && p (delete j.id))

  jobs_panel-offers : (s : State) → offers p v (jobs_panel env s) ≡ any (row_offers s) s.jobs
  unfolding jobs_panel jobs_table no_jobs offers
  jobs_panel-offers s =
      offers-choose_list p (row_offers s) v s.jobs no_jobs (jobs_table env s) refl
        (ground (arith, offers-each p (row_offers s) v (job_item env s) s.jobs (job_item-offers s)))

module _ (p : Call → Bool) (change_none : (f : Field) (t : String) → p (change f t) ≡ false)
    (type_none : (t : JobType) → p (set_job_type t) ≡ false)
    (schedule_none : (t : JobScheduleType) → p (set_schedule_type t) ≡ false) (v : String)
    (env : Locale) where
  create_panel-offers :
      (s : State)
      → offers p v (create_panel s) ≡ not (s.loading || not (truthy s.form.name)) && p create
  unfolding create_panel offers
  create_panel-offers s = simp (change_none, type_none, schedule_none) (ground arith)

  pub view-offers :
      (s : State)
      → offers p v (view env s)
        ≡ (not (s.loading || not (truthy s.form.name)) && p create)
          || any (row_offers p v env s) s.jobs
  unfolding view offers
  view-offers s = ground (arith, create_panel-offers s, jobs_panel-offers p v env s)
