-- ===== src/JobsPage/Requests.antt =====
-- The jobs page as a system of gestures and settling calls: which calls can be in flight at once.
use lifygo.Prelude.{
  ◌+◌, ◌≡◌, refl, Bool, true, false, not, ◌&&◌, [], ◌∷◌, String, ◌===◌, any, any_none, any_of_In,
  count, ◌⊎◌, In, arith, if◌then◌else◌, truthy,
}
use lifygo.Html.{gestures, any-gestures}
use lifygo.Locale.{Locale}
use lifygo.Page.{Page, System, Reach}
use lifygo.Page.InFlight.{bit, Tracks, Marks, Reach-Counted, Reach-Marked}
use lifygo.JobsPage.{
  State, Call, create, delete, toggle, Pending, list_jobs, list_executions, create_job, delete_job,
  Completion, listed, pending_of, initial, start, finish, is_id,
}
use lifygo.JobsPage.View.{view}
use lifygo.JobsPage.View.Offers.{view-offers, row_offers}

unfoldable pub jobs_page : Locale → Page State Call Pending Completion
jobs_page env = record {
  initial = initial;
  mount = list_jobs ∷ [];
  view = view env;
  start = start env;
  finish = λ d s. (finish d s, []);
  pending_of = pending_of;
}

abbrev pub is_create_call : Call → Bool
is_create_call create = true
is_create_call _ = false

abbrev pub is_create : Pending → Bool
is_create (create_job b) = true
is_create _ = false

abbrev pub is_delete : String → Pending → Bool
is_delete id (delete_job x) = x === id
is_delete id _ = false

abbrev pub is_list_executions : String → Pending → Bool
is_list_executions id (list_executions x) = x === id
is_list_executions id _ = false

-- The rendered page lets the user create a job exactly when no creation is running and the job
-- has a name.
pub view-offers_create :
    (env : Locale) (v : String) (s : State)
    → any is_create_call (gestures v (view env s)) ≡ not s.loading && truthy s.form.name
view-offers_create env v s =
    rw
      (
        any-gestures is_create_call v (view env s),
        view-offers is_create_call (λ f t. refl) (λ t. refl) (λ t. refl) v env s,
        any_none (row_offers is_create_call v env s) s.jobs (λ j. ground arith),
      )
      (ground arith)

create_idle :
    (env : Locale) (v : String) (s : State)
    → In create (gestures v (view env s))
    → s.loading ≡ false
create_idle env v s i =
    ground
      (arith, any_of_In is_create_call (gestures v (view env s)) i refl, view-offers_create env v s)

module _ (env : Locale) (s : State) (v : String) where
  start-loading :
      (e : Call)
      → In e (gestures v (view env s))
      → bit s.loading + count is_create (start env e s).1 ≡ bit (start env e s).0.loading
  unfolding start
  start-loading create i = ground (arith, create_idle env v s i)
  start-loading (toggle id) i = ground arith
  start-loading _ i = ground arith

loading-Tracks : (env : Locale) → Tracks (jobs_page env) (λ s. s.loading) is_create
unfolding jobs_page
loading-Tracks env = record {
  at_start = refl;
  on_press = λ s v e i. start-loading env s v e i;
  on_settle = λ s d h. unfold finish in ground (arith, h);
}

-- In every reachable state of the jobs page, the creations in flight are none if the page is not
-- loading and one if it is: the page never runs two creations at once.
pub create_in_flight :
    (env : Locale) {t : System State Pending}
    → Reach (jobs_page env) t
    → count is_create t.in_flight ≡ (if t.page.loading then 1 else 0)
create_in_flight env r = Reach-Counted (loading-Tracks env) r

module _ (env : Locale) (id : String) (s : State) where
  start-deleting :
      (e : Call)
      → is_id (start env e s).0.deleting id ≡ true
      → (is_id s.deleting id ≡ true) ⊎ (any (is_delete id) (start env e s).1 ≡ true)
  unfolding start
  start-deleting (delete x) b = ground arith
  start-deleting _ b = ground arith

  finish-deleting :
      (d : Completion)
      → is_id (finish d s).deleting id ≡ true
      → ((is_id s.deleting id ≡ true) × (is_delete id (pending_of d) ≡ false)) ⊎ (false ≡ true)
  unfolding finish
  finish-deleting (listed r) b = ground arith
  finish-deleting _ b = ground arith

  start-loading_executions :
      (e : Call)
      → is_id (start env e s).0.loading_executions id ≡ true
      → (is_id s.loading_executions id ≡ true)
        ⊎ (any (is_list_executions id) (start env e s).1 ≡ true)
  unfolding start
  start-loading_executions (toggle x) b = ground arith
  start-loading_executions _ b = ground arith

  finish-loading_executions :
      (d : Completion)
      → is_id (finish d s).loading_executions id ≡ true
      → ((is_id s.loading_executions id ≡ true) × (is_list_executions id (pending_of d) ≡ false))
        ⊎ (false ≡ true)
  unfolding finish
  finish-loading_executions (listed r) b = ground arith
  finish-loading_executions _ b = ground arith

deleting-Marks :
    (env : Locale) (id : String) → Marks (jobs_page env) (λ s. is_id s.deleting id) (is_delete id)
unfolding jobs_page
deleting-Marks env id = record {
  at_start = refl;
  on_press = start-deleting env id;
  on_settle = finish-deleting env id;
}

loading_executions-Marks :
    (env : Locale) (id : String)
    → Marks (jobs_page env) (λ s. is_id s.loading_executions id) (is_list_executions id)
unfolding jobs_page
loading_executions-Marks env id = record {
  at_start = refl;
  on_press = start-loading_executions env id;
  on_settle = finish-loading_executions env id;
}

-- In every reachable state, a job whose row shows a running deletion has one in flight, and a job
-- whose history is shown as loading has a call for it in flight.
pub spinners_are_backed :
    (env : Locale) (id : String) {t : System State Pending}
    → Reach (jobs_page env) t
    → (is_id t.page.deleting id ≡ true → any (is_delete id) t.in_flight ≡ true)
      × (is_id t.page.loading_executions id ≡ true → any (is_list_executions id) t.in_flight ≡ true)
spinners_are_backed env id r =
    (Reach-Marked (deleting-Marks env id) r, Reach-Marked (loading_executions-Marks env id) r)
