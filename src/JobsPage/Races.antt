-- ===== src/JobsPage/Races.antt =====
-- What can overlap on the jobs page: `deleting` and `loadingExecutions` each remember one job.
use lifygo.Prelude.{
  ◌≡◌, ◌≢◌, refl, Bool, true, false, none, some, List, [], ◌∷◌, ◌++◌, String, ◌===◌, any, count, In,
  In-of_any, any_of_In, arith, inl, inr,
}
use text.Mathlib.TextEquality.{eq_iff}
use lifygo.Html.{gestures, any-gestures}
use lifygo.Http.{fulfilled, get_key}
use lifygo.Locale.{Locale}
use lifygo.Features.{Job}
use lifygo.Page.{System, Reach, here, next, press, settle}
use lifygo.JobsPage.{
  State, Call, delete, toggle, Pending, delete_job, list_executions, JobExecution, listed, deleted,
  executions_listed, initial, start, finish, is_id,
}
use lifygo.JobsPage.View.{view}
use lifygo.JobsPage.View.Offers.{view-offers, row_offers}
use lifygo.JobsPage.Requests.{jobs_page, is_delete, is_list_executions}

abbrev is_delete_call : String → Call → Bool
is_delete_call id (delete x) = x === id
is_delete_call id _ = false

abbrev is_toggle_call : String → Call → Bool
is_toggle_call id (toggle x) = x === id
is_toggle_call id _ = false

delete_of_is : (id : String) (e : Call) → is_delete_call id e ≡ true → e ≡ delete id
delete_of_is id (delete x) h = ground (arith, eq_iff x id)
delete_of_is id _ h = cc

toggle_of_is : (id : String) (e : Call) → is_toggle_call id e ≡ true → e ≡ toggle id
toggle_of_is id (toggle x) h = ground (arith, eq_iff x id)
toggle_of_is id _ h = cc

module _ (env : Locale) (s : State) (j : Job) (listed_job : In j s.jobs) where
  -- The row of a listed job offers its deletion, unless it is marked as running.
  pub delete_offered : is_id s.deleting j.id ≡ false → In (delete j.id) (gestures "" (view env s))
  delete_offered idle =
      let p = is_delete_call j.id in
      let row : row_offers p "" env s j ≡ true = ground (arith, eq_iff j.id j.id) in
      let offered : any p (gestures "" (view env s)) ≡ true = ground (
        arith,
        any-gestures p "" (view env s),
        view-offers p (λ f t. refl) (λ t. refl) (λ t. refl) "" env s,
        any_of_In (row_offers p "" env s) s.jobs listed_job row,
      ) in
      let (e, i, t) = In-of_any p (gestures "" (view env s)) offered in
      rw (delete_of_is j.id e t) at i

  pub toggle_offered : In (toggle j.id) (gestures "" (view env s))
  toggle_offered =
      let p = is_toggle_call j.id in
      let row : row_offers p "" env s j ≡ true = ground (arith, eq_iff j.id j.id) in
      let offered : any p (gestures "" (view env s)) ≡ true = ground (
        arith,
        any-gestures p "" (view env s),
        view-offers p (λ f t. refl) (λ t. refl) (λ t. refl) "" env s,
        any_of_In (row_offers p "" env s) s.jobs listed_job row,
      ) in
      let (e, i, t) = In-of_any p (gestures "" (view env s)) offered in
      rw (toggle_of_is j.id e t) at i

ids_differ : (a b : Job) → a.id ≢ b.id → (a.id === b.id) ≡ false
ids_differ a b h = ground (arith, eq_iff a.id b.id)

module _ (env : Locale) where
  pub Reach-delete :
      {t : System State Pending} (j : Job)
      → Reach (jobs_page env) t
      → In j t.page.jobs
      → is_id t.page.deleting j.id ≡ false
      → Reach (jobs_page env) (record {
        page = record (t.page) { deleting = some j.id; error = "" };
        in_flight = t.in_flight ++ delete_job j.id ∷ [];
      })
  unfolding jobs_page start
  Reach-delete {t} j r i idle =
      next r (press t "" (delete j.id) (delete_offered env t.page j i idle))

  Reach-toggle :
      {t : System State Pending} (j : Job)
      → Reach (jobs_page env) t
      → In j t.page.jobs
      → is_id t.page.expanded_job j.id ≡ false
      → get_key j.id t.page.executions ≡ none
      → Reach (jobs_page env) (record {
        page = record (t.page) { expanded_job = some j.id; loading_executions = some j.id };
        in_flight = t.in_flight ++ list_executions j.id ∷ [];
      })
  unfolding jobs_page start
  Reach-toggle {t} j r i closed missing =
      let r' = next r (press t "" (toggle j.id) (toggle_offered env t.page j i)) in
      rw (closed, missing) at r'

  module _ (a b : Job) where
    abbrev pub two_jobs : State
    two_jobs = record initial { jobs = a ∷ b ∷ [] }

    pub Reach-two_jobs : Reach (jobs_page env) (record { page = two_jobs; in_flight = [] })
    unfolding jobs_page finish
    Reach-two_jobs = next here (settle _ (listed (fulfilled (a ∷ b ∷ []))) [] [] refl)

  -- Two listed jobs with different ids are enough for two deletions of the first to be in flight
  -- at once: when the deletion of the second settles, the page forgets that the first is running
  -- and offers it again.
  pub delete_twice :
      (a b : Job)
      → a.id ≢ b.id
      → (t : System State Pending) × Reach (jobs_page env) t
        × (count (is_delete a.id) t.in_flight ≡ 2)
  unfolding jobs_page finish
  delete_twice a b differ =
      let apart = ids_differ a b differ in
      let r1 = Reach-delete a (Reach-two_jobs a b) (inl refl) refl in
      let r2 = Reach-delete b r1 (inr (inl refl)) apart in
      let r3 = next r2 (settle _ (deleted b.id (fulfilled tt)) (delete_job a.id ∷ []) [] refl) in
      let r4 = Reach-delete a r3 (rw apart (inl refl)) refl in
      (_, r4, ground (arith, eq_iff a.id a.id))

  -- Two listed jobs with different ids are enough for a history to be loading with no sign of it:
  -- the row of the second is open, its call is in flight and its history is missing, but the page
  -- has forgotten that it is loading, since the call for the first has settled.
  pub executions_forgotten :
      (a b : Job) (xs : List JobExecution)
      → a.id ≢ b.id
      → (t : System State Pending) × Reach (jobs_page env) t
        × (is_id t.page.expanded_job b.id ≡ true)
        × (any (is_list_executions b.id) t.in_flight ≡ true)
        × (get_key b.id t.page.executions ≡ none)
        × (t.page.loading_executions ≡ none)
  unfolding jobs_page finish get_key
  executions_forgotten a b xs differ =
      let apart = ids_differ a b differ in
      let r1 = Reach-toggle a (Reach-two_jobs a b) (inl refl) refl refl in
      let r2 = Reach-toggle b r1 (inr (inl refl)) apart refl in
      let r3 =
        next r2
          (settle _ (executions_listed a.id (fulfilled xs)) [] (list_executions b.id ∷ []) refl) in
      (
        _,
        r3,
        ground (arith, eq_iff b.id b.id),
        ground (arith, eq_iff b.id b.id),
        rw apart refl,
        refl,
      )
