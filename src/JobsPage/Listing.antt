-- ===== src/JobsPage/Listing.antt =====
-- The listing that the jobs page asks for when it opens, answered late.
use lifygo.Prelude.{
  ◌≡◌, refl, true, false, List, [], ◌∷◌, String, truthy, In, In-elem_at, In-of_any, arith,
}
use lifygo.Html.{gestures}
use lifygo.Http.{Body, str, fulfilled}
use lifygo.Locale.{Locale}
use lifygo.Features.{Job}
use lifygo.Page.{System, Reach, opened, here, next, press, settle}
use lifygo.JobsPage.{
  State, Call, change, create, name, Pending, list_jobs, listed, created, initial, start, finish,
}
use lifygo.JobsPage.View.{view}
use lifygo.JobsPage.Requests.{jobs_page, is_create_call, view-offers_create}

module _ (env : Locale) where
  name_field : (v : String) → In (change name v) (gestures v (view env initial))
  unfolding view gestures
  name_field v = In-elem_at (gestures v (view env initial)) 0 refl

  create_of_is : (e : Call) → is_create_call e ≡ true → e ≡ create
  create_of_is create h = refl
  create_of_is _ h = cc

  create_offered :
      (s : State)
      → s.loading ≡ false
      → truthy s.form.name ≡ true
      → In create (gestures "" (view env s))
  create_offered s idle named =
      let (e, i, t) =
        In-of_any is_create_call (gestures "" (view env s))
          (ground (arith, view-offers_create env "" s)) in
      rw (create_of_is e t) at i

  -- A listing that was asked for when the page opened and is answered after a job was created takes
  -- the new job out of the shown list: for any name that is not empty, any created job and any listed
  -- ones, a state can be reached that has nothing in flight, reports the creation and shows the
  -- listed jobs alone.
  pub late_listing :
      (v : String) (j : Job) (jobs : List Job)
      → truthy v ≡ true
      → (t : System State Pending) × Reach (jobs_page env) t
        × (t.in_flight ≡ [])
        × (t.page.success ≡ "Job scheduled successfully.")
        × (t.page.jobs ≡ jobs)
  unfolding jobs_page start finish
  late_listing v j jobs h =
      let b : Body =
        ("name", str v)
        ∷ ("type", str "webhook")
        ∷ ("schedule_type", str "cron")
        ∷ ("cron_expression", str "")
        ∷ ("webhook_url", str "")
        ∷ [] in
      let r0 : Reach (jobs_page env) (opened (jobs_page env)) = here in
      let r1 = next r0 (press _ v (change name v) (name_field v)) in
      let r2 = next r1 (press _ "" create (create_offered _ refl h)) in
      let r3 = next r2 (settle _ (created b (fulfilled j)) (list_jobs ∷ []) [] refl) in
      let r4 = next r3 (settle _ (listed (fulfilled jobs)) [] [] refl) in (_, r4, refl, refl, refl)
