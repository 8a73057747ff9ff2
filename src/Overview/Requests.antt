-- ===== src/Overview/Requests.antt =====
-- app/dashboard/page.tsx: the overview as a system of settling calls.
use lifygo.Prelude.{
  ℕ, ◌≡◌, refl, sym, ◌∙◌, ◌⊎◌, inl, inr, true, not, some, List, [], ◌∷◌, ◌++◌, String, arith,
  truthy, subst, suc, not-empty_eq, ◌===◌,
}
use lifygo.Http.{Settled, fulfilled, rejected, error}
use lifygo.Features.{DashboardStats}
use lifygo.Page.{Page, System, press, settle, Reach, here, next}
use lifygo.Overview.{
  State, Format, Pending, fetch_stats, Completion, stats_fetched, pending_of, initial, finish,
}
use lifygo.Overview.View.{view, unavailable}

unfoldable pub overview_page : Format → Page State ⊥ Pending Completion
overview_page env = record {
  initial = initial;
  mount = fetch_stats 0 ∷ [];
  view = view env;
  start = λ e s. (s, []);
  finish = finish;
  pending_of = pending_of;
}

-- At most the request of the last effect is in flight.
abbrev Current : System State Pending → Type 0
Current t = (t.in_flight ≡ []) ⊎ (t.in_flight ≡ fetch_stats t.page.effect ∷ [])

finish-Current :
    (n : ℕ) (r : Settled DashboardStats) (s : State)
    → n ≡ s.effect
    → ((finish (stats_fetched n r) s).1 ≡ [])
      ⊎ ((finish (stats_fetched n r) s).1
          ≡ fetch_stats (finish (stats_fetched n r) s).0.effect ∷ [])
unfolding finish
finish-Current n (fulfilled d) s e = ground arith
finish-Current n (rejected e) s q = ground arith

only_one :
    (q c : Pending) (before after : List Pending)
    → c ∷ [] ≡ before ++ q ∷ after
    → (before ≡ []) × (after ≡ []) × (q ≡ c)
only_one q c [] after e = ground arith
only_one q c (x ∷ []) after e = cc
only_one q c (x ∷ y ∷ before) after e = cc

effect_of : {n k : ℕ} → fetch_stats n ≡ fetch_stats k → n ≡ k
effect_of e = cc

none_of_cons : (q : Pending) (before after : List Pending) → [] ≡ before ++ q ∷ after → ⊥
none_of_cons q [] after e = cc
none_of_cons q (x ∷ before) after e = cc

-- In every reachable state nothing is in flight but the request of the last effect, so that no
-- answer is ever dropped as cancelled.
pub request_is_current :
    (env : Format) {t : System State Pending}
    → Reach (overview_page env) t
    → (t.in_flight ≡ []) ⊎ (t.in_flight ≡ fetch_stats t.page.effect ∷ [])
unfolding overview_page
request_is_current env here = inr refl
request_is_current env (next r (press t v e i)) = absurd e
request_is_current env (next r (settle t (stats_fetched n a) before after e)) =
    elim (request_is_current env r) [
      | inl q ↦ absurd (none_of_cons (fetch_stats n) before after (sym q ∙ e))
      | inr q ↦
          let (b, a', m) =
            only_one (fetch_stats n) (fetch_stats t.page.effect) before after (sym q ∙ e) in
          rw (b, a') (finish-Current n a t.page (effect_of m))
    ]

-- The page after an error and answers that succeed.
abbrev answered : List DashboardStats → State → State
answered [] s = s
answered (d ∷ rest) s = answered rest (record s { stats = some d; effect = suc s.effect })

finish-answer :
    (d : DashboardStats) (s : State)
    → let s' = record s { stats = some d; effect = suc s.effect } in
      finish (stats_fetched s.effect (fulfilled d)) s ≡ (s', fetch_stats s'.effect ∷ [])
unfolding finish
finish-answer d s = ground arith

finish-failure :
    (m : String) (s : State)
    → not (s.error === m) ≡ true
    → let s' = record s { error = m; effect = suc s.effect } in
      finish (stats_fetched s.effect (rejected (error m))) s ≡ (s', fetch_stats s'.effect ∷ [])
unfolding finish
finish-failure m s h = ground arith

settled_to :
    (env : Format) (s : State) (a : Settled DashboardStats) (s' : State) (calls : List Pending)
    → finish (stats_fetched s.effect a) s ≡ (s', calls)
    → Reach (overview_page env) (record { page = s; in_flight = fetch_stats s.effect ∷ [] })
    → Reach (overview_page env) (record { page = s'; in_flight = calls })
unfolding overview_page
settled_to env s a s' calls e r =
    subst
      (λ (x : State × List Pending).
        Reach (overview_page env) (record { page = x.0; in_flight = x.1 }))
      e (next r (settle _ (stats_fetched s.effect a) [] [] refl))

answers_from :
    (env : Format) (answers : List DashboardStats) (s : State)
    → Reach (overview_page env) (record { page = s; in_flight = fetch_stats s.effect ∷ [] })
    → let s' = answered answers s in
      Reach (overview_page env) (record { page = s'; in_flight = fetch_stats s'.effect ∷ [] })
answers_from env [] s r = r
answers_from env (d ∷ rest) s r =
    answers_from env rest (record s { stats = some d; effect = suc s.effect })
      (settled_to env s (fulfilled d) _ _ (finish-answer d s) r)

answered-error : (answers : List DashboardStats) (s : State) → (answered answers s).error ≡ s.error
answered-error [] s = refl
answered-error (d ∷ rest) s =
    answered-error rest (record s { stats = some d; effect = suc s.effect })

-- An error stays: whatever message a first request fails with and however many later requests
-- succeed, the page is reached that has the statistics of the last answer and the next request in
-- flight, and it still shows the error alone.
pub error_stays :
    (env : Format) (m : String) (answers : List DashboardStats)
    → truthy m ≡ true
    → let s = answered answers (record initial { error = m; effect = 1 }) in
      Reach (overview_page env) (record { page = s; in_flight = fetch_stats s.effect ∷ [] })
      × (view env s ≡ unavailable m)
unfolding overview_page view
error_stays env m answers t = (
  answers_from env answers (record initial { error = m; effect = 1 })
      (settled_to env initial (rejected (error m)) _ _
        (finish-failure m initial (not-empty_eq m ∙ t)) here),
  rw (answered-error answers (record initial { error = m; effect = 1 }), t) refl,
)
