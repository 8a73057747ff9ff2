-- ===== src/Server/Scheduler/Outcome.antt =====
-- What becomes of a one-time job: its status after a run, and what it is left with if none runs it.
use lifygo.Prelude.{
  ℕ, zero, suc, ◌≡◌, refl, sym, ap, ◌∙◌, Bool, true, false, not, ◌&&◌, Option, none, some, List, [],
  ◌∷◌, String, if◌then◌else◌, ◌===◌, ltb, map, keep, count, any, any-append, arith, Bool-cases,
  Option-cases, inl, inr,
}
use text.Mathlib.TextEquality.{eq_iff}
use lifygo.Server.{ok}
use lifygo.Server.Scheduler.{
  Job, Execution, World, State, Event, ticks, rows_read, query_failed, reading_failed, runs, stops,
  is_one_time, is_claimed, is_selected, list_active_due, update_status, execute, execute_job,
  execution_of, execute_webhook, answer_of, started, others, happen, run, final_status, deliver,
  goes_on,
}
use lifygo.Server.Scheduler.Once.{has_id, selected_unclaimed}

-- Every row with the id is of a one-time job that is claimed.
abbrev pub all_claimed : String → List Job → Bool
all_claimed k jobs = not (any (λ (j : Job). has_id k j && not (is_one_time j && is_claimed j)) jobs)

module _ (k : String) where
  tick-left :
      (now : ℕ) (jobs : List Job)
      → all_claimed k jobs ≡ true
      → (keep (has_id k) (list_active_due now jobs).1 ≡ keep (has_id k) jobs)
        × (any (has_id k) (list_active_due now jobs).0 ≡ false)
  unfolding list_active_due
  tick-left now [] h = (refl, refl)
  tick-left now (j ∷ jobs) h =
      let (kept, none_due) = tick-left now jobs (ground arith) in
      elim (Bool-cases (is_selected now j)) [
        | inl chosen ↦
            let other : has_id k j ≡ false = ground (arith, selected_unclaimed now j chosen) in
            rw (chosen, other) (kept, none_due)
        | inr left ↦ rw left (ground (arith, kept), none_due)
      ]

  update-left :
      (id status : String) (jobs : List Job)
      → (id === k) ≡ false
      → keep (has_id k) (update_status id status jobs) ≡ keep (has_id k) jobs
  unfolding update_status
  update-left id status [] h = refl
  update-left id status (j ∷ jobs) h = elim (Bool-cases (j.row.id === id)) [
    | inl same ↦
        let other = ap (λ x. x === k) ((eq_iff j.row.id id).0 same) ∙ h in
        rw (same, other, update-left id status jobs h) refl
    | inr apart ↦ rw (apart, update-left id status jobs h) refl
  ]

  all_claimed-keep : (jobs : List Job) → all_claimed k (keep (has_id k) jobs) ≡ all_claimed k jobs
  all_claimed-keep [] = refl
  all_claimed-keep (j ∷ jobs) = ground (arith, all_claimed-keep jobs)

  started-left :
      (i : ℕ) (js : List Job) (j : Job)
      → any (has_id k) js ≡ false
      → started i js ≡ some j
      → (has_id k j ≡ false) × (any (has_id k) (others i js) ≡ false)
  unfolding started others
  started-left i [] j h e = cc
  started-left zero (a ∷ js) j h e =
      (ap (λ o. elim o [ none ↦ false | some v ↦ has_id k v ]) (sym e) ∙ ground arith, ground arith)
  started-left (suc i) (a ∷ js) j h e =
      let (one, rest) = started-left i js j (ground arith) e in (one, ground (arith, rest, h))

  -- Nothing has become of the rows with the id, and no goroutine has a job with it.
  IsLeft : State → State → Type 0
  IsLeft a s =
      (keep (has_id k) s.jobs ≡ keep (has_id k) a.jobs)
      × (any (has_id k) s.running ≡ false)
      × (count (has_id k) s.executed ≡ count (has_id k) a.executed)

  execute-IsLeft :
      (w : World) (a s : State) (j : Job)
      → has_id k j ≡ false
      → IsLeft a s
      → IsLeft a (execute_job w s j)
  unfolding IsLeft execute_job execute
  execute-IsLeft w a s j other (kept, idle, same) =
      let u = update-left j.row.id (final_status (deliver w j).1) s.jobs other ∙ kept in
      (ground (arith, u, kept), ground arith, ground (arith, same, other))

  still_claimed :
      (a : State) (jobs : List Job)
      → all_claimed k a.jobs ≡ true
      → keep (has_id k) jobs ≡ keep (has_id k) a.jobs
      → all_claimed k jobs ≡ true
  still_claimed a jobs claimed kept =
      sym (all_claimed-keep jobs) ∙ ap (all_claimed k) kept ∙ all_claimed-keep a.jobs ∙ claimed

  happen-IsLeft :
      (a s : State) (e : Event) → all_claimed k a.jobs ≡ true → IsLeft a s → IsLeft a (happen s e)
  unfolding IsLeft happen
  happen-IsLeft a s (ticks now query_failed) claimed h = h
  happen-IsLeft a s (ticks now reading_failed) claimed (kept, idle, same) =
      let still = still_claimed a s.jobs claimed kept in
      ((tick-left now s.jobs still).0 ∙ kept, idle, same)
  happen-IsLeft a s (ticks now rows_read) claimed (kept, idle, same) =
      let still = still_claimed a s.jobs claimed kept in
      let (left, none_due) = tick-left now s.jobs still in
      (
        left ∙ kept,
        any-append (has_id k) (list_active_due now s.jobs).0 s.running ∙ rw (none_due) idle,
        same,
      )
  happen-IsLeft a s (runs i w) claimed h = elim (Option-cases (started i s.running)) [
    | inl gone ↦ rw (happen, gone) h
    | inr (j, there) ↦
        let (kept, idle, same) = h in
        let (other, rest) = started-left i s.running j idle there in
        rw (happen, there)
          (execute-IsLeft w a (record s { running = others i s.running }) j other
            (kept, rest, same))
  ]
  happen-IsLeft a s stops claimed (kept, idle, same) = (kept, refl, same)

  run-IsLeft :
      (a s : State) (es : List Event)
      → all_claimed k a.jobs ≡ true
      → IsLeft a s
      → IsLeft a (run s es)
  unfolding run
  run-IsLeft a s [] claimed h = h
  run-IsLeft a s (e ∷ es) claimed h =
      run-IsLeft a (happen s e) es claimed (happen-IsLeft a s e claimed h)

-- A one-time job that is claimed and in no goroutine, as after the end of a process that had claimed
-- it, is lost: whatever schedulers do from then on, it is not executed, and its row stays as it is.
pub lost_job :
    (s : State) (es : List Event) (k : String)
    → all_claimed k s.jobs ≡ true
    → any (has_id k) s.running ≡ false
    → (count (has_id k) (run s es).executed ≡ count (has_id k) s.executed)
      × (keep (has_id k) (run s es).jobs ≡ keep (has_id k) s.jobs)
unfolding IsLeft
lost_job s es k claimed idle =
    let (kept, _, same) = run-IsLeft k s s es claimed (refl, idle, refl) in (same, kept)

abbrev pub outcome_of : Execution → String × Option ℕ
outcome_of e = (e.status, e.http_status)

module _ (w : World) (s : State) (j : Job) (n : ℕ) (url : String) (one_time : is_one_time j ≡ true)
    (webhook : (j.row.kind === "webhook") ≡ true) (address : j.row.webhook_url ≡ some url)
    (built : w.build_error ≡ none) (answered : w.response ≡ ok n) where
  abbrev is_success : Bool
  is_success = not (ltb n 200) && ltb n 300

  delivered : deliver w j ≡ answer_of (ok n)
  unfolding deliver execute_webhook
  delivered = rw (deliver, webhook, execute_webhook, address, built, answered) refl

  goes : goes_on w j ≡ true
  unfolding goes_on
  goes =
      let not_cron = ap (λ x. x === "cron") ((eq_iff j.row.schedule_type "one_time").0 one_time) in
      rw (goes_on, not_cron) refl

  execution_status :
      ((execution_of j (answer_of (ok n))).status ≡ (if is_success then "success" else "failed"))
      × ((execution_of j (answer_of (ok n))).http_status ≡ some n)
      × (final_status (answer_of (ok n)).1 ≡ (if is_success then "completed" else "failed"))
  unfolding execution_of answer_of
  execution_status = (ground arith, ground arith, ground arith)

  updated_rows :
      (id status : String) (jobs : List Job)
      → any
          (λ (r : Job). has_id id r && not (r.row.status === status))
          (update_status id status jobs)
        ≡ false
  unfolding update_status
  updated_rows id status [] = refl
  updated_rows id status (r ∷ jobs) = elim (Bool-cases (r.row.id === id)) [
    | inl same ↦ rw (same, updated_rows id status jobs, (eq_iff status status).1 refl, same) refl
    | inr apart ↦ rw (apart, updated_rows id status jobs, apart) refl
  ]

  -- A one-time webhook that answers with a status is executed once, the status is logged, and the
  -- execution is a success, and the job completed, exactly if the status is between 200 and 299;
  -- otherwise both have failed.
  pub one_time_webhook :
      w.execution_failure ≡ none
      → w.update_failure ≡ none
      → ((execute_job w s j).executed ≡ j ∷ s.executed)
        × (map outcome_of (execute_job w s j).executions
            ≡ (if is_success then "success" else "failed", some n) ∷ map outcome_of s.executions)
        × (any
              (λ (r : Job).
                has_id j.row.id r
                && not (r.row.status === (if is_success then "completed" else "failed")))
              (execute_job w s j).jobs
            ≡ false)
  unfolding execute_job execute
  one_time_webhook logs updates =
      let (status, http, final) = execution_status in
      rw (execute_job, goes, execute, logs, updates, one_time, delivered, status, http, final)
        (refl, refl, updated_rows j.row.id (if is_success then "completed" else "failed") s.jobs)
