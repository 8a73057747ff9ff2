-- ===== src/Server/Scheduler/Once.antt =====
-- How often a job is executed, over any sequence of ticks, of any number of servers with one database,
-- of runs of their goroutines in any order, and of ends of processes.
use lifygo.Prelude.{
  ℕ, zero, suc, ◌+◌, ◌/◌, ◌<◌, ◌≤◌, ◌≡◌, refl, ap, ◌∙◌, Bool, true, false, not, ◌&&◌, none, some,
  List, [], ◌∷◌, String, if◌then◌else◌, ◌===◌, ◌==◌, ltb, count, count-append, arith, Bool-cases,
  Option-cases, inl, inr,
}
use text.Mathlib.TextEquality.{eq_iff}
use lifygo.Server.Scheduler.{
  Job, World, State, Event, ticks, rows_read, query_failed, reading_failed, runs, stops, minute,
  truncated, is_one_time, is_claimed, is_selected, claim, with_status, list_active_due,
  update_status, execute, execute_job, started, others, happen, run, final_status, deliver, goes_on,
}

unfoldable weight : Bool → ℕ
weight b = if b then 1 else 0

-- The executed and the running jobs of one kind are no more than the rows of another.
IsCovered : (Job → Bool) → (Job → Bool) → State → Type 0
IsCovered p q s = count p s.executed + count p s.running ≤ count q s.jobs

module _ (p q : Job → Bool)
    (claims : (now : ℕ) (j : Job)
      → is_selected now j ≡ true
      → weight (p (claim now j)) + weight (q j) ≤ weight (q (claim now j)))
    (keeps : (status : String) (j : Job) → q (with_status status j) ≡ q j) where
  tick-count :
      (now : ℕ) (jobs : List Job)
      → count p (list_active_due now jobs).0 + count q jobs ≤ count q (list_active_due now jobs).1
  unfolding list_active_due weight
  tick-count now [] = omega arith
  tick-count now (j ∷ jobs) = elim (Bool-cases (is_selected now j)) [
    | inl chosen ↦
        let c = claims now j chosen in let rest = tick-count now jobs in rw chosen (omega arith)
    | inr left ↦ let rest = tick-count now jobs in rw left (omega arith)
  ]

  update-count :
      (id status : String) (jobs : List Job) → count q (update_status id status jobs) ≡ count q jobs
  unfolding update_status
  update-count id status [] = refl
  update-count id status (j ∷ jobs) = ground (arith, keeps status j, update-count id status jobs)

  started-count :
      (i : ℕ) (js : List Job) (j : Job)
      → started i js ≡ some j
      → count p js ≡ weight (p j) + count p (others i js)
  unfolding started others weight
  started-count i [] j h = cc
  started-count zero (a ∷ js) j h =
      ap (λ o. elim o [ none ↦ 0 | some v ↦ weight (p v) + count p js ]) h
  started-count (suc i) (a ∷ js) j h = omega (arith, started-count i js j h)

  execute-count :
      (w : World) (s : State) (j : Job)
      → (count p (execute w s j).executed ≡ weight (p j) + count p s.executed)
        × ((execute w s j).running ≡ s.running)
        × (count q (execute w s j).jobs ≡ count q s.jobs)
  unfolding execute weight
  execute-count w s j =
      let u = update-count j.row.id (final_status (deliver w j).1) s.jobs in
      (refl, refl, ground (arith, u))

  execute_job-count :
      (w : World) (s : State) (j : Job)
      → (count p (execute_job w s j).executed ≤ weight (p j) + count p s.executed)
        × ((execute_job w s j).running ≡ s.running)
        × (count q (execute_job w s j).jobs ≡ count q s.jobs)
  unfolding execute_job
  execute_job-count w s j =
      let (e, r, c) = execute-count w s j in
      elim (Bool-cases (goes_on w j)) [
        | inl on ↦ rw on (omega arith, r, c)
        | inr off ↦ rw off (omega arith, refl, refl)
      ]

  happen-IsCovered : (s : State) (e : Event) → IsCovered p q s → IsCovered p q (happen s e)
  unfolding happen IsCovered
  happen-IsCovered s (ticks now query_failed) h = h
  happen-IsCovered s (ticks now reading_failed) h = omega (arith, tick-count now s.jobs)
  happen-IsCovered s (ticks now rows_read) h =
      omega (arith, tick-count now s.jobs, count-append p (list_active_due now s.jobs).0 s.running)
  happen-IsCovered s (runs i w) h = elim (Option-cases (started i s.running)) [
    | inl none_there ↦ rw (happen, none_there) h
    | inr (j, there) ↦
        let rest = record s { running = others i s.running } in
        let (e, r, c) = execute_job-count w rest j in
        let n = started-count i s.running j there in
        let m = ap (count p) r in rw (happen, there) (omega arith)
  ]
  happen-IsCovered s stops h = omega arith

  run-IsCovered : (s : State) (es : List Event) → IsCovered p q s → IsCovered p q (run s es)
  unfolding run
  run-IsCovered s [] h = h
  run-IsCovered s (e ∷ es) h = run-IsCovered (happen s e) es (happen-IsCovered s e h)

-- Whatever happens, the rows of a test that neither a claim nor a status changes stay as many.
module _ (r : Job → Bool) (claim_keeps : (now : ℕ) (j : Job) → r (claim now j) ≡ r j)
    (status_keeps : (status : String) (j : Job) → r (with_status status j) ≡ r j) where
  tick-rows : (now : ℕ) (jobs : List Job) → count r (list_active_due now jobs).1 ≡ count r jobs
  unfolding list_active_due
  tick-rows now [] = refl
  tick-rows now (j ∷ jobs) = elim (Bool-cases (is_selected now j)) [
    | inl chosen ↦ rw (chosen, claim_keeps now j, tick-rows now jobs) refl
    | inr left ↦ rw (left, tick-rows now jobs) refl
  ]

  update-rows :
      (id status : String) (jobs : List Job) → count r (update_status id status jobs) ≡ count r jobs
  unfolding update_status
  update-rows id status [] = refl
  update-rows id status (j ∷ jobs) =
      ground (arith, status_keeps status j, update-rows id status jobs)

  execute_job-rows :
      (w : World) (s : State) (j : Job) → count r (execute_job w s j).jobs ≡ count r s.jobs
  unfolding execute_job execute
  execute_job-rows w s j =
      ground (arith, update-rows j.row.id (final_status (deliver w j).1) s.jobs)

  happen-rows : (s : State) (e : Event) → count r (happen s e).jobs ≡ count r s.jobs
  unfolding happen
  happen-rows s (ticks now query_failed) = refl
  happen-rows s (ticks now reading_failed) = tick-rows now s.jobs
  happen-rows s (ticks now rows_read) = tick-rows now s.jobs
  happen-rows s (runs i w) = elim (Option-cases (started i s.running)) [
    | inl gone ↦ rw (happen, gone) refl
    | inr (j, there) ↦
        rw (happen, there) (execute_job-rows w (record s { running = others i s.running }) j)
  ]
  happen-rows s stops = refl

  run-rows : (s : State) (es : List Event) → count r (run s es).jobs ≡ count r s.jobs
  unfolding run
  run-rows s [] = refl
  run-rows s (e ∷ es) = run-rows (happen s e) es ∙ happen-rows s e

count_le :
    (q r : Job → Bool)
    → ((j : Job) → weight (q j) ≤ weight (r j))
    → (jobs : List Job) → count q jobs ≤ count r jobs
unfolding weight
count_le q r h [] = omega arith
count_le q r h (j ∷ jobs) = omega (arith, h j, count_le q r h jobs)

abbrev pub has_id : String → Job → Bool
has_id k j = j.row.id === k

-- In the state at the start no goroutine runs, and nothing has been executed yet.
unfoldable pub IsFresh : State → Type 0
IsFresh s = (s.running ≡ []) × (s.executed ≡ [])

fresh-IsCovered : (p q : Job → Bool) (s : State) → IsFresh s → IsCovered p q s
unfolding IsFresh IsCovered
fresh-IsCovered p q s (r, e) = rw (r, e) (omega arith)

-- The job was executed, having been claimed in this minute.
abbrev pub ran_in : String → ℕ → Job → Bool
ran_in k m j = has_id k j && elim j.last_run_at [ none ↦ false | some t ↦ t / minute == m ]

ran_since : String → ℕ → Job → Bool
ran_since k m j =
    has_id k j && elim j.last_run_at [ none ↦ false | some t ↦ not (ltb (t / minute) m) ]

earlier_minute : (t now : ℕ) → t < truncated now → t / minute < now / minute
earlier_minute t now h = omega arith

-- A job that was claimed before is selected only in a later minute.
selected_later :
    (now t : ℕ) (j : Job)
    → is_selected now j ≡ true
    → j.last_run_at ≡ some t
    → t / minute < now / minute
unfolding is_selected
selected_later now t j h e = earlier_minute t now (ground arith)

claims_of_a_minute :
    (k : String) (m now : ℕ) (j : Job)
    → is_selected now j ≡ true
    → weight (ran_in k m (claim now j)) + weight (ran_since k m j)
      ≤ weight (ran_since k m (claim now j))
unfolding weight ran_since
claims_of_a_minute k m now j h = elim (Option-cases j.last_run_at) [
  | inl unclaimed ↦ rw unclaimed (ground arith)
  | inr (t, claimed) ↦
      let later = selected_later now t j h claimed in rw claimed (ground (arith, later))
]

-- A one-time job.
abbrev pub one_of : String → Job → Bool
one_of k j = has_id k j && is_one_time j

claimed_one : String → Job → Bool
claimed_one k j = one_of k j && is_claimed j

pub selected_unclaimed :
    (now : ℕ) (j : Job) → is_selected now j ≡ true → is_one_time j ≡ true → is_claimed j ≡ false
unfolding is_selected
selected_unclaimed now j h one =
    let not_cron = ap (λ x. x === "cron") ((eq_iff j.row.schedule_type "one_time").0 one) in
    ground (arith, not_cron)

claims_of_one :
    (k : String) (now : ℕ) (j : Job)
    → is_selected now j ≡ true
    → weight (one_of k (claim now j)) + weight (claimed_one k j)
      ≤ weight (claimed_one k (claim now j))
unfolding weight claimed_one
claims_of_one k now j h = elim (Bool-cases (is_one_time j)) [
  | inl one ↦ ground (arith, selected_unclaimed now j h one)
  | inr other ↦ ground (arith, other)
]

-- No job is executed twice on claims of the same minute: over whatever ticks of whatever schedulers on
-- one database, whatever runs of goroutines and ends of processes, there are no more such executions
-- than rows with the job's id.
pub once_a_minute :
    (s : State) (es : List Event) (k : String) (m : ℕ)
    → IsFresh s
    → count (ran_in k m) (run s es).executed ≤ count (has_id k) s.jobs
unfolding IsCovered ran_since weight
once_a_minute s es k m fresh =
    let p = ran_in k m in
    let q = ran_since k m in
    let covered =
      run-IsCovered p q (claims_of_a_minute k m) (λ status j. refl) s es
        (fresh-IsCovered p q s fresh) in
    let rows = run-rows (has_id k) (λ now j. refl) (λ status j. refl) s es in
    omega (arith, count_le q (has_id k) (λ j. ground arith) (run s es).jobs)

-- A one-time job is executed at most once, over whatever ticks of whatever schedulers on one database,
-- whatever runs of goroutines and ends of processes.
pub one_time_once :
    (s : State) (es : List Event) (k : String)
    → IsFresh s
    → count (one_of k) (run s es).executed ≤ count (one_of k) s.jobs
unfolding IsCovered claimed_one weight
one_time_once s es k fresh =
    let p = one_of k in
    let q = claimed_one k in
    let covered =
      run-IsCovered p q (claims_of_one k) (λ status j. refl) s es (fresh-IsCovered p q s fresh) in
    let rows = run-rows (one_of k) (λ now j. refl) (λ status j. refl) s es in
    omega (arith, count_le q p (λ j. ground arith) (run s es).jobs)
