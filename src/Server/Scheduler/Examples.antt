-- ===== src/Server/Scheduler/Examples.antt =====
-- A reminder of Ada's, and a schedule of hers that never fires.
use lifygo.Prelude.{
  ℕ, ◌≡◌, ◌≤◌, ◌↔◌, ◌⊎◌, refl, true, false, Option, none, some, List, [], ◌∷◌, arith, count, keep,
  map,
}
use lifygo.Server.{ok}
use lifygo.Server.Scheduler.{
  Job, World, State, Event, ticks, rows_read, runs, stops, is_due, run, happen, execute_job,
  execute, list_active_due, is_selected, started, others, goes_on,
}
use lifygo.Server.Scheduler.Due.{is_due-fires}
use lifygo.Server.Scheduler.Once.{ran_in, has_id, one_of, once_a_minute, one_time_once, IsFresh}
use lifygo.Server.Scheduler.Outcome.{lost_job}

abbrev reminder : Job
reminder = record {
  row = record {
    id = "j1";
    input = record {
      user_id = "u1";
      name = "reminder";
      kind = "webhook";
      schedule_type = "one_time";
      cron_expression = none;
      run_at = some 60000000000;
      webhook_url = some "https://example.com/hook";
      webhook_payload = none;
      email_to = none;
      email_subject = none;
      email_body = none;
    };
    status = "active";
    enabled = true;
  };
  last_run_at = none;
}

abbrev start : State
start = record { jobs = reminder ∷ []; running = []; executions = []; executed = [] }

abbrev works : World
works = record {
  now = 130000000000;
  parse_error = λ e. none;
  next = λ e t. none;
  build_error = none;
  response = ok 404;
  mailer = ok tt;
  default_mailer = ok tt;
  own_send = ok tt;
  default_send = ok tt;
  execution_failure = none;
  update_failure = none;
}

-- Two servers tick, and the first one's goroutine runs between their ticks.
abbrev two_servers : List Event
two_servers =
    ticks 120000000000 rows_read ∷ runs 0 works ∷ ticks 180000000000 rows_read ∷ runs 0 works ∷ []

executed_once : map (λ (j : Job). j.row.id) (run start two_servers).executed ≡ "j1" ∷ []
unfolding run happen list_active_due is_selected started others execute_job goes_on execute
executed_once = refl

once_a_minute_example :
    count (ran_in "j1" 2) (run start two_servers).executed ≤ count (has_id "j1") start.jobs
unfolding IsFresh
once_a_minute_example = once_a_minute start two_servers "j1" 2 (refl, refl)

one_time_once_example :
    count (one_of "j1") (run start two_servers).executed ≤ count (one_of "j1") start.jobs
unfolding IsFresh
one_time_once_example = one_time_once start two_servers "j1" (refl, refl)

-- The server ends before the goroutine runs.
abbrev ended : State
ended = record start { jobs = record reminder { last_run_at = some 120000000000 } ∷ [] }

lost_example : run start (ticks 120000000000 rows_read ∷ stops ∷ []) ≡ ended
unfolding run happen list_active_due is_selected
lost_example = refl

lost_job_example :
    (count (has_id "j1") (run ended two_servers).executed ≡ 0)
    × (keep (has_id "j1") (run ended two_servers).jobs ≡ ended.jobs)
lost_job_example = lost_job ended two_servers "j1" refl refl

abbrev the_zero_time : Option ℕ
the_zero_time = none

-- The thirtieth of February.
is_due-fires_example :
    (is_due (λ t. the_zero_time) 120000000000 ≡ true) ↔ ((false ≡ true) ⊎ ((the_zero_time) ≡ none))
is_due-fires_example =
    is_due-fires (λ u. false) (λ t. the_zero_time) 120000000000 (omega arith)
      (record {
        whole = λ u f. cc;
        found = λ u f. cc;
        first = λ u v f a b. refl;
        zero_time = λ u f a b. refl;
      })
