-- ===== src/Server/Jobs/Limit.antt =====
-- The limit of active jobs. `Create` counts and inserts in two queries, between which other requests
-- run.
use lifygo.Prelude.{
  ◌+◌, ◌≤◌, ◌<◌, ◌≡◌, refl, ap, inl, inr, Bool, ◌&&◌, none, List, [], ◌∷◌, ◌++◌, String,
  if◌then◌else◌, ◌===◌, count, keep, arith, Bool-cases,
}
use text.Mathlib.TextEquality.{eq_iff}
use lifygo.Server.{GoError, Result, ok, err, ◌>>◌, refuse, Result-cases}
use lifygo.Server.Jobs.{
  World, JobRow, CreateJobInput, is_active, admit, limit_check, insert_job, create, input_error,
  cron_error_of, past_error, url_error,
}

abbrev pub active_of : String → JobRow → Bool
active_of user j = j.user_id === user && is_active j

count-keep :
    (user : String) (table : List JobRow)
    → count is_active (keep (λ (j : JobRow). j.user_id === user) table)
      ≡ count (active_of user) table
count-keep user [] = refl
count-keep user (j ∷ table) = ground (arith, count-keep user table)

>>-ok :
    {B : Type 0} (m : Result (Unit {0})) (k : Result B) {b : B}
    → (m >> k) ≡ ok b
    → (m ≡ ok tt) × (k ≡ ok b)
>>-ok (ok u) k h = (refl, h)
>>-ok (err e) k h = cc

limit_of_check :
    (w : World) (table : List JobRow) (user : String)
    → 0 < w.max_jobs_per_user
    → limit_check w table user ≡ ok tt
    → count (active_of user) table < w.max_jobs_per_user
unfolding limit_check
limit_of_check w table user p h = ground (arith, count-keep user table)

-- What was admitted was counted below the limit.
admit-limit :
    (w : World) (table : List JobRow) (i : CreateJobInput)
    → 0 < w.max_jobs_per_user
    → admit w table i ≡ ok tt
    → count (active_of i.user_id) table < w.max_jobs_per_user
unfolding admit
admit-limit w table i p h =
    let (_, h1) = >>-ok (refuse (input_error i)) _ h in
    let (_, h2) = >>-ok (refuse (cron_error_of w i)) _ h1 in
    let (_, h3) = >>-ok (refuse (past_error w i)) _ h2 in
    let (_, h4) = >>-ok (refuse (url_error w i)) _ h3 in
    let (checked, _) = >>-ok (limit_check w table i.user_id) _ h4 in
    limit_of_check w table i.user_id p checked

-- Requests one after another, each with the id that the database gives its row.
abbrev pub creates : World → List (String × CreateJobInput) → List JobRow → List JobRow
creates w [] table = table
creates w ((id, i) ∷ rest) table = creates w rest (create (record w { new_id = id }) table i).1

insert-count :
    (w : World) (table : List JobRow) (i : CreateJobInput) (user : String)
    → count (active_of user) (insert_job w table i).1
      ≤ count (active_of user) table + (if i.user_id === user then 1 else 0)
unfolding insert_job
insert-count w table i user = ground arith

create-admitted :
    (w : World) (table : List JobRow) (i : CreateJobInput)
    → admit w table i ≡ ok tt
    → (create w table i).1 ≡ (insert_job w table i).1
unfolding create
create-admitted w table i e = rw (e, create) refl

create-refused :
    (w : World) (table : List JobRow) (i : CreateJobInput) (e : GoError)
    → admit w table i ≡ err e
    → (create w table i).1 ≡ table
unfolding create
create-refused w table i e q = rw (q, create) refl

insert-limit :
    (w : World) (table : List JobRow) (i : CreateJobInput) (user : String)
    → count (active_of i.user_id) table < w.max_jobs_per_user
    → count (active_of user) table ≤ w.max_jobs_per_user
    → count (active_of user) (insert_job w table i).1 ≤ w.max_jobs_per_user
insert-limit w table i user below b = elim (Bool-cases (i.user_id === user)) [
  | inl q ↦
      let own = ap (λ u. count (active_of u) table) ((eq_iff i.user_id user).0 q) in
      ground (arith, insert-count w table i user)
  | inr q ↦ ground (arith, insert-count w table i user)
]

create-limit :
    (w : World) (table : List JobRow) (i : CreateJobInput) (user : String)
    → 0 < w.max_jobs_per_user
    → count (active_of user) table ≤ w.max_jobs_per_user
    → count (active_of user) (create w table i).1 ≤ w.max_jobs_per_user
create-limit w table i user p b = elim (Result-cases (admit w table i)) [
  | inl (u, e) ↦
      let grown = ap (count (active_of user)) (create-admitted w table i e) in
      omega (arith, insert-limit w table i user (admit-limit w table i p e) b)
  | inr (e, q) ↦ omega (arith, ap (count (active_of user)) (create-refused w table i e q))
]

-- While requests do not overlap, no user comes to have more active jobs than the limit.
pub creates-limit :
    (w : World) (requests : List (String × CreateJobInput)) (table : List JobRow) (user : String)
    → 0 < w.max_jobs_per_user
    → count (active_of user) table ≤ w.max_jobs_per_user
    → count (active_of user) (creates w requests table) ≤ w.max_jobs_per_user
creates-limit w [] table user p b = b
creates-limit w ((id, i) ∷ rest) table user p b =
    creates-limit w rest _ user p (create-limit (record w { new_id = id }) table i user p b)

-- The table, and the requests that were admitted and have not been written.
pub record System : Type 0 where
  pub table : List JobRow
  pub admitted : List CreateJobInput

pub data Step (w : World) : System → System → Type 0 where
  admits :
      (s : System) (i : CreateJobInput)
      → admit w s.table i ≡ ok tt
      → Step w s (record s { admitted = i ∷ s.admitted })
  writes :
      (s : System) (id : String) (i : CreateJobInput) (before after : List CreateJobInput)
      → s.admitted ≡ before ++ i ∷ after
      → Step w s (record {
        table = (insert_job (record w { new_id = id }) s.table i).1;
        admitted = before ++ after;
      })

pub data Reach (w : World) (s : System) : System → Type 0 where
  here : Reach w s s
  next : {t u : System} → Reach w s t → Step w t u → Reach w s u

insert-count_own :
    (w : World) (table : List JobRow) (i : CreateJobInput)
    → w.insert_failure ≡ none
    → count (active_of i.user_id) (insert_job w table i).1 ≡ count (active_of i.user_id) table + 1
unfolding insert_job
insert-count_own w table i f = ground (arith, eq_iff i.user_id i.user_id)

-- Two requests of a user that are both admitted before either is written exceed the limit.
pub limit_race :
    (w : World) (table : List JobRow) (i : CreateJobInput)
    → w.insert_failure ≡ none
    → admit w table i ≡ ok tt
    → count (active_of i.user_id) table + 1 ≡ w.max_jobs_per_user
    → (s : System) × Reach w (record { table = table; admitted = [] }) s
      × (s.admitted ≡ [])
      × (count (active_of i.user_id) s.table ≡ w.max_jobs_per_user + 1)
limit_race w table i f a e =
    let r1 = next here (admits (record { table = table; admitted = [] }) i a) in
    let r2 = next r1 (admits _ i a) in
    let r3 = next r2 (writes _ "1" i [] (i ∷ []) refl) in
    let r4 = next r3 (writes _ "2" i [] [] refl) in
    (
      _,
      r4,
      refl,
      omega (
        arith,
        insert-count_own (record w { new_id = "1" }) table i f,
        insert-count_own (record w { new_id = "2" })
            (insert_job (record w { new_id = "1" }) table i).1 i f,
      ),
    )
