-- ===== src/Server/Jobs/Executions.antt =====
-- GET /jobs/{id}/executions: `ListExecutions` of internal/handler/job.go and internal/service/job.go,
-- and `ListExecutionsByJobID` of internal/repository/job.go on a table of executions, the newest
-- last, in the order of `seq`.
use lifygo.Prelude.{
  ℕ, zero, suc, ◌≤◌, ◌≡◌, refl, ap, Bool, true, false, not, ◌||◌, Option, none, some, List, [], ◌∷◌,
  String, ℤ, pos, negsuc, truthy, if◌then◌else◌, ◌===◌, ltb, any, keep, take, drop, length, arith,
  Bool-cases, Option-cases, inl, inr,
}
use mathlib.Core.List.{reverse, reverse_aux}
use lifygo.Query.{parse_query, raw_query}
use lifygo.Server.{
  sentinel, not_found, made, wrapped, Result, ok, err, Answer, respond, respond_error,
}
use lifygo.Server.Logs.{query_get, read_int, not_negative}
use lifygo.Server.Jobs.{World, JobRow, get_by_id, find_id}
use lifygo.Server.Jobs.Handlers.{not_found_or}

pub record ExecutionRow : Type 0 where
  pub id : String
  pub job_id : String
  pub user_id : String
  pub status : String

-- A parameter of the query that can be read, of any sign, or the default.
number_of : ℕ → Option ℤ → ℤ
number_of n none = pos n
number_of n (some z) = z

-- At most 100, and 20 for what is not positive.
execution_limit : ℤ → ℕ
execution_limit (pos zero) = 20
execution_limit (pos (suc n)) = if ltb 100 (suc n) then 100 else suc n
execution_limit (negsuc n) = 20

-- `WHERE job_id = $1 ORDER BY seq DESC LIMIT … OFFSET …`.
select_executions : World → List ExecutionRow → String → ℕ → ℕ → Result (List ExecutionRow)
select_executions w executions job_id limit offset = elim w.select_failure [
  | some e ↦ err (wrapped "failed to list job executions" (made e))
  | none ↦ ok (
      take limit
        (drop offset (reverse (keep (λ (e : ExecutionRow). e.job_id === job_id) executions))))
]

executions_of : World → List ExecutionRow → String → ℤ → ℤ → Result (List ExecutionRow)
unfolding execution_limit not_negative select_executions
executions_of w executions job_id limit offset =
    elim (select_executions w executions job_id (execution_limit limit) (not_negative offset)) [
      | err e ↦ err (wrapped "failed to list executions" e)
      | ok rows ↦ ok rows
    ]

unfoldable pub list_executions :
    World → List JobRow → List ExecutionRow → String → String → ℤ → ℤ → Result (List ExecutionRow)
unfolding get_by_id executions_of
list_executions w table executions id user limit offset =
    if not (truthy id) || not (truthy user)
    then err (sentinel not_found)
    else elim (get_by_id w table id) [
      | err e ↦ err (wrapped "failed to get job" e)
      | ok j ↦
          if j.user_id === user
          then executions_of w executions id limit offset
          else err (sentinel not_found)
    ]

executions_answer : Result (List ExecutionRow) → Answer (List ExecutionRow)
unfolding not_found_or
executions_answer (err e) = not_found_or "failed to list executions" e
executions_answer (ok rows) = respond 200 rows

int_parameter : ℕ → String → String → ℤ
unfolding number_of query_get read_int parse_query raw_query
int_parameter n name target =
    number_of n (read_int (query_get name (parse_query (raw_query target))))

-- The handler, with the path and query of the request.
unfoldable pub get_executions :
    World → List JobRow → List ExecutionRow → String → String → String → Answer (List ExecutionRow)
unfolding list_executions executions_answer int_parameter
get_executions w table executions user id target =
    if not (truthy user)
    then respond_error 401 "unauthorized"
    else if not (truthy id)
    then respond_error 400 "job id is required"
    else executions_answer (
        list_executions w table executions id user (int_parameter 20 "limit" target)
          (int_parameter 0 "offset" target))

length-take_le : {A : Type 0} (n : ℕ) (xs : List A) → length (take n xs) ≤ n
unfolding take
length-take_le zero xs = omega arith
length-take_le (suc n) [] = omega arith
length-take_le (suc n) (x ∷ xs) = omega (arith, length-take_le n xs)

module _ {A : Type 0} (p : A → Bool) where
  any-take : (n : ℕ) (xs : List A) → any p xs ≡ false → any p (take n xs) ≡ false
  unfolding take
  any-take zero xs h = refl
  any-take (suc n) [] h = refl
  any-take (suc n) (x ∷ xs) h = ground (arith, any-take n xs)

  any-drop : (n : ℕ) (xs : List A) → any p xs ≡ false → any p (drop n xs) ≡ false
  any-drop zero xs h = h
  any-drop (suc n) [] h = refl
  any-drop (suc n) (x ∷ xs) h = any-drop n xs (ground arith)

  any-reverse_aux : (xs r : List A) → any p (reverse_aux xs r) ≡ any p xs || any p r
  any-reverse_aux [] r = refl
  any-reverse_aux (x ∷ xs) r = ground (arith, any-reverse_aux xs (x ∷ r))

-- An execution of another job.
abbrev pub is_foreign : String → ExecutionRow → Bool
is_foreign id e = not (e.job_id === id)

own-keep :
    (id : String) (xs : List ExecutionRow)
    → any (is_foreign id) (keep (λ (e : ExecutionRow). e.job_id === id) xs) ≡ false
own-keep id [] = refl
own-keep id (x ∷ xs) = ground (arith, own-keep id xs)

limit-bound : (z : ℤ) → execution_limit z ≤ 100
unfolding execution_limit
limit-bound (pos zero) = omega arith
limit-bound (pos (suc n)) = ground arith
limit-bound (negsuc n) = omega arith

-- The rows of an answer.
abbrev pub rows_between : List ExecutionRow → String → ℕ → ℕ → List ExecutionRow
rows_between executions id limit offset =
    take limit (drop offset (reverse (keep (λ (e : ExecutionRow). e.job_id === id) executions)))

own-rows_between :
    (executions : List ExecutionRow) (id : String) (limit offset : ℕ)
    → any (is_foreign id) (rows_between executions id limit offset) ≡ false
own-rows_between executions id limit offset =
    let kept = keep (λ (e : ExecutionRow). e.job_id === id) executions in
    any-take (is_foreign id) limit (drop offset (reverse kept)) (
      any-drop (is_foreign id) offset (reverse kept)
        (ground (arith, any-reverse_aux (is_foreign id) kept [], own-keep id executions)))

executions_of_ok :
    (w : World) (executions : List ExecutionRow) (id : String) (limit offset : ℤ)
    → w.select_failure ≡ none
    → executions_of w executions id limit offset
      ≡ ok (rows_between executions id (execution_limit limit) (not_negative offset))
unfolding executions_of
executions_of_ok w executions id limit offset h = rw (executions_of, h) refl

module _ (w : World) (table : List JobRow) (executions : List ExecutionRow) (user id : String)
    (target : String) (signed_in : truthy user ≡ true) (named : truthy id ≡ true)
    (answers : w.select_failure ≡ none) where
  abbrev limit_asked : ℕ
  limit_asked = execution_limit (int_parameter 20 "limit" target)

  abbrev offset_asked : ℕ
  offset_asked = not_negative (int_parameter 0 "offset" target)

  get_executions_cases :
      get_executions w table executions user id target ≡ elim (find_id table id) [
        | none ↦ respond_error 500 "failed to list executions"
        | some j ↦
            if j.user_id === user
            then respond 200 (rows_between executions id limit_asked offset_asked)
            else respond_error 404 "job not found"
      ]
  unfolding get_executions
  get_executions_cases = elim (Option-cases (find_id table id)) [
    | inl h ↦ rw (signed_in, named, answers, h) refl
    | inr (j, h) ↦ elim (Bool-cases (j.user_id === user)) [
      | inl e ↦
          rw (signed_in, named, answers, h, e)
            (ap executions_answer (
              executions_of_ok w executions id (int_parameter 20 "limit" target)
                (int_parameter 0 "offset" target) answers))
      | inr e ↦ rw (signed_in, named, answers, h, e) refl
    ]
  ]

  -- While the database answers, the executions of a job that does not exist are answered with 500,
  -- those of another user's job with 404, and those of the user's own with 200 and, whatever the
  -- limit and the offset in the query, at most 100 executions, all of this job.
  pub get_executions_answers :
      (rows : List ExecutionRow) × (length rows ≤ 100)
      × (any (is_foreign id) rows ≡ false)
      × (get_executions w table executions user id target ≡ elim (find_id table id) [
        | none ↦ respond_error 500 "failed to list executions"
        | some j ↦
            if j.user_id === user then respond 200 rows else respond_error 404 "job not found"
      ])
  get_executions_answers = (
    rows_between executions id limit_asked offset_asked,
    omega (
      arith,
      length-take_le limit_asked
          (drop offset_asked (reverse (keep (λ (e : ExecutionRow). e.job_id === id) executions))),
      limit-bound (int_parameter 20 "limit" target),
    ),
    own-rows_between executions id limit_asked offset_asked,
    get_executions_cases,
  )
