-- ===== src/Server/Jobs/Errors.antt =====
-- How the server answers what it refuses.
use lifygo.Prelude.{
  ℕ, ◌≡◌, refl, inl, inr, true, not, Option, none, some, List, String, if◌then◌else◌, ◌===◌, truthy,
  any, keep, Bool-cases, Option-cases,
}
use lifygo.Http.{Body}
use lifygo.Server.{Sentinel, sentinel, wrapped, err, respond, respond_error}
use lifygo.Server.Jobs.{
  World, JobRow, CreateJobInput, validate, input_error, admit, create, find_id, owns,
}
use lifygo.Server.Jobs.Handlers.{
  CreateJobRequest, decode, read_run_at, input_of, post_job, get_job, delete_job, create_decoded,
}

create-invalid :
    (w : World) (table : List JobRow) (i : CreateJobInput) (e : Sentinel)
    → validate i ≡ some e
    → create w table i ≡ (err (wrapped "invalid input" (sentinel e)), table)
unfolding create
create-invalid w table i e v = rw (v, create, admit, input_error) refl

-- A request that is not valid is never answered with 400: a job whose name, type, schedule or one of
-- whose required fields is missing is answered with 500 and a text that does not tell which, and
-- nothing is stored.
pub invalid_is_500 :
    (w : World) (table : List JobRow) (user : String) (b : Body) (req : CreateJobRequest)
    (run_at : Option ℕ) (e : Sentinel)
    → truthy user ≡ true
    → decode b ≡ some req
    → read_run_at w req.run_at ≡ some run_at
    → validate (input_of user req run_at) ≡ some e
    → post_job w table user b ≡ (respond_error 500 "failed to create job", table)
unfolding post_job
invalid_is_500 w table user b req run_at e t d r v =
    rw (t, d, create_decoded, r, create-invalid w table (input_of user req run_at) e v) refl

-- A user who asks for a job is answered with it if it is the user's. The answer 404 means that the job
-- exists and is another user's; for an id that no job has the answer is 500.
pub get_job_answers :
    (w : World) (table : List JobRow) (user id : String)
    → truthy user ≡ true
    → truthy id ≡ true
    → w.select_failure ≡ none
    → get_job w table user id ≡ elim (find_id table id) [
      | none ↦ respond_error 500 "failed to get job"
      | some j ↦ if j.user_id === user then respond 200 j else respond_error 404 "job not found"
    ]
unfolding get_job
get_job_answers w table user id u i f = elim (Option-cases (find_id table id)) [
  | inl h ↦ rw (u, i, f, h) refl
  | inr (j, h) ↦ elim (Bool-cases (j.user_id === user)) [
    | inl e ↦ rw (u, i, f, h, e) refl
    | inr e ↦ rw (u, i, f, h, e) refl
  ]
]

-- A deletion removes exactly the rows with the id and the user. An id that no job of the user has, also
-- one that never was, is answered with 500, never with 404, and nothing is removed.
pub delete_job_answers :
    (w : World) (table : List JobRow) (user id : String)
    → truthy user ≡ true
    → truthy id ≡ true
    → w.delete_failure ≡ none
    → delete_job w table user id ≡ (
        if any (owns id user) table
        then (respond 200 "job deleted", keep (λ j. not (owns id user j)) table)
        else (respond_error 500 "failed to delete job", table))
unfolding delete_job
delete_job_answers w table user id u i f = elim (Bool-cases (any (owns id user) table)) [
  | inl e ↦ rw (u, i, f, e) refl
  | inr e ↦ rw (u, i, f, e) refl
]
