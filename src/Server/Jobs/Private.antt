-- ===== src/Server/Jobs/Private.antt =====
-- The jobs of all users stand in one table. For the requests that create, list and remove jobs, the
-- server is one in which each user has a table of his own.
use lifygo.Prelude.{
  ◌≡◌, refl, sym, ap, ◌∙◌, false, not, subst, List, [], ◌∷◌, String, ◌===◌, truthy, any, keep,
  arith, Bool-cases, Option-cases, inl, inr,
}
use text.Mathlib.TextEquality.{eq_iff}
use lifygo.Http.{Body}
use lifygo.Server.{ok, Answer, Result-cases}
use lifygo.Server.Jobs.{
  World, JobRow, CreateJobInput, owns, admit, list_by_user_id, limited, limit_check,
  free_tier_check, insert_job, create, list, delete_row, delete_failed,
}
use lifygo.Server.Jobs.Handlers.{
  post_job, get_jobs, delete_job, create_decoded, input_of, decode, CreateJobRequest, read_run_at,
  created_answer, delete_reply,
}

-- The rows of one user.
abbrev pub rows_of : String → List JobRow → List JobRow
rows_of user table = keep (λ (j : JobRow). j.user_id === user) table

pub data Request : Type 0 where
  posts : Body → Request
  removes : String → Request
  lists : Request

pub data Reply : Type 0 where
  one : Answer JobRow → Reply
  all : Answer (List JobRow) → Reply
  said : Answer String → Reply

unfoldable pub serve : World → String → Request → List JobRow → Reply × List JobRow
serve w user (posts b) table = (one (post_job w table user b).0, (post_job w table user b).1)
serve w user (removes id) table =
    (said (delete_job w table user id).0, (delete_job w table user id).1)
serve w user lists table = (all (get_jobs w table user), table)

-- A request with the user that it comes from, and the clock and the database as it meets them.
pub record Event : Type 0 where
  pub user : String
  pub world : World
  pub request : Request

-- The replies, each with its user, to a sequence of requests.
unfoldable pub run : List Event → List JobRow → List (String × Reply)
run [] table = []
run (e ∷ es) table =
    let (reply, table') = serve e.world e.user e.request table in (e.user, reply) ∷ run es table'

rows_of_twice : (u : String) (t : List JobRow) → rows_of u (rows_of u t) ≡ rows_of u t
rows_of_twice u [] = refl
rows_of_twice u (j ∷ t) = ground (arith, rows_of_twice u t)

any-owns : (id u : String) (t : List JobRow) → any (owns id u) (rows_of u t) ≡ any (owns id u) t
any-owns id u [] = refl
any-owns id u (j ∷ t) = ground (arith, any-owns id u t)

abbrev dropped : String → String → List JobRow → List JobRow
dropped id u t = keep (λ j. not (owns id u j)) t

dropped-own :
    (id u : String) (t : List JobRow) → rows_of u (dropped id u t) ≡ dropped id u (rows_of u t)
dropped-own id u [] = refl
dropped-own id u (j ∷ t) = ground (arith, dropped-own id u t)

dropped-other :
    (id u v : String) (t : List JobRow)
    → (u === v) ≡ false
    → rows_of v (dropped id u t) ≡ rows_of v t
dropped-other id u v [] n = refl
dropped-other id u v (j ∷ t) n =
    ground (arith, eq_iff j.user_id u, eq_iff j.user_id v, eq_iff u v, dropped-other id u v t n)

module _ (w : World) (t : List JobRow) (u : String) where
  selected-own : list_by_user_id w (rows_of u t) u ≡ list_by_user_id w t u
  unfolding list_by_user_id
  selected-own = elim (Option-cases w.select_failure) [
    | inl e ↦ rw (list_by_user_id, e) (ap ok (rows_of_twice u t))
    | inr (m, e) ↦ rw (list_by_user_id, e) refl
  ]

  limit-own : limit_check w (rows_of u t) u ≡ limit_check w t u
  unfolding limit_check
  limit-own = rw (limit_check, limited, selected-own) refl

  free-own : free_tier_check w (rows_of u t) u ≡ free_tier_check w t u
  unfolding free_tier_check
  free-own = elim (Option-cases w.has_smtp_config) [
    | inl e ↦ rw (free_tier_check, e) refl
    | inr (h, e) ↦ rw (free_tier_check, e, limited, selected-own) refl
  ]

admit-own :
    (w : World) (t : List JobRow) (i : CreateJobInput)
    → admit w (rows_of i.user_id t) i ≡ admit w t i
unfolding admit
admit-own w t i = rw (limit-own w t i.user_id, free-own w t i.user_id) refl

-- What holds of one operation: run on a user's own rows it answers the same and leaves the same rows of
-- the user, and it leaves the rows of every other user alone.
abbrev IsPrivate : {A : Type 0} → String → (List JobRow → A × List JobRow) → Type 0
IsPrivate u f =
    (t : List JobRow)
    → ((f (rows_of u t)).0 ≡ (f t).0)
      × (rows_of u (f t).1 ≡ (f (rows_of u t)).1)
      × ((v : String) → (u === v) ≡ false → rows_of v (f t).1 ≡ rows_of v t)

insert-IsPrivate : (w : World) (i : CreateJobInput) → IsPrivate i.user_id (λ t. insert_job w t i)
unfolding insert_job
insert-IsPrivate w i t = elim (Option-cases w.insert_failure) [
  | inl e ↦ rw e (refl, ground (arith, eq_iff i.user_id i.user_id), λ v n. rw n refl)
  | inr (m, e) ↦ rw e (refl, refl, λ v n. refl)
]

create-IsPrivate : (w : World) (i : CreateJobInput) → IsPrivate i.user_id (λ t. create w t i)
unfolding create
create-IsPrivate w i t = elim (Result-cases (admit w t i)) [
  | inl (x, e) ↦ rw (create, admit-own w t i, e) (insert-IsPrivate w i t)
  | inr (m, e) ↦ rw (create, admit-own w t i, e) (refl, refl, λ v n. refl)
]

decoded-IsPrivate :
    (w : World) (u : String) (req : CreateJobRequest) → IsPrivate u (λ t. create_decoded w t u req)
unfolding create_decoded input_of
decoded-IsPrivate w u req t = elim (Option-cases (read_run_at w req.run_at)) [
  | inl e ↦ rw (create_decoded, e) (refl, refl, λ v n. refl)
  | inr (r, e) ↦
      let (same, own, others) = create-IsPrivate w (input_of u req r) t in
      rw (create_decoded, e) (ap created_answer same, own, others)
]

post-IsPrivate : (w : World) (u : String) (b : Body) → IsPrivate u (λ t. post_job w t u b)
unfolding post_job
post-IsPrivate w u b t = elim (Bool-cases (truthy u)) [
  | inr e ↦ rw (post_job, e) (refl, refl, λ v n. refl)
  | inl e ↦ elim (Option-cases (decode b)) [
    | inl d ↦ rw (post_job, e, d) (refl, refl, λ v n. refl)
    | inr (req, d) ↦ rw (post_job, e, d) (decoded-IsPrivate w u req t)
  ]
]

row-IsPrivate : (w : World) (u id : String) → IsPrivate u (λ t. delete_row w t id u)
unfolding delete_row
row-IsPrivate w u id t = elim (Option-cases w.delete_failure) [
  | inr (m, e) ↦ rw (delete_row, e) (refl, refl, λ v n. refl)
  | inl e ↦ elim (Bool-cases (any (owns id u) t)) [
    | inl h ↦
        rw (delete_row, e, any-owns id u t, h)
          (refl, dropped-own id u t, λ v n. dropped-other id u v t n)
    | inr h ↦ rw (delete_row, e, any-owns id u t, h) (refl, refl, λ v n. refl)
  ]
]

delete_job-IsPrivate : (w : World) (u id : String) → IsPrivate u (λ t. delete_job w t u id)
unfolding delete_job
delete_job-IsPrivate w u id t = elim (Bool-cases (truthy u)) [
  | inr e ↦ rw (delete_job, e) (refl, refl, λ v n. refl)
  | inl e ↦ elim (Bool-cases (truthy id)) [
    | inr h ↦ rw (delete_job, e, h) (refl, refl, λ v n. refl)
    | inl h ↦
        let (same, own, others) = row-IsPrivate w u id t in
        rw (delete_job, e, h) (ap (λ r. delete_reply (delete_failed r)) same, own, others)
  ]
]

jobs-own : (w : World) (u : String) (t : List JobRow) → get_jobs w (rows_of u t) u ≡ get_jobs w t u
unfolding get_jobs
jobs-own w u t = rw (get_jobs, list, selected-own w t u) refl

serve-IsPrivate : (w : World) (u : String) (r : Request) → IsPrivate u (serve w u r)
unfolding serve
serve-IsPrivate w u (posts b) t =
    let (same, own, others) = post-IsPrivate w u b t in (ap one same, own, others)
serve-IsPrivate w u (removes id) t =
    let (same, own, others) = delete_job-IsPrivate w u id t in (ap said same, own, others)
serve-IsPrivate w u lists t = (ap all (jobs-own w u t), refl, λ v n. refl)

-- However the requests of all users follow one another, the replies that a user gets are those that the
-- same requests of this user alone get from a server that holds this user's rows alone.
pub private_tables :
    (v : String) (events : List Event) (table : List JobRow)
    → keep (λ r. r.0 === v) (run events table)
      ≡ run (keep (λ (e : Event). e.user === v) events) (rows_of v table)
unfolding run
private_tables v [] table = refl
private_tables v (e ∷ es) table =
    let (same, own, others) = serve-IsPrivate e.world e.user e.request table in
    let rest = private_tables v es (serve e.world e.user e.request table).1 in
    elim (Bool-cases (e.user === v)) [
      | inl q ↦
          let p = (eq_iff e.user v).0 q in
          let same' =
            subst
              (λ u.
                (serve e.world e.user e.request (rows_of u table)).0
                ≡ (serve e.world e.user e.request table).0)
              p same in
          let own' =
            subst
              (λ u.
                rows_of u (serve e.world e.user e.request table).1
                ≡ (serve e.world e.user e.request (rows_of u table)).1)
              p own in
          rw q (λ i. (e.user, sym same' i) ∷ (rest ∙ ap (run _) own') i)
      | inr q ↦ rw q (rest ∙ ap (run _) (others v q))
    ]
