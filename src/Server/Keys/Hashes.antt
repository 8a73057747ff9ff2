-- ===== src/Server/Keys/Hashes.antt =====
-- A server that stores hashes, next to one that stores the keys themselves.
use lifygo.Prelude.{
  In, ◌≡◌, refl, ap, sym, ◌∙◌, not, ◌||◌, none, some, List, [], ◌∷◌, String, if◌then◌else◌, ◌===◌,
  truthy, truthy-append, count, keep, any, map, ◌+s◌, Bool-cases, Option-cases, inl, inr,
}
use text.Mathlib.TextEquality.{eq_iff}
use lifygo.Server.{Result, ok, err, Result-cases}
use lifygo.Server.Keys.{
  KeyRow, World, input_error, has_hash, is_of, find_hash, limit_error, insert_key, touch, listed,
  is_deleted, hash_api_key, new_row, issue, create, authenticate, list, delete,
}
use lifygo.Server.Keys.Service.{
  Request, creates, authenticates, lists, deletes, created, authenticated, keys_listed, deleted,
  serve, replies, keys_of, all_keys, Within, In-left, In-right, serve-Within,
}

module _ (sha : String → String) where
  abbrev rehash : KeyRow → KeyRow
  rehash k = record k { key_hash = sha k.key_hash }

  abbrev hashed : List KeyRow → List KeyRow
  hashed table = map rehash table

  module _ (known : List String)
      (free : (s t : String) → In s known → In t known → sha s ≡ sha t → s ≡ t) where
    same_hash : (s t : String) → In s known → In t known → (sha s === sha t) ≡ (s === t)
    same_hash s t i j = elim (Bool-cases (s === t)) [
      | inl same ↦ (eq_iff (sha s) (sha t)).1 (ap sha ((eq_iff s t).0 same)) ∙ sym same
      | inr apart ↦ elim (Bool-cases (sha s === sha t)) [
        | inl clash ↦
            (let same = (eq_iff s t).1 (free s t i j ((eq_iff (sha s) (sha t)).0 clash)) in cc)
        | inr differs ↦ differs ∙ sym apart
      ]
    ]

    any-hashed :
        (h : String) (table : List KeyRow)
        → In h known
        → Within known table
        → any (has_hash (sha h)) (hashed table) ≡ any (has_hash h) table
    unfolding Within
    any-hashed h [] i within = refl
    any-hashed h (k ∷ table) i (j, within) =
        rw (same_hash k.key_hash h j i, any-hashed h table i within) refl

    find-hashed :
        (h : String) (table : List KeyRow)
        → In h known
        → Within known table
        → find_hash (sha h) (hashed table)
          ≡ elim (find_hash h table) [ none ↦ none | some k ↦ some (rehash k) ]
    unfolding find_hash Within
    find-hashed h [] i within = refl
    find-hashed h (k ∷ table) i (j, within) = elim (Bool-cases (k.key_hash === h)) [
      | inl same ↦ rw (same_hash k.key_hash h j i, same) refl
      | inr apart ↦ rw (same_hash k.key_hash h j i, apart) (find-hashed h table i within)
    ]

  count-hashed :
      (user : String) (table : List KeyRow)
      → count (is_of user) (hashed table) ≡ count (is_of user) table
  count-hashed user [] = refl
  count-hashed user (k ∷ table) = rw (count-hashed user table) refl

  listed-hashed :
      (user : String) (table : List KeyRow)
      → map listed (keep (is_of user) (hashed table)) ≡ map listed (keep (is_of user) table)
  listed-hashed user [] = refl
  listed-hashed user (k ∷ table) = elim (Bool-cases (k.user_id === user)) [
    | inl own ↦ rw (own, listed-hashed user table) refl
    | inr other ↦ rw (other, listed-hashed user table) refl
  ]

  any_deleted-hashed :
      (id user : String) (table : List KeyRow)
      → any (is_deleted id user) (hashed table) ≡ any (is_deleted id user) table
  any_deleted-hashed id user [] = refl
  any_deleted-hashed id user (k ∷ table) = rw (any_deleted-hashed id user table) refl

  keep-hashed :
      (id user : String) (table : List KeyRow)
      → keep (λ (k : KeyRow). not (is_deleted id user k)) (hashed table)
        ≡ hashed (keep (λ (k : KeyRow). not (is_deleted id user k)) table)
  keep-hashed id user [] = refl
  keep-hashed id user (k ∷ table) = elim (Bool-cases (is_deleted id user k)) [
    | inl gone ↦ rw gone (keep-hashed id user table)
    | inr stays ↦ rw (stays, keep-hashed id user table) refl
  ]

  touched-hashed :
      (w : World) (id : String) (table : List KeyRow)
      → map
          (λ (k : KeyRow). if k.id === id then record k { last_used_at = some w.now } else k)
          (hashed table)
        ≡ hashed (
            map
              (λ (k : KeyRow). if k.id === id then record k { last_used_at = some w.now } else k)
              table)
  touched-hashed w id [] = refl
  touched-hashed w id (k ∷ table) = elim (Bool-cases (k.id === id)) [
    | inl it ↦ rw (it, touched-hashed w id table) refl
    | inr other ↦ rw (other, touched-hashed w id table) refl
  ]

  touch-hashed :
      (w : World) (id : String) (table : List KeyRow)
      → touch w id (hashed table) ≡ hashed (touch w id table)
  unfolding touch
  touch-hashed w id table = elim (Bool-cases w.touches) [
    | inl now ↦ simp (touch, now, touched-hashed w id table)
    | inr never ↦ simp (touch, never)
  ]

  -- The same answer, and a table with the hashes.
  abbrev over : {A : Type 0} → A × List KeyRow → A × List KeyRow
  over (a, table) = (a, hashed table)

  limit-hashed :
      (w : World) (table : List KeyRow) (user : String)
      → limit_error w (hashed table) user ≡ limit_error w table user
  unfolding limit_error
  limit-hashed w table user = elim (Option-cases w.select_failure) [
    | inl fine ↦ simp (limit_error, fine, count-hashed user table)
    | inr (e, failed) ↦ simp (limit_error, failed)
  ]

  delete-hashed :
      (w : World) (table : List KeyRow) (id user : String)
      → delete w (hashed table) id user ≡ over (delete w table id user)
  unfolding delete
  delete-hashed w table id user = elim (Bool-cases (not (truthy id) || not (truthy user))) [
    | inl empty ↦ simp (delete, empty)
    | inr given ↦ elim (Option-cases w.delete_failure) [
      | inr (e, failed) ↦ simp (delete, given, failed)
      | inl fine ↦ elim (Bool-cases (any (is_deleted id user) table)) [
        | inl there ↦ simp (
          delete,
          given,
          fine,
          any_deleted-hashed id user table,
          there,
          keep-hashed id user table,
        )
        | inr gone ↦ simp (delete, given, fine, any_deleted-hashed id user table, gone)
      ]
    ]
  ]

  module _ (known : List String)
      (free : (s t : String) → In s known → In t known → sha s ≡ sha t → s ≡ t) where
    abbrev rehashed : Result KeyRow → Result KeyRow
    rehashed (ok k) = ok (rehash k)
    rehashed (err e) = err e

    insert-hashed :
        (w : World) (table : List KeyRow) (k : KeyRow)
        → In k.key_hash known
        → Within known table
        → insert_key w (hashed table) (rehash k)
          ≡ (rehashed (insert_key w table k).0, hashed (insert_key w table k).1)
    unfolding insert_key
    insert-hashed w table k i within =
        let taken = any-hashed known free k.key_hash table i within in
        elim (Bool-cases (any (has_hash k.key_hash) table)) [
          | inl clash ↦ simp (insert_key, taken, clash)
          | inr new ↦ elim (Option-cases w.insert_failure) [
            | inl fine ↦ simp (insert_key, taken, new, fine)
            | inr (e, failed) ↦ simp (insert_key, taken, new, failed)
          ]
        ]

    hash_of_key :
        (f : String → String) (digits : String)
        → hash_api_key f ("lfy_" +s digits) ≡ ok (f ("lfy_" +s digits))
    unfolding hash_api_key
    hash_of_key f digits = rw (hash_api_key, truthy-append "l" "fy_" digits) refl

    issue-hashed :
        (w : World) (table : List KeyRow) (user name : String)
        → ((digits : String) → w.random ≡ ok digits → In ("lfy_" +s digits) known)
        → Within known table
        → issue sha w (hashed table) user name ≡ over (issue (λ s. s) w table user name)
    unfolding issue
    issue-hashed w table user name drawn_known within = elim (Result-cases w.random) [
      | inr (e, failed) ↦ simp (issue, failed)
      | inl (digits, drawn) ↦
          let raw = "lfy_" +s digits in
          let row = new_row (λ s. s) w user name raw in
          elim (Result-cases (insert_key w table row).0) [
            | inl (k, stored) ↦ simp (
              issue,
              drawn,
              hash_of_key sha digits,
              hash_of_key (λ s. s) digits,
              insert-hashed w table row (drawn_known digits drawn) within,
              stored,
            )
            | inr (e, failed) ↦ simp (
              issue,
              drawn,
              hash_of_key sha digits,
              hash_of_key (λ s. s) digits,
              insert-hashed w table row (drawn_known digits drawn) within,
              failed,
            )
          ]
    ]

    authenticate-hashed :
        (w : World) (table : List KeyRow) (raw : String)
        → In raw known
        → Within known table
        → authenticate sha w (hashed table) raw ≡ over (authenticate (λ s. s) w table raw)
    unfolding authenticate hash_api_key
    authenticate-hashed w table raw i within = elim (Bool-cases (truthy raw)) [
      | inr empty ↦ simp (authenticate, empty)
      | inl given ↦ elim (Option-cases w.select_failure) [
        | inr (e, failed) ↦ simp (authenticate, hash_api_key, given, failed)
        | inl fine ↦
            let found = find-hashed known free raw table i within in
            elim (Option-cases (find_hash raw table)) [
              | inl none_there ↦ simp (authenticate, hash_api_key, given, fine, found, none_there)
              | inr (k, there) ↦
                  simp (
                    authenticate,
                    hash_api_key,
                    given,
                    fine,
                    found,
                    there,
                    touch-hashed w k.id table,
                  )
            ]
      ]
    ]

    create-hashed :
        (w : World) (table : List KeyRow) (user name : String)
        → ((digits : String) → w.random ≡ ok digits → In ("lfy_" +s digits) known)
        → Within known table
        → create sha w (hashed table) user name ≡ over (create (λ s. s) w table user name)
    unfolding create
    create-hashed w table user name drawn_known within =
        elim (Option-cases (input_error user name)) [
          | inr (e, refused) ↦ simp (create, refused)
          | inl fine ↦
              let same = limit-hashed w table user in
              elim (Option-cases (limit_error w table user)) [
                | inr (e, full) ↦ simp (create, fine, same, full)
                | inl room ↦
                    simp
                      (create, fine, same, room, issue-hashed w table user name drawn_known within)
              ]
        ]

    list-hashed :
        (w : World) (table : List KeyRow) (user : String)
        → list w (hashed table) user ≡ list w table user
    unfolding list
    list-hashed w table user = elim (Option-cases w.select_failure) [
      | inl fine ↦ simp (list, fine, listed-hashed user table)
      | inr (e, failed) ↦ simp (list, failed)
    ]

    serve-hashed :
        (w : World) (table : List KeyRow) (r : Request)
        → ((s : String) → In s (keys_of w r) → In s known)
        → Within known table
        → serve sha w (hashed table) r ≡ over (serve (λ s. s) w table r)
    unfolding serve keys_of
    serve-hashed w table (creates user name) sub within =
        ap (λ q. (created q.0, q.1))
          (create-hashed w table user name (λ digits drawn. sub _ (rw drawn (inl refl))) within)
    serve-hashed w table (authenticates raw) sub within =
        ap (λ q. (authenticated q.0, q.1))
          (authenticate-hashed w table raw (sub raw (inl refl)) within)
    serve-hashed w table (lists user) sub within =
        ap (λ q. (keys_listed q, hashed table)) (list-hashed w table user)
    serve-hashed w table (deletes id user) sub within =
        ap (λ q. (deleted q.0, q.1)) (delete-hashed w table id user)

    replies-hashed :
        (table : List KeyRow) (rs : List (World × Request))
        → ((s : String) → In s (all_keys rs) → In s known)
        → Within known table
        → replies sha (hashed table) rs ≡ replies (λ s. s) table rs
    unfolding replies all_keys
    replies-hashed table [] sub within = refl
    replies-hashed table ((w, r) ∷ rest) sub within =
        let here = λ (s : String) (i : In s (keys_of w r)).
          sub s (In-left s (keys_of w r) (all_keys rest) i) in
        let later = λ (s : String) (i : In s (all_keys rest)).
          sub s (In-right s (keys_of w r) (all_keys rest) i) in
        simp (
          replies,
          serve-hashed w table r here within,
          replies-hashed (serve (λ s. s) w table r).1 rest later
              (serve-Within known w table r here within),
        )

-- The server, which stores the hashes of the keys alone, refines one that stores the keys themselves.
-- Every sequence of requests to create keys, to authenticate by one, to list and to delete them, with
-- whatever failures of the database, gets the same replies of both, from no keys on, if no two different
-- keys that are made up or given in it have the same hash.
pub hashes_suffice :
    (sha : String → String) (rs : List (World × Request))
    → ((s t : String) → In s (all_keys rs) → In t (all_keys rs) → sha s ≡ sha t → s ≡ t)
    → replies sha [] rs ≡ replies (λ s. s) [] rs
unfolding Within
hashes_suffice sha rs free = replies-hashed sha (all_keys rs) free [] rs (λ s i. i) tt
