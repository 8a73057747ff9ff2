-- ===== src/Server/Keys/Service.antt =====
-- The requests to a server of keys, and the keys that they make up or give.
use lifygo.Prelude.{
  In, subst, arith, Bool, ◌++◌, ◌⊎◌, ◌≡◌, refl, sym, not, some, List, [], ◌∷◌, String,
  if◌then◌else◌, ◌===◌, truthy, truthy-append, keep, map, ◌+s◌, Bool-cases, Option-cases, inl, inr,
}
use lifygo.Server.{Result, ok, err, Result-cases}
use lifygo.Server.Keys.{
  KeyRow, ListedKey, KeyResponse, World, find_hash, insert_key, touch, is_deleted, hash_api_key,
  new_row, issue, create, authenticate, list, delete,
}

pub data Request : Type 0 where
  creates : String → String → Request
  authenticates : String → Request
  lists : String → Request
  deletes : String → String → Request

pub data Reply : Type 0 where
  created : Result KeyResponse → Reply
  authenticated : Result String → Reply
  keys_listed : Result (List ListedKey) → Reply
  deleted : Result (Unit {0}) → Reply

module _ (sha : String → String) where
  unfoldable pub serve : World → List KeyRow → Request → Reply × List KeyRow
  unfolding create authenticate list delete
  serve w table (creates user name) =
      let (r, after) = create sha w table user name in (created r, after)
  serve w table (authenticates raw) =
      let (r, after) = authenticate sha w table raw in (authenticated r, after)
  serve w table (lists user) = (keys_listed (list w table user), table)
  serve w table (deletes id user) = let (r, after) = delete w table id user in (deleted r, after)

  -- The replies to a sequence of requests, each in its world.
  unfoldable pub replies : List KeyRow → List (World × Request) → List Reply
  unfolding serve
  replies table [] = []
  replies table ((w, r) ∷ rest) = let (reply, after) = serve w table r in reply ∷ replies after rest

-- The keys that a request of this world makes up or gives.
unfoldable pub keys_of : World → Request → List String
keys_of w (creates user name) = elim w.random [ err e ↦ [] | ok digits ↦ ("lfy_" +s digits) ∷ [] ]
keys_of w (authenticates raw) = raw ∷ []
keys_of w (lists user) = []
keys_of w (deletes id user) = []

unfoldable pub all_keys : List (World × Request) → List String
unfolding keys_of
all_keys [] = []
all_keys ((w, r) ∷ rest) = keys_of w r ++ all_keys rest

pub In-left : (a : String) (xs ys : List String) → In a xs → In a (xs ++ ys)
In-left a [] ys i = absurd i
In-left a (x ∷ xs) ys (inl e) = inl e
In-left a (x ∷ xs) ys (inr i) = inr (In-left a xs ys i)

pub In-right : (a : String) (xs ys : List String) → In a ys → In a (xs ++ ys)
In-right a [] ys i = i
In-right a (x ∷ xs) ys i = inr (In-right a xs ys i)

-- A table of keys from a list.
unfoldable pub Within : List String → List KeyRow → Type 0
Within known [] = Unit {0}
Within known (k ∷ table) = In k.key_hash known × Within known table

module _ (known : List String) where
  insert_cases :
      (w : World) (table : List KeyRow) (k : KeyRow)
      → ((insert_key w table k).1 ≡ table) ⊎ ((insert_key w table k).1 ≡ k ∷ table)
  unfolding insert_key
  insert_cases w table k = ground arith

  issue_cases :
      (w : World) (table : List KeyRow) (user name : String)
      → ((issue (λ s. s) w table user name).1 ≡ table)
        ⊎ ((digits : String) × (w.random ≡ ok digits)
            × ((issue (λ s. s) w table user name).1
                ≡ new_row (λ s. s) w user name ("lfy_" +s digits) ∷ table))
  unfolding issue hash_api_key
  issue_cases w table user name = elim (Result-cases w.random) [
    | inr (e, failed) ↦ inl (simp (issue, failed))
    | inl (digits, drawn) ↦
        let k = new_row (λ s. s) w user name ("lfy_" +s digits) in
        let given = truthy-append "l" "fy_" digits in
        elim (insert_cases w table k) [
          | inl same ↦ inl (simp (issue, drawn, hash_api_key, given, same))
          | inr added ↦ inr (digits, drawn, simp (issue, drawn, hash_api_key, given, added))
        ]
  ]

  create_cases :
      (w : World) (table : List KeyRow) (user name : String)
      → ((create (λ s. s) w table user name).1 ≡ table)
        ⊎ ((create (λ s. s) w table user name).1 ≡ (issue (λ s. s) w table user name).1)
  unfolding create
  create_cases w table user name = ground arith

  create-Within :
      (w : World) (table : List KeyRow) (user name : String)
      → ((digits : String) → w.random ≡ ok digits → In ("lfy_" +s digits) known)
      → Within known table
      → Within known (create (λ s. s) w table user name).1
  unfolding Within
  create-Within w table user name drawn_known h = elim (create_cases w table user name) [
    | inl same ↦ subst (Within known) (sym same) h
    | inr issued ↦ subst (Within known) (sym issued) (elim (issue_cases w table user name) [
      | inl same ↦ subst (Within known) (sym same) h
      | inr (digits, drawn, added) ↦ subst (Within known) (sym added) (drawn_known digits drawn, h)
    ])
  ]

  touched-Within :
      (w : World) (id : String) (table : List KeyRow)
      → Within known table
      → Within known (
          map
            (λ (k : KeyRow). if k.id === id then record k { last_used_at = some w.now } else k)
            table)
  unfolding Within
  touched-Within w id [] h = tt
  touched-Within w id (k ∷ table) (i, h) = elim (Bool-cases (k.id === id)) [
    | inl it ↦ rw it (i, touched-Within w id table h)
    | inr other ↦ rw other (i, touched-Within w id table h)
  ]

  authenticate_cases :
      (w : World) (table : List KeyRow) (raw : String)
      → ((authenticate (λ s. s) w table raw).1 ≡ table)
        ⊎ ((id : String) × ((authenticate (λ s. s) w table raw).1
              ≡ map
                  (λ (k : KeyRow).
                    if k.id === id then record k { last_used_at = some w.now } else k)
                  table))
  unfolding authenticate touch hash_api_key
  authenticate_cases w table raw = elim (Bool-cases (truthy raw)) [
    | inr empty ↦ inl (simp (authenticate, empty))
    | inl given ↦ elim (Option-cases w.select_failure) [
      | inr (e, failed) ↦ inl (simp (authenticate, hash_api_key, given, failed))
      | inl fine ↦ elim (Option-cases (find_hash raw table)) [
        | inl gone ↦ inl (simp (authenticate, hash_api_key, given, fine, gone))
        | inr (k, there) ↦ elim (Bool-cases w.touches) [
          | inl writes ↦
              inr (k.id, simp (authenticate, hash_api_key, given, fine, there, touch, writes))
          | inr fails ↦ inl (simp (authenticate, hash_api_key, given, fine, there, touch, fails))
        ]
      ]
    ]
  ]

  kept-Within :
      (p : KeyRow → Bool) (table : List KeyRow) → Within known table → Within known (keep p table)
  unfolding Within
  kept-Within p [] h = tt
  kept-Within p (k ∷ table) (i, h) = elim (Bool-cases (p k)) [
    | inl stays ↦ rw stays (i, kept-Within p table h)
    | inr goes ↦ rw goes (kept-Within p table h)
  ]

  delete_cases :
      (w : World) (table : List KeyRow) (id user : String)
      → ((delete w table id user).1 ≡ table)
        ⊎ ((delete w table id user).1 ≡ keep (λ k. not (is_deleted id user k)) table)
  unfolding delete
  delete_cases w table id user = ground arith

  pub serve-Within :
      (w : World) (table : List KeyRow) (r : Request)
      → ((s : String) → In s (keys_of w r) → In s known)
      → Within known table
      → Within known (serve (λ s. s) w table r).1
  unfolding serve keys_of
  serve-Within w table (creates user name) sub h =
      create-Within w table user name (λ digits drawn. sub _ (rw drawn (inl refl))) h
  serve-Within w table (authenticates raw) sub h = elim (authenticate_cases w table raw) [
    | inl same ↦ subst (Within known) (sym same) h
    | inr (id, touched) ↦ subst (Within known) (sym touched) (touched-Within w id table h)
  ]
  serve-Within w table (lists user) sub h = h
  serve-Within w table (deletes id user) sub h = elim (delete_cases w table id user) [
    | inl same ↦ subst (Within known) (sym same) h
    | inr fewer ↦
        subst (Within known) (sym fewer) (kept-Within (λ k. not (is_deleted id user k)) table h)
  ]
