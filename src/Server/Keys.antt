-- ===== src/Server/Keys.antt =====
-- internal/service/api_key.go, with the queries of internal/repository/api_key.go on a table of keys, the
-- newest first, and the two functions of pkg/crypto that it uses.
pub mod Service
pub mod Hashes
pub mod Life
mod Examples
use lifygo.Prelude.{
  ℕ, Bool, true, false, not, ◌&&◌, ◌||◌, Option, none, some, List, [], ◌∷◌, String, if◌then◌else◌,
  ◌===◌, ltb, truthy, count, keep, any, map, ◌+s◌,
}
use lifygo.Server.{
  not_found, unauthorized, already_exists, api_key_name_required, api_key_limit_reached, GoError,
  sentinel, made, wrapped, Result, ok, err,
}

-- `model.APIKey`, a row of `api_keys`.
pub record KeyRow : Type 0 where
  pub id : String
  pub user_id : String
  pub key_hash : String
  pub name : String
  pub last_used_at : Option ℕ
  pub created_at : ℕ

-- `model.APIKey` as it is written as JSON, without the hash.
pub record ListedKey : Type 0 where
  pub id : String
  pub user_id : String
  pub name : String
  pub last_used_at : Option ℕ
  pub created_at : ℕ

-- `model.APIKeyResponse`.
pub record KeyResponse : Type 0 where
  pub id : String
  pub name : String
  pub raw_key : String
  pub last_used_at : Option ℕ
  pub created_at : ℕ

-- The limit (0 for none), the clock, the random digits, the id that the database gives, its failures,
-- and whether the goroutine that writes `last_used_at` succeeds.
pub record World : Type 0 where
  pub max_keys_per_user : ℕ
  pub now : ℕ
  pub random : Result String
  pub new_id : String
  pub select_failure : Option GoError
  pub insert_failure : Option GoError
  pub delete_failure : Option GoError
  pub touches : Bool

-- `Validate`.
unfoldable pub input_error : String → String → Option GoError
input_error user name =
    if not (truthy user)
    then some (wrapped "invalid input" (sentinel unauthorized))
    else if not (truthy name)
    then some (wrapped "invalid input" (sentinel api_key_name_required))
    else none

abbrev pub has_hash : String → KeyRow → Bool
has_hash h k = k.key_hash === h

abbrev pub is_of : String → KeyRow → Bool
is_of user k = k.user_id === user

-- `GetByHash`.
unfoldable pub find_hash : String → List KeyRow → Option KeyRow
find_hash h [] = none
find_hash h (k ∷ table) = if has_hash h k then some k else find_hash h table

-- `CountByUserID`, and the limit.
unfoldable pub limit_error : World → List KeyRow → String → Option GoError
limit_error w table user =
    if ltb 0 w.max_keys_per_user
    then elim w.select_failure [
      | some e ↦ some (wrapped "failed to count api keys" (wrapped "failed to count api keys" e))
      | none ↦
          if ltb (count (is_of user) table) w.max_keys_per_user
          then none
          else some (sentinel api_key_limit_reached)
    ]
    else none

-- The repository's `Create`; hashes are unique.
unfoldable pub insert_key : World → List KeyRow → KeyRow → Result KeyRow × List KeyRow
insert_key w table k =
    if any (has_hash k.key_hash) table
    then (err (wrapped "failed to store api key" (sentinel already_exists)), table)
    else elim w.insert_failure [
      | some e ↦
          (err (wrapped "failed to store api key" (wrapped "failed to create api key" e)), table)
      | none ↦ (ok k, k ∷ table)
    ]

-- `UpdateLastUsedAt`.
unfoldable pub touch : World → String → List KeyRow → List KeyRow
touch w id table =
    if w.touches
    then map (λ k. if KeyRow.id k === id then record k { last_used_at = some w.now } else k) table
    else table

abbrev pub listed : KeyRow → ListedKey
listed k = record {
  id = k.id;
  user_id = k.user_id;
  name = k.name;
  last_used_at = k.last_used_at;
  created_at = k.created_at;
}

abbrev pub is_deleted : String → String → KeyRow → Bool
is_deleted id user k = k.id === id && k.user_id === user

-- The hash of a key that is not empty, SHA-256 in hexadecimal digits, is a parameter.
module _ (sha : String → String) where
  -- `HashAPIKey`.
  unfoldable pub hash_api_key : String → Result String
  hash_api_key raw = if truthy raw then ok (sha raw) else err (made "input must not be empty")

  abbrev pub new_row : World → String → String → String → KeyRow
  new_row w user name raw = record {
    id = w.new_id;
    user_id = user;
    key_hash = sha raw;
    name = name;
    last_used_at = none;
    created_at = w.now;
  }

  abbrev pub response_of : String → KeyRow → KeyResponse
  response_of raw k = record {
    id = k.id;
    name = k.name;
    raw_key = raw;
    last_used_at = k.last_used_at;
    created_at = k.created_at;
  }

  -- `GenerateAPIKey`, then the hash and the row.
  unfoldable pub issue : World → List KeyRow → String → String → Result KeyResponse × List KeyRow
  unfolding insert_key hash_api_key
  issue w table user name = elim w.random [
    | err e ↦
        (err (wrapped "failed to generate api key" (wrapped "failed to generate api key" e)), table)
    | ok digits ↦
        let raw = "lfy_" +s digits in
        elim (hash_api_key raw) [
          | err e ↦ (err (wrapped "failed to hash api key" e), table)
          | ok h ↦
              let (stored, after) = insert_key w table (new_row w user name raw) in
              (elim stored [ err e ↦ err e | ok k ↦ ok (response_of raw k) ], after)
        ]
  ]

  unfoldable pub create : World → List KeyRow → String → String → Result KeyResponse × List KeyRow
  unfolding input_error limit_error issue
  create w table user name = elim (input_error user name) [
    | some e ↦ (err e, table)
    | none ↦ elim (limit_error w table user) [
      | some e ↦ (err e, table)
      | none ↦ issue w table user name
    ]
  ]

  -- The user of the key. The goroutine has run when the next request comes.
  unfoldable pub authenticate : World → List KeyRow → String → Result String × List KeyRow
  unfolding hash_api_key find_hash touch
  authenticate w table raw =
      if not (truthy raw) then (err (sentinel unauthorized), table) else elim (hash_api_key raw) [
        | err e ↦ (err (wrapped "failed to hash api key" e), table)
        | ok h ↦ elim w.select_failure [
          | some e ↦ (
            err (wrapped "failed to look up api key" (wrapped "failed to get api key by hash" e)),
            table,
          )
          | none ↦ elim (find_hash h table) [
            | none ↦ (err (sentinel unauthorized), table)
            | some k ↦ (ok k.user_id, touch w k.id table)
          ]
        ]
      ]

unfoldable pub list : World → List KeyRow → String → Result (List ListedKey)
list w table user =
    if not (truthy user) then err (sentinel unauthorized) else elim w.select_failure [
      | some e ↦ err (wrapped "failed to list api keys" (wrapped "failed to list api keys" e))
      | none ↦ ok (map listed (keep (is_of user) table))
    ]

unfoldable pub delete : World → List KeyRow → String → String → Result (Unit {0}) × List KeyRow
delete w table id user =
    if not (truthy id) || not (truthy user)
    then (err (sentinel not_found), table)
    else elim w.delete_failure [
      | some e ↦
          (err (wrapped "failed to delete api key" (wrapped "failed to delete api key" e)), table)
      | none ↦
          if any (is_deleted id user) table
          then (ok tt, keep (λ k. not (is_deleted id user k)) table)
          else (err (wrapped "failed to delete api key" (sentinel not_found)), table)
    ]
