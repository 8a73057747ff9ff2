-- ===== src/Server/Logs.antt =====
-- internal/handler/email.go, `Logs`; internal/service/email.go, `ListLogs`; and the queries of
-- internal/repository/email_log.go on a table of logs, the newest last, in the order of `seq`.
pub mod RoundTrip
use lifygo.Prelude.{
  ℕ, zero, suc, ◌+◌, Bool, true, false, ◌&&◌, Option, none, some, List, [], ◌∷◌, ◌++◌, String, ℤ,
  pos, negsuc, atoi, truthy, if◌then◌else◌, ◌===◌, or_else, ltb, keep, length, take, drop, not,
}
use mathlib.Core.List.{reverse}
use lifygo.Http.{get_key}
use lifygo.Query.{parse_query, raw_query}

pub record LogRow : Type 0 where
  pub id : String
  pub user_id : String
  pub to_address : String
  pub subject : String
  pub status : String

-- `model.ListEmailLogsInput`.
pub record LogsInput : Type 0 where
  pub user_id : String
  pub limit : ℤ
  pub offset : ℤ
  pub status : Option String

pub record ListLogsResponse : Type 0 where
  pub logs : List LogRow
  pub total : ℕ
  pub limit : ℤ
  pub offset : ℤ

-- `r.URL.Query().Get(name)`; "" if there is none.
unfoldable pub query_get : String → List (String × String) → String
unfolding get_key
query_get name q = elim (get_key name q) [ none ↦ "" | some v ↦ v ]

-- The limit in a text, if it can be read and is more than 0; 50 else.
limit_of : Option ℤ → ℤ
limit_of none = pos 50
limit_of (some (pos zero)) = pos 50
limit_of (some (pos (suc n))) = pos (suc n)
limit_of (some (negsuc n)) = pos 50

offset_of : Option ℤ → ℤ
offset_of none = pos 0
offset_of (some (pos n)) = pos n
offset_of (some (negsuc n)) = pos 0

-- A parameter that is not given is not read.
unfoldable pub read_int : String → Option ℤ
unfolding atoi
read_int s = if truthy s then atoi s else none

unfoldable pub logs_input : String → List (String × String) → LogsInput
unfolding query_get limit_of offset_of read_int
logs_input user q = record {
  user_id = user;
  limit = limit_of (read_int (query_get "limit" q));
  offset = offset_of (read_int (query_get "offset" q));
  status = let s = query_get "status" q in if truthy s then some s else none;
}

-- `ListLogs` on the way to the database: at most 100, and nothing negative.
clamped : ℤ → ℕ
clamped (pos zero) = 50
clamped (pos (suc n)) = if ltb 100 (suc n) then 100 else suc n
clamped (negsuc n) = 50

unfoldable pub not_negative : ℤ → ℕ
not_negative (pos n) = n
not_negative (negsuc n) = 0

has_status : Option String → LogRow → Bool
has_status none r = true
has_status (some s) r = r.status === s

-- `ORDER BY seq DESC LIMIT … OFFSET …`.
select_logs : List LogRow → String → Option String → ℕ → ℕ → List LogRow
unfolding has_status
select_logs table user status limit offset =
    take limit (drop offset (reverse (keep (λ r. r.user_id === user && has_status status r) table)))

count_by_user : List LogRow → String → ℕ
count_by_user table user = length (keep (λ (r : LogRow). r.user_id === user) table)

-- What the handler writes, with the input that it has read.
list_logs : List LogRow → LogsInput → ListLogsResponse
unfolding clamped not_negative select_logs count_by_user
list_logs table input = record {
  logs =
      select_logs table input.user_id input.status (clamped input.limit)
        (not_negative input.offset);
  total = count_by_user table input.user_id;
  limit = input.limit;
  offset = input.offset;
}

-- GET /logs of a user who is signed in, while the database answers.
unfoldable pub logs : List LogRow → String → String → ListLogsResponse
unfolding logs_input list_logs parse_query raw_query
logs table user target = list_logs table (logs_input user (parse_query (raw_query target)))
