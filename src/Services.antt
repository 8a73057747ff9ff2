-- ===== src/Services.antt =====
-- features/*/*.service.ts: the calls of the API with an API key. A service names the path and the
-- options of its call; `apiFetch` sends it.
pub mod Logs
use lifygo.Prelude.{
  ℕ, zero, suc, Option, none, some, List, [], String, decimal, truthy, if◌then◌else◌, ◌+s◌,
}
use lifygo.Http.{
  Body, RequestInit, init, post, delete, set_key, Settled, Response, Sent, Fetched, api_fetch,
}
use lifygo.Http.Endpoints.{
  api_keys_create, api_keys_list, api_keys_delete, smtp_upsert, smtp_get, smtp_delete, email_send,
  email_send_otp, email_verify_otp, email_logs, jobs_create, jobs_list, jobs_get, jobs_delete,
  jobs_executions, dashboard_stats,
}
use lifygo.Features.{EmailStatus, email_status_text}
use lifygo.Query.{to_text}

pub record Asked : Type 0 where
  pub path : String
  pub options : RequestInit

abbrev asked : String → RequestInit → Asked
asked p o = record { path = p; options = o }

abbrev pub create_api_key : Body → Asked
create_api_key input = asked api_keys_create (post input)

abbrev pub list_api_keys : Asked
list_api_keys = asked api_keys_list init

abbrev pub delete_api_key : String → Asked
delete_api_key id = asked (api_keys_delete id) delete

abbrev pub get_dashboard_stats : Asked
get_dashboard_stats = asked dashboard_stats init

abbrev pub send_email : Body → Asked
send_email input = asked email_send (post input)

abbrev pub send_otp : Body → Asked
send_otp input = asked email_send_otp (post input)

abbrev pub verify_otp : Body → Asked
verify_otp input = asked email_verify_otp (post input)

abbrev pub create_job : Body → Asked
create_job input = asked jobs_create (post input)

abbrev pub list_jobs : Asked
list_jobs = asked jobs_list init

abbrev pub get_job : String → Asked
get_job id = asked (jobs_get id) init

abbrev pub delete_job : String → Asked
delete_job id = asked (jobs_delete id) delete

abbrev pub list_job_executions : String → Asked
list_job_executions id = asked (jobs_executions id) init

abbrev pub upsert_smtp_config : Body → Asked
upsert_smtp_config input = asked smtp_upsert (post input)

abbrev pub get_smtp_config : Asked
get_smtp_config = asked smtp_get init

abbrev pub delete_smtp_config : Asked
delete_smtp_config = asked smtp_delete delete

-- Limits and offsets are natural numbers below 10 ^ 21, which `String(n)` prints in full.
pub record ListLogsParams : Type 0 where
  pub limit : Option ℕ
  pub offset : Option ℕ
  pub status : Option EmailStatus

-- `if (n) query.set(name, String(n))`.
set_number : String → Option ℕ → List (String × String) → List (String × String)
unfolding set_key
set_number name none query = query
set_number name (some zero) query = query
set_number name (some (suc n)) query = set_key name (decimal (suc n)) query

set_status : Option EmailStatus → List (String × String) → List (String × String)
unfolding set_key
set_status none query = query
set_status (some s) query = set_key "status" (email_status_text s) query

unfoldable pub logs_query : ListLogsParams → List (String × String)
unfolding set_number set_status
logs_query params =
    set_status params.status
      (set_number "offset" params.offset (set_number "limit" params.limit []))

unfoldable pub list_logs : ListLogsParams → Asked
unfolding logs_query to_text
list_logs params =
    let query_string = to_text (logs_query params) in
    asked (if truthy query_string then email_logs +s ("?" +s query_string) else email_logs) init

-- What a service sends and makes of the answer.
unfoldable pub with_key :
    {T : Type 0} → String → (Sent → Settled (Response T)) → String → Asked → Fetched T
unfolding api_fetch
with_key api_url fetch api_key a = api_fetch api_url fetch a.path api_key a.options
