-- ===== src/Http/Endpoints.antt =====
-- lib/endpoints.ts: the paths of the API. A member `A.B` of `ENDPOINTS` is `a_b`.
use lifygo.Prelude.{String, ◌+s◌}

abbrev pub account_delete : String
account_delete = "/account"

abbrev pub api_keys_create : String
api_keys_create = "/api-keys"

abbrev pub api_keys_list : String
api_keys_list = "/api-keys"

abbrev pub api_keys_delete : String → String
api_keys_delete id = "/api-keys/" +s id

abbrev pub smtp_upsert : String
smtp_upsert = "/smtp-config"

abbrev pub smtp_get : String
smtp_get = "/smtp-config"

abbrev pub smtp_delete : String
smtp_delete = "/smtp-config"

abbrev pub email_send : String
email_send = "/send"

abbrev pub email_send_otp : String
email_send_otp = "/send/otp"

abbrev pub email_verify_otp : String
email_verify_otp = "/verify/otp"

abbrev pub email_logs : String
email_logs = "/logs"

abbrev pub health : String
health = "/health"

abbrev pub jobs_create : String
jobs_create = "/jobs"

abbrev pub jobs_list : String
jobs_list = "/jobs"

abbrev pub jobs_get : String → String
jobs_get id = "/jobs/" +s id

abbrev pub jobs_delete : String → String
jobs_delete id = "/jobs/" +s id

abbrev pub jobs_executions : String → String
jobs_executions id = "/jobs/" +s id +s "/executions"

abbrev pub dashboard_stats : String
dashboard_stats = "/dashboard/stats"
