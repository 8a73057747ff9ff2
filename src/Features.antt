-- ===== src/Features.antt =====
-- features/*/*.types.ts: the data that the API sends and takes. A property that may be `null` or
-- absent is an `Option`, and a union of text literals a data type.
use lifygo.Prelude.{Bool, ℕ, Option, List, String, JsNumber}

pub data JobType : Type 0 where
  webhook email : JobType

pub data JobScheduleType : Type 0 where
  cron one_time : JobScheduleType

pub data JobStatus : Type 0 where
  active paused completed failed : JobStatus

abbrev pub type_text : JobType → String
type_text webhook = "webhook"
type_text email = "email"

abbrev pub schedule_text : JobScheduleType → String
schedule_text cron = "cron"
schedule_text one_time = "one_time"

abbrev pub status_text : JobStatus → String
status_text active = "active"
status_text paused = "paused"
status_text completed = "completed"
status_text failed = "failed"

pub record Job : Type 0 where
  pub id : String
  pub name : String
  pub kind : JobType
  pub schedule_type : JobScheduleType
  pub cron_expression : Option String
  pub run_at : Option String
  pub webhook_url : Option String
  pub webhook_payload : Option String
  pub email_to : Option String
  pub email_subject : Option String
  pub email_body : Option String
  pub status : JobStatus
  pub enabled : Bool
  pub created_at : String

pub data EmailStatus : Type 0 where
  sent failed : EmailStatus

abbrev pub email_status_text : EmailStatus → String
email_status_text sent = "sent"
email_status_text EmailStatus.failed = "failed"

pub record SendEmailResponse : Type 0 where
  pub log_id : String
  pub status : EmailStatus
  pub sent_at : String

pub record SendOtpResponse : Type 0 where
  pub email : String
  pub expires_at : String

pub record VerifyOtpResponse : Type 0 where
  pub email : String
  pub verified : Bool
  pub verified_at : String

pub record SmtpConfig : Type 0 where
  pub id : String
  pub host : String
  pub port : JsNumber
  pub username : String
  pub from_address : String
  pub created_at : String
  pub updated_at : String

pub record ApiKey : Type 0 where
  pub id : String
  pub name : String
  pub last_used_at : Option String
  pub created_at : String

pub record ApiKeyResponse : Type 0 where
  pub api_key : ApiKey
  pub open api_key use *
  -- the raw key, only present right after creation
  pub key : String

pub data ExecutionStatus : Type 0 where
  success failed : ExecutionStatus

pub record JobExecution : Type 0 where
  pub id : String
  pub job_id : String
  pub status : ExecutionStatus
  pub http_status : Option ℕ
  pub error_message : Option String
  pub duration_ms : Option ℕ
  pub executed_at : String

pub record EmailLog : Type 0 where
  pub id : String
  pub to : String
  pub subject : String
  pub status : EmailStatus
  pub error_message : Option String
  pub sent_at : String

-- The page takes an absent or `null` list of executions for an empty one.
pub record DashboardStats : Type 0 where
  pub total_emails_sent : ℕ
  pub total_emails_failed : ℕ
  pub success_rate : JsNumber
  pub active_jobs : ℕ
  pub total_api_keys : ℕ
  pub has_smtp_config : Bool
  pub recent_email_logs : List EmailLog
  pub recent_jobs : List Job
  pub recent_job_executions : Option (List JobExecution)
