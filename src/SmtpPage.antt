-- ===== src/SmtpPage.antt =====
-- app/dashboard/smtp/page.tsx: the state of `SmtpPage`, and its handlers cut at each `await`.
pub mod View
pub mod Requests
pub mod Laws
mod Examples
use lifygo.Prelude.{
  Bool, true, false, not, ◌&&◌, Option, none, some, List, [], ◌∷◌, ◌++◌, String, JsNumber, int,
  number_of, if◌then◌else◌, ◌===◌, truthy, or_else,
}
use lifygo.Http.{Value, str, num, Body, Thrown, Settled, fulfilled, rejected, message}
use lifygo.Features.{SmtpConfig}

-- The `smtp` form.
pub record Server : Type 0 where
  pub host : String
  pub port : JsNumber
  pub username : String
  pub password : String

pub record State : Type 0 where
  pub from_address : String
  pub smtp : Server
  pub config : Option SmtpConfig
  pub loading : Bool
  pub deleting : Bool
  pub error : String
  pub success : String

abbrev pub empty_server : Server
empty_server = record { host = ""; port = int 587; username = ""; password = "" }

abbrev pub initial : State
initial = record {
  from_address = "";
  smtp = empty_server;
  config = none;
  loading = false;
  deleting = false;
  error = "";
  success = "";
}

-- `config !== null && config.host !== ""`.
abbrev pub has_host : Option SmtpConfig → Bool
has_host none = false
has_host (some c) = not (c.host === "")

abbrev pub has_full_smtp : State → Bool
has_full_smtp s = has_host s.config

-- Whether `config?.from_address` is truthy.
abbrev pub has_from : Option SmtpConfig → Bool
has_from none = false
has_from (some c) = truthy c.from_address

pub data Call : Type 0 where
  set_from_address set_host set_port set_username set_password : String → Call
  save_from save_smtp remove : Call

pub data Pending : Type 0 where
  get_config : Pending
  save_from_call save_smtp_call : Body → Pending
  delete_config : Pending

pub data Completion : Type 0 where
  config_fetched : Settled SmtpConfig → Completion
  from_saved smtp_saved : Body → Settled SmtpConfig → Completion
  removed : Settled (Unit {0}) → Completion

abbrev pub pending_of : Completion → Pending
pending_of (config_fetched r) = get_config
pending_of (from_saved b r) = save_from_call b
pending_of (smtp_saved b r) = save_smtp_call b
pending_of (removed r) = delete_config

abbrev pub from_body : State → Body
from_body s = ("from_address", str s.from_address) ∷ []

-- `fromAddress || config?.from_address`; `JSON.stringify` leaves an `undefined` property out.
abbrev pub from_property : String → Option SmtpConfig → Body
from_property a none = if truthy a then ("from_address", str a) ∷ [] else []
from_property a (some c) = ("from_address", str (or_else a c.from_address)) ∷ []

abbrev pub smtp_body : State → Body
smtp_body s =
    from_property s.from_address s.config
    ++ (("host", str s.smtp.host)
        ∷ ("port", num s.smtp.port)
        ∷ ("username", str s.smtp.username)
        ∷ ("password", str s.smtp.password)
        ∷ [])

handle_save_from : State → State × List Pending
handle_save_from s =
    (record s { error = ""; success = ""; loading = true }, save_from_call (from_body s) ∷ [])

handle_save_smtp : State → State × List Pending
handle_save_smtp s =
    (record s { error = ""; success = ""; loading = true }, save_smtp_call (smtp_body s) ∷ [])

handle_remove : State → State × List Pending
handle_remove s = (record s { error = ""; success = ""; deleting = true }, delete_config ∷ [])

set_smtp : Server → State → State
set_smtp v s = record s { smtp = v }

-- A handler up to its first `await`.
unfoldable pub start : Call → State → State × List Pending
unfolding handle_save_from handle_save_smtp handle_remove set_smtp number_of
start (set_from_address v) s = (record s { from_address = v }, [])
start (set_host v) s = (set_smtp (record (s.smtp) { host = v }) s, [])
start (set_port v) s = (set_smtp (record (s.smtp) { port = number_of v }) s, [])
start (set_username v) s = (set_smtp (record (s.smtp) { username = v }) s, [])
start (set_password v) s = (set_smtp (record (s.smtp) { password = v }) s, [])
start save_from s = handle_save_from s
start save_smtp s = handle_save_smtp s
start remove s = handle_remove s

fetched_server : SmtpConfig → Server → Server
fetched_server c v =
    if truthy c.host
    then record { host = c.host; port = c.port; username = c.username; password = "" }
    else v

-- `fetchConfig` drops an error: there is no configuration yet.
fetch_settled : Settled SmtpConfig → State → State
unfolding fetched_server
fetch_settled (fulfilled c) s = record s {
  config = some c;
  from_address = or_else c.from_address "";
  smtp = fetched_server c s.smtp;
}
fetch_settled (rejected e) s = s

save_from_settled : Settled SmtpConfig → State → State
save_from_settled (fulfilled c) s = record s {
  config = some c;
  success = "From address saved. Emails will be sent through the free relay.";
  loading = false;
}
save_from_settled (rejected e) s = record s { error = message e "Failed to save"; loading = false }

save_smtp_settled : Settled SmtpConfig → State → State
save_smtp_settled (fulfilled c) s = record s {
  config = some c;
  smtp = record (s.smtp) { password = "" };
  success = "SMTP configuration saved. You now have unlimited sending.";
  loading = false;
}
save_smtp_settled (rejected e) s = record s {
  error = message e "Failed to save SMTP configuration";
  loading = false;
}

remove_settled : Settled (Unit {0}) → State → State
remove_settled (fulfilled u) s = record s {
  config = none;
  from_address = "";
  smtp = empty_server;
  success = "Configuration removed. You are back on the free relay.";
  deleting = false;
}
remove_settled (rejected e) s = record s {
  error = message e "Failed to remove configuration";
  deleting = false;
}

-- A handler from its `await` on.
unfoldable pub finish : Completion → State → State
unfolding fetch_settled save_from_settled save_smtp_settled remove_settled
finish (config_fetched r) s = fetch_settled r s
finish (from_saved b r) s = save_from_settled r s
finish (smtp_saved b r) s = save_smtp_settled r s
finish (removed r) s = remove_settled r s
