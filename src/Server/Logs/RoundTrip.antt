-- ===== src/Server/Logs/RoundTrip.antt =====
-- From the parameters of `listLogs` through its path to the rows that the server selects.
use lifygo.Prelude.{ℕ, zero, suc, ◌<◌, ◌^◌, Bool, true, Option, none, some, List, String, ◌===◌}
use lifygo.Features.{EmailStatus, email_status_text}
use lifygo.Server.Logs
use lifygo.Server.Logs.{LogRow, LogsInput, ListLogsResponse}

-- The number that a parameter stands for, with the server's value for none.
abbrev pub given : ℕ → Option ℕ → ℕ
given n none = n
given n (some zero) = n
given n (some (suc k)) = suc k

abbrev pub Fits : Option ℕ → Type 0
Fits none = Unit {0}
Fits (some n) = n < 2 ^ 63

abbrev pub passes : Option EmailStatus → LogRow → Bool
passes none r = true
passes (some s) r = r.status === email_status_text s

abbrev or_empty : Option String → String
or_empty e = elim e [ none ↦ "" | some v ↦ v ]
