-- ===== src/Locale.antt =====
-- What the browser's `Date` does with a text: it depends on the time zone and the language.
use lifygo.Prelude.{String}
use lifygo.Http.{Settled}

pub record Locale : Type 0 where
  -- `new Date(s).toISOString()`, which throws if `s` is no date
  pub to_iso : String → Settled String
  -- `new Date(s).toLocaleDateString(…)`, `toLocaleString()`, `toLocaleTimeString(…)`
  pub date : String → String
  pub date_time : String → String
  pub time : String → String
