-- ===== src/Services/Logs.antt =====
-- features/logs/logs.service.ts: the query of `listLogs`.
use lifygo.Prelude.{
  ℕ, zero, suc, ◌≡◌, refl, ◌∙◌, false, Option, none, some, List, [], ◌∷◌, String, decimal,
  decimal-IsNumeral, truthy, if◌then◌else◌, ◌===◌, Bool-cases, inl, inr, arith,
}
use lifygo.Features.{EmailStatus, sent, email_status_text}
use lifygo.Http.{get_key, set_key}
use lifygo.Http.Laws.{get_key-set_key}
use lifygo.Query.{to_text, raw_query}
use lifygo.Query.RoundTrip.{AllPlain, IsPlain, IsNumeral-IsPlain, raw_query_lem}
use lifygo.Services.{ListLogsParams, set_number, set_status, logs_query, list_logs}

set_key-AllPlain :
    (k v : String) (q : List (String × String))
    → IsPlain k
    → IsPlain v
    → AllPlain q
    → AllPlain (set_key k v q)
unfolding set_key
set_key-AllPlain k v [] h g r = (h, g, tt)
set_key-AllPlain k v ((j, w) ∷ q) h g (a, b, r) = elim (Bool-cases (j === k)) [
  | inl e ↦ rw e (a, g, r)
  | inr e ↦ rw e (a, b, set_key-AllPlain k v q h g r)
]

set_number-AllPlain :
    (name : String) (n : Option ℕ) (q : List (String × String))
    → IsPlain name
    → AllPlain q
    → AllPlain (set_number name n q)
unfolding set_number
set_number-AllPlain name none q h g = g
set_number-AllPlain name (some zero) q h g = g
set_number-AllPlain name (some (suc n)) q h g =
    set_key-AllPlain name _ q h (IsNumeral-IsPlain _ (decimal-IsNumeral (suc n))) g

set_status-AllPlain :
    (s : Option EmailStatus) (q : List (String × String)) → AllPlain q → AllPlain (set_status s q)
unfolding set_status
set_status-AllPlain none q g = g
set_status-AllPlain (some sent) q g =
    set_key-AllPlain "status" "sent" q (omega arith) (omega arith) g
set_status-AllPlain (some EmailStatus.failed) q g =
    set_key-AllPlain "status" "failed" q (omega arith) (omega arith) g

pub logs_query-AllPlain : (p : ListLogsParams) → AllPlain (logs_query p)
unfolding logs_query
logs_query-AllPlain p = set_status-AllPlain p.status _ (
    set_number-AllPlain "offset" p.offset _ (omega arith)
      (set_number-AllPlain "limit" p.limit [] (omega arith) tt))

-- What a query has for a number; 0 is left out.
abbrev pub number_entry : Option ℕ → Option String
number_entry none = none
number_entry (some zero) = none
number_entry (some (suc n)) = some (decimal (suc n))

abbrev pub status_entry : Option EmailStatus → Option String
status_entry none = none
status_entry (some s) = some (email_status_text s)

number-get :
    (j k : String) (n : Option ℕ) (q : List (String × String))
    → get_key j q ≡ none
    → get_key j (set_number k n q) ≡ (if k === j then number_entry n else none)
unfolding set_number
number-get j k none q h = ground arith
number-get j k (some zero) q h = ground arith
number-get j k (some (suc n)) q h = ground (arith, get_key-set_key k j (decimal (suc n)) q)

number-get_other :
    (j k : String) (n : Option ℕ) (q : List (String × String))
    → (k === j) ≡ false
    → get_key j (set_number k n q) ≡ get_key j q
unfolding set_number
number-get_other j k none q h = refl
number-get_other j k (some zero) q h = refl
number-get_other j k (some (suc n)) q h = ground (arith, get_key-set_key k j (decimal (suc n)) q)

status-get :
    (j : String) (s : Option EmailStatus) (q : List (String × String))
    → get_key j (set_status s q) ≡ (
        if "status" === j
        then elim s [ none ↦ get_key j q | some t ↦ some (email_status_text t) ]
        else get_key j q)
unfolding set_status
status-get j none q = ground arith
status-get j (some s) q = ground (arith, get_key-set_key "status" j (email_status_text s) q)

module _ (p : ListLogsParams) where
  pub logs_query-limit : get_key "limit" (logs_query p) ≡ number_entry p.limit
  unfolding logs_query get_key
  logs_query-limit =
      status-get "limit" p.status _
      ∙ number-get_other "limit" "offset" p.offset _ refl
      ∙ number-get "limit" "limit" p.limit [] refl

  pub logs_query-offset : get_key "offset" (logs_query p) ≡ number_entry p.offset
  unfolding logs_query get_key
  logs_query-offset =
      status-get "offset" p.status _
      ∙ number-get "offset" "offset" p.offset _ (number-get_other "offset" "limit" p.limit [] refl)

  no_status : get_key "status" (set_number "offset" p.offset (set_number "limit" p.limit [])) ≡ none
  unfolding get_key
  no_status =
      number-get_other "status" "offset" p.offset _ refl
      ∙ number-get_other "status" "limit" p.limit [] refl

  pub logs_query-status : get_key "status" (logs_query p) ≡ status_entry p.status
  unfolding logs_query
  logs_query-status = status-get "status" p.status _ ∙ status_last p.status
    where
      status_last :
          (s : Option EmailStatus)
          → (elim s [
            | none ↦ get_key "status" (set_number "offset" p.offset (set_number "limit" p.limit []))
            | some t ↦ some (email_status_text t)
          ])
            ≡ status_entry s
      status_last none = no_status
      status_last (some s) = refl

raw_query-none : raw_query "/logs" ≡ ""
unfolding raw_query
raw_query-none = refl

not_truthy : (s : String) → truthy s ≡ false → s ≡ ""
not_truthy String.[] h = refl
not_truthy (String.◌∷◌ c s) h = cc

-- The query is what stands behind the question mark of the path.
pub raw_query-list_logs :
    (p : ListLogsParams) → raw_query (list_logs p).path ≡ to_text (logs_query p)
unfolding list_logs
raw_query-list_logs p = elim (Bool-cases (truthy (to_text (logs_query p)))) [
  | inl e ↦ rw e (raw_query_lem "/logs" (to_text (logs_query p)) (omega arith))
  | inr e ↦ rw (e, not_truthy (to_text (logs_query p)) e) raw_query-none
]
