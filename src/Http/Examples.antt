-- ===== src/Http/Examples.antt =====
-- The theorems about the call of the API at concrete responses.
use lifygo.Prelude.{ℕ, ◌≡◌, ◌↔◌, ◌⊎◌, some, String}
use lifygo.Http.{Response, Reply, fulfilled, respond}
use lifygo.Http.Calls.{navigated_iff}

abbrev expired : Response ℕ
expired = record {
  status = 401;
  json = fulfilled (record { error = "invalid session"; payload = 0 });
}

navigated_iff_example : ((respond (fulfilled expired)).navigated ≡ some "/sign-in") ↔ (
    (res : Response ℕ) × (body : Reply ℕ) × (fulfilled expired ≡ fulfilled res)
    × (res.json ≡ fulfilled body)
    × (res.status ≡ 401)
    × ((body.error ≡ "invalid session") ⊎ (body.error ≡ "missing credentials"))
    × (◌≡◌ {A = String} "/sign-in" "/sign-in"))
navigated_iff_example = navigated_iff (fulfilled expired) "/sign-in"
