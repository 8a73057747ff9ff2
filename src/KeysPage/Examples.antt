-- ===== src/KeysPage/Examples.antt =====
-- The theorems about the page of the API keys at concrete inputs.
use lifygo.Prelude.{◌≡◌, none, some, [], ◌∷◌, String, In}
use lifygo.Http.{fulfilled}
use lifygo.Features.{ApiKeyResponse}
use lifygo.Locale.{Locale}
use lifygo.Page.{System, Reach}
use lifygo.KeysPage.{State, Pending, list_keys, delete_key, key_deleted, initial, finish}
use lifygo.KeysPage.Requests.{keys_page, listing_never_ends}
use lifygo.KeysPage.Races.{raw_key_lost}

abbrev utc : Locale
utc = record { to_iso = λ s. fulfilled s; date = λ s. s; date_time = λ s. s; time = λ s. s }

abbrev key : String → ApiKeyResponse
key id = record {
  api_key = record { id = id; name = "ci"; last_used_at = none; created_at = "2026-01-01" };
  key = "lf_secret";
}

listing_never_ends_example :
    Reach (keys_page utc) (record {
      page = record initial { keys = (key "a").api_key ∷ [] };
      in_flight = list_keys ∷ [];
    })
listing_never_ends_example = listing_never_ends utc ([] ∷ ((key "a").api_key ∷ []) ∷ [])

raw_key_lost_example :
    (t : System State Pending) × Reach (keys_page utc) t
    × (t.page.new_key ≡ some (key "b"))
    × In (delete_key "a" (some "a")) t.in_flight
    × ((finish (key_deleted "a" (some "a") (fulfilled tt)) t.page).0.new_key ≡ none)
raw_key_lost_example = raw_key_lost utc (key "a") (key "b")
