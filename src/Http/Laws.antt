-- ===== src/Http/Laws.antt =====
-- What the call of the API sends, and how it reports failures.
use lifygo.Prelude.{◌≡◌, refl, some, List, [], ◌∷◌, String, arith, if◌then◌else◌, ◌===◌}
use text.Mathlib.TextEquality.{eq_iff}
use lifygo.Http.{set_key, get_key}

module _ {V : Type 0} where
  pub get_key-set_key :
      (k j : String) (v : V) (m : List (String × V))
      → get_key j (set_key k v m) ≡ (if k === j then some v else get_key j m)
  unfolding get_key set_key
  get_key-set_key k j v [] = refl
  get_key-set_key k j v ((i, w) ∷ m) =
      ground (arith, eq_iff k j, eq_iff i k, eq_iff i j, get_key-set_key k j v m)
