-- ===== src/KeysPage/Laws.antt =====
-- What the handlers of the API keys page do to its state.
use lifygo.Prelude.{
  ◌≡◌, ◌≢◌, ◌↔◌, refl, ◌⊎◌, true, false, not, Option, none, List, [], ◌∷◌, String, ◌===◌, In,
  In-keep, arith, if◌then◌else◌, truthy, trim, ◌||◌,
}
use text.Mathlib.TextEquality.{eq_iff}
use lifygo.Http.{str, fulfilled}
use lifygo.Features.{ApiKey}
use lifygo.KeysPage.{
  State, create, key_down, Pending, create_key, list_keys, key_deleted, start, finish, is_id,
  after_render,
}

not_same : (a b : String) → (not (a === b) ≡ true) ↔ (a ≢ b)
not_same a b = (λ h e. ground (arith, eq_iff a b), λ h. ground (arith, eq_iff a b))

-- When a deletion has succeeded, the list holds exactly the keys that it held before whose id is
-- another one, and the box with the raw key is closed exactly if the handler had seen that key.
pub finish-key_deleted :
    (id : String) (seen : Option String) (s : State)
    → let s' = (finish (key_deleted id seen (fulfilled tt)) s).0 in
      ((k : ApiKey) → In k s'.keys ↔ (In k s.keys × (k.id ≢ id)))
      × (s'.new_key ≡ (if is_id seen id then none else s.new_key))
      × (s'.deleting ≡ none)
unfolding finish
finish-key_deleted id seen s = (
  λ k.
      let (to, from) = In-keep (λ (x : ApiKey). not (x.id === id)) k s.keys in
      (λ h. ((to h).0, (not_same k.id id).0 (to h).1), λ h. from (h.0, (not_same k.id id).1 h.1)),
  refl,
  refl,
)

-- Pressing the button and pressing Enter in the input do the same for a name that is not empty; for
-- a blank name neither makes a call or changes the state, and for any other the one creation asked
-- for is that of the trimmed name.
pub create_trims :
    (s : State)
    → (truthy s.name ≡ true → start (key_down "Enter") s ≡ start create s)
      × (truthy (trim s.name) ≡ false → start create s ≡ (s, []))
      × (truthy (trim s.name) ≡ true
          → (rest : List Pending) × ((start create s).1
              ≡ create_key (("name", str (trim s.name)) ∷ []) ∷ rest)
            × ((rest ≡ []) ⊎ (rest ≡ list_keys ∷ [])))
unfolding start
create_trims s = (
  λ h. ground arith,
  λ h. ground arith,
  λ h. (after_render (truthy s.error || not s.loading || s.copied), ground arith, ground arith),
)
