-- ===== src/Server/Keys/Examples.antt =====
-- Ada's key for her build server.
use lifygo.Prelude.{
  ◌≡◌, refl, ap, sym, ◌∙◌, true, none, List, [], ◌∷◌, String, ◌+s◌, trim_prefix, trim_prefix-append,
}
use lifygo.Server.{unauthorized, sentinel, ok, err}
use lifygo.Server.Keys.{
  KeyResponse, World, create, authenticate, delete, issue, input_error, limit_error, insert_key,
  hash_api_key,
}
use lifygo.Server.Keys.Hashes.{hashes_suffice}
use lifygo.Server.Keys.Service.{Request, creates, authenticates, deletes, replies}
use lifygo.Server.Keys.Life.{key_life}

abbrev works : World
works = record {
  max_keys_per_user = 5;
  now = 7;
  random = ok "00ff";
  new_id = "k1";
  select_failure = none;
  insert_failure = none;
  delete_failure = none;
  touches = true;
}

-- A function that no two texts share a value of.
abbrev marked : String → String
marked s = "#" +s s

marked_injective : (s t : String) → marked s ≡ marked t → s ≡ t
marked_injective s t e =
    sym (trim_prefix-append "#" s) ∙ ap (λ x. trim_prefix x "#") e ∙ trim_prefix-append "#" t

abbrev answer : KeyResponse
answer = record {
  id = "k1";
  name = "ci";
  raw_key = "lfy_00ff";
  last_used_at = none;
  created_at = 7;
}

key_life_example :
    let after = (create marked works [] "u1" "ci").1 in
    let removed = delete works after "k1" "u1" in
    ((authenticate marked works after "lfy_00ff").0 ≡ ok "u1")
    × (removed.0 ≡ ok tt)
    × ((authenticate marked works removed.1 "lfy_00ff").0 ≡ err (sentinel unauthorized))
unfolding create issue input_error limit_error insert_key hash_api_key
key_life_example =
    key_life marked works works works works [] "u1" "ci" answer refl refl refl refl refl

abbrev life : List (World × Request)
life =
    (works, creates "u1" "ci")
    ∷ (works, authenticates "lfy_00ff")
    ∷ (works, deletes "k1" "u1")
    ∷ (works, authenticates "lfy_00ff")
    ∷ []

hashes_suffice_example : replies marked [] life ≡ replies (λ s. s) [] life
hashes_suffice_example = hashes_suffice marked life (λ s t i j same. marked_injective s t same)
