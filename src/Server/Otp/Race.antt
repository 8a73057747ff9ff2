-- ===== src/Server/Otp/Race.antt =====
-- Two checks of one code at once. `GetAndDelete` sends its two commands in a pipeline, and Redis may
-- run the commands of other clients between them.
use lifygo.Prelude.{ℕ, ◌≡◌, ap, ◌∙◌, none, List, [], ◌∷◌, String, map}
use lifygo.Server.{ok}
use lifygo.Server.Otp.{Code, otp_redis_key, live_code, without, checked, verify_refusal}
use lifygo.Server.Otp.Codes.{checked-same}

pub data Command : Type 0 where
  get_command del_command : String → Command

-- `GetAndDelete`.
abbrev pub pipeline : String → List Command
pipeline key = get_command key ∷ del_command key ∷ []

-- The answers of the GETs, in their order.
unfoldable pub replies : ℕ → List (String × Code) → List Command → List String
unfolding live_code without
replies now codes [] = []
replies now codes (get_command key ∷ rest) = live_code now key codes ∷ replies now codes rest
replies now codes (del_command key ∷ rest) = replies now (without key codes) rest

-- The third list has the commands of the other two, each in its order.
pub data Interleaved : List Command → List Command → List Command → Type 0 where
  over : Interleaved [] [] []
  first :
      (c : Command) {xs ys zs : List Command}
      → Interleaved xs ys zs
      → Interleaved (c ∷ xs) ys (c ∷ zs)
  other :
      (c : Command) {xs ys zs : List Command}
      → Interleaved xs ys zs
      → Interleaved xs (c ∷ ys) (c ∷ zs)

-- A code that is stored can be verified twice: two checks of it at once have an order of their commands
-- in which both find it.
pub verify_race :
    (now : ℕ) (codes : List (String × Code)) (user email code : String)
    → verify_refusal user email code ≡ none
    → live_code now (otp_redis_key user email) codes ≡ code
    → (cs : List Command) × Interleaved
        (pipeline (otp_redis_key user email))
        (pipeline (otp_redis_key user email))
        cs
      × (map (λ found. checked found email code) (replies now codes cs) ≡ ok email ∷ ok email ∷ [])
unfolding replies
verify_race now codes user email code well_formed live =
    let key = otp_redis_key user email in
    (
      get_command key ∷ get_command key ∷ del_command key ∷ del_command key ∷ [],
      first (get_command key)
          (other (get_command key) (first (del_command key) (other (del_command key) over))),
      ap (λ found. checked found email code ∷ checked found email code ∷ []) live
          ∙ ap (λ r. r ∷ r ∷ []) (checked-same user email code well_formed),
    )
