-- ===== src/Server/Access/Rate.antt =====
-- How many requests a user's hour has room for.
use lifygo.Prelude.{
  ℕ, ◌+◌, ◌-◌, ◌≡◌, Bool, true, false, not, ◌&&◌, List, [], ◌∷◌, String, if◌then◌else◌, ◌===◌, ltb,
  truthy, arith, Bool-cases, inl, inr, ap, ◌∙◌,
}
use text.Mathlib.TextEquality.{eq_iff}
use lifygo.Http.{get_key}
use lifygo.Server.Otp.{count_at}
use lifygo.Server.Otp.Daily.{count_at-set_key}
use lifygo.Server.Access.{Call, Passage, passes, too_many, rate_limit_key, rate_limit}

-- What a sequence of requests is answered.
unfoldable pub rate_limits : ℕ → List (String × ℕ) → List Call → List Passage
unfolding rate_limit
rate_limits limit counts [] = []
rate_limits limit counts (c ∷ cs) =
    let (answer, left) = rate_limit limit counts c in answer ∷ rate_limits limit left cs

-- A request that is counted under a key: one that writes, of a user that is known, while Redis works.
abbrev pub is_counted : String → Call → Bool
is_counted k c =
    truthy c.user && (not c.is_get && (not c.redis_fails && rate_limit_key c.user c.hour === k))

abbrev is_passed : Passage → Bool
is_passed (passes n) = true
is_passed too_many = false

unfoldable pub counted_calls : String → List Call → ℕ
counted_calls k [] = 0
counted_calls k (c ∷ cs) = (if is_counted k c then 1 else 0) + counted_calls k cs

-- Of the requests counted under a key, how many are passed on.
unfoldable pub passed_calls : String → List Call → List Passage → ℕ
passed_calls k [] answers = 0
passed_calls k (c ∷ cs) [] = 0
passed_calls k (c ∷ cs) (a ∷ answers) =
    (if is_counted k c && is_passed a then 1 else 0) + passed_calls k cs answers

abbrev pub least : ℕ → ℕ → ℕ
least m n = if ltb m n then m else n

one_more :
    (b : Bool) (a l n m p : ℕ)
    → m ≡ n + (if b then 1 else 0)
    → p ≡ least a (l - m)
    → (if b && ltb n l then 1 else 0) + p ≡ least ((if b then 1 else 0) + a) (l - n)
one_more b a l n m p e q = ground arith

module _ (k : String) (limit : ℕ) where
  rate-step :
      (counts : List (String × ℕ)) (c : Call)
      → (count_at k (rate_limit limit counts c).1
          ≡ count_at k counts + (if is_counted k c then 1 else 0))
        × ((is_counted k c && is_passed (rate_limit limit counts c).0)
            ≡ (is_counted k c && ltb (count_at k counts) limit))
  unfolding rate_limit
  rate-step counts c =
      let j = rate_limit_key c.user c.hour in
      let n = count_at j counts + 1 in
      let s = count_at-set_key k j n counts in
      elim (Bool-cases (j === k)) [
        | inl same ↦
            let e = ap (λ i. count_at i counts) ((eq_iff j k).0 same) in
            (ground arith, ground arith)
        | inr other ↦ (ground arith, ground arith)
      ]

  -- From a count on, the first requests up to the limit are passed on, and no more.
  counted_passes :
      (counts : List (String × ℕ)) (cs : List Call)
      → passed_calls k cs (rate_limits limit counts cs)
        ≡ least (counted_calls k cs) (limit - count_at k counts)
  unfolding passed_calls rate_limits counted_calls
  counted_passes counts [] = ground arith
  counted_passes counts (c ∷ cs) =
      let (total, same) = rate-step counts c in
      let rest = counted_passes (rate_limit limit counts c).1 cs in
      rw same (
        one_more (is_counted k c) (counted_calls k cs) limit (count_at k counts)
          (count_at k (rate_limit limit counts c).1)
          (passed_calls k cs (rate_limits limit (rate_limit limit counts c).1 cs)) total rest)

-- Of the requests that write, of one user in one hour, as many are passed on as the limit allows, or
-- all of them if they are fewer, whatever other requests come between them. Requests that read, and
-- those that come while Redis fails, are not counted.
pub rate_limited :
    (limit : ℕ) (cs : List Call) (user hour : String)
    → let k = rate_limit_key user hour in
      passed_calls k cs (rate_limits limit [] cs) ≡ least (counted_calls k cs) limit
unfolding count_at get_key
rate_limited limit cs user hour =
    let k = rate_limit_key user hour in
    let empty : limit - count_at k [] ≡ limit = omega arith in
    counted_passes k limit [] cs ∙ ap (least (counted_calls k cs)) empty
