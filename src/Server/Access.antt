-- ===== src/Server/Access.antt =====
-- internal/middleware/clerk_auth.go and ratelimit.go: who may call the API, and how often.
pub mod Pages
pub mod Rate
mod Examples
use lifygo.Prelude.{
  ℕ, ◌+◌, ◌-◌, Bool, true, false, not, ◌&&◌, Option, none, some, List, [], ◌∷◌, String,
  if◌then◌else◌, ◌===◌, ltb, truthy, trim_prefix, ◌+s◌,
}
use lifygo.Http.{set_key}
use lifygo.Server.Otp.{count_at}

-- A request: the header X-API-Key and the header Authorization, "" where absent, and the cookie
-- `lifygo_token`.
pub record Credentials : Type 0 where
  pub api_key : String
  pub authorization : String
  pub cookie : Option String

-- What the middleware asks, each answered with an id of a user or, for a token of Clerk, its subject;
-- `none` is an error. A resolver that is nil is absent.
pub record Resolvers : Type 0 where
  pub authenticate : String → Option String
  pub local_users : Option (String → Option String)
  pub jwt_verify : String → Option String
  pub clerk_users : Option (String → Option String)

-- The user that the request is passed on for, or the text of the answer 401.
pub data Verdict : Type 0 where
  passed : String → Verdict
  refused : String → Verdict

-- The verdict, and whether the answer removes the cookie.
pub record Access : Type 0 where
  pub verdict : Verdict
  pub clears_cookie : Bool

abbrev cookie_value : Option String → String
cookie_value none = ""
cookie_value (some v) = v

unfoldable pub extract_token : Credentials → String
unfolding trim_prefix
extract_token r =
    let token = trim_prefix r.authorization "Bearer " in
    if truthy token && not (token === r.authorization) then token else cookie_value r.cookie

-- The rest, for a token that is no local user's.
unfoldable pub clerk_verdict : Resolvers → String → Verdict
clerk_verdict rs token = elim rs.clerk_users [
  | none ↦ refused "invalid session"
  | some user_of ↦ elim (rs.jwt_verify token) [
    | none ↦ refused "invalid session"
    | some subject ↦ elim (user_of subject) [
      | none ↦ refused "user not found"
      | some id ↦ passed id
    ]
  ]
]

unfoldable pub flexible_auth : Resolvers → Credentials → Access
unfolding extract_token clerk_verdict
flexible_auth rs r =
    if truthy r.api_key
    then elim (rs.authenticate r.api_key) [
      | none ↦ record { verdict = refused "invalid api key"; clears_cookie = false }
      | some id ↦ record { verdict = passed id; clears_cookie = false }
    ]
    else let token = extract_token r in
      if not (truthy token)
      then record { verdict = refused "missing credentials"; clears_cookie = false }
      else elim rs.local_users [
        | none ↦ record { verdict = clerk_verdict rs token; clears_cookie = false }
        | some validate ↦ elim (validate token) [
          | some id ↦ record { verdict = passed id; clears_cookie = false }
          | none ↦ record { verdict = clerk_verdict rs token; clears_cookie = true }
        ]
      ]

-- `RateLimit`. The hour is a text, as in the key.
pub record Call : Type 0 where
  pub user : String
  pub hour : String
  pub is_get : Bool
  pub redis_fails : Bool

abbrev pub rate_limit_key : String → String → String
rate_limit_key user hour = "ratelimit:" +s (user +s (":" +s hour))

-- The request is passed on, with the header X-RateLimit-Remaining if there is one, or answered 429.
pub data Passage : Type 0 where
  passes : Option ℕ → Passage
  too_many : Passage

unfoldable pub rate_limit : ℕ → List (String × ℕ) → Call → Passage × List (String × ℕ)
unfolding count_at set_key
rate_limit max_requests counts c =
    if not (truthy c.user)
    then (passes none, counts)
    else if c.is_get
    then (passes none, counts)
    else if c.redis_fails
    then (passes none, counts)
    else let key = rate_limit_key c.user c.hour in
      let n = count_at key counts + 1 in
      (
        if ltb max_requests n then too_many else passes (some (max_requests - n)),
        set_key key n counts,
      )
