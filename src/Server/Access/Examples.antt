-- ===== src/Server/Access/Examples.antt =====
-- Ada's calls, under either provider.
use lifygo.Prelude.{◌≡◌, refl, Bool, true, false, Option, none, some, List, [], ◌∷◌, String}
use lifygo.Http.{Response, fulfilled, rejected, error, init, call, Sent}
use lifygo.Proxy.{redirect, local_middleware}
use lifygo.Proxy.Laws.{is_shown}
use lifygo.Server.Access.{
  Resolvers, Call, passes, too_many, rate_limit_key, rate_limit, flexible_auth,
}
use lifygo.Server.Access.Pages.{
  signed_out, served, page_request, credentials_of, cookie_after, clerk_call, local_call,
}
use lifygo.Server.Access.Rate.{rate_limits, passed_calls, counted_calls, least, rate_limited}

abbrev greeting : String → Sent → Response String
greeting id sent = record { status = 200; json = fulfilled (record { error = ""; payload = id }) }

abbrev known : String → Option String
known s = some "u1"

abbrev stale : String → Option String
stale s = none

abbrev clerk : Resolvers
clerk = record {
  authenticate = stale;
  local_users = none;
  jwt_verify = known;
  clerk_users = some stale;
}

-- The webhook of Clerk has not arrived: Ada's token is valid, and she is not known.
clerk_call_example :
    call "http://localhost:8080"
      (served "" greeting clerk none)
      (fulfilled (some "jwt"))
      "/jobs"
      init
    ≡ record { navigated = none; result = rejected (error "user not found") }
clerk_call_example =
    clerk_call "" greeting clerk stale none "http://localhost:8080" "/jobs" init "jwt" refl refl
      refl refl

abbrev local : Resolvers
local = record {
  authenticate = stale;
  local_users = some stale;
  jwt_verify = stale;
  clerk_users = none;
}

abbrev everywhere : String → Bool
everywhere path = true

local_call_example :
    let sent = page_request "http://localhost:8080" "/jobs" init none in
    let after =
      cookie_after (flexible_auth local (credentials_of (some "old") sent)) (some "old") in
    let host : Option String = some "dashboard.lifygo.com" in
    (call "http://localhost:8080"
        (served "" greeting local (some "old"))
        (fulfilled none)
        "/jobs"
        init
      ≡ signed_out)
    × (after ≡ none)
    × (is_shown everywhere (record { host = host; token = some "old"; pathname = "/dashboard" })
        ≡ true)
    × (local_middleware everywhere (record { host = host; token = none; pathname = "/dashboard" })
        ≡ redirect "/sign-in")
local_call_example =
    local_call "" greeting local stale everywhere "http://localhost:8080" "/jobs" init "old"
      (some "dashboard.lifygo.com") "/dashboard" refl refl refl refl refl refl

abbrev write : Call
write = record { user = "u1"; hour = "2025-05-01-10"; is_get = false; redis_fails = false }

abbrev three_calls : List Call
three_calls = write ∷ record write { is_get = true } ∷ write ∷ write ∷ []

answers :
    rate_limits 2 [] three_calls ≡ passes (some 1) ∷ passes none ∷ passes (some 0) ∷ too_many ∷ []
unfolding rate_limits rate_limit
answers = refl

rate_limited_example :
    passed_calls (rate_limit_key "u1" "2025-05-01-10") three_calls (rate_limits 2 [] three_calls)
    ≡ least (counted_calls (rate_limit_key "u1" "2025-05-01-10") three_calls) 2
rate_limited_example = rate_limited 2 three_calls "u1" "2025-05-01-10"
