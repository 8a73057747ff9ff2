-- ===== src/Proxy.antt =====
-- proxy.ts: the middleware that runs before every page. A request is what the middleware reads of
-- it, and a redirect or rewrite is named by its path, the host staying the same.
pub mod Laws
mod Examples
use lifygo.Prelude.{
  Bool, true, false, not, ◌&&◌, Option, none, some, String, if◌then◌else◌, ◌===◌, truthy, or_else,
}
use text.Mathlib.Text.{starts_with}

pub record NextRequest : Type 0 where
  -- the `host` header
  pub host : Option String
  -- the cookie `lifygo_token`
  pub token : Option String
  pub pathname : String

pub data Answer : Type 0 where
  -- `NextResponse.next()`, or no answer at all
  next : Answer
  redirect rewrite : String → Answer
  -- what `auth.protect()` answers to a visitor who is not signed in
  denied : Answer

-- `x || ""` for a value that may be absent.
abbrev pub or_empty : Option String → String
or_empty none = ""
or_empty (some s) = or_else s ""

unfoldable pub is_dashboard : NextRequest → Bool
is_dashboard req = starts_with (or_empty req.host) "dashboard."

pub has_token : NextRequest → Bool
has_token req = truthy (or_empty req.token)

-- `createRouteMatcher(["/dashboard(.*)"])` of the Clerk package is a parameter.
module _ (is_protected_route : String → Bool) where
  unfoldable pub local_middleware : NextRequest → Answer
  unfolding is_dashboard has_token
  local_middleware req =
      if is_dashboard req && req.pathname === "/"
      then (if not (has_token req) then redirect "/sign-in" else rewrite "/dashboard")
      else if is_dashboard req && req.pathname === "/dashboard" && has_token req
      then redirect "/"
      else if is_protected_route req.pathname
      then (if not (has_token req) then redirect "/sign-in" else next)
      else next

  -- The middleware under Clerk, with the `isAuthenticated` of `auth()`.
  unfoldable pub clerk_middleware : Bool → NextRequest → Answer
  unfolding is_dashboard
  clerk_middleware is_authenticated req =
      if is_dashboard req && req.pathname === "/"
      then (if not is_authenticated then redirect "/sign-in" else rewrite "/dashboard")
      else if is_dashboard req && req.pathname === "/dashboard"
      then (if not is_authenticated then redirect "/sign-in" else redirect "/")
      else if is_protected_route req.pathname
      then (if is_authenticated then next else denied)
      else next

  -- `AUTH_PROVIDER` is the environment's value, or "clerk".
  unfoldable pub middleware : Option String → Bool → NextRequest → Answer
  unfolding local_middleware clerk_middleware
  middleware provider is_authenticated req =
      if or_else (or_empty provider) "clerk" === "local"
      then local_middleware req
      else clerk_middleware is_authenticated req
