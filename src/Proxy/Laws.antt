-- ===== src/Proxy/Laws.antt =====
-- The gate of the dashboard: who gets in, and that redirects end.
use lifygo.Prelude.{
  ◌≡◌, refl, ap, ◌∙◌, ◌⊎◌, inl, inr, Bool, true, false, Option, none, some, String, truthy, arith,
  if◌then◌else◌, ◌===◌, or_else,
}
use lifygo.Proxy.{
  NextRequest, Answer, next, redirect, rewrite, is_dashboard, has_token, local_middleware,
  middleware, or_empty,
}

-- What the chosen provider takes for a session: under the local one a cookie that is not empty, whatever
-- it holds, under Clerk the `isAuthenticated` of `auth()`.
abbrev pub has_session : Option String → Bool → NextRequest → Bool
has_session provider is_authenticated req =
    if or_else (or_empty provider) "clerk" === "local" then has_token req else is_authenticated

-- The answer shows a page of the dashboard.
abbrev pub shows_dashboard : (String → Bool) → NextRequest → Answer → Bool
shows_dashboard protected req next = protected req.pathname
shows_dashboard protected req (rewrite p) = protected p
shows_dashboard protected req _ = false

abbrev pub is_redirect : Answer → Bool
is_redirect (redirect p) = true
is_redirect _ = false

-- The request that the browser makes of an answer.
abbrev pub redirected : NextRequest → Answer → NextRequest
redirected req (redirect p) = record req { pathname = p }
redirected req _ = req

pub has_cookie :
    (req : NextRequest) (c : String) → req.token ≡ some c → truthy c ≡ true → has_token req ≡ true
unfolding has_token
has_cookie req c e given = rw e (ground (arith, given))

pub has_no_cookie : (req : NextRequest) → req.token ≡ none → has_token req ≡ false
unfolding has_token
has_no_cookie req e = rw e refl

module _ (protected : String → Bool) where
  -- Whatever the host and the path, a page below a protected path is shown only for a request that has,
  -- under the local provider, a cookie `lifygo_token` that is not empty, whose token is not checked
  -- here, and, under Clerk, `isAuthenticated`.
  pub dashboard_needs_sign_in :
      (provider : Option String) (is_authenticated : Bool) (req : NextRequest)
      → shows_dashboard protected req (middleware protected provider is_authenticated req) ≡ true
      → has_session provider is_authenticated req ≡ true
  unfolding middleware
  dashboard_needs_sign_in provider is_authenticated req h = ground arith

  -- On the dashboard's host a visitor with a session sees the dashboard at "/", whether he asks
  -- for "/" or for "/dashboard", and one without is sent to sign in from "/".
  pub dashboard_host :
      (provider : Option String) (is_authenticated : Bool) (req : NextRequest)
      → is_dashboard req ≡ true
      → let answer = λ (path : String).
        middleware protected provider is_authenticated (record req { pathname = path }) in
        (has_session provider is_authenticated req ≡ true
          → (answer "/" ≡ rewrite "/dashboard") × (answer "/dashboard" ≡ redirect "/"))
        × (has_session provider is_authenticated req ≡ false → answer "/" ≡ redirect "/sign-in")
  unfolding middleware
  dashboard_host provider is_authenticated req h = ground arith

  -- The middleware redirects to the sign-in page, or from "/dashboard" to "/".
  redirect_targets :
      (provider : Option String) (is_authenticated : Bool) (req : NextRequest)
      → is_redirect (middleware protected provider is_authenticated req) ≡ true
      → (middleware protected provider is_authenticated req ≡ redirect "/sign-in")
        ⊎ ((middleware protected provider is_authenticated req ≡ redirect "/")
            × (is_dashboard req ≡ true)
            × (has_session provider is_authenticated req ≡ true))
  unfolding middleware
  redirect_targets provider is_authenticated req r = ground arith

  sign_in_stays :
      (provider : Option String) (is_authenticated : Bool) (req : NextRequest)
      → protected "/sign-in" ≡ false
      → is_redirect
          (middleware protected provider is_authenticated (record req { pathname = "/sign-in" }))
        ≡ false
  unfolding middleware
  sign_in_stays provider is_authenticated req h = ground arith

  -- If the sign-in page is not protected, a redirect leads to a request that is not redirected
  -- again, whatever the provider.
  pub redirects_end :
      (provider : Option String) (is_authenticated : Bool) (req : NextRequest)
      → protected "/sign-in" ≡ false
      → let again = redirected req (middleware protected provider is_authenticated req) in
        is_redirect (middleware protected provider is_authenticated req) ≡ true
        → is_redirect (middleware protected provider is_authenticated again) ≡ false
  redirects_end provider is_authenticated req h r =
      elim (redirect_targets provider is_authenticated req r) [
        | inl e ↦ rw e (sign_in_stays provider is_authenticated req h)
        | inr (e, host, signed) ↦
            rw (e, ((dashboard_host provider is_authenticated req host).0 signed).0) refl
      ]

  -- Under the local provider, with one redirect followed, the visitor gets a page of the dashboard.
  abbrev pub is_shown : NextRequest → Bool
  is_shown req =
      let again = redirected req (local_middleware protected req) in
      shows_dashboard protected again (local_middleware protected again)

  answers_with_cookie :
      (req : NextRequest)
      → has_token req ≡ true
      → protected req.pathname ≡ true
      → (local_middleware protected req ≡ next)
        ⊎ (local_middleware protected req ≡ rewrite "/dashboard")
        ⊎ ((local_middleware protected req ≡ redirect "/") × (is_dashboard req ≡ true))
  unfolding local_middleware
  answers_with_cookie req cookie guarded = ground arith

  root_with_cookie :
      (req : NextRequest)
      → has_token req ≡ true
      → is_dashboard req ≡ true
      → local_middleware protected (record req { pathname = "/" }) ≡ rewrite "/dashboard"
  unfolding local_middleware
  root_with_cookie req cookie host = ground arith

  shown_after : NextRequest → Answer → Bool
  shown_after req a =
      let again = redirected req a in
      shows_dashboard protected again (local_middleware protected again)

  -- Whatever the host, a cookie that is not empty gets a page of the dashboard for a protected path.
  pub shown_with_cookie :
      (req : NextRequest)
      → has_token req ≡ true
      → protected req.pathname ≡ true
      → protected "/dashboard" ≡ true
      → is_shown req ≡ true
  unfolding shown_after
  shown_with_cookie req cookie guarded root = elim (answers_with_cookie req cookie guarded) [
    | inl e ↦ ap (shown_after req) e ∙ ap (shows_dashboard protected req) e ∙ guarded
    | inr (inl e) ↦ ap (shown_after req) e ∙ ap (shows_dashboard protected req) e ∙ root
    | inr (inr (e, host)) ↦
        ap (shown_after req) e
        ∙ ap (shows_dashboard protected (record req { pathname = "/" }))
            (root_with_cookie req cookie host)
        ∙ root
  ]

  -- Whatever the host, a protected path without a cookie is redirected to the sign-in page.
  pub redirected_without_cookie :
      (req : NextRequest)
      → has_token req ≡ false
      → protected req.pathname ≡ true
      → local_middleware protected req ≡ redirect "/sign-in"
  unfolding local_middleware
  redirected_without_cookie req cookie guarded = ground arith
