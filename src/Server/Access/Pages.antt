-- ===== src/Server/Access/Pages.antt =====
-- The call of a page, answered through this middleware, and the next request of a page.
use lifygo.Prelude.{
  ◌≡◌, refl, ap, ◌∙◌, inl, inr, Bool, true, false, Option, none, some, List, [], ◌∷◌, String,
  if◌then◌else◌, ◌===◌, truthy, ◌+s◌, trim_prefix-append, append_longer, Option-cases,
}
use lifygo.Http.{
  RequestInit, Sent, Response, Settled, Fetched, fulfilled, rejected, error, get_key, call, respond,
}
use lifygo.Http.Calls.{call_sends}
use lifygo.Proxy.{NextRequest, redirect, local_middleware}
use lifygo.Proxy.Laws.{
  is_shown, shown_with_cookie, redirected_without_cookie, has_cookie, has_no_cookie,
}
use lifygo.Server.Access.{
  Credentials, Resolvers, Access, Verdict, passed, refused, extract_token, clerk_verdict,
  flexible_auth,
}

abbrev pub header : String → List (String × String) → String
header name headers = elim (get_key name headers) [ none ↦ "" | some v ↦ v ]

-- What the server reads of a request, with the browser's cookie if it is included.
unfoldable pub credentials_of : Option String → Sent → Credentials
unfolding get_key
credentials_of cookie sent = record {
  api_key = header "X-API-Key" sent.headers;
  authorization = header "Authorization" sent.headers;
  cookie = if sent.credentials === "include" then cookie else none;
}

-- The cookie that an answer leaves.
unfoldable pub cookie_after : Access → Option String → Option String
cookie_after a cookie = if a.clears_cookie then none else cookie

-- `writeError` for a refusal, and the handler's answer for a request that is passed on; `nothing` is
-- the body of an error read as the type that the caller names.
module _ {T : Type 0} (nothing : T) (handler : String → Sent → Response T) where
  unfoldable pub answer_of : Verdict → Sent → Response T
  answer_of (passed id) sent = handler id sent
  answer_of (refused m) sent = record {
    status = 401;
    json = fulfilled (record { error = m; payload = nothing });
  }

  unfoldable pub served : Resolvers → Option String → Sent → Settled (Response T)
  unfolding answer_of
  served rs cookie sent =
      fulfilled (answer_of (flexible_auth rs (credentials_of cookie sent)).verdict sent)

-- The request of a page's call that `getToken` gives this token.
abbrev pub page_request : String → String → RequestInit → Option String → Sent
page_request api_url path o token = record {
  url = api_url +s path;
  method = o.method;
  body = o.body;
  headers = ("Content-Type", "application/json") ∷ ("X-API-Key", "") ∷ elim token [
    | none ↦ []
    | some t ↦ if truthy t then ("Authorization", "Bearer " +s t) ∷ [] else []
  ];
  credentials = "include";
}

bearer_sent :
    (api_url path : String) (o : RequestInit) (cookie : Option String) (t : String)
    → truthy t ≡ true
    → credentials_of cookie (page_request api_url path o (some t))
      ≡ record { api_key = ""; authorization = "Bearer " +s t; cookie = cookie }
unfolding credentials_of
bearer_sent api_url path o cookie t h = rw (credentials_of, h) refl

cookie_sent :
    (api_url path : String) (o : RequestInit) (cookie : Option String)
    → credentials_of cookie (page_request api_url path o none)
      ≡ record { api_key = ""; authorization = ""; cookie = cookie }
unfolding credentials_of
cookie_sent api_url path o cookie = refl

bearer_token :
    (cookie : Option String) (t : String)
    → truthy t ≡ true
    → extract_token (record { api_key = ""; authorization = "Bearer " +s t; cookie = cookie }) ≡ t
unfolding extract_token
bearer_token cookie t h =
    rw (extract_token, trim_prefix-append "Bearer " t, h, append_longer "B" "earer " t) refl

abbrev pub signed_out : {T : Type 0} → Fetched T
signed_out = record { navigated = some "/sign-in"; result = rejected (error "invalid session") }

clerk_access :
    (rs : Resolvers) (cookie : Option String) (t : String)
    → truthy t ≡ true
    → rs.local_users ≡ none
    → (flexible_auth rs
        (record { api_key = ""; authorization = "Bearer " +s t; cookie = cookie })).verdict
      ≡ clerk_verdict rs t
unfolding flexible_auth
clerk_access rs cookie t h no_local = simp (flexible_auth, bearer_token cookie t h, h, no_local)

-- A page's call with a token of Clerk: if the token is not valid, the browser is sent to the sign-in
-- page; if it is, but no user is known for it, the call fails with "user not found", and the browser
-- stays; otherwise the call ends as the handler's answer for that user does. The API keys and the
-- cookie are not looked at.
pub clerk_call :
    {T : Type 0} (nothing : T) (handler : String → Sent → Response T) (rs : Resolvers)
    (user_of : String → Option String) (cookie : Option String) (api_url path : String)
    (o : RequestInit) (t : String)
    → o.headers ≡ []
    → truthy t ≡ true
    → rs.local_users ≡ none
    → rs.clerk_users ≡ some user_of
    → call api_url (served nothing handler rs cookie) (fulfilled (some t)) path o
      ≡ elim (rs.jwt_verify t) [
        | none ↦ signed_out
        | some subject ↦ elim (user_of subject) [
          | none ↦ record { navigated = none; result = rejected (error "user not found") }
          | some id ↦ respond (fulfilled (handler id (page_request api_url path o (some t))))
        ]
      ]
unfolding clerk_verdict served answer_of respond
clerk_call nothing handler rs user_of cookie api_url path o t bare h no_local clerk =
    let sent = page_request api_url path o (some t) in
    let arrived =
      ap (λ c. (flexible_auth rs c).verdict) (bearer_sent api_url path o cookie t h)
      ∙ clerk_access rs cookie t h no_local in
    (call_sends api_url (served nothing handler rs cookie) (some t) path o (error "") bare).0
    ∙ ap (λ v. respond (fulfilled (answer_of nothing handler v sent))) arrived
    ∙ elim (Option-cases (rs.jwt_verify t)) [
      | inl invalid ↦ rw (clerk_verdict, clerk, invalid) refl
      | inr (subject, valid) ↦ elim (Option-cases (user_of subject)) [
        | inl unknown ↦ rw (clerk_verdict, clerk, valid, unknown) refl
        | inr (id, known) ↦ rw (clerk_verdict, clerk, valid, known) refl
      ]
    ]

no_clerk_verdict :
    (rs : Resolvers) (token : String)
    → rs.clerk_users ≡ none
    → clerk_verdict rs token ≡ refused "invalid session"
unfolding clerk_verdict
no_clerk_verdict rs token e = rw (clerk_verdict, e) refl

local_access :
    (rs : Resolvers) (validate : String → Option String) (c : String)
    → truthy c ≡ true
    → rs.local_users ≡ some validate
    → rs.clerk_users ≡ none
    → flexible_auth rs (record { api_key = ""; authorization = ""; cookie = some c })
      ≡ elim (validate c) [
        | none ↦ record { verdict = refused "invalid session"; clears_cookie = true }
        | some id ↦ record { verdict = passed id; clears_cookie = false }
      ]
unfolding flexible_auth extract_token clerk_verdict
local_access rs validate c h local no_clerk =
    let lost =
      no_clerk_verdict rs
        (extract_token (record { api_key = ""; authorization = ""; cookie = some c })) no_clerk in
    elim (Option-cases (validate c)) [
      | inl invalid ↦ simp (flexible_auth, h, local, invalid, lost)
      | inr (id, valid) ↦ simp (flexible_auth, h, local, valid)
    ]

-- A page's call in a local session, with the cookie that the browser holds. If its token is valid, the
-- call ends as the handler's answer for its user does, and the cookie stays; if it is not, the browser
-- is sent to the sign-in page, and the cookie is removed. On every host, the protected pages are shown
-- with the cookie, whether its token is valid or not, if need be behind one redirect, and are redirected
-- to the sign-in page without it.
pub local_call :
    {T : Type 0} (nothing : T) (handler : String → Sent → Response T) (rs : Resolvers)
    (validate : String → Option String) (protected : String → Bool) (api_url path : String)
    (o : RequestInit) (c : String) (host : Option String) (page : String)
    → o.headers ≡ []
    → truthy c ≡ true
    → rs.local_users ≡ some validate
    → rs.clerk_users ≡ none
    → protected page ≡ true
    → protected "/dashboard" ≡ true
    → let sent = page_request api_url path o none in
      let after = cookie_after (flexible_auth rs (credentials_of (some c) sent)) (some c) in
      (call api_url (served nothing handler rs (some c)) (fulfilled none) path o
        ≡ elim (validate c) [ none ↦ signed_out | some id ↦ respond (fulfilled (handler id sent)) ])
      × (after ≡ elim (validate c) [ none ↦ none | some id ↦ some c ])
      × (is_shown protected (record { host = host; token = some c; pathname = page }) ≡ true)
      × (local_middleware protected (record { host = host; token = none; pathname = page })
          ≡ redirect "/sign-in")
unfolding served answer_of respond cookie_after flexible_auth credentials_of
local_call nothing handler rs validate protected api_url path o c host page bare h local no_clerk
      guarded root =
    let sent = page_request api_url path o none in
    let access = local_access rs validate c h local no_clerk in
    let holding : NextRequest = record { host = host; token = some c; pathname = page } in
    let bare_request : NextRequest = record { host = host; token = none; pathname = page } in
    (
      (call_sends api_url (served nothing handler rs (some c)) none path o (error "") bare).0
          ∙ ap (λ a. respond (fulfilled (answer_of nothing handler (Access.verdict a) sent))) access
          ∙ elim (Option-cases (validate c)) [
            | inl invalid ↦ rw invalid refl
            | inr (id, valid) ↦ rw valid refl
          ],
      ap (λ a. cookie_after a (some c)) access ∙ elim (Option-cases (validate c)) [
        | inl invalid ↦ rw invalid refl
        | inr (id, valid) ↦ rw valid refl
      ],
      shown_with_cookie protected holding (has_cookie holding c refl h) guarded root,
      redirected_without_cookie protected bare_request (has_no_cookie bare_request refl) guarded,
    )
