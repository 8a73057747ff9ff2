-- ===== src/SendPage/Outcomes.antt =====
-- What the playground shows of its requests' outcomes.
use lifygo.Prelude.{◌≡◌, refl, ◌⊎◌, true, none, arith}
use lifygo.Http.{fulfilled, rejected}
use lifygo.Locale.{Locale}
use lifygo.Page.{System, Reach, here, next, press, settle}
use lifygo.Page.InFlight.{flag_set}
use lifygo.SendPage.{
  State, Call, send_email, Pending, Completion, email_sent, pending_of, start, finish,
}
use lifygo.SendPage.Requests.{send_page, is_email, requests_in_flight}

-- No outcome is shown while the request runs, and never both outcomes.
record IsClear (s : State) : Type 0 where
  running : s.email_loading ≡ true → (s.email_result ≡ none) × (s.email_error ≡ "")
  single : (s.email_result ≡ none) ⊎ (s.email_error ≡ "")

start-IsClear : (e : Call) (s : State) → IsClear s → IsClear (start e s).0
unfolding start
start-IsClear send_email s h = ground arith
start-IsClear _ s h = ground arith

finish-IsClear :
    (d : Completion) (s : State)
    → (is_email (pending_of d) ≡ true → s.email_loading ≡ true)
    → IsClear s
    → IsClear (finish d s)
unfolding finish
finish-IsClear (email_sent b (fulfilled r)) s k h = ground (arith, k refl)
finish-IsClear (email_sent b (rejected e)) s k h = ground (arith, k refl)
finish-IsClear _ s k h = ground arith

module _ (env : Locale) where
  Reach-IsClear : {t : System State Pending} → Reach (send_page env) t → IsClear t.page
  unfolding send_page
  Reach-IsClear here = ground arith
  Reach-IsClear (next r (press t v e i)) = start-IsClear e t.page (Reach-IsClear r)
  Reach-IsClear (next r (settle t d before after e)) =
      finish-IsClear d t.page
        (λ k.
          flag_set is_email t.page.email_loading (pending_of d) t.in_flight before after e k
            (requests_in_flight env r).0)
        (Reach-IsClear r)

  -- In every reachable state the playground shows at most one of a delivered e-mail and a failure,
  -- and neither while a delivery is running.
  pub one_email_outcome :
      {t : System State Pending}
      → Reach (send_page env) t
      → ((t.page.email_result ≡ none) ⊎ (t.page.email_error ≡ ""))
        × (t.page.email_loading ≡ true → (t.page.email_result ≡ none) × (t.page.email_error ≡ ""))
  one_email_outcome r = let c = Reach-IsClear r in (c.single, c.running)
