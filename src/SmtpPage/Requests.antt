-- ===== src/SmtpPage/Requests.antt =====
-- The e-mail configuration as a system of gestures and settling calls.
use lifygo.Prelude.{
  ◌+◌, ◌≤◌, ◌≡◌, refl, Bool, true, false, ◌&&◌, some, [], ◌∷◌, String, ◌===◌, count, In, In-of_any,
  arith, truthy,
}
use text.Mathlib.TextEquality.{eq_iff}
use lifygo.Html.{gestures, any-gestures}
use lifygo.Http.{str, fulfilled}
use lifygo.Features.{SmtpConfig}
use lifygo.Page.{Page, System, Reach, opened, here, next, press, settle}
use lifygo.Page.InFlight.{bit, Tracks, Reach-Counted}
use lifygo.SmtpPage.{
  State, Call, set_from_address, save_from, save_smtp, remove, Pending, get_config, save_from_call,
  save_smtp_call, delete_config, Completion, config_fetched, from_saved, pending_of, initial, start,
  finish,
}
use lifygo.SmtpPage.View.{view}
use lifygo.SmtpPage.View.Offers.{offered, view-offers}

unfoldable pub smtp_page : Page State Call Pending Completion
smtp_page = record {
  initial = initial;
  mount = get_config ∷ [];
  view = view;
  start = start;
  finish = λ d s. (finish d s, []);
  pending_of = pending_of;
}

abbrev pub is_save : Pending → Bool
is_save (save_from_call b) = true
is_save (save_smtp_call b) = true
is_save _ = false

abbrev pub is_removal : Pending → Bool
is_removal delete_config = true
is_removal _ = false

-- The handlers that start a call of the API.
abbrev is_request : Call → Bool
is_request save_from = true
is_request save_smtp = true
is_request remove = true
is_request _ = false

-- A request is started only while no other runs.
idle_of_request :
    (s : State) (v : String) (e : Call)
    → In e (gestures v (view s))
    → is_request e ≡ true
    → (s.loading ≡ false) × (s.deleting ≡ false)
idle_of_request s v e i t = ground (arith, offered is_request v s e i t)

module _ (s : State) (v : String) where
  start-save :
      (e : Call)
      → In e (gestures v (view s))
      → bit s.loading + count is_save (start e s).1 ≡ bit (start e s).0.loading
  unfolding start
  start-save save_from i = ground (arith, idle_of_request s v save_from i refl)
  start-save save_smtp i = ground (arith, idle_of_request s v save_smtp i refl)
  start-save _ i = ground arith

  start-removal :
      (e : Call)
      → In e (gestures v (view s))
      → bit s.deleting + count is_removal (start e s).1 ≡ bit (start e s).0.deleting
  unfolding start
  start-removal remove i = ground (arith, idle_of_request s v remove i refl)
  start-removal _ i = ground arith

  start-exclusive :
      (e : Call)
      → In e (gestures v (view s))
      → (s.loading && s.deleting) ≡ false
      → ((start e s).0.loading && (start e s).0.deleting) ≡ false
  unfolding start
  start-exclusive save_from i h = ground (arith, idle_of_request s v save_from i refl)
  start-exclusive save_smtp i h = ground (arith, idle_of_request s v save_smtp i refl)
  start-exclusive remove i h = ground (arith, idle_of_request s v remove i refl)
  start-exclusive _ i h = ground arith

finish-exclusive :
    (d : Completion) (s : State)
    → (s.loading && s.deleting) ≡ false
    → ((finish d s).loading && (finish d s).deleting) ≡ false
unfolding finish
finish-exclusive d s h = ground arith

save-Tracks : Tracks smtp_page (λ s. s.loading) is_save
unfolding smtp_page
save-Tracks = record {
  at_start = refl;
  on_press = start-save;
  on_settle = λ s d h. unfold finish in ground (arith, h);
}

removal-Tracks : Tracks smtp_page (λ s. s.deleting) is_removal
unfolding smtp_page
removal-Tracks = record {
  at_start = refl;
  on_press = start-removal;
  on_settle = λ s d h. unfold finish in ground (arith, h);
}

Reach-exclusive :
    {t : System State Pending} → Reach smtp_page t → (t.page.loading && t.page.deleting) ≡ false
unfolding smtp_page
Reach-exclusive here = refl
Reach-exclusive (next r (press t v e i)) = start-exclusive t.page v e i (Reach-exclusive r)
Reach-exclusive (next r (settle t d before after e)) = finish-exclusive d t.page (Reach-exclusive r)

-- In every reachable state of the e-mail configuration at most one request that changes the stored
-- configuration is in flight: the saves of both kinds and the removals together are never two.
pub one_change_in_flight :
    {t : System State Pending}
    → Reach smtp_page t
    → count is_save t.in_flight + count is_removal t.in_flight ≤ 1
one_change_in_flight r =
    ground (arith, Reach-Counted save-Tracks r, Reach-Counted removal-Tracks r, Reach-exclusive r)

abbrev is_save_from : Call → Bool
is_save_from save_from = true
is_save_from _ = false

abbrev is_set_from : String → Call → Bool
is_set_from v (set_from_address x) = x === v
is_set_from v _ = false

save_from_of : (e : Call) → is_save_from e ≡ true → e ≡ save_from
save_from_of save_from h = refl
save_from_of _ h = cc

set_from_of : (v : String) (e : Call) → is_set_from v e ≡ true → e ≡ set_from_address v
set_from_of v (set_from_address x) h = ground (arith, eq_iff x v)
set_from_of v _ h = cc

pub save_from_offered :
    (s : State)
    → s.loading ≡ false
    → s.deleting ≡ false
    → truthy s.from_address ≡ true
    → In save_from (gestures "" (view s))
save_from_offered s a b c =
    let (e, i, t) =
      In-of_any is_save_from (gestures "" (view s))
        (ground (arith, any-gestures is_save_from "" (view s), view-offers is_save_from "" s)) in
    rw (save_from_of e t) at i

pub set_from_offered : (s : State) (v : String) → In (set_from_address v) (gestures v (view s))
set_from_offered s v =
    let (e, i, t) = In-of_any (is_set_from v) (gestures v (view s)) (
      ground (
        arith,
        eq_iff v v,
        any-gestures (is_set_from v) v (view s),
        view-offers (is_set_from v) v s,
      )) in
    rw (set_from_of v e t) at i

-- The configuration that the page fetches when it opens replaces one that was saved meanwhile: for
-- any fetched and any saved configuration the page can reach a state without running calls that
-- reports the save and shows the fetched one.
pub late_fetch_overwrites :
    (v : String) (fetched saved : SmtpConfig)
    → truthy v ≡ true
    → (t : System State Pending) × Reach smtp_page t
      × (t.in_flight ≡ [])
      × (t.page.config ≡ some fetched)
      × (t.page.success ≡ "From address saved. Emails will be sent through the free relay.")
unfolding smtp_page start finish
late_fetch_overwrites v fetched saved h =
    let r0 : Reach smtp_page (opened smtp_page) = here in
    let r1 = next r0 (press _ v (set_from_address v) (set_from_offered _ v)) in
    let r2 = next r1 (press _ "" save_from (save_from_offered _ refl refl h)) in
    let r3 = next r2 (
      settle _ (from_saved (("from_address", str v) ∷ []) (fulfilled saved)) (get_config ∷ []) []
        refl) in
    let r4 = next r3 (settle _ (config_fetched (fulfilled fetched)) [] [] refl) in
    (_, r4, refl, refl, refl)
