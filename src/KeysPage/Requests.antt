-- ===== src/KeysPage/Requests.antt =====
-- The page of the API keys as a system of gestures and settling calls.
use lifygo.Prelude.{
  ◌+◌, ◌≡◌, refl, Bool, true, false, List, [], ◌∷◌, String, count, any_none, In, arith,
  if◌then◌else◌,
}
use lifygo.Html.{gestures}
use lifygo.Http.{fulfilled}
use lifygo.Features.{ApiKey}
use lifygo.Locale.{Locale}
use lifygo.Page.{Page, System, Reach, here, next, settle}
use lifygo.Page.InFlight.{bit, Tracks, Reach-Counted}
use lifygo.KeysPage.{
  State, Call, key_down, create, Pending, list_keys, create_key, list_after_create, Completion,
  keys_listed, pending_of, initial, start, finish,
}
use lifygo.KeysPage.View.{view}
use lifygo.KeysPage.View.Offers.{offered, row_offers}

unfoldable pub keys_page : Locale → Page State Call Pending Completion
keys_page env = record {
  initial = initial;
  mount = list_keys ∷ [];
  view = view env;
  start = start;
  finish = finish;
  pending_of = pending_of;
}

-- The awaits of a creation: of the call itself, and of the listing behind it.
abbrev pub is_creation : Pending → Bool
is_creation (create_key b) = true
is_creation list_after_create = true
is_creation _ = false

-- The handlers that create a key.
abbrev is_creator : Call → Bool
is_creator create = true
is_creator (key_down k) = true
is_creator _ = false

idle_of_creator :
    (env : Locale) (s : State) (v : String) (e : Call)
    → In e (gestures v (view env s))
    → is_creator e ≡ true
    → s.loading ≡ false
idle_of_creator env s v e i t = ground (
  arith,
  offered is_creator v env s e i t,
  any_none (row_offers is_creator v env s) s.keys (λ k. ground arith),
)

module _ (env : Locale) (s : State) (v : String) where
  start-creation :
      (e : Call)
      → In e (gestures v (view env s))
      → bit s.loading + count is_creation (start e s).1 ≡ bit (start e s).0.loading
  unfolding start
  start-creation create i = ground (arith, idle_of_creator env s v create i refl)
  start-creation (key_down k) i = ground (arith, idle_of_creator env s v (key_down k) i refl)
  start-creation _ i = ground arith

creation-Tracks : (env : Locale) → Tracks (keys_page env) (λ s. s.loading) is_creation
unfolding keys_page
creation-Tracks env = record {
  at_start = refl;
  on_press = start-creation env;
  on_settle = λ s d h. unfold finish in ground (arith, h);
}

-- In every reachable state of the page, by the button and by the Enter key, one creation is under
-- way if the page is loading and none if it is not: its call, or the listing that follows it.
pub one_creation :
    (env : Locale) {t : System State Pending}
    → Reach (keys_page env) t
    → count is_creation t.in_flight ≡ (if t.page.loading then 1 else 0)
one_creation env r = Reach-Counted (creation-Tracks env) r

-- The page after a sequence of answers to its listings, with no gesture at all.
abbrev answered : List (List ApiKey) → State → State
answered [] s = s
answered (ks ∷ rest) s = answered rest (record s { keys = ks })

listings_from :
    (env : Locale) (answers : List (List ApiKey)) (s : State)
    → Reach (keys_page env) (record { page = s; in_flight = list_keys ∷ [] })
    → Reach (keys_page env) (record { page = answered answers s; in_flight = list_keys ∷ [] })
unfolding keys_page finish
listings_from env [] s r = r
listings_from env (ks ∷ rest) s r =
    listings_from env rest (record s { keys = ks })
      (next r (settle _ (keys_listed (fulfilled ks)) [] [] refl))

-- The page asks for the list of keys for ever, as long as the listings succeed: however many have been
-- answered with a list, and with no gesture of the user, the next one is in flight.
pub listing_never_ends :
    (env : Locale) (answers : List (List ApiKey))
    → Reach (keys_page env) (record { page = answered answers initial; in_flight = list_keys ∷ [] })
unfolding keys_page
listing_never_ends env answers = listings_from env answers initial here
