-- ===== src/Page.antt =====
-- A page of the dashboard as an interleaving of user gestures and settling calls of the API.
-- React runs a handler without interruption up to an `await`; the rest runs when the awaited call
-- has settled, and calls settle in any order.
pub mod InFlight
use lifygo.Prelude.{◌≡◌, List, [], ◌∷◌, ◌++◌, String, In}
use lifygo.Html.{Html, gestures}

-- The operations of a page: `State` is its hooks' state, `Call` what its controls call, `Pending`
-- the awaited calls of the API, and `Completion` what one of them settled to.
pub record Page (State Call Pending Completion : Type 0) : Type 0 where
  pub initial : State
  -- the calls that the effects of the first render start
  pub mount : List Pending
  pub view : State → Html Call
  pub start : Call → State → State × List Pending
  pub finish : Completion → State → State × List Pending
  pub pending_of : Completion → Pending

pub record System (State Pending : Type 0) : Type 0 where
  pub page : State
  pub in_flight : List Pending

module _ {S C Q D : Type 0} (P : Page S C Q D) where
  abbrev pub opened : System S Q
  opened = record { page = P.initial; in_flight = P.mount }

  abbrev pub pressed : System S Q → C → System S Q
  pressed t e = record {
    page = (P.start e t.page).0;
    in_flight = t.in_flight ++ (P.start e t.page).1;
  }

  abbrev pub settled : System S Q → D → List Q → System S Q
  settled t d rest = record {
    page = (P.finish d t.page).0;
    in_flight = rest ++ (P.finish d t.page).1;
  }

-- The user causes a call that the rendered page allows, or an awaited call settles.
pub data Step {S C Q D : Type 0} (P : Page S C Q D) : System S Q → System S Q → Type 0 where
  press :
      (t : System S Q) (v : String) (e : C)
      → In e (gestures v (P.view t.page))
      → Step P t (pressed P t e)
  settle :
      (t : System S Q) (d : D) (before after : List Q)
      → t.in_flight ≡ before ++ P.pending_of d ∷ after
      → Step P t (settled P t d (before ++ after))

pub data Reach {S C Q D : Type 0} (P : Page S C Q D) : System S Q → Type 0 where
  here : Reach P (opened P)
  next : {t u : System S Q} → Reach P t → Step P t u → Reach P u

-- Any number of steps.
pub data Run {S C Q D : Type 0} (P : Page S C Q D) (t : System S Q) : System S Q → Type 0 where
  stay : Run P t t
  step : {u w : System S Q} → Run P t u → Step P u w → Run P t w
