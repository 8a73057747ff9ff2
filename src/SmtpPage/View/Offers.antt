-- ===== src/SmtpPage/View/Offers.antt =====
-- Which handler calls the rendered e-mail configuration allows.
use lifygo.Prelude.{◌≡◌, sym, ◌∙◌, Bool, true, not, ◌&&◌, ◌||◌, String, truthy, arith, In}
use lifygo.Html.{offers, gestures, offers_of_In}
use lifygo.SmtpPage.{
  State, Call, set_from_address, set_host, set_port, set_username, set_password, save_from,
  save_smtp, remove, has_full_smtp, has_from,
}
use lifygo.SmtpPage.View.{view, from_card, connect_card, edit_card}

module _ (p : Call → Bool) (v : String) (s : State) where
  -- The inputs are always there; a button is, unless a save or a removal is running.
  abbrev pub input_offers : Bool
  input_offers = p (set_host v) || p (set_port v) || p (set_username v) || p (set_password v)

  abbrev pub idle : Bool
  idle = not (s.loading || s.deleting)

  abbrev pub smtp_offers : Bool
  smtp_offers = idle && truthy s.smtp.host && p save_smtp

  abbrev pub from_offers : Bool
  from_offers =
      p (set_from_address v)
      || (has_from s.config && idle && p remove)
      || (idle && truthy s.from_address && p save_from)

  from_card-offers : offers p v (from_card s) ≡ from_offers
  unfolding from_card offers
  from_card-offers = ground arith

  connect_card-offers : offers p v (connect_card s) ≡ input_offers || smtp_offers
  unfolding connect_card offers
  connect_card-offers = ground arith

  edit_card-offers : offers p v (edit_card s) ≡ input_offers || (idle && p remove) || smtp_offers
  unfolding edit_card offers
  edit_card-offers = ground arith

  -- Exactly one server form is shown; the removal is offered with it only if a server is in use.
  pub view-offers :
      offers p v (view s)
      ≡ from_offers || input_offers || (has_full_smtp s && idle && p remove) || smtp_offers
  unfolding view offers
  view-offers = ground (arith, from_card-offers, connect_card-offers, edit_card-offers)

  pub offered :
      (e : Call)
      → In e (gestures v (view s))
      → p e ≡ true
      → from_offers || input_offers || (has_full_smtp s && idle && p remove) || smtp_offers ≡ true
  offered e i t = sym view-offers ∙ offers_of_In p v (view s) i t
