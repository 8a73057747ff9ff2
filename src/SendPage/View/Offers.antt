-- ===== src/SendPage/View/Offers.antt =====
-- Which handler calls the rendered playground allows.
use lifygo.Prelude.{
  ◌≡◌, Bool, true, false, not, ◌&&◌, ◌||◌, ◌==◌, String, is_some, truthy, trim, js_length, arith,
  if◌then◌else◌, In, In-of_any, sym, ◌∙◌,
}
use lifygo.Html.{offers, gestures, any-gestures, offers_of_In}
use lifygo.Locale.{Locale}
use lifygo.SendPage.{
  State, Call, set_to, set_subject, set_body, set_otp_to, set_otp_code, send_email, send_otp,
  verify_otp, reset,
}
use lifygo.SendPage.View.{
  view, email_panel, email_outcome, code_panel, send_otp_button, otp_outcome, otp_panel,
}

module _ (p : Call → Bool) (v : String) (env : Locale) (s : State) where
  -- What the e-mail form offers.
  abbrev pub email_offers : Bool
  email_offers =
      (not s.email_loading && (p (set_to v) || p (set_subject v) || p (set_body v)))
      || (not s.email_loading
          && truthy s.email_form.to
          && truthy s.email_form.subject
          && truthy s.email_form.body
          && p send_email)

  -- What the code form offers, once a code is out.
  abbrev pub code_offers : Bool
  code_offers =
      p reset
      || (not (s.verify_loading || is_some s.otp_result) && p (set_otp_code v))
      || (not s.verify_loading
          && (js_length s.otp_code == 6)
          && not (is_some s.otp_result)
          && p verify_otp)

  abbrev pub otp_offers : Bool
  otp_offers =
      (not (is_some s.otp_sent || s.otp_loading) && p (set_otp_to v))
      || (if is_some s.otp_sent
          then code_offers
          else not s.otp_loading && truthy (trim s.otp_to) && p send_otp)

  email_panel-offers : offers p v (email_panel s) ≡ email_offers
  unfolding email_panel offers
  email_panel-offers = ground arith

  email_outcome-offers : offers p v (email_outcome s) ≡ false
  unfolding email_outcome offers
  email_outcome-offers = ground arith

  code_panel-offers : offers p v (code_panel s) ≡ code_offers
  unfolding code_panel offers
  code_panel-offers = ground arith

  send_otp_button-offers :
      offers p v (send_otp_button s) ≡ not s.otp_loading && truthy (trim s.otp_to) && p send_otp
  unfolding send_otp_button offers
  send_otp_button-offers = ground arith

  otp_panel-offers : offers p v (otp_panel s) ≡ otp_offers
  unfolding otp_panel offers
  otp_panel-offers = ground (arith, code_panel-offers, send_otp_button-offers)

  otp_outcome-offers : offers p v (otp_outcome env s) ≡ false
  unfolding otp_outcome offers
  otp_outcome-offers = ground arith

  pub view-offers : offers p v (view env s) ≡ email_offers || otp_offers
  unfolding view offers
  view-offers =
      ground (arith, email_panel-offers, email_outcome-offers, otp_panel-offers, otp_outcome-offers)

  -- A call that can be caused is among the offers, and for each offer some call can be caused.
  pub offered :
      (e : Call) → In e (gestures v (view env s)) → p e ≡ true → email_offers || otp_offers ≡ true
  offered e i t = sym view-offers ∙ offers_of_In p v (view env s) i t

  pub caused :
      email_offers || otp_offers ≡ true → (e : Call) × In e (gestures v (view env s)) × (p e ≡ true)
  caused h = In-of_any p (gestures v (view env s)) (any-gestures p v (view env s) ∙ view-offers ∙ h)
