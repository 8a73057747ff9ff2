-- ===== src/KeysPage/View/Offers.antt =====
-- Which handler calls the rendered page of the API keys allows.
use lifygo.Prelude.{
  ◌≡◌, refl, sym, ◌∙◌, Bool, true, false, not, ◌&&◌, ◌||◌, Option, none, some, String, truthy, trim,
  arith, In, In-of_any, any,
}
use lifygo.Html.{offers, gestures, any-gestures, offers_of_In, offers-each, offers-choose_list}
use lifygo.Features.{ApiKey, ApiKeyResponse}
use lifygo.Locale.{Locale}
use lifygo.KeysPage.{State, Call, set_name, key_down, create, delete, copy, is_id}
use lifygo.KeysPage.View.{view, new_key_box, create_panel, key_row, keys_table, keys_panel, no_keys}

module _ (p : Call → Bool) (v : String) (env : Locale) (s : State) where
  abbrev pub row_offers : ApiKey → Bool
  row_offers k = not (is_id s.deleting k.id) && p (delete k.id)

  abbrev pub create_offers : Bool
  create_offers =
      (not s.loading && (p (set_name v) || p (key_down v)))
      || (not s.loading && truthy (trim s.name) && p create)

  abbrev pub copy_offers : Option ApiKeyResponse → Bool
  copy_offers none = false
  copy_offers (some k) = p (copy k.key)

  key_row-offers : (k : ApiKey) → offers p v (key_row env s k) ≡ row_offers k
  unfolding key_row offers
  key_row-offers k = ground arith

  keys_panel-offers : offers p v (keys_panel env s) ≡ any row_offers s.keys
  unfolding keys_panel keys_table no_keys offers
  keys_panel-offers =
      offers-choose_list p row_offers v s.keys no_keys (keys_table env s) refl
        (ground (arith, offers-each p row_offers v (key_row env s) s.keys key_row-offers))

  new_key_box-offers : (k : Option ApiKeyResponse) → offers p v (new_key_box s k) ≡ copy_offers k
  unfolding new_key_box offers
  new_key_box-offers none = refl
  new_key_box-offers (some k) = ground arith

  create_panel-offers : offers p v (create_panel s) ≡ create_offers
  unfolding create_panel offers
  create_panel-offers = ground arith

  pub view-offers :
      offers p v (view env s) ≡ copy_offers s.new_key || create_offers || any row_offers s.keys
  unfolding view offers
  view-offers = ground (arith, keys_panel-offers, create_panel-offers, new_key_box-offers s.new_key)

  -- A call that can be caused is among the offers, and for each offer some call can be caused.
  pub offered :
      (e : Call)
      → In e (gestures v (view env s))
      → p e ≡ true
      → copy_offers s.new_key || create_offers || any row_offers s.keys ≡ true
  offered e i t = sym view-offers ∙ offers_of_In p v (view env s) i t

  pub caused :
      copy_offers s.new_key || create_offers || any row_offers s.keys ≡ true
      → (e : Call) × In e (gestures v (view env s)) × (p e ≡ true)
  caused h = In-of_any p (gestures v (view env s)) (any-gestures p v (view env s) ∙ view-offers ∙ h)
