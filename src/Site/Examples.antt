-- ===== src/Site/Examples.antt =====
-- The theorems about the public site at concrete inputs.
use lifygo.Prelude.{refl, false, true}
use lifygo.Site.{is_dashboard}
use lifygo.Site.Menu.{Reach, on_page, menu_stays_open}

menu_stays_open_example : Reach false 2026 "/pricing" (on_page "/security" true true)
unfolding is_dashboard
menu_stays_open_example = menu_stays_open 2026 "/pricing" refl
