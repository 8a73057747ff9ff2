-- ===== src/Dashboard/Items.antt =====
-- Which item of the sidebar is marked as the shown page's.
use lifygo.Prelude.{◌≡◌, refl, Bool, true, Option, String, count}
use lifygo.Proxy.{NextRequest, redirect, rewrite, is_dashboard, middleware}
use lifygo.Proxy.Laws.{has_session, dashboard_host}
use lifygo.Dashboard.{nav_items, is_active}

-- A visitor of the dashboard's own host with a session, which under the local provider is a cookie
-- that is not empty, is sent from the overview's path to the root, where the overview is shown, and no
-- item of the sidebar is marked as active there.
pub overview_not_active :
    (protected : String → Bool) (provider : Option String) (is_authenticated : Bool)
    (req : NextRequest)
    → is_dashboard req ≡ true
    → has_session provider is_authenticated req ≡ true
    → let answer = λ (path : String).
      middleware protected provider is_authenticated (record req { pathname = path }) in
      (answer "/dashboard" ≡ redirect "/")
      × (answer "/" ≡ rewrite "/dashboard")
      × (count (is_active "/") nav_items ≡ 0)
      × (count (is_active "/dashboard") nav_items ≡ 1)
overview_not_active protected provider is_authenticated req d h =
    let (root, path) = (dashboard_host protected provider is_authenticated req d).0 h in
    (path, root, refl, refl)
