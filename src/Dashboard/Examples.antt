-- ===== src/Dashboard/Examples.antt =====
-- The theorem about the sidebar at a concrete input.
use lifygo.Prelude.{◌≡◌, refl, true, some, String, count, has_prefix}
use lifygo.Proxy.{NextRequest, redirect, rewrite, middleware, is_dashboard}
use lifygo.Dashboard.{nav_items, is_active}
use lifygo.Dashboard.Items.{overview_not_active}

abbrev visitor : NextRequest
visitor = record { host = some "dashboard.lifygo.com"; token = some "jwt"; pathname = "/dashboard" }

on_dashboard : is_dashboard visitor ≡ true
unfolding is_dashboard
on_dashboard = refl

overview_not_active_example :
    let answer = λ (path : String).
      middleware
        (has_prefix "/dashboard")
        (some "clerk")
        true
        (record visitor { pathname = path }) in
    (answer "/dashboard" ≡ redirect "/")
    × (answer "/" ≡ rewrite "/dashboard")
    × (count (is_active "/") nav_items ≡ 0)
    × (count (is_active "/dashboard") nav_items ≡ 1)
overview_not_active_example =
    overview_not_active (has_prefix "/dashboard") (some "clerk") true visitor on_dashboard refl
