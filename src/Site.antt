-- ===== src/Site.antt =====
-- The public site around its pages: components/layout/navbar.tsx, components/layout/footer.tsx and
-- components/layout-wrapper.tsx, which shows the two on pages that are not the dashboard's.
pub mod View
pub mod Menu
mod Examples
use lifygo.Prelude.{
  ℕ, Bool, true, false, not, ◌&&◌, ◌||◌, Option, none, some, String, if◌then◌else◌, ltb, has_prefix,
}

pub record Navbar : Type 0 where
  pub scrolled : Bool
  pub mobile_menu_open : Bool
  pub mobile_features_open : Bool

abbrev pub fresh : Navbar
fresh = record { scrolled = false; mobile_menu_open = false; mobile_features_open = false }

pub data Call : Type 0 where
  toggle_menu toggle_features : Call
  -- a link's click: whether its own handler closes the menu, and where it leads, here or in a new tab
  follow opens_tab : Bool → String → Call

-- The path, `none` once the browser has left the site, and the navbar.
pub record Site : Type 0 where
  pub pathname : Option String
  pub navbar : Navbar

pub data Event : Type 0 where
  click : Call → Event
  -- with `window.scrollY` and `window.innerWidth`
  scroll resize : ℕ → Event
  -- a link of the page's own content, or the browser's buttons
  visit : String → Event

-- `LayoutWrapper`.
unfoldable pub is_dashboard : Bool → String → Bool
is_dashboard is_dashboard_host pathname = is_dashboard_host || has_prefix "/dashboard" pathname

abbrev pub close_if : Bool → Navbar → Navbar
close_if closes n = if closes then record n { mobile_menu_open = false } else n

-- A navigation of the router keeps the navbar mounted if the next page shows it too; where it is not
-- shown its state is lost. Another origin is another document.
unfoldable pub go : Bool → String → Site → Site
unfolding is_dashboard
go host href s =
    if has_prefix "/" href
    then record {
      pathname = some href;
      navbar = if is_dashboard host href then fresh else s.navbar;
    }
    else record { pathname = none; navbar = fresh }

unfoldable pub clicked : Bool → Call → Site → Site
unfolding go
clicked host toggle_menu s = record s {
  navbar = record s.navbar { mobile_menu_open = not s.navbar.mobile_menu_open };
}
clicked host toggle_features s = record s {
  navbar = record s.navbar { mobile_features_open = not s.navbar.mobile_features_open };
}
clicked host (follow closes href) s = go host href (record s { navbar = close_if closes s.navbar })
clicked host (opens_tab closes href) s = record s { navbar = close_if closes s.navbar }

-- A listener is there while the navbar is mounted.
unfoldable pub is_mounted : Bool → Site → Bool
unfolding is_dashboard
is_mounted host s = elim s.pathname [ none ↦ false | some p ↦ not (is_dashboard host p) ]

unfoldable pub happen : Bool → Event → Site → Site
unfolding clicked is_mounted
happen host (click e) s = clicked host e s
happen host (scroll y) s =
    if is_mounted host s then record s { navbar = record s.navbar { scrolled = ltb 10 y } } else s
happen host (resize width) s =
    if is_mounted host s && not (ltb width 768)
    then record s { navbar = record s.navbar { mobile_menu_open = false } }
    else s
happen host (visit href) s = go host href s
