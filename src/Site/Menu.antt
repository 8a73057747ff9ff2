-- ===== src/Site/Menu.antt =====
-- The mobile menu while the visitor moves through the site.
use lifygo.Prelude.{
  ℕ, ◌≡◌, refl, Bool, true, false, not, ◌&&◌, ltb, some, [], String, In, In-elem_at, inl, inr,
  has_prefix, arith, subst, Bool-cases, Option-cases,
}
use lifygo.Html.{gestures}
use lifygo.Site.{
  fresh, Site, Call, toggle_menu, toggle_features, follow, opens_tab, click, scroll, resize, visit,
  is_dashboard, is_mounted, go, clicked, happen, close_if,
}
use lifygo.Site.View.{view}

-- A click is possible on what is rendered, anything else always.
pub data Step (host : Bool) (year : ℕ) : Site → Site → Type 0 where
  clicks :
      (s : Site) (v : String) (e : Call)
      → In e (gestures v (view host year s))
      → Step host year s (happen host (click e) s)
  scrolls : (s : Site) (y : ℕ) → Step host year s (happen host (scroll y) s)
  resizes : (s : Site) (width : ℕ) → Step host year s (happen host (resize width) s)
  visits : (s : Site) (href : String) → Step host year s (happen host (visit href) s)

abbrev pub entered : String → Site
entered p = record { pathname = some p; navbar = fresh }

pub data Reach (host : Bool) (year : ℕ) (p : String) : Site → Type 0 where
  here : Reach host year p (entered p)
  next : {s t : Site} → Reach host year p s → Step host year s t → Reach host year p t

-- The navbar as it is, on a page that shows it.
abbrev pub on_page : String → Bool → Bool → Site
on_page p menu features = record {
  pathname = some p;
  navbar = record { scrolled = false; mobile_menu_open = menu; mobile_features_open = features };
}

module _ (year : ℕ) (p : String) (shows : is_dashboard false p ≡ false) where
  menu_button : In toggle_menu (gestures "" (view false year (entered p)))
  unfolding view gestures
  menu_button = In-elem_at (gestures "" (view false year (entered p))) 12 (rw shows refl)

  features_button : In toggle_features (gestures "" (view false year (on_page p true false)))
  unfolding view gestures
  features_button =
      In-elem_at (gestures "" (view false year (on_page p true false))) 13 (rw shows refl)

  notice_link : In (follow false "/security") (gestures "" (view false year (on_page p true true)))
  unfolding view gestures
  notice_link = In-elem_at (gestures "" (view false year (on_page p true true))) 18 (rw shows refl)

  -- From any page of the public site the visitor can come to the page of the security notice with
  -- the mobile menu, which he followed the link in, still open over it.
  pub menu_stays_open : Reach false year p (on_page "/security" true true)
  unfolding happen
  menu_stays_open =
      let r1 = next here (clicks (entered p) "" toggle_menu menu_button) in
      let r2 = next r1 (clicks (on_page p true false) "" toggle_features features_button) in
      next r2 (clicks (on_page p true true) "" (follow false "/security") notice_link)

go_hidden :
    (host : Bool) (href : String) (s : Site)
    → is_mounted host (go host href s) ≡ false
    → (go host href s).navbar ≡ fresh
unfolding go is_mounted
go_hidden host href s h = elim (Bool-cases (has_prefix "/" href)) [
  | inr e ↦ rw (go, e) refl
  | inl e ↦ elim (Bool-cases (is_dashboard host href)) [
    | inl d ↦ rw (go, e, d) refl
    | inr d ↦ ground (arith, e, d)
  ]
]

hidden_gestures :
    (host : Bool) (year : ℕ) (v : String) (s : Site)
    → is_mounted host s ≡ false
    → gestures v (view host year s) ≡ []
unfolding view is_mounted gestures
hidden_gestures host year v s h = elim (Option-cases s.pathname) [
  | inl e ↦ rw e refl
  | inr (p, e) ↦ let hidden : is_dashboard host p ≡ true = ground (arith, e) in rw (e, hidden) refl
]

clicked_hidden :
    (host : Bool) (e : Call) (s : Site)
    → is_mounted host s ≡ true
    → is_mounted host (clicked host e s) ≡ false
    → (clicked host e s).navbar ≡ fresh
unfolding clicked is_mounted
clicked_hidden host toggle_menu s m h = cc
clicked_hidden host toggle_features s m h = cc
clicked_hidden host (follow c href) s m h =
    go_hidden host href (record s { navbar = close_if c s.navbar }) h
clicked_hidden host (opens_tab c href) s m h = cc

scrolled_mounted :
    (host : Bool) (s : Site) (y : ℕ)
    → is_mounted host (happen host (scroll y) s) ≡ is_mounted host s
unfolding happen is_mounted
scrolled_mounted host s y = elim (Bool-cases (is_mounted host s)) [
  | inl m ↦ rw (happen, m) m
  | inr m ↦ rw (happen, m) m
]

resized_mounted :
    (host : Bool) (s : Site) (width : ℕ)
    → is_mounted host (happen host (resize width) s) ≡ is_mounted host s
unfolding happen is_mounted
resized_mounted host s width = elim (Bool-cases (is_mounted host s && not (ltb width 768))) [
  | inl m ↦ rw (happen, m) refl
  | inr m ↦ rw (happen, m) refl
]

-- The navbar is reset wherever it is not mounted.
abbrev IsReset : Bool → Site → Type 0
IsReset host s = is_mounted host s ≡ false → s.navbar ≡ fresh

Step-IsReset :
    {host : Bool} {year : ℕ} {s t : Site} → Step host year s t → IsReset host s → IsReset host t
unfolding happen is_mounted
Step-IsReset {host} {year} (clicks s v e i) r = elim (Bool-cases (is_mounted host s)) [
  | inl m ↦ clicked_hidden host e s m
  | inr m ↦ absurd (subst (λ es. In e es) (hidden_gestures host year v s m) i)
]
Step-IsReset {host} (scrolls s y) r = elim (Bool-cases (is_mounted host s)) [
  | inl m ↦ λ h. absurd (ground (arith, scrolled_mounted host s y))
  | inr m ↦ rw (happen, m) r
]
Step-IsReset {host} (resizes s width) r = elim (Bool-cases (is_mounted host s)) [
  | inl m ↦ λ h. absurd (ground (arith, resized_mounted host s width))
  | inr m ↦ rw (happen, m) r
]
Step-IsReset {host} (visits s href) r = go_hidden host href s

-- However the visitor moves, a navbar that is not shown has its first state: on a page that shows it
-- again its menu is closed.
pub hidden_navbar_is_reset :
    {host : Bool} {year : ℕ} {p : String} {s : Site}
    → Reach host year p s
    → is_mounted host s ≡ false
    → s.navbar ≡ fresh
hidden_navbar_is_reset here h = refl
hidden_navbar_is_reset (next r st) h = Step-IsReset st (hidden_navbar_is_reset r) h
