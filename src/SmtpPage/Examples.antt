-- ===== src/SmtpPage/Examples.antt =====
-- The theorems about the e-mail configuration at concrete inputs.
use lifygo.Prelude.{◌+◌, ◌≤◌, refl, true, [], ◌∷◌, count}
use lifygo.Http.{str}
use lifygo.Page.{System, Reach, opened, here, next, press}
use lifygo.SmtpPage.{
  State, set_from_address, save_from, Pending, get_config, save_from_call, initial, start,
}
use lifygo.SmtpPage.Requests.{
  smtp_page, is_save, is_removal, save_from_offered, set_from_offered, one_change_in_flight,
}

abbrev saving : System State Pending
saving = record {
  page = record initial { from_address = "a@b.c"; loading = true };
  in_flight = get_config ∷ save_from_call (("from_address", str "a@b.c") ∷ []) ∷ [];
}

saving_reached : Reach smtp_page saving
unfolding smtp_page start
saving_reached =
    let r0 : Reach smtp_page (opened smtp_page) = here in
    let r1 = next r0 (press _ "a@b.c" (set_from_address "a@b.c") (set_from_offered _ "a@b.c")) in
    next r1 (press _ "" save_from (save_from_offered _ refl refl refl))

one_change_in_flight_example :
    count is_save saving.in_flight + count is_removal saving.in_flight ≤ 1
one_change_in_flight_example = one_change_in_flight saving_reached
