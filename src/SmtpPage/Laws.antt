-- ===== src/SmtpPage/Laws.antt =====
-- What the handlers of the e-mail configuration send, and what they keep.
use lifygo.Prelude.{
  ◌≡◌, refl, true, false, Option, none, some, [], ◌∷◌, arith, if◌then◌else◌, truthy, or_else-if,
  not-eq_empty,
}
use lifygo.Http.{Value, str, num, Thrown, fulfilled, rejected, get_key}
use lifygo.Features.{SmtpConfig}
use lifygo.SmtpPage.{
  State, save_smtp, save_smtp_call, from_saved, smtp_saved, removed, config_fetched, empty_server,
  start, finish, smtp_body, from_body, has_full_smtp, from_property,
}

-- The address that a save names: the one typed, or else the stored one.
abbrev sender : State → Option SmtpConfig → Option Value
sender s none = if truthy s.from_address then some (str s.from_address) else none
sender s (some c) =
    if truthy s.from_address then some (str s.from_address) else some (str c.from_address)

sender_lem :
    (s : State) (c : Option SmtpConfig)
    → get_key "from_address" (from_property s.from_address c) ≡ sender s c
unfolding get_key
sender_lem s none = ground arith
sender_lem s (some c) = rw (or_else-if s.from_address c.from_address) (ground arith)

-- A save of the server starts one call, whose body holds the four values of the server form, and as
-- sender the typed address or, where none is typed, the stored one; without either the property is
-- absent.
pub save_smtp_request :
    (s : State)
    → ((start save_smtp s).1 ≡ save_smtp_call (smtp_body s) ∷ [])
      × (get_key "host" (smtp_body s) ≡ some (str s.smtp.host))
      × (get_key "port" (smtp_body s) ≡ some (num s.smtp.port))
      × (get_key "username" (smtp_body s) ≡ some (str s.smtp.username))
      × (get_key "password" (smtp_body s) ≡ some (str s.smtp.password))
      × (get_key "from_address" (smtp_body s) ≡ sender s s.config)
unfolding start get_key
save_smtp_request s = ground (arith, sender_lem s s.config)

-- The typed password is dropped as soon as a server is stored, fetched or removed; a failed save
-- keeps it, with the rest of the form.
pub password_lifetime :
    (s : State) (c : SmtpConfig) (e : Thrown)
    → ((finish (smtp_saved (smtp_body s) (fulfilled c)) s).smtp.password ≡ "")
      × ((finish (removed (fulfilled tt)) s).smtp ≡ empty_server)
      × (truthy c.host ≡ true → (finish (config_fetched (fulfilled c)) s).smtp.password ≡ "")
      × ((finish (smtp_saved (smtp_body s) (rejected e)) s).smtp ≡ s.smtp)
unfolding finish
password_lifetime s c e = ground arith

-- After a save that succeeds, the page shows its own server as in use exactly when the stored
-- configuration has a host; after a removal it does not.
pub server_in_use :
    (s : State) (c : SmtpConfig)
    → (has_full_smtp (finish (smtp_saved (smtp_body s) (fulfilled c)) s) ≡ truthy c.host)
      × (has_full_smtp (finish (from_saved (from_body s) (fulfilled c)) s) ≡ truthy c.host)
      × (has_full_smtp (finish (removed (fulfilled tt)) s) ≡ false)
unfolding finish
server_in_use s c = (not-eq_empty c.host, not-eq_empty c.host, refl)
