-- ===== src/Query.antt =====
-- Query strings: `URLSearchParams` of the browser, for texts of letters, digits and the like, which it
-- leaves as they are, and `url.ParseQuery` of Go.
pub mod RoundTrip
use lifygo.Prelude.{
  ℕ, ◌+◌, ◌-◌, ◌*◌, Bool, true, false, not, ◌&&◌, ◌||◌, ltb, Option, none, some, List, [], ◌∷◌, map,
  String, Char, code, ◌==◌, if◌then◌else◌, truthy, keep, ◌+s◌, ◌≡◌, refl,
}
use Prim.Native.String
use text.Mathlib.Text.{char_at?}

-- `toString()` of an object `URLSearchParams` with these entries.
pair_text : String × String → String
pair_text (k, v) = k +s ("=" +s v)

joined : List String → String
joined [] = ""
joined (s ∷ []) = s
joined (s ∷ t ∷ ts) = s +s ("&" +s joined (t ∷ ts))

unfoldable pub to_text : List (String × String) → String
unfolding pair_text joined
to_text ps = joined (map pair_text ps)

-- `strings.Cut` at the first character with this code.
cut : ℕ → String → String × String
cut sep String.[] = ("", "")
cut sep (String.◌∷◌ c s) =
    let rest = cut sep s in if code c == sep then ("", s) else (String.◌∷◌ c (rest.0), rest.1)

-- One more character in front of the first piece.
pushed : Char → List String → List String
pushed c [] = String.◌∷◌ c "" ∷ []
pushed c (s ∷ ss) = String.◌∷◌ c s ∷ ss

-- The pieces between the characters with this code.
unfoldable pub pieces : ℕ → String → List String
unfolding pushed
pieces sep String.[] = "" ∷ []
pieces sep (String.◌∷◌ c s) =
    let rest = pieces sep s in if code c == sep then "" ∷ rest else pushed c rest

-- What `url.QueryUnescape` has read: nothing of an escape, its percent sign, its first digit too, or
-- something that is no escape.
pub data Escape : Type 0 where
  outside percent broken : Escape
  first_digit : ℕ → Escape

hex_digit : ℕ → Option ℕ
hex_digit n =
    if ltb 47 n && ltb n 58
    then some (n - 48)
    else if ltb 64 n && ltb n 71
    then some (n - 55)
    else if ltb 96 n && ltb n 103
    then some (n - 87)
    else none

-- The printable ASCII characters from the space on.
abbrev printable : String
printable =
    " !\"#$%&'()*+,-./0123456789:;<=>?@ABCDEFGHIJKLMNOPQRSTUVWXYZ[\\]^_`abcdefghijklmnopqrstuvwxyz{|}~"

-- The character of an escaped byte; those outside this range, which no name, number or status has that
-- the server looks for, are read as the replacement character.
byte_char : ℕ → Char
byte_char n =
    if ltb n 32 then "�" else elim (char_at? printable (n - 32)) [ none ↦ "�" | some c ↦ c ]

next_escape : Escape → ℕ → Escape
unfolding hex_digit
next_escape outside n = if n == b'%' then percent else outside
next_escape percent n = elim (hex_digit n) [ none ↦ broken | some h ↦ first_digit h ]
next_escape (first_digit h) n = elim (hex_digit n) [ none ↦ broken | some l ↦ outside ]
next_escape broken n = broken

-- One more character in front of what is read.
abbrev prefixed : Char → Option String → Option String
prefixed c none = none
prefixed c (some s) = some (String.◌∷◌ c s)

decoded : Escape → Char → Option String → Option String
unfolding byte_char hex_digit
decoded outside c rest =
    if code c == b'%' then rest else if code c == b'+' then prefixed " " rest else prefixed c rest
decoded percent c rest = rest
decoded (first_digit h) c rest = elim (hex_digit (code c)) [
  | none ↦ none
  | some l ↦ prefixed (byte_char (16 * h + l)) rest
]
decoded broken c rest = none

unescape_in : Escape → String → Option String
unfolding next_escape decoded
unescape_in outside String.[] = some ""
unescape_in _ String.[] = none
unescape_in e (String.◌∷◌ c s) =
    let rest = unescape_in (next_escape e (code c)) s in decoded e c rest

-- `url.QueryUnescape`; `none` is an error.
unescape : String → Option String
unfolding unescape_in
unescape s = unescape_in outside s

has_code : ℕ → String → Bool
has_code n String.[] = false
has_code n (String.◌∷◌ c s) = code c == n || has_code n s

-- A name and its value. A piece with a semicolon, or with an escape that is none, is dropped.
read_pair : String → Option (String × String)
unfolding cut unescape has_code
read_pair piece =
    let (k, v) = cut b'=' piece in
    if has_code b';' piece then none else elim (unescape k) [
      | none ↦ none
      | some name ↦ elim (unescape v) [ none ↦ none | some value ↦ some (name, value) ]
    ]

present : {A : Type 0} → List (Option A) → List A
present [] = []
present (none ∷ xs) = present xs
present (some a ∷ xs) = a ∷ present xs

-- `url.ParseQuery`, as `Query()` uses it, without its error: empty pieces are skipped.
unfoldable pub parse_query : String → List (String × String)
unfolding read_pair present pieces
parse_query s = present (map read_pair (keep truthy (pieces b'&' s)))

-- The part of a request's path behind the first question mark.
unfoldable pub raw_query : String → String
unfolding cut
raw_query target = (cut b'?' target).1

parse_escapes :
    parse_query "status=%73ent+x&l%69mit=%3&a;b=1&offset=2"
    ≡ ("status", "sent x") ∷ ("offset", "2") ∷ []
unfolding parse_query
parse_escapes = refl

parse_test : parse_query "limit=10&&status=sent" ≡ ("limit", "10") ∷ ("status", "sent") ∷ []
unfolding parse_query
parse_test = refl
