-- ===== src/Query/RoundTrip.antt =====
-- What `URLSearchParams` prints, `url.ParseQuery` reads back.
use lifygo.Prelude.{
  ℕ, ◌≡◌, ◌≢◌, refl, ap, ◌∙◌, true, false, ◌||◌, some, List, [], ◌∷◌, map, String, Char, code,
  truthy, keep, IsNumeral, ◌+s◌, arith,
}
use text.Mathlib.TextLemmas.{nil-append, cons-append}
use lifygo.Query.{
  pair_text, joined, to_text, cut, pieces, parse_query, raw_query, unescape, unescape_in,
  next_escape, decoded, has_code, read_pair, present,
}

-- None of the characters that a query string is cut at or escaped with.
abbrev pub IsPlain : String → Type 0
IsPlain String.[] = Unit {0}
IsPlain (String.◌∷◌ c s) =
    (code c ≢ b'&')
    × (code c ≢ b'=')
    × (code c ≢ b'%')
    × (code c ≢ b'+')
    × (code c ≢ b';')
    × IsPlain s

abbrev pub AllPlain : List (String × String) → Type 0
AllPlain [] = Unit {0}
AllPlain ((k, v) ∷ ps) = IsPlain k × IsPlain v × AllPlain ps

single : (c : Char) (t : String) → String.◌∷◌ c "" +s t ≡ String.◌∷◌ c t
single c t = cons-append c "" t ∙ ap (String.◌∷◌ c) (nil-append t)

-- A text without a character of this code.
abbrev pub Without : ℕ → String → Type 0
Without sep String.[] = Unit {0}
Without sep (String.◌∷◌ c s) = (code c ≢ sep) × Without sep s

cut_first :
    (sep : ℕ) (c : Char) (k v : String)
    → code c ≡ sep
    → Without sep k
    → cut sep (k +s (String.◌∷◌ c "" +s v)) ≡ (k, v)
unfolding cut
cut_first sep c String.[] v e h = rw (nil-append (String.◌∷◌ c "" +s v), single c v) (ground arith)
cut_first sep c (String.◌∷◌ d k) v e (n, h) =
    rw (cons-append d k (String.◌∷◌ c "" +s v)) (ground (arith, cut_first sep c k v e h))

IsPlain-Without : (s : String) → IsPlain s → Without b'=' s
IsPlain-Without String.[] h = tt
IsPlain-Without (String.◌∷◌ c s) (n, e, _, _, _, h) = (e, IsPlain-Without s h)

cut-plain : (k v : String) → IsPlain k → cut b'=' (k +s ("=" +s v)) ≡ (k, v)
cut-plain k v h = cut_first b'=' "=" k v refl (IsPlain-Without k h)

-- No piece ends inside a text without the separator.
abbrev Unbroken : String → Type 0
Unbroken String.[] = Unit {0}
Unbroken (String.◌∷◌ c s) = (code c ≢ b'&') × Unbroken s

pieces-Unbroken : (s : String) → Unbroken s → pieces b'&' s ≡ s ∷ []
unfolding pieces
pieces-Unbroken String.[] h = refl
pieces-Unbroken (String.◌∷◌ c s) (n, h) = ground (arith, pieces-Unbroken s h)

pieces-more : (s t : String) → Unbroken s → pieces b'&' (s +s ("&" +s t)) ≡ s ∷ pieces b'&' t
unfolding pieces
pieces-more String.[] t h = rw (nil-append ("&" +s t), single "&" t) refl
pieces-more (String.◌∷◌ c s) t (n, h) =
    rw (cons-append c s ("&" +s t)) (ground (arith, pieces-more s t h))

IsPlain-Unbroken : (s : String) → IsPlain s → Unbroken s
IsPlain-Unbroken String.[] h = tt
IsPlain-Unbroken (String.◌∷◌ c s) (n, e, _, _, _, h) = (n, IsPlain-Unbroken s h)

Unbroken-append : (s t : String) → Unbroken s → Unbroken t → Unbroken (s +s t)
Unbroken-append String.[] t h k = rw (nil-append t) k
Unbroken-append (String.◌∷◌ c s) t (n, h) k = rw (cons-append c s t) (n, Unbroken-append s t h k)

pair-Unbroken : (k v : String) → IsPlain k → IsPlain v → Unbroken (pair_text (k, v))
unfolding pair_text
pair-Unbroken k v h g =
    Unbroken-append k ("=" +s v) (IsPlain-Unbroken k h)
      (rw (single "=" v) (omega arith, IsPlain-Unbroken v g))

truthy-pair : (k v : String) → truthy (pair_text (k, v)) ≡ true
unfolding pair_text
truthy-pair String.[] v = rw (nil-append ("=" +s v), single "=" v) refl
truthy-pair (String.◌∷◌ c k) v = rw (cons-append c k ("=" +s v)) refl

pieces-joined :
    (p : String × String) (ps : List (String × String))
    → AllPlain (p ∷ ps)
    → pieces b'&' (joined (map pair_text (p ∷ ps))) ≡ map pair_text (p ∷ ps)
unfolding joined
pieces-joined (k, v) [] (h, g, _) = pieces-Unbroken _ (pair-Unbroken k v h g)
pieces-joined (k, v) (q ∷ ps) (h, g, r) =
    pieces-more _ _ (pair-Unbroken k v h g) ∙ ap (◌∷◌ (pair_text (k, v))) (pieces-joined q ps r)

unescape-IsPlain : (s : String) → IsPlain s → unescape s ≡ some s
unfolding unescape unescape_in next_escape decoded
unescape-IsPlain String.[] h = refl
unescape-IsPlain (String.◌∷◌ c s) (_, _, p, q, _, h) = ground (arith, unescape-IsPlain s h)

has_code-append : (n : ℕ) (s t : String) → has_code n (s +s t) ≡ has_code n s || has_code n t
unfolding has_code
has_code-append n String.[] t = rw (nil-append t) refl
has_code-append n (String.◌∷◌ c s) t =
    rw (cons-append c s t) (ground (arith, has_code-append n s t))

has_code-IsPlain : (s : String) → IsPlain s → has_code b';' s ≡ false
unfolding has_code
has_code-IsPlain String.[] h = refl
has_code-IsPlain (String.◌∷◌ c s) (_, _, _, _, p, h) = ground (arith, has_code-IsPlain s h)

has_code-pair : (k v : String) → IsPlain k → IsPlain v → has_code b';' (pair_text (k, v)) ≡ false
unfolding pair_text has_code
has_code-pair k v h g =
    has_code-append b';' k ("=" +s v)
    ∙ rw (has_code-IsPlain k h, has_code-append b';' "=" v, has_code-IsPlain v g) refl

read_pair-pair_text :
    (k v : String) → IsPlain k → IsPlain v → read_pair (pair_text (k, v)) ≡ some (k, v)
unfolding read_pair pair_text
read_pair-pair_text k v h g =
    simp (
      read_pair,
      has_code-pair k v h g,
      cut-plain k v h,
      unescape-IsPlain k h,
      unescape-IsPlain v g,
    )

pairs_read :
    (ps : List (String × String))
    → AllPlain ps
    → present (map read_pair (keep truthy (map pair_text ps))) ≡ ps
unfolding present
pairs_read [] h = refl
pairs_read ((k, v) ∷ ps) (h, g, r) =
    rw (truthy-pair k v, read_pair-pair_text k v h g, pairs_read ps r) refl

pub parse_query-to_text :
    (ps : List (String × String)) → AllPlain ps → parse_query (to_text ps) ≡ ps
unfolding parse_query to_text
parse_query-to_text [] h = refl
parse_query-to_text (p ∷ ps) h = rw (pieces-joined p ps h) (pairs_read (p ∷ ps) h)

pub raw_query_lem : (k v : String) → Without b'?' k → raw_query (k +s ("?" +s v)) ≡ v
unfolding raw_query
raw_query_lem k v h = ap (λ r. r.1) (cut_first b'?' "?" k v refl h)

pub IsNumeral-IsPlain : (s : String) → IsNumeral s → IsPlain s
IsNumeral-IsPlain String.[] h = tt
IsNumeral-IsPlain (String.◌∷◌ c s) (a, b, h) =
    (omega arith, omega arith, omega arith, omega arith, omega arith, IsNumeral-IsPlain s h)
