-- ===== src/Server/Keys/Life.antt =====
-- A key from its creation to its deletion.
use lifygo.Prelude.{
  ◌≡◌, refl, ap, sym, subst, ◌∙◌, Bool, true, false, not, none, List, [], ◌∷◌, String, truthy,
  truthy-append, keep, any, ◌+s◌, arith, Bool-cases, Option-cases, inl, inr,
}
use text.Mathlib.TextEquality.{eq_iff}
use lifygo.Server.{unauthorized, sentinel, Result, ok, err, Result-cases}
use lifygo.Server.Keys.{
  KeyRow, KeyResponse, World, input_error, has_hash, find_hash, limit_error, insert_key, is_deleted,
  hash_api_key, new_row, response_of, issue, create, authenticate, delete,
}

module _ (sha : String → String) where
  hash_of : (raw : String) → truthy raw ≡ true → hash_api_key sha raw ≡ ok (sha raw)
  unfolding hash_api_key
  hash_of raw h = rw (hash_api_key, h) refl

  abbrev raw_of : String → String
  raw_of digits = "lfy_" +s digits

  raw_given : (digits : String) → truthy (raw_of digits) ≡ true
  raw_given digits = truthy-append "l" "fy_" digits

  -- What a creation that succeeds has done.
  IsIssued : World → List KeyRow → String → String → KeyResponse → Type 0
  IsIssued w table user name resp =
      ((create sha w table user name).1 ≡ new_row sha w user name resp.raw_key ∷ table)
      × (resp.id ≡ w.new_id)
      × (any (has_hash (sha resp.raw_key)) table ≡ false)
      × (truthy resp.raw_key ≡ true)

  create-issue :
      (w : World) (table : List KeyRow) (user name : String) (resp : KeyResponse)
      → (create sha w table user name).0 ≡ ok resp
      → create sha w table user name ≡ issue sha w table user name
  unfolding create
  create-issue w table user name resp h = elim (Option-cases (input_error user name)) [
    | inr (e, refused) ↦ absurd (ground arith)
    | inl fine ↦ elim (Option-cases (limit_error w table user)) [
      | inr (e, full) ↦ absurd (ground arith)
      | inl room ↦ simp (create, fine, room)
    ]
  ]

  insert_ok :
      (w : World) (table : List KeyRow) (k j : KeyRow)
      → (insert_key w table k).0 ≡ ok j
      → (insert_key w table k ≡ (ok k, k ∷ table)) × (any (has_hash k.key_hash) table ≡ false)
  unfolding insert_key
  insert_ok w table k j h = elim (Bool-cases (any (has_hash k.key_hash) table)) [
    | inl clash ↦ absurd (ground arith)
    | inr new ↦ elim (Option-cases w.insert_failure) [
      | inr (e, failed) ↦ absurd (ground arith)
      | inl fine ↦ (simp (insert_key, new, fine), new)
    ]
  ]

  issue_of :
      (w : World) (table : List KeyRow) (user name digits : String)
      → w.random ≡ ok digits
      → let k = new_row sha w user name (raw_of digits) in
        issue sha w table user name ≡ (
          elim (insert_key w table k).0 [
            | err e ↦ err e
            | ok stored ↦ ok (response_of sha (raw_of digits) stored)
          ],
          (insert_key w table k).1,
        )
  unfolding issue
  issue_of w table user name digits drawn =
      simp (issue, drawn, hash_of (raw_of digits) (raw_given digits))

  issue-drawn :
      (w : World) (table : List KeyRow) (user name : String) (resp : KeyResponse)
      → (issue sha w table user name).0 ≡ ok resp
      → (digits : String) × (w.random ≡ ok digits)
  unfolding issue
  issue-drawn w table user name resp h = elim (Result-cases w.random) [
    | inr (e, failed) ↦ absurd (ground arith)
    | inl drawn ↦ drawn
  ]

  ok_value : {A : Type 0} {a b : A} → ok a ≡ ok b → a ≡ b
  ok_value {A} {a} {b} e = ap (λ (r : Result A). elim r [ ok x ↦ x | err f ↦ a ]) e

  -- A creation that succeeds answers with the key whose hash it has put into the table, where it was not
  -- before.
  create-IsIssued :
      (w : World) (table : List KeyRow) (user name : String) (resp : KeyResponse)
      → (create sha w table user name).0 ≡ ok resp
      → IsIssued w table user name resp
  unfolding IsIssued
  create-IsIssued w table user name resp h =
      let c = create-issue w table user name resp h in
      let h1 : (issue sha w table user name).0 ≡ ok resp = sym (ap (λ q. q.0) c) ∙ h in
      let (digits, drawn) = issue-drawn w table user name resp h1 in
      let raw = raw_of digits in
      let k = new_row sha w user name raw in
      let i = issue_of w table user name digits drawn in
      elim (Result-cases (insert_key w table k).0) [
        | inr (e, failed) ↦
            let answer : (issue sha w table user name).0 ≡ err e =
              ap (λ q. q.0) i ∙ rw failed refl in
            absurd (ground arith)
        | inl (j, stored) ↦
            let (inserted, new) = insert_ok w table k j stored in
            let whole : create sha w table user name ≡ (ok (response_of sha raw k), k ∷ table) =
              c ∙ i ∙ simp inserted in
            let same : response_of sha raw k ≡ resp = ok_value (sym (ap (λ q. q.0) whole) ∙ h) in
            subst (IsIssued w table user name) same
              (ap (λ q. q.1) whole, refl, new, raw_given digits)
      ]

  create_user :
      (w : World) (table : List KeyRow) (user name : String) (resp : KeyResponse)
      → (create sha w table user name).0 ≡ ok resp
      → truthy user ≡ true
  unfolding create input_error
  create_user w table user name resp h = elim (Bool-cases (truthy user)) [
    | inl given ↦ given
    | inr empty ↦ absurd (ground arith)
  ]

  delete_first :
      (u : World) (k : KeyRow) (table : List KeyRow)
      → truthy k.id ≡ true
      → truthy k.user_id ≡ true
      → u.delete_failure ≡ none
      → delete u (k ∷ table) k.id k.user_id
        ≡ (ok tt, keep (λ (j : KeyRow). not (is_deleted k.id k.user_id j)) table)
  unfolding delete
  delete_first u k table named given fine =
      simp
        (delete, named, given, fine, (eq_iff k.id k.id).1 refl, (eq_iff k.user_id k.user_id).1 refl)

  found_first :
      (v : World) (k : KeyRow) (table : List KeyRow) (raw : String)
      → k.key_hash ≡ sha raw
      → truthy raw ≡ true
      → v.select_failure ≡ none
      → (authenticate sha v (k ∷ table) raw).0 ≡ ok k.user_id
  unfolding authenticate find_hash
  found_first v k table raw h given fine =
      let same = (eq_iff k.key_hash (sha raw)).1 h in
      simp (authenticate, given, fine, find_hash, same)

  not_found :
      (v : World) (table : List KeyRow) (raw : String)
      → find_hash (sha raw) table ≡ none
      → truthy raw ≡ true
      → v.select_failure ≡ none
      → (authenticate sha v table raw).0 ≡ err (sentinel unauthorized)
  unfolding authenticate
  not_found v table raw missing given fine = simp (authenticate, given, fine, missing)

  find-keep :
      (p : KeyRow → Bool) (h : String) (table : List KeyRow)
      → any (has_hash h) table ≡ false
      → find_hash h (keep p table) ≡ none
  unfolding find_hash
  find-keep p h [] e = refl
  find-keep p h (k ∷ table) e = elim (Bool-cases (p k)) [
    | inl kept ↦ rw kept (ground (arith, find-keep p h table (ground arith)))
    | inr gone ↦ rw gone (find-keep p h table (ground arith))
  ]

-- The key that a successful creation answers with authenticates its user, as long as the database
-- answers; once he has deleted it by the id of the answer, it is refused like a key that never was.
pub key_life :
    (sha : String → String) (w v u x : World) (table : List KeyRow) (user name : String)
    (resp : KeyResponse)
    → (create sha w table user name).0 ≡ ok resp
    → truthy resp.id ≡ true
    → v.select_failure ≡ none
    → u.delete_failure ≡ none
    → x.select_failure ≡ none
    → let after = (create sha w table user name).1 in
      let removed = delete u after resp.id user in
      ((authenticate sha v after resp.raw_key).0 ≡ ok user)
      × (removed.0 ≡ ok tt)
      × ((authenticate sha x removed.1 resp.raw_key).0 ≡ err (sentinel unauthorized))
unfolding IsIssued delete
key_life sha w v u x table user name resp h named fine answers answers_again =
    let (after, id, new, given) = create-IsIssued sha w table user name resp h in
    let k = new_row sha w user name resp.raw_key in
    let gone =
      ap (λ t. delete u t resp.id user) after
      ∙ ap (λ i. delete u (k ∷ table) i user) id
      ∙ delete_first sha u k table (rw⁻¹ id named) (create_user sha w table user name resp h)
          answers in
    let others =
      find-keep sha (λ (j : KeyRow). not (is_deleted k.id user j)) (sha resp.raw_key) table new in
    (
      ap (λ t. (authenticate sha v t resp.raw_key).0) after
          ∙ found_first sha v k table resp.raw_key refl given fine,
      ap (λ q. q.0) gone,
      ap (λ q. (authenticate sha x q.1 resp.raw_key).0) gone
          ∙ not_found sha x (keep (λ (j : KeyRow). not (is_deleted k.id user j)) table) resp.raw_key
              others given answers_again,
    )
