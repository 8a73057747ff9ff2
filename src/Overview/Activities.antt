-- ===== src/Overview/Activities.antt =====
-- app/dashboard/page.tsx: the sorted and cut list of activities.
use lifygo.Prelude.{
  take, drop, ℕ, zero, suc, ◌∙◌, ap, sym, subst, ◌++◌, ◌≤◌, ◌≡◌, refl, ◌⊎◌, inl, inr, ◌↔◌, List, [],
  ◌∷◌, In, length, arith, if◌then◌else◌, ltb, Bool-cases,
}
use mathlib.Core.List.{Perm}
use mathlib.Core.List.Perm
use lifygo.Features.{DashboardStats}
use lifygo.Overview.{Format, Activity, insert, sort, entries, activities}

module _ (env : Format) where
  abbrev pub time_of : Activity → ℕ
  time_of a = env.get_time a.timestamp

  -- No entry is older than one behind it.
  abbrev pub Descending : List Activity → Type 0
  Descending [] = Unit {0}
  Descending (a ∷ xs) = ((b : Activity) → In b xs → time_of b ≤ time_of a) × Descending xs

  length-insert : (a : Activity) (bs : List Activity) → length (insert env a bs) ≡ suc (length bs)
  unfolding insert
  length-insert a [] = refl
  length-insert a (b ∷ bs) = ground (arith, length-insert a bs)

  length-sort : (xs : List Activity) → length (sort env xs) ≡ length xs
  unfolding sort
  length-sort [] = refl
  length-sort (a ∷ xs) = ground (arith, length-insert a (sort env xs), length-sort xs)

  insert-Perm : (a : Activity) (bs : List Activity) → Perm (insert env a bs) (a ∷ bs)
  unfolding insert
  insert-Perm a [] = Perm.rfl
  insert-Perm a (b ∷ bs) = elim (Bool-cases (ltb (time_of a) (time_of b))) [
    | inl e ↦ rw e (Perm.trans (Perm.cons b (insert-Perm a bs)) (Perm.swap a b bs))
    | inr e ↦ rw e Perm.rfl
  ]

  sort-Perm : (xs : List Activity) → Perm (sort env xs) xs
  unfolding sort
  sort-Perm [] = Perm.rfl
  sort-Perm (a ∷ xs) = Perm.trans (insert-Perm a (sort env xs)) (Perm.cons a (sort-Perm xs))

  In-insert :
      (a : Activity) (bs : List Activity) (c : Activity)
      → In c (insert env a bs) ↔ ((c ≡ a) ⊎ In c bs)
  unfolding insert
  In-insert a [] c = (λ h. h, λ h. h)
  In-insert a (b ∷ bs) c =
      let (to, from) = In-insert a bs c in
      elim (Bool-cases (ltb (time_of a) (time_of b))) [
        | inl e ↦ rw e (
          elim [
            | inl q ↦ inr (inl q)
            | inr i ↦ elim (to i) [ inl q ↦ inl q | inr j ↦ inr (inr j) ]
          ],
          elim [
            | inl q ↦ inr (from (inl q))
            | inr i ↦ elim i [ inl q ↦ inl q | inr j ↦ inr (from (inr j)) ]
          ],
        )
        | inr e ↦ rw e (λ h. h, λ h. h)
      ]

  insert-Descending :
      (a : Activity) (bs : List Activity) → Descending bs → Descending (insert env a bs)
  unfolding insert
  insert-Descending a [] d = (λ b i. absurd i, tt)
  insert-Descending a (b ∷ bs) (newest, d) = elim (Bool-cases (ltb (time_of a) (time_of b))) [
    | inl e ↦ rw e (
      λ c i. elim ((In-insert a bs c).0 i) [ inl q ↦ rw q (ground arith) | inr j ↦ newest c j ],
      insert-Descending a bs d,
    )
    | inr e ↦ rw e (
      λ c i. elim i [ inl q ↦ rw q (ground arith) | inr j ↦ ground (arith, newest c j) ],
      (newest, d),
    )
  ]

  sort-Descending : (xs : List Activity) → Descending (sort env xs)
  unfolding sort
  sort-Descending [] = tt
  sort-Descending (a ∷ xs) = insert-Descending a (sort env xs) (sort-Descending xs)

  take-length :
      (n : ℕ) (xs : List Activity)
      → length (take n xs) ≡ (if ltb n (length xs) then n else length xs)
  unfolding take
  take-length zero [] = refl
  take-length zero (x ∷ xs) = ground arith
  take-length (suc n) [] = ground arith
  take-length (suc n) (x ∷ xs) = ground (arith, take-length n xs)

  take-In : (n : ℕ) (xs : List Activity) (c : Activity) → In c (take n xs) → In c xs
  unfolding take
  take-In zero xs c h = absurd h
  take-In (suc n) [] c h = absurd h
  take-In (suc n) (x ∷ xs) c (inl q) = inl q
  take-In (suc n) (x ∷ xs) c (inr i) = inr (take-In n xs c i)

  take-Descending : (n : ℕ) (xs : List Activity) → Descending xs → Descending (take n xs)
  unfolding take
  take-Descending zero xs d = tt
  take-Descending (suc n) [] d = tt
  take-Descending (suc n) (x ∷ xs) (newest, d) =
      (λ b i. newest b (take-In n xs b i), take-Descending n xs d)

  take-drop : (n : ℕ) (xs : List Activity) → take n xs ++ drop n xs ≡ xs
  unfolding take
  take-drop zero xs = refl
  take-drop (suc n) [] = refl
  take-drop (suc n) (x ∷ xs) = ap (◌∷◌ x) (take-drop n xs)

  drop-In : (n : ℕ) (xs : List Activity) (c : Activity) → In c (drop n xs) → In c xs
  drop-In zero xs c h = h
  drop-In (suc n) [] c h = absurd h
  drop-In (suc n) (x ∷ xs) c h = inr (drop-In n xs c h)

  -- What a cut of a descending list leaves out is not newer than anything that it keeps.
  take-newest :
      (n : ℕ) (xs : List Activity)
      → Descending xs
      → (a b : Activity) → In a (take n xs)
      → In b (drop n xs)
      → time_of b ≤ time_of a
  unfolding take
  take-newest zero xs d a b i j = absurd i
  take-newest (suc n) [] d a b i j = absurd i
  take-newest (suc n) (x ∷ xs) (newest, d) a b (inl q) j = rw q (newest b (drop-In n xs b j))
  take-newest (suc n) (x ∷ xs) (newest, d) a b (inr i) j = take-newest n xs d a b i j

  -- The stream shows ten of all entries, or all if there are fewer, the newest first: with the entries
  -- that it leaves out it has each entry as often as it is there, and none of those is newer than any
  -- that it shows.
  pub newest_ten :
      (stats : DashboardStats)
      → let shown = activities env stats in
        let all = entries stats in
        (hidden : List Activity) × Perm (shown ++ hidden) all
        × (length shown ≡ (if ltb 10 (length all) then 10 else length all))
        × Descending shown
        × ((a b : Activity) → In a shown → In b hidden → time_of b ≤ time_of a)
  unfolding activities
  newest_ten stats =
      let all = entries stats in
      let sorted = sort env all in
      let d = sort-Descending all in
      (
        drop 10 sorted,
        subst (λ xs. Perm xs all) (sym (take-drop 10 sorted)) (sort-Perm all),
        take-length 10 sorted ∙ rw (length-sort all) refl,
        take-Descending 10 sorted d,
        take-newest 10 sorted d,
      )
