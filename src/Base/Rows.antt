-- ===== src/Base/Rows.antt =====
-- Rows of a result: membership, WHERE and ORDER BY.
use mathlib.Core.Path.{◌≡◌, refl, ap, ◌∙◌}
use mathlib.Core.Logic.{◌⊎◌, inl, inr}
use mathlib.Core.Bool.{Bool, true, false}
use mathlib.Core.Option.{Option, none, some}
use mathlib.Core.List.{List, [], ◌∷◌, ◌++◌, map}
use native.Mathlib.Omega.{arith}
use meeting_overlay_assistan.Base.Equality.{if◌then◌else◌, Bool-cases}

-- The value stands in the list.
abbrev pub In : {A : Type 0} → A → List A → Type 0
In a [] = ⊥
In a (x ∷ xs) = (a ≡ x) ⊎ In a xs

-- WHERE
unfoldable pub keep_if {ℓ} : {A : Type ℓ} → (A → Bool) → List A → List A
keep_if test [] = []
keep_if test (x ∷ xs) = let rest = keep_if test xs in if test x then x ∷ rest else rest

-- ORDER BY, where the test says which row stands first.
unfoldable pub insert_by {ℓ} : {A : Type ℓ} → (A → A → Bool) → A → List A → List A
insert_by before x [] = x ∷ []
insert_by before x (y ∷ ys) =
    let rest = insert_by before x ys in if before y x then y ∷ rest else x ∷ y ∷ ys

unfoldable pub sort_by {ℓ} : {A : Type ℓ} → (A → A → Bool) → List A → List A
unfolding insert_by
sort_by before [] = []
sort_by before (x ∷ xs) = insert_by before x (sort_by before xs)

-- LIMIT 1
abbrev pub head {ℓ} : {A : Type ℓ} → List A → Option A
head [] = none
head (x ∷ xs) = some x

module _ {A : Type 0} where
  pub In-keep_if :
      (test : A → Bool) (a : A) (xs : List A) → In a (keep_if test xs) → In a xs × (test a ≡ true)
  unfolding keep_if
  In-keep_if test a [] h = absurd h
  In-keep_if test a (x ∷ xs) h = elim (Bool-cases (test x)) [
    | inl e ↦ elim (rw (e, keep_if) at h) [
      | inl same ↦ (inl same, ap test same ∙ e)
      | inr later ↦ (inr (In-keep_if test a xs later).0, (In-keep_if test a xs later).1)
    ]
    | inr e ↦ let rest = In-keep_if test a xs (rw (e, keep_if) at h) in (inr rest.0, rest.1)
  ]

  pub In-kept :
      (test : A → Bool) (a : A) (xs : List A) → In a xs → test a ≡ true → In a (keep_if test xs)
  unfolding keep_if
  In-kept test a [] h t = absurd h
  In-kept test a (x ∷ xs) h t = ground (arith, In-kept test a xs)

  pub In-insert_by :
      (before : A → A → Bool) (a x : A) (xs : List A) → In a (insert_by before x xs) → In a (x ∷ xs)
  unfolding insert_by
  In-insert_by before a x [] h = h
  In-insert_by before a x (y ∷ ys) h = ground (arith, In-insert_by before a x ys)

  pub In-sort_by :
      (before : A → A → Bool) (a : A) (xs : List A) → In a (sort_by before xs) → In a xs
  unfolding sort_by
  In-sort_by before a [] h = h
  In-sort_by before a (x ∷ xs) h = elim (In-insert_by before a x (sort_by before xs) h) [
    | inl same ↦ inl same
    | inr later ↦ inr (In-sort_by before a xs later)
  ]

  pub In-inserted :
      (before : A → A → Bool) (a x : A) (xs : List A) → In a (x ∷ xs) → In a (insert_by before x xs)
  unfolding insert_by
  In-inserted before a x [] h = h
  In-inserted before a x (y ∷ ys) h = ground (arith, In-inserted before a x ys)

  pub In-sorted : (before : A → A → Bool) (a : A) (xs : List A) → In a xs → In a (sort_by before xs)
  unfolding sort_by
  In-sorted before a [] h = h
  In-sorted before a (x ∷ xs) h = elim h [
    | inl same ↦ In-inserted before a x (sort_by before xs) (inl same)
    | inr later ↦ In-inserted before a x (sort_by before xs) (inr (In-sorted before a xs later))
  ]

  pub In-head : (a : A) (xs : List A) → head xs ≡ some a → In a xs
  In-head a [] h = absurd (ground (arith, h))
  In-head a (x ∷ xs) h = inl (ground (arith, h))

  pub In-append : (a c : A) (xs : List A) → In a (xs ++ c ∷ []) → In a xs ⊎ (a ≡ c)
  In-append a c [] h = elim h [ inl same ↦ inr same | inr never ↦ absurd never ]
  In-append a c (x ∷ xs) h = elim h [
    | inl same ↦ inl (inl same)
    | inr later ↦ elim (In-append a c xs later) [
      | inl there ↦ inl (inr there)
      | inr same ↦ inr same
    ]
  ]

  pub In-map : (f : A → A) (a : A) (xs : List A) → In a (map f xs) → (x : A) × (In x xs × (a ≡ f x))
  In-map f a [] h = absurd h
  In-map f a (x ∷ xs) h = elim h [
    | inl same ↦ (x, (inl refl, same))
    | inr later ↦ let rest = In-map f a xs later in (rest.0, (inr rest.1.0, rest.1.1))
  ]

  pub keep_if-append :
      (test : A → Bool) (xs ys : List A)
      → keep_if test (xs ++ ys) ≡ keep_if test xs ++ keep_if test ys
  unfolding keep_if
  keep_if-append test [] ys = refl
  keep_if-append test (x ∷ xs) ys = elim (Bool-cases (test x)) [
    | inl e ↦ rw (e, keep_if-append test xs ys) refl
    | inr e ↦ rw (e, keep_if-append test xs ys) refl
  ]

  pub keep_if-kept :
      (test : A → Bool) (xs : List A) → ((a : A) → In a xs → test a ≡ true) → keep_if test xs ≡ xs
  unfolding keep_if
  keep_if-kept test [] h = refl
  keep_if-kept test (x ∷ xs) h =
      rw (h x (inl refl), keep_if-kept test xs (λ a there. h a (inr there))) refl

  pub keep_if-none :
      (test other : A → Bool) (xs : List A)
      → ((a : A) → other a ≡ true → test a ≡ false)
      → keep_if test (keep_if other xs) ≡ []
  unfolding keep_if
  keep_if-none test other [] h = refl
  keep_if-none test other (x ∷ xs) h = elim (Bool-cases (other x)) [
    | inl e ↦ rw (e, h x e, keep_if-none test other xs h) refl
    | inr e ↦ rw (e, keep_if-none test other xs h) refl
  ]

  -- The second WHERE keeps what the first asks for.
  pub keep_if-implied :
      (test other : A → Bool) (xs : List A)
      → ((a : A) → test a ≡ true → other a ≡ true)
      → keep_if test (keep_if other xs) ≡ keep_if test xs
  unfolding keep_if
  keep_if-implied test other [] h = refl
  keep_if-implied test other (x ∷ xs) h = elim (Bool-cases (other x)) [
    | inl e ↦ rw (e, keep_if-implied test other xs h) refl
    | inr e ↦ elim (Bool-cases (test x)) [
      | inl t ↦ absurd (ground (arith, h x t))
      | inr n ↦ rw (e, n, keep_if-implied test other xs h) refl
    ]
  ]

  pub keep_if-last :
      (test : A → Bool) (xs : List A) (x : A)
      → test x ≡ false
      → keep_if test (xs ++ x ∷ []) ≡ keep_if test xs
  unfolding keep_if
  keep_if-last test [] x h = rw h refl
  keep_if-last test (y ∷ ys) x h = elim (Bool-cases (test y)) [
    | inl e ↦ rw (e, keep_if-last test ys x h) refl
    | inr e ↦ rw (e, keep_if-last test ys x h) refl
  ]
