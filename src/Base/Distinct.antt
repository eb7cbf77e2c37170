-- ===== src/Base/Distinct.antt =====
-- Lists without repetition, by the test that `x in xs` runs.
use meeting_overlay_assistan.Base.Equality.{Eq, contains}
use meeting_overlay_assistan.Base.Lists.{All}
use mathlib.Core.Path.{◌≡◌, refl}
use mathlib.Core.Bool.{true, false, ◌||◌}
use mathlib.Core.List.{List, [], ◌∷◌, ◌++◌}
use native.Mathlib.Omega.{arith}

module _ {ℓ} {A : Type ℓ} ⦃e : Eq A⦄ where
  abbrev pub IsDistinct : List A → Type 0
  IsDistinct [] = Unit
  IsDistinct (x ∷ xs) = (contains xs x ≡ false) × IsDistinct xs

  pub contains-append :
      (xs ys : List A) (a : A) → contains (xs ++ ys) a ≡ (contains xs a || contains ys a)
  contains-append [] ys a = refl
  contains-append (x ∷ xs) ys a = ground (arith, contains-append xs ys a)

  pub IsDistinct-snoc :
      (xs : List A) (a : A) → IsDistinct xs → contains xs a ≡ false → IsDistinct (xs ++ a ∷ [])
  IsDistinct-snoc [] a d h = (refl, tt)
  IsDistinct-snoc (x ∷ xs) a d h =
      (ground (arith, contains-append xs (a ∷ []) x), IsDistinct-snoc xs a d.1 (ground arith))

  -- What holds of every element holds of one that the list contains.
  pub All-contains {κ} :
      (P : A → Type κ) (xs : List A) (a : A) → All P xs → contains xs a ≡ true → P a
  All-contains P [] a h c = absurd (ground arith)
  All-contains P (x ∷ xs) a h c = elim (e.dec a x) [
    | yes p ↦ rw p h.0
    | no n ↦ All-contains P xs a h.1 (ground arith)
  ]
