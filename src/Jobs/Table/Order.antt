-- ===== src/Jobs/Table/Order.antt =====
-- The order in which a claim takes the jobs, and what its limit leaves out.
use meeting_overlay_assistan.Base.{
  ℕ, zero, suc, sym, subst, ◌≤◌, String, ◌≡◌, ◌≢◌, refl, Bool, true, false, [], ◌∷◌, ◌==◌,
  string_eq, option_eq, nat_eq, arith, ◌⊎◌, inl, inr, Bool-cases, none, some,
}
use meeting_overlay_assistan.Base.Lists.{take, All, length}
use meeting_overlay_assistan.Base.Rows.{In}
use meeting_overlay_assistan.Jobs.Lifecycle.{known, pending, status_text_eq}
use meeting_overlay_assistan.Jobs.Model.{Job}
use meeting_overlay_assistan.Jobs.Table.{
  Table, get_by_id, pick, claim_rank, claims_before, insert_claim, order_claims,
}
use meeting_overlay_assistan.Jobs.Table.Selection.{insert-All}

module _ {P : Type 0} where
  abbrev pub IsPending : Job P → Type 0
  IsPending row = row.status ≡ known pending

  abbrev pub IsBegun : Job P → Type 0
  IsBegun row = row.status ≢ known pending

  -- The first job does not come after the second: it waits and the other was begun, or both wait or
  -- both were begun and it is not the younger.
  abbrev pub Precedes : Job P → Job P → Type 0
  Precedes a b =
      (IsPending a × IsBegun b)
      ⊎ (((IsPending a × IsPending b) ⊎ (IsBegun a × IsBegun b)) × (a.created_at ≤ b.created_at))

  Precedes-trans : (a b c : Job P) → Precedes a b → Precedes b c → Precedes a c
  Precedes-trans a b c x y = ground (arith, x, y)

  module _ (before : String → String → Bool) where
    claims_before-Precedes : (a b : Job P) → claims_before before a b ≡ true → Precedes a b
    unfolding claims_before claim_rank
    claims_before-Precedes a b h = elim (Bool-cases (a.status == known pending)) [
      | inl x ↦ elim (Bool-cases (b.status == known pending)) [
        | inl y ↦ inr (inl (ground arith, ground arith), ground arith)
        | inr y ↦ inl (ground arith, ground arith)
      ]
      | inr x ↦ elim (Bool-cases (b.status == known pending)) [
        | inl y ↦ absurd (ground arith)
        | inr y ↦ inr (inr (ground arith, ground arith), ground arith)
      ]
    ]

    claims_after-Precedes : (a b : Job P) → claims_before before b a ≡ false → Precedes a b
    unfolding claims_before claim_rank
    claims_after-Precedes a b h = elim (Bool-cases (a.status == known pending)) [
      | inl x ↦ elim (Bool-cases (b.status == known pending)) [
        | inl y ↦ inr (inl (ground arith, ground arith), ground arith)
        | inr y ↦ inl (ground arith, ground arith)
      ]
      | inr x ↦ elim (Bool-cases (b.status == known pending)) [
        | inl y ↦ absurd (ground arith)
        | inr y ↦ inr (inr (ground arith, ground arith), ground arith)
      ]
    ]

  abbrev IsSorted : Table P → Type 0
  IsSorted [] = Unit
  IsSorted (a ∷ rest) = All (Precedes a) rest × IsSorted rest

  All-Precedes :
      (a b : Job P) (rest : Table P) → Precedes a b → All (Precedes b) rest → All (Precedes a) rest
  All-Precedes a b [] h later = tt
  All-Precedes a b (c ∷ rest) h later =
      (Precedes-trans a b c h later.0, All-Precedes a b rest h later.1)

  module _ (before : String → String → Bool) where
    insert-IsSorted : (a : Job P) (xs : Table P) → IsSorted xs → IsSorted (insert_claim before a xs)
    unfolding insert_claim
    insert-IsSorted a [] h = (tt, tt)
    insert-IsSorted a (b ∷ rest) h = elim (Bool-cases (claims_before before b a)) [
      | inl e ↦
          rw (e, insert_claim)
            (
              insert-All (Precedes b) before a rest (claims_before-Precedes before b a e) h.0,
              insert-IsSorted a rest h.1,
            )
      | inr e ↦
          let first = claims_after-Precedes before a b e in
          rw (e, insert_claim) ((first, All-Precedes a b rest first h.0), h)
    ]

    order-IsSorted : (xs : Table P) → IsSorted (order_claims before xs)
    unfolding order_claims
    order-IsSorted [] = tt
    order-IsSorted (x ∷ xs) = insert-IsSorted x (order_claims before xs) (order-IsSorted xs)

    In-insert : (a x : Job P) (xs : Table P) → (a ≡ x) ⊎ In a xs → In a (insert_claim before x xs)
    unfolding insert_claim
    In-insert a x [] h = h
    In-insert a x (y ∷ ys) h = ground (arith, In-insert a x ys)

    In-order : (a : Job P) (xs : Table P) → In a xs → In a (order_claims before xs)
    unfolding order_claims
    In-order a [] h = absurd h
    In-order a (x ∷ xs) h = elim h [
      | inl same ↦ In-insert a x (order_claims before xs) (inl same)
      | inr later ↦ In-insert a x (order_claims before xs) (inr (In-order a xs later))
    ]

  In-pick :
      (test : Job P → Bool) (a : Job P) (xs : Table P)
      → In a xs
      → test a ≡ true
      → In a (pick test xs)
  unfolding pick
  In-pick test a [] h t = absurd h
  In-pick test a (x ∷ xs) h t = ground (arith, In-pick test a xs)

  In-All : (Q : Job P → Type 0) (a : Job P) (xs : Table P) → In a xs → All Q xs → Q a
  In-All Q a [] h all = absurd h
  In-All Q a (x ∷ xs) h all = elim h [
    | inl same ↦ subst Q (sym same) all.0
    | inr later ↦ In-All Q a xs later all.1
  ]

  -- A row of an ordered table is within the limit, or the limit is used up by rows before it.
  In-take :
      (n : ℕ) (a : Job P) (xs : Table P)
      → IsSorted xs
      → In a xs
      → In a (take n xs) ⊎ ((length (take n xs) ≡ n) × All (λ b. Precedes b a) (take n xs))
  In-take zero a xs sorted h = inr (refl, tt)
  In-take (suc n) a [] sorted h = absurd h
  In-take (suc n) a (x ∷ xs) sorted h = elim h [
    | inl same ↦ inl (inl same)
    | inr later ↦ elim (In-take n a xs sorted.1 later) [
      | inl there ↦ inl (inr there)
      | inr (full, all) ↦ inr (omega (arith, full), (In-All (Precedes x) a xs later sorted.0, all))
    ]
  ]

  -- What the SELECT of a claim leaves out although the test lets it through.
  pub In-selected :
      (before : String → String → Bool) (test : Job P → Bool) (n : ℕ) (a : Job P) (xs : Table P)
      → In a xs
      → test a ≡ true
      → let rows = take n (order_claims before (pick test xs)) in
        In a rows ⊎ ((length rows ≡ n) × All (λ b. Precedes b a) rows)
  In-selected before test n a xs h t =
      In-take n a (order_claims before (pick test xs)) (order-IsSorted before (pick test xs))
        (In-order before a (pick test xs) (In-pick test a xs h t))

  pub length-take-le : (n : ℕ) (xs : Table P) → length (take n xs) ≤ n
  length-take-le zero xs = omega arith
  length-take-le (suc n) [] = omega arith
  length-take-le (suc n) (x ∷ xs) = omega (arith, length-take-le n xs)

  pub In-get_by_id :
      (table : Table P) (id : String) (row : Job P) → get_by_id table id ≡ some row → In row table
  unfolding get_by_id
  In-get_by_id [] id row h = absurd (ground arith)
  In-get_by_id (r ∷ rest) id row h = ground (arith, In-get_by_id rest id row)

  pub get_by_id-In :
      (table : Table P) (row : Job P) → get_by_id table row.id ≡ none → In row table → ⊥
  unfolding get_by_id
  get_by_id-In [] row h there = there
  get_by_id-In (r ∷ rest) row h there = ground (arith, get_by_id-In rest row)
