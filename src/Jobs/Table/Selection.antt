-- ===== src/Jobs/Table/Selection.antt =====
-- Filtering, ordering and limiting rows: what the SELECT of a claim returns.
use Prim.Native.Nat.{max}
use meeting_overlay_assistan.Base.{
  ℕ, zero, suc, String, ◌≡◌, refl, Bool, true, false, not, ◌&&◌, ◌||◌, [], ◌∷◌, ◌==◌, string_eq,
  option_eq, contains, arith, inl, inr, Bool-cases,
}
use meeting_overlay_assistan.Base.Lists.{take, All}
use meeting_overlay_assistan.Base.Distinct.{IsDistinct}
use meeting_overlay_assistan.Jobs.Model.{Job}
use meeting_overlay_assistan.Jobs.Table.{
  Table, pick, insert_claim, order_claims, claims_before, select_claims, ClaimRequest, is_available,
}
use meeting_overlay_assistan.Jobs.Table.Rows.{ids, IsRowOf, All-rows}

module _ {P : Type 0} where
  -- What the WHERE clause tests holds of every row that it lets through.
  pick-test : (test : Job P → Bool) (xs : Table P) → All (λ x. test x ≡ true) (pick test xs)
  unfolding pick
  pick-test test [] = tt
  pick-test test (x ∷ xs) = elim (Bool-cases (test x)) [
    | inl e ↦ rw (e, pick) (e, pick-test test xs)
    | inr e ↦ rw (e, pick) (pick-test test xs)
  ]

  contains-pick :
      (test : Job P → Bool) (xs : Table P) (i : String)
      → contains (ids xs) i ≡ false
      → contains (ids (pick test xs)) i ≡ false
  unfolding pick
  contains-pick test [] i h = refl
  contains-pick test (x ∷ xs) i h = ground (arith, contains-pick test xs i)

  contains-take :
      (n : ℕ) (xs : Table P) (i : String)
      → contains (ids xs) i ≡ false
      → contains (ids (take n xs)) i ≡ false
  contains-take zero xs i h = refl
  contains-take (suc n) [] i h = refl
  contains-take (suc n) (x ∷ xs) i h = ground (arith, contains-take n xs i)

  contains-insert :
      (before : String → String → Bool) (a : Job P) (xs : Table P) (i : String)
      → contains (ids (insert_claim before a xs)) i ≡ (i == a.id || contains (ids xs) i)
  unfolding insert_claim
  contains-insert before a [] i = refl
  contains-insert before a (x ∷ xs) i = ground (arith, contains-insert before a xs i)

  module _ {κ} (Q : Job P → Type κ) where
    pick-All : (test : Job P → Bool) (xs : Table P) → All Q xs → All Q (pick test xs)
    unfolding pick
    pick-All test [] h = tt
    pick-All test (x ∷ xs) h = elim (Bool-cases (test x)) [
      | inl e ↦ rw (e, pick) (h.0, pick-All test xs h.1)
      | inr e ↦ rw (e, pick) (pick-All test xs h.1)
    ]

    take-All : (n : ℕ) (xs : Table P) → All Q xs → All Q (take n xs)
    take-All zero xs h = tt
    take-All (suc n) [] h = tt
    take-All (suc n) (x ∷ xs) h = (h.0, take-All n xs h.1)

    pub insert-All :
        (before : String → String → Bool) (a : Job P) (xs : Table P)
        → Q a
        → All Q xs
        → All Q (insert_claim before a xs)
    unfolding insert_claim
    insert-All before a [] qa h = (qa, tt)
    insert-All before a (x ∷ xs) qa h = elim (Bool-cases (claims_before before x a)) [
      | inl e ↦ rw (e, insert_claim) (h.0, insert-All before a xs qa h.1)
      | inr e ↦ rw (e, insert_claim) (qa, h)
    ]

    order-All :
        (before : String → String → Bool) (xs : Table P) → All Q xs → All Q (order_claims before xs)
    unfolding order_claims
    order-All before [] h = tt
    order-All before (x ∷ xs) h =
        insert-All before x (order_claims before xs) h.0 (order-All before xs h.1)

  pick-IsDistinct :
      (test : Job P → Bool) (xs : Table P) → IsDistinct (ids xs) → IsDistinct (ids (pick test xs))
  unfolding pick
  pick-IsDistinct test [] d = tt
  pick-IsDistinct test (x ∷ xs) d = elim (Bool-cases (test x)) [
    | inl e ↦ rw (e, pick) (contains-pick test xs x.id d.0, pick-IsDistinct test xs d.1)
    | inr e ↦ rw (e, pick) (pick-IsDistinct test xs d.1)
  ]

  take-IsDistinct : (n : ℕ) (xs : Table P) → IsDistinct (ids xs) → IsDistinct (ids (take n xs))
  take-IsDistinct zero xs d = tt
  take-IsDistinct (suc n) [] d = tt
  take-IsDistinct (suc n) (x ∷ xs) d = (contains-take n xs x.id d.0, take-IsDistinct n xs d.1)

  module _ (before : String → String → Bool) where
    insert-IsDistinct :
        (a : Job P) (xs : Table P)
        → contains (ids xs) a.id ≡ false
        → IsDistinct (ids xs)
        → IsDistinct (ids (insert_claim before a xs))
    unfolding insert_claim
    insert-IsDistinct a [] c d = (refl, tt)
    insert-IsDistinct a (x ∷ xs) c d = elim (Bool-cases (claims_before before x a)) [
      | inl e ↦
          rw (e, insert_claim)
            (
              ground (arith, contains-insert before a xs x.id),
              insert-IsDistinct a xs (ground arith) d.1,
            )
      | inr e ↦ rw (e, insert_claim) (c, d)
    ]

    contains-order :
        (xs : Table P) (i : String)
        → contains (ids (order_claims before xs)) i ≡ contains (ids xs) i
    unfolding order_claims
    contains-order [] i = refl
    contains-order (x ∷ xs) i =
        cc (contains-insert before x (order_claims before xs) i, contains-order xs i)

    order-IsDistinct :
        (xs : Table P) → IsDistinct (ids xs) → IsDistinct (ids (order_claims before xs))
    unfolding order_claims
    order-IsDistinct [] d = tt
    order-IsDistinct (x ∷ xs) d =
        insert-IsDistinct x (order_claims before xs) (rw contains-order d.0)
          (order-IsDistinct xs d.1)

  -- The rows that a claim selects: rows of the table, each once, available and not locked.
  pub record IsSelection (q : ClaimRequest) (table rows : Table P) : Type 0 where
    pub rows_of : All (IsRowOf table) rows
    pub distinct : IsDistinct (ids rows)
    pub available : All (λ row. is_available q.claimed_at q.max_attempts row ≡ true) rows
    pub unlocked : All (λ row. q.locked row.id ≡ false) rows

  pub select_claims-IsSelection :
      (q : ClaimRequest) (table : Table P)
      → IsDistinct (ids table)
      → IsSelection q table (select_claims q table)
  unfolding select_claims
  select_claims-IsSelection q table d = record {
    rows_of = take-All (IsRowOf table) limit (order_claims q.id_before picked) (
        order-All (IsRowOf table) q.id_before picked
          (pick-All (IsRowOf table) test table (All-rows table d)));
    distinct =
        take-IsDistinct limit (order_claims q.id_before picked)
          (order-IsDistinct q.id_before picked (pick-IsDistinct test table d));
    available = take-All Available limit (order_claims q.id_before picked) (
        order-All Available q.id_before picked
          (available_of (pick test table) (pick-test test table)));
    unlocked = take-All Unlocked limit (order_claims q.id_before picked) (
        order-All Unlocked q.id_before picked
          (unlocked_of (pick test table) (pick-test test table)));
  }
    where
      limit : ℕ
      limit = max q.limit 1

      test : Job P → Bool
      test row = is_available q.claimed_at q.max_attempts row && not (q.locked row.id)

      picked : Table P
      picked = pick test table

      Available : Job P → Type 0
      Available row = is_available q.claimed_at q.max_attempts row ≡ true

      available_of : (xs : Table P) → All (λ x. test x ≡ true) xs → All Available xs
      available_of [] h = tt
      available_of (x ∷ xs) h = (ground arith, available_of xs h.1)

      Unlocked : Job P → Type 0
      Unlocked row = q.locked row.id ≡ false

      unlocked_of : (xs : Table P) → All (λ x. test x ≡ true) xs → All Unlocked xs
      unlocked_of [] h = tt
      unlocked_of (x ∷ xs) h = (ground arith, unlocked_of xs h.1)
