-- ===== src/Jobs/Attempts/Claims.antt =====
-- A claim counts each job that it hands out as one attempt.
use meeting_overlay_assistan.Base.{
  ℕ, ◌+◌, ◌≤◌, String, ◌≡◌, refl, Option, none, some, true, List, string_eq, option_eq, arith,
  Option-cases, inl, inr, sym, subst,
}
use mathlib.Core.Option
use meeting_overlay_assistan.Base.Distinct.{IsDistinct}
use meeting_overlay_assistan.Jobs.Lifecycle.{status_text_eq}
use meeting_overlay_assistan.Jobs.Model.{Job}
use meeting_overlay_assistan.Jobs.Table.{Table, get_by_id, exhaust_row, is_available, ClaimRequest}
use meeting_overlay_assistan.Jobs.Table.Writes.{leased, exhausted}
use meeting_overlay_assistan.Jobs.Table.Claims.{IsClaim, claim_available-IsClaim}
use meeting_overlay_assistan.Jobs.History.{handed_out, claims, step, handovers}
use meeting_overlay_assistan.Jobs.Attempts.Counted.{
  IsWithin, WithinAt, IsSound, attempts_of, attempts, IsCounted,
}

module _ {P : Type 0} where
  leased-IsWithin :
      (m : ℕ) (q : ClaimRequest) (row : Job P)
      → q.max_attempts ≤ m
      → 1 ≤ m
      → is_available q.claimed_at q.max_attempts row ≡ true
      → IsWithin m row
      → IsWithin m (leased q row)
  unfolding is_available
  leased-IsWithin m q row fits positive a w = ground arith

  exhausted_within :
      (m : ℕ) (q : ClaimRequest) (o : Option (Job P))
      → WithinAt m o
      → WithinAt m (Option.map (exhausted q) o)
  unfolding exhaust_row
  exhausted_within m q none w = tt
  exhausted_within m q (some row) w = ground arith

  attempts-exhausted :
      (q : ClaimRequest) (o : Option (Job P))
      → attempts_of (Option.map (exhausted q) o) ≡ attempts_of o
  unfolding exhaust_row
  attempts-exhausted q none = refl
  attempts-exhausted q (some row) = ground arith

  claimed_at :
      (m : ℕ) (q : ClaimRequest) (table after : Table P) (claimed : List (Job P))
      → q.max_attempts ≤ m
      → 1 ≤ m
      → IsSound m table
      → IsClaim q table after claimed
      → (i : String)
      → WithinAt m (get_by_id after i)
        × (attempts after i ≡ attempts table i + handed_out (get_by_id claimed i))
  claimed_at m q table after claimed fits positive s c i =
      elim (Option-cases (get_by_id claimed i)) [
        | inl free ↦ (
          rw (c.other_jobs i free) (exhausted_within m q (get_by_id table i) (s.within i)),
          ground (arith, c.other_jobs i free, attempts-exhausted q (get_by_id table i)),
        )
        | inr (job, taken) ↦
            let (row, present, available, as_leased, stored) = c.claimed_jobs i job taken in
            let w : IsWithin m row = subst (WithinAt m) present (s.within i) in
            (
              rw (stored, as_leased) (leased-IsWithin m q row fits positive available w),
              ground (arith, present, as_leased, stored),
            )
      ]

  pub claims-IsCounted :
      (m : ℕ) (table : Table P) (q : ClaimRequest)
      → q.max_attempts ≤ m
      → 1 ≤ m
      → IsSound m table
      → IsCounted m table (claims q)
  unfolding step handovers
  claims-IsCounted m table q fits positive s =
      let (after, claimed, e, c) = claim_available-IsClaim q table s.distinct in
      let at = claimed_at m q table after claimed fits positive s c in
      rw (e, step, handovers)
        (
          record {
            distinct = subst IsDistinct (sym c.ids_kept) s.distinct;
            within = λ i. (at i).0;
          },
          λ i. (at i).1,
        )
