-- ===== src/Jobs/Table/Claimable.antt =====
-- Which jobs can be claimed, and which are lost for good.
use meeting_overlay_assistan.Base.{
  ◌≤◌, ◌<◌, ◌≡◌, refl, true, Option, none, some, ◌==◌, string_eq, option_eq, nat_eq, leb, arith,
  Bool-cases, ◌⊎◌, inl, inr,
}
use meeting_overlay_assistan.Session.States.{Time}
use meeting_overlay_assistan.Jobs.Lifecycle.{
  known, pending, processing, failed, status_text_eq, job_status_eq,
}
use meeting_overlay_assistan.Jobs.Model.{Job}
use meeting_overlay_assistan.Jobs.Table.{exhaust_row, ClaimRequest, is_available, lease_over}
use meeting_overlay_assistan.Jobs.Table.Writes.{exhausted, IsAvailable}

-- No lease, or one that has run out.
abbrev pub IsOver : Option Time → Time → Type 0
IsOver none now = Unit
IsOver (some t) now = t ≤ now

IsOver-lease_over :
    (lease : Option Time) (now : Time) → IsOver lease now → lease_over lease now ≡ true
IsOver-lease_over none now h = refl
IsOver-lease_over (some t) now h = ground arith

lease_over-IsOver :
    (lease : Option Time) (now : Time) → lease_over lease now ≡ true → IsOver lease now
lease_over-IsOver none now h = tt
lease_over-IsOver (some t) now h = ground arith

module _ {P : Type 0} where
  -- The job waits, or its worker lost it before the last attempt.
  abbrev pub IsClaimable : ClaimRequest → Job P → Type 0
  IsClaimable q row =
      (row.status ≡ known pending)
      ⊎ ((row.status ≡ known processing)
          × (IsOver row.lease_expires_at q.claimed_at × (row.attempt_count < q.max_attempts)))

  pub IsClaimable-IsAvailable :
      (q : ClaimRequest) (row : Job P) → IsClaimable q row → IsAvailable q row
  unfolding is_available
  IsClaimable-IsAvailable q row (inl waits) = ground arith
  IsClaimable-IsAvailable q row (inr (begun, (over, left))) =
      let test = IsOver-lease_over row.lease_expires_at q.claimed_at over in ground arith

  pub IsAvailable-IsClaimable :
      (q : ClaimRequest) (row : Job P) → IsAvailable q row → IsClaimable q row
  unfolding is_available
  IsAvailable-IsClaimable q row h = elim (Bool-cases (row.status == known pending)) [
    | inl waits ↦ inl (ground arith)
    | inr begun ↦
        let test : lease_over row.lease_expires_at q.claimed_at ≡ true = ground arith in
        inr (ground arith, (lease_over-IsOver row.lease_expires_at q.claimed_at test, ground arith))
  ]

  pub available-exhausted :
      (q : ClaimRequest) (row : Job P) → IsAvailable q row → exhausted q row ≡ row
  unfolding is_available exhaust_row
  available-exhausted q row h = ground arith

  -- The worker lost the job in its last attempt.
  abbrev pub IsSpent : ClaimRequest → Job P → Type 0
  IsSpent q row =
      (row.status ≡ known processing)
      × (IsOver row.lease_expires_at q.claimed_at × (q.max_attempts ≤ row.attempt_count))

  abbrev pub given_up : ClaimRequest → Job P → Job P
  given_up q row = record row {
    status = known failed;
    error_message = some q.exhausted_message;
    claimed_by_worker_id = none;
    lease_expires_at = none;
    completed_at = some q.claimed_at;
  }

  pub exhaust_row-cases :
      (q : ClaimRequest) (row : Job P)
      → (IsSpent q row × (exhausted q row ≡ given_up q row))
        ⊎ ((IsSpent q row → ⊥) × (exhausted q row ≡ row))
  unfolding exhaust_row
  exhaust_row-cases q row = elim (Bool-cases (lease_over row.lease_expires_at q.claimed_at)) [
    | inr held ↦ inr (
      λ spent.
          absurd (ground (arith, IsOver-lease_over row.lease_expires_at q.claimed_at spent.1.0)),
      ground arith,
    )
    | inl over ↦ elim (Bool-cases (row.status == known processing)) [
      | inr other ↦ inr (λ spent. absurd (ground (arith, spent.0)), ground arith)
      | inl begun ↦ elim (Bool-cases (leb q.max_attempts row.attempt_count)) [
        | inr left ↦ inr (λ spent. absurd (ground (arith, spent.1.1)), ground arith)
        | inl used ↦ inl (
          (ground arith, (lease_over-IsOver row.lease_expires_at q.claimed_at over, ground arith)),
          ground arith,
        )
      ]
    ]
  ]
