-- ===== src/Jobs/Leases.antt =====
-- What the leases guarantee across claims: a running lease is respected, a finished job stays
-- finished, and a job that keeps losing its lease ends up failed.
use meeting_overlay_assistan.Base.{◌≤◌, ◌≡◌, true, false, string_eq, option_eq, ◌⊎◌}
use meeting_overlay_assistan.Session.States.{Time}
use meeting_overlay_assistan.Jobs.Lifecycle.{known, processing, completed, failed, status_text_eq}
use meeting_overlay_assistan.Jobs.Model.{Job}
use meeting_overlay_assistan.Jobs.Table.{Table, lease_over, ClaimRequest}

module _ {P : Type 0} where
  -- The job is done, or a worker holds a lease on it that runs past the time.
  abbrev pub IsSettled : Time → Job P → Type 0
  IsSettled now row =
      (row.status ≡ known completed)
      ⊎ (row.status ≡ known failed)
      ⊎ ((row.status ≡ known processing) × (lease_over row.lease_expires_at now ≡ false))

  -- The job is being processed under a lease that is over, and all its attempts are used up.
  pub record IsExhausted (q : ClaimRequest) (row : Job P) : Type 0 where
    pub started : row.status ≡ known processing
    pub over : lease_over row.lease_expires_at q.claimed_at ≡ true
    pub used_up : q.max_attempts ≤ row.attempt_count
