-- ===== src/Jobs/Attempts/Counted.antt =====
-- What each event keeps and counts, and that enqueuing a job and renewing a lease do.
use meeting_overlay_assistan.Base.{
  ℕ, ◌+◌, ◌≤◌, String, ◌≡◌, Option, none, some, map, if◌then◌else◌, string_eq, option_eq, contains,
  arith, inl, inr, Bool-cases,
}
use mathlib.Core.Option
use meeting_overlay_assistan.Base.Distinct.{IsDistinct}
use meeting_overlay_assistan.Session.States.{Time}
use meeting_overlay_assistan.Jobs.Lifecycle.{known, pending, status_text_eq}
use meeting_overlay_assistan.Jobs.Model.{Job, create_pending}
use meeting_overlay_assistan.Jobs.Table.{Table, get_by_id, save, renew_lease, is_fenced}
use meeting_overlay_assistan.Jobs.Table.Rows.{ids, ids-map, get_by_id-map, get_by_id-absent}
use meeting_overlay_assistan.Jobs.History.{Event, enqueues, claims, renews, step, handovers}

module _ {P : Type 0} where
  -- A job that waits has no attempt behind it, and no job has more than `m`.
  abbrev pub IsWithin : ℕ → Job P → Type 0
  IsWithin m row = (row.status ≡ known pending → row.attempt_count ≡ 0) × (row.attempt_count ≤ m)

  -- No claim of the history allows more than `m` attempts.
  abbrev pub Allows : ℕ → Event P → Type 0
  Allows m (claims q) = q.max_attempts ≤ m
  Allows m _ = Unit

  abbrev pub WithinAt : ℕ → Option (Job P) → Type 0
  WithinAt m none = Unit
  WithinAt m (some row) = IsWithin m row

  pub record IsSound (m : ℕ) (table : Table P) : Type 0 where
    pub distinct : IsDistinct (ids table)
    pub within : (id : String) → WithinAt m (get_by_id table id)

  abbrev pub attempts_of : Option (Job P) → ℕ
  attempts_of none = 0
  attempts_of (some row) = row.attempt_count

  abbrev pub attempts : Table P → String → ℕ
  attempts table id = attempts_of (get_by_id table id)

  -- One event keeps the table sound and counts the handovers as attempts.
  abbrev pub IsCounted : ℕ → Table P → Event P → Type 0
  IsCounted m table e =
      IsSound m (step table e)
      × ((id : String) → attempts (step table e) id ≡ attempts table id + handovers table e id)

  pub enqueues-IsCounted :
      (m : ℕ) (table : Table P) (id session_id : String) (payload : P) (user : Option String)
      (now : Time)
      → IsSound m table
      → IsCounted m table (enqueues id session_id payload user now)
  unfolding step handovers save get_by_id create_pending
  enqueues-IsCounted m table id session_id payload user now s =
      elim (Bool-cases (contains (ids table) id)) [
        | inl taken ↦ rw (taken, step) (s, λ i. omega arith)
        | inr free ↦
            rw (free, step)
              (
                record { distinct = (free, s.distinct); within = λ i. ground (arith, s.within i) },
                λ i. ground (arith, get_by_id-absent table id),
              )
      ]

  renewed : String → String → Time → Job P → Job P
  renewed id worker_id until row =
      if is_fenced id worker_id row then record row { lease_expires_at = some until } else row

  pub renews-IsCounted :
      (m : ℕ) (table : Table P) (id worker_id : String) (until : Time)
      → IsSound m table
      → IsCounted m table (renews id worker_id until)
  unfolding step handovers renew_lease renewed
  renews-IsCounted m table id worker_id until s = (
    record {
      distinct = rw (ids-map (renewed id worker_id until) keeps_id table) s.distinct;
      within = λ i. rw (found i) (within-map (get_by_id table i) (s.within i));
    },
    λ i. ground (arith, found i),
  )
    where
      keeps_id : (row : Job P) → (renewed id worker_id until row).id ≡ row.id
      keeps_id row = ground arith

      found :
          (i : String)
          → get_by_id (map (renewed id worker_id until) table) i
            ≡ Option.map (renewed id worker_id until) (get_by_id table i)
      found i = get_by_id-map (renewed id worker_id until) keeps_id table i

      within-map :
          (o : Option (Job P))
          → WithinAt m o
          → WithinAt m (Option.map (renewed id worker_id until) o)
      within-map none w = tt
      within-map (some row) w = ground arith
