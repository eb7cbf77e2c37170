-- ===== src/Jobs/Attempts.antt =====
-- How often a job can be handed out: no more often than the configured number of attempts.
pub mod Counted
pub mod Claims
pub mod Finishes
use meeting_overlay_assistan.Base.{
  ℕ, ◌+◌, ◌≤◌, String, ◌≡◌, ◌≢◌, refl, Option, none, some, Bool, true, false, List, [], ◌∷◌, map,
  if◌then◌else◌, string_eq, option_eq, contains, arith, Option-cases, inl, inr, Bool-cases, sym,
  subst,
}
use mathlib.Core.Option
use meeting_overlay_assistan.Base.Lists.{All}
use meeting_overlay_assistan.Base.Distinct.{IsDistinct}
use meeting_overlay_assistan.Base.Outcome.{Result, ok, err, stale_job_claim}
use meeting_overlay_assistan.Session.States.{Time}
use meeting_overlay_assistan.Jobs.Lifecycle.{known, pending, status_text_eq}
use meeting_overlay_assistan.Jobs.Model.{Job, create_pending, mark_completed, mark_failed}
use meeting_overlay_assistan.Jobs.Table.{
  Table, get_by_id, update, save, renew_lease, is_fenced, exhaust_row, is_available, ClaimRequest,
}
use meeting_overlay_assistan.Jobs.Table.Rows.{
  ids, ids-map, get_by_id-map, get_by_id-update, get_by_id-absent, id_of_get_by_id,
}
use meeting_overlay_assistan.Jobs.Table.Writes.{leased, exhausted, ids-update}
use meeting_overlay_assistan.Jobs.Table.Claims.{IsClaim, claim_available-IsClaim}
use meeting_overlay_assistan.Jobs.Fence.{holds}
use meeting_overlay_assistan.Jobs.Fence.Safety.{write_claimed_job_lem}
use meeting_overlay_assistan.Jobs.History.{
  handed_out, Finish, completes, fails, Event, enqueues, claims, renews, finishes, finish,
  write_finished, finish_found, step, handovers, run, total_handovers,
}
use meeting_overlay_assistan.Jobs.Attempts.Counted.{
  IsWithin, Allows, WithinAt, IsSound, attempts_of, attempts, IsCounted, enqueues-IsCounted,
  renews-IsCounted,
}
use meeting_overlay_assistan.Jobs.Attempts.Claims.{claims-IsCounted}
use meeting_overlay_assistan.Jobs.Attempts.Finishes.{finishes-IsCounted}

module _ {P : Type 0} where
  step-IsCounted :
      (m : ℕ) (table : Table P) (e : Event P)
      → Allows m e
      → 1 ≤ m
      → IsSound m table
      → IsCounted m table e
  step-IsCounted m table (enqueues id session_id payload user now) a p s =
      enqueues-IsCounted m table id session_id payload user now s
  step-IsCounted m table (claims q) a p s = claims-IsCounted m table q a p s
  step-IsCounted m table (renews id w until) a p s = renews-IsCounted m table id w until s
  step-IsCounted m table (finishes id w how now finished_now) a p s =
      finishes-IsCounted m table id w how now finished_now s

  run-IsCounted :
      (m : ℕ) (table : Table P) (es : List (Event P)) (id : String)
      → All (Allows m) es
      → 1 ≤ m
      → IsSound m table
      → IsSound m (run table es)
        × (attempts (run table es) id ≡ attempts table id + total_handovers table es id)
  unfolding run total_handovers
  run-IsCounted m table [] id a p s = (s, omega arith)
  run-IsCounted m table (e ∷ es) id a p s =
      let (sound, counted) = step-IsCounted m table e a.0 p s in
      let (end, total) = run-IsCounted m (step table e) es id a.1 p sound in
      (end, omega (arith, counted id, total))

  attempts_bound : (m : ℕ) (o : Option (Job P)) → WithinAt m o → attempts_of o ≤ m
  attempts_bound m none w = omega arith
  attempts_bound m (some row) w = w.1

-- From an empty table, whatever services enqueue and workers claim, renew and finish, in any order,
-- each job is handed to a worker at most `m` times, if no claim allows more than `m` attempts and
-- `m` is at least one.
pub total_handovers-le :
    {P : Type 0} (m : ℕ) (events : List (Event P)) (id : String)
    → All (Allows m) events
    → 1 ≤ m
    → total_handovers [] events id ≤ m
unfolding get_by_id
total_handovers-le {P} m events id a p =
    let (sound, total) = run-IsCounted m [] events id a p start in
    omega (arith, total, attempts_bound m (get_by_id (run [] events) id) (sound.within id))
  where
    start : IsSound {P = P} m []
    start = record { distinct = tt; within = λ i. tt }
