-- ===== src/Jobs/Fence.antt =====
-- server/app/workers/job_claim_fence.py.
pub mod Safety
use meeting_overlay_assistan.Base.{
  String, Option, none, some, Bool, true, false, not, ◌&&◌, ◌==◌, if◌then◌else◌, string_eq,
  option_eq, ◌!=◌,
}
use meeting_overlay_assistan.Base.Outcome.{
  Result, ok, err, value_error, stale_job_claim, ◌>>=◌, raise_if, ◌>>◌,
}
use meeting_overlay_assistan.Session.States.{Time}
use meeting_overlay_assistan.Jobs.Lifecycle.{known, processing, completed, status_text_eq}
use meeting_overlay_assistan.Jobs.Model.{Job, mark_processing}
use meeting_overlay_assistan.Jobs.Table.{Table, get_by_id, update, update_if_claimed}

module _ {P : Type 0} where
  abbrev pub holds : String → Option (Job P) → Bool
  holds worker_id none = false
  holds worker_id (some current) =
      current.status == known processing && current.claimed_by_worker_id == some worker_id

  unfoldable pub is_claim_held : Table P → String → Option String → Bool
  is_claim_held table job_id none = true
  is_claim_held table job_id (some worker_id) = holds worker_id (get_by_id table job_id)

  unfoldable pub ensure_claim_held : Table P → Job P → Option String → Result (Unit {0})
  unfolding is_claim_held
  ensure_claim_held table job worker_id =
      raise_if (not (is_claim_held table job.id worker_id)) stale_job_claim

  -- The table comes back beside the answer, which is the job written or the exception.
  unfoldable pub write_claimed_job : Table P → Job P → Option String → Table P × Result (Job P)
  unfolding update update_if_claimed
  write_claimed_job table job none = (update table job, ok job)
  write_claimed_job table job (some worker_id) =
      let (table', written) = update_if_claimed table job worker_id in
      (table', if written then ok job else err stale_job_claim)

  abbrev resolve_found : Table P → Option String → Time → Time → Job P → Table P × Result (Job P)
  resolve_found table none now started_now job =
      if job.status == known completed
      then (table, ok job)
      else if job.status == known processing
      then (table, ok job)
      else elim (mark_processing job none none (some now) started_now) [
        | ok marked ↦ (update table marked, ok marked)
        | err e ↦ (table, err e)
      ]
  resolve_found table (some worker_id) now started_now job =
      if job.status == known completed
      then (table, ok job)
      else if job.status == known processing
      then (if job.claimed_by_worker_id == some worker_id
          then (table, ok job)
          else (table, err value_error))
      else (table, err value_error)

  unfoldable pub resolve_processing_job :
      Table P → String → Option String → Time → Time → Table P × Result (Job P)
  unfolding get_by_id mark_processing
  resolve_processing_job table job_id expected_worker_id now started_now =
      elim (get_by_id table job_id) [
        | none ↦ (table, err value_error)
        | some job ↦ resolve_found table expected_worker_id now started_now job
      ]
