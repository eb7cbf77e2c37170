-- ===== src/Jobs/Model.antt =====
-- server/app/domain/models/session_post_processing_job.py, and with it the other two job models,
-- which differ in the columns that only they have: the payload. Each reading of the clock is an
-- argument.
use meeting_overlay_assistan.Base.{ℕ, ◌+◌, String, Option, none, some, string_eq}
use Prim.Native.Nat.{max}
use meeting_overlay_assistan.Base.Outcome.{Result, ok, ◌>>◌}
use meeting_overlay_assistan.Session.States.{Time}
use meeting_overlay_assistan.Jobs.Lifecycle.{
  StatusText, known, pending, processing, completed, failed, ensure_job_transition,
}

pub record Job (P : Type 0) : Type 0 where
  pub id : String
  pub session_id : String
  pub payload : P
  pub status : StatusText
  pub error_message : Option String
  pub requested_by_user_id : Option String
  pub claimed_by_worker_id : Option String
  pub lease_expires_at : Option Time
  pub attempt_count : ℕ
  pub created_at : Time
  pub started_at : Option Time
  pub completed_at : Option Time

-- `time or _utc_now_iso()`
abbrev pub or_now : Option Time → Time → Time
or_now none now = now
or_now (some t) now = t

-- `_utc_after_seconds_iso`, with the seconds as the unit of time.
unfoldable pub after_seconds : ℕ → Time → Time
after_seconds seconds now = now + max seconds 1

module _ {P : Type 0} where
  unfoldable pub create_pending : String → String → P → Option String → Time → Job P
  create_pending id session_id payload requested_by_user_id now = record {
    id = id;
    session_id = session_id;
    payload = payload;
    status = known pending;
    error_message = none;
    requested_by_user_id = requested_by_user_id;
    claimed_by_worker_id = none;
    lease_expires_at = none;
    attempt_count = 0;
    created_at = now;
    started_at = none;
    completed_at = none;
  }

  unfoldable pub mark_processing :
      Job P → Option String → Option Time → Option Time → Time → Result (Job P)
  unfolding ensure_job_transition
  mark_processing j claimed_by_worker_id lease_expires_at started_at now = do
    ensure_job_transition j.status processing
    ok (record j {
      status = known processing;
      error_message = none;
      claimed_by_worker_id = claimed_by_worker_id;
      lease_expires_at = lease_expires_at;
      attempt_count = j.attempt_count + 1;
      started_at = some (or_now started_at now);
      completed_at = none;
    })

  unfoldable pub mark_completed : Job P → Time → Time → Result (Job P)
  unfolding ensure_job_transition
  mark_completed j now finished_now = do
    ensure_job_transition j.status completed
    ok (record j {
      status = known completed;
      error_message = none;
      claimed_by_worker_id = none;
      lease_expires_at = none;
      started_at = some (or_now j.started_at now);
      completed_at = some finished_now;
    })

  unfoldable pub mark_failed : Job P → String → Time → Time → Result (Job P)
  unfolding ensure_job_transition
  mark_failed j error_message now finished_now = do
    ensure_job_transition j.status failed
    ok (record j {
      status = known failed;
      error_message = some error_message;
      claimed_by_worker_id = none;
      lease_expires_at = none;
      started_at = some (or_now j.started_at now);
      completed_at = some finished_now;
    })

  unfoldable pub with_lease : Job P → String → ℕ → Time → Time → Result (Job P)
  unfolding mark_processing after_seconds
  with_lease j worker_id lease_seconds now started_now =
      mark_processing j (some worker_id) (some (after_seconds lease_seconds now)) none started_now
