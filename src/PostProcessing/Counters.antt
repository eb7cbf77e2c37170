-- ===== src/PostProcessing/Counters.antt =====
-- The attempts of a job that the recovery queues again.
use meeting_overlay_assistan.Base.{
  ℕ, ◌<◌, String, Bool, true, false, none, some, ◌==◌, string_eq, nat_eq, ltb, ◌≡◌, refl, subst,
  arith, Option-cases, inl, inr,
}
use meeting_overlay_assistan.Base.Dict.{lookup, insert}
use meeting_overlay_assistan.Base.Outcome.{Result, ok, err, value_error, ◌>>=◌}
use meeting_overlay_assistan.Session.Entity.{MeetingSession, queue_post_processing}
use meeting_overlay_assistan.Jobs.Lifecycle.{
  known, pending, processing, failed, status_text_eq, job_status_eq,
}
use meeting_overlay_assistan.Jobs.Model.{create_pending}
use meeting_overlay_assistan.Jobs.Table.{save}
use meeting_overlay_assistan.Jobs.Lookups.{get_latest_by_session}
use meeting_overlay_assistan.Jobs.Kinds.{SessionPostProcessingJob}
use meeting_overlay_assistan.PostProcessing.World.{World}
use meeting_overlay_assistan.PostProcessing.Fencing.{Result-cases}
use meeting_overlay_assistan.PostProcessing.Dispatch.{
  Desk, artifact_id_of, path_of, enqueue_new, enqueue_post_processing,
}
use meeting_overlay_assistan.PostProcessing.Restarts.{enqueued_again, recover_post_processing}
use meeting_overlay_assistan.PostProcessing.Enqueueing.{dispatch_if-jobs}

module _ {F : Type 0} (desk : Desk) (session_id : String) (w : World F) where
  -- A job that waits and counts no attempt is put before the jobs.
  abbrev pub IsRestart : World F → Type 0
  IsRestart w' =
      (j : SessionPostProcessingJob) × ((w'.jobs ≡ save w.jobs j)
        × ((j.status ≡ known pending) × (j.attempt_count ≡ 0)))

  abbrev Restarts : Result (World F × Bool) → Type 0
  Restarts (err e) = Unit
  Restarts (ok (w', queued)) = IsRestart w'

  enqueue_new-Restarts :
      (s : MeetingSession)
      → Restarts (enqueue_new desk session_id none true w s >>= λ enqueued. ok (enqueued.0, true))
  unfolding create_pending
  enqueue_new-Restarts s =
      elim (Result-cases (queue_post_processing s (artifact_id_of desk.artifact) desk.now)) [
        | inl (e, refused) ↦ rw refused tt
        | inr (queued, done) ↦
            let job =
              create_pending desk.job_id session_id
                (record {
                  recording_artifact_id = queued.recording_artifact_id;
                  recording_path = path_of desk.artifact;
                })
                none desk.now in
            let v : World F = record w {
              sessions = insert queued.id queued w.sessions;
              jobs = save w.jobs job;
            } in
            rw done (job, (dispatch_if-jobs desk true desk.job_id v, (refl, refl)))
      ]

  -- A failed job of fewer attempts than the limit is followed by a job that counts its attempts from
  -- 0 again, where the recovery does not raise.
  pub recover_post_processing-IsRestart :
      (max_attempts : ℕ) (default_message : String) (latest : SessionPostProcessingJob)
      (w' : World F) (queued : Bool)
      → get_latest_by_session desk.id_before w.jobs session_id ≡ some latest
      → latest.status ≡ known failed
      → latest.attempt_count < max_attempts
      → recover_post_processing desk max_attempts default_message session_id w ≡ ok (w', queued)
      → IsRestart w'
  unfolding recover_post_processing enqueue_post_processing
  recover_post_processing-IsRestart max_attempts default_message latest w' queued found over few h =
      let not_pending : (latest.status == known pending) ≡ false = ground arith in
      let not_processing : (latest.status == known processing) ≡ false = ground arith in
      let is_failed : (latest.status == known failed) ≡ true = ground arith in
      let below : ltb latest.attempt_count max_attempts ≡ true = ground arith in
      let again : enqueued_again desk session_id w ≡ ok (w', queued) =
        (rw (found, not_pending, not_processing, is_failed, below, recover_post_processing) at h) in
      elim (Option-cases (lookup session_id w.sessions)) [
        | inl missing ↦
            let raised : (enqueue_post_processing desk session_id none true w) ≡ err value_error =
              rw (missing, enqueue_post_processing) refl in
            absurd (ground (arith, raised, again))
        | inr (s, there) ↦
            let same : (enqueue_new desk session_id none true w s >>= λ enqueued.
            ok (enqueued.0, true))
                ≡ ok (w', queued) =
              (rw (there, found, not_processing, not_pending, enqueue_post_processing) at again) in
            subst Restarts same (enqueue_new-Restarts s)
      ]
