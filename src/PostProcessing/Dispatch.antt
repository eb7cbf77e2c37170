-- ===== src/PostProcessing/Dispatch.antt =====
-- server/app/contexts/post_processing/application/session_post_processing_dispatch.py: a job is
-- enqueued for a session and published, and workers take the jobs that can be claimed.
use meeting_overlay_assistan.Base.{
  String, Bool, true, false, ◌&&◌, Option, none, some, List, [], ◌∷◌, ◌++◌, ◌==◌, if◌then◌else◌,
  string_eq,
}
use meeting_overlay_assistan.Base.Dict.{lookup}
use meeting_overlay_assistan.Base.Outcome.{Result, ok, err, value_error, ◌>>=◌}
use meeting_overlay_assistan.Session.States.{Time}
use meeting_overlay_assistan.Session.Entity.{MeetingSession, queue_post_processing}
use meeting_overlay_assistan.Jobs.Lifecycle.{known, pending, processing, status_text_eq}
use meeting_overlay_assistan.Jobs.Model.{create_pending}
use meeting_overlay_assistan.Jobs.Table.{save, ClaimRequest, claim_available}
use meeting_overlay_assistan.Jobs.Lookups.{get_latest_by_session}
use meeting_overlay_assistan.Jobs.Kinds.{SessionPostProcessingJob}
use meeting_overlay_assistan.PostProcessing.World.{World}
use meeting_overlay_assistan.PostProcessing.Runner.{Setting, save_session}
use meeting_overlay_assistan.PostProcessing.Runs.{process_job}

-- A recording in the artifact store, an old one without an id.
pub record RecordingArtifact : Type 0 where
  pub artifact_id : Option String
  pub file_path : String

-- What enqueueing takes from outside: the queue, the drawn id, the clock and the recording.
pub record Desk : Type 0 where
  pub id_before : String → String → Bool
  pub has_queue : Bool
  pub publishes : Bool
  pub job_id : String
  pub now : Time
  pub artifact : Option RecordingArtifact

abbrev pub artifact_id_of : Option RecordingArtifact → Option String
artifact_id_of none = none
artifact_id_of (some a) = a.artifact_id

abbrev pub path_of : Option RecordingArtifact → Option String
path_of none = none
path_of (some a) = some a.file_path

module _ {F : Type 0} where
  unfoldable pub dispatch_job : Desk → String → World F → World F × Bool
  dispatch_job desk job_id w =
      if desk.has_queue && desk.publishes
      then (record w { dispatched = w.dispatched ++ job_id ∷ [] }, true)
      else (w, false)

  abbrev pub dispatch_if : Desk → Bool → String → World F → World F
  dispatch_if desk dispatch job_id w = if dispatch then (dispatch_job desk job_id w).0 else w

  abbrev pub enqueue_new :
      Desk
      → String
      → Option String
      → Bool
      → World F
      → MeetingSession
      → Result (World F × SessionPostProcessingJob)
  enqueue_new desk session_id requested_by dispatch w s = do
    queued_session ← queue_post_processing s (artifact_id_of desk.artifact) desk.now
    let job =
        create_pending desk.job_id session_id
          (record {
            recording_artifact_id = queued_session.recording_artifact_id;
            recording_path = path_of desk.artifact;
          })
          requested_by desk.now
    let saved = save_session queued_session w
    ok (dispatch_if desk dispatch job.id (record saved { jobs = save w.jobs job }), job)

  abbrev pub enqueue_after :
      Desk
      → String
      → Option String
      → Bool
      → World F
      → MeetingSession
      → Option SessionPostProcessingJob
      → Result (World F × SessionPostProcessingJob)
  enqueue_after desk session_id requested_by dispatch w s none =
      enqueue_new desk session_id requested_by dispatch w s
  enqueue_after desk session_id requested_by dispatch w s (some latest) =
      if latest.status == known processing
      then ok (w, latest)
      else if latest.status == known pending
      then (queue_post_processing s latest.payload.recording_artifact_id desk.now
          >>= λ queued_session.
              ok (dispatch_if desk dispatch latest.id (save_session queued_session w), latest))
      else enqueue_new desk session_id requested_by dispatch w s

  unfoldable pub enqueue_post_processing :
      Desk → String → Option String → Bool → World F → Result (World F × SessionPostProcessingJob)
  unfolding queue_post_processing create_pending dispatch_job
  enqueue_post_processing desk session_id requested_by dispatch w =
      elim (lookup session_id w.sessions) [
        | none ↦ err value_error
        | some s ↦
            enqueue_after desk session_id requested_by dispatch w s
              (get_latest_by_session desk.id_before w.jobs session_id)
      ]

  -- The jobs in their order; an exception leaves the later ones to their leases.
  unfoldable pub process_all :
      (SessionPostProcessingJob → Setting F)
      → String
      → List SessionPostProcessingJob
      → World F
      → World F × Result (List SessionPostProcessingJob)
  unfolding process_job
  process_all settings worker_id [] w = (w, ok [])
  process_all settings worker_id (job ∷ rest) w =
      let one = process_job (settings job) job.id (some worker_id) w in
      let others = process_all settings worker_id rest one.0 in
      elim one.1 [
        | err e ↦ (one.0, err e)
        | ok done ↦ (others.0, others.1 >>= λ dones. ok (done ∷ dones))
      ]

  unfoldable pub process_available_jobs :
      (SessionPostProcessingJob → Setting F)
      → ClaimRequest
      → World F
      → World F × Result (List SessionPostProcessingJob)
  unfolding process_all claim_available
  process_available_jobs settings request w = elim (claim_available request w.jobs) [
    | err e ↦ (w, err e)
    | ok claimed ↦ process_all settings request.worker_id claimed.1 (record w { jobs = claimed.0 })
  ]

  unfoldable pub process_latest_pending_for_session :
      Setting F → String → World F → World F × Result (Option SessionPostProcessingJob)
  unfolding process_job
  process_latest_pending_for_session env session_id w =
      elim (get_latest_by_session env.id_before w.jobs session_id) [
        | none ↦ (w, ok none)
        | some latest ↦
            if latest.status == known pending
            then (let done = process_job env latest.id none w in
                (done.0, done.1 >>= λ job. ok (some job)))
            else (w, ok (some latest))
      ]
