-- ===== src/PostProcessing/Restarts.antt =====
-- server/app/contexts/post_processing/application/post_meeting_pipeline_recovery_service.py: what the
-- recovery at startup does for the post-processing and for the note correction of one session. A
-- lease is an instant, so that its text can always be read.
use meeting_overlay_assistan.Base.{
  ℕ, String, Bool, true, false, ◌&&◌, Option, none, some, ◌==◌, ◌!=◌, if◌then◌else◌, string_eq,
  nat_eq, ltb,
}
use meeting_overlay_assistan.Base.Dict.{lookup}
use meeting_overlay_assistan.Base.Outcome.{Result, ok, ◌>>=◌}
use meeting_overlay_assistan.Session.States.{Time, post_processing_status_eq}
use meeting_overlay_assistan.Session.States
use meeting_overlay_assistan.Session.Entity.{MeetingSession, mark_post_processing_failed}
use meeting_overlay_assistan.Jobs.Lifecycle.{known, pending, processing, failed, status_text_eq}
use meeting_overlay_assistan.Jobs.Table.{lease_over}
use meeting_overlay_assistan.Jobs.Lookups.{get_latest_by_session}
use meeting_overlay_assistan.Jobs.Kinds.{SessionPostProcessingJob, NoteCorrectionJob}
use meeting_overlay_assistan.PostProcessing.World.{World}
use meeting_overlay_assistan.PostProcessing.Runner.{
  Setting, save_session, dispatch_note, enqueue_for_session,
}
use meeting_overlay_assistan.PostProcessing.Dispatch.{Desk, dispatch_job, enqueue_post_processing}

abbrev pub is_job_stalled : Option Time → Time → Bool
is_job_stalled lease_expires_at now = lease_over lease_expires_at now

-- `error_message or "…"`, a text that is never missing.
abbrev pub text_or : Option String → String → String
text_or none default = default
text_or (some String.[]) default = default
text_or (some (String.◌∷◌ c s)) default = String.◌∷◌ c s

-- The latest job, if it is about the version.
abbrev pub note_of : ℕ → Option NoteCorrectionJob → Option NoteCorrectionJob
note_of source_version none = none
note_of source_version (some latest) =
    if latest.payload.source_version == source_version then some latest else none

module _ {F : Type 0} where
  abbrev pub fail_if_processing : Desk → String → World F → Option MeetingSession → Result (World F)
  fail_if_processing desk error_message w none = ok w
  fail_if_processing desk error_message w (some s) =
      if s.post_processing.status != States.processing
      then ok w
      else (mark_post_processing_failed s error_message none desk.now >>= λ marked.
          ok (save_session marked w))

  unfoldable pub mark_session_post_processing_failed :
      Desk → String → String → World F → Result (World F)
  unfolding mark_post_processing_failed
  mark_session_post_processing_failed desk session_id error_message w =
      fail_if_processing desk error_message w (lookup session_id w.sessions)

  abbrev pub enqueued_again : Desk → String → World F → Result (World F × Bool)
  enqueued_again desk session_id w =
      enqueue_post_processing desk session_id none true w >>= λ enqueued. ok (enqueued.0, true)

  abbrev pub recover_latest :
      Desk
      → ℕ
      → String
      → String
      → World F
      → Option SessionPostProcessingJob
      → Result (World F × Bool)
  recover_latest desk max_attempts default_message session_id w none =
      enqueued_again desk session_id w
  recover_latest desk max_attempts default_message session_id w (some latest) =
      if latest.status == known pending
      then ok (dispatch_job desk latest.id w)
      else if latest.status == known processing && is_job_stalled latest.lease_expires_at desk.now
      then ok (dispatch_job desk latest.id w)
      else if latest.status == known failed && ltb latest.attempt_count max_attempts
      then enqueued_again desk session_id w
      else if latest.status == known failed
      then (mark_session_post_processing_failed desk session_id
            (text_or latest.error_message default_message) w
          >>= λ w'. ok (w', false))
      else ok (w, false)

  -- `_recover_post_processing`
  unfoldable pub recover_post_processing :
      Desk → ℕ → String → String → World F → Result (World F × Bool)
  unfolding enqueue_post_processing dispatch_job mark_session_post_processing_failed
  recover_post_processing desk max_attempts default_message session_id w =
      recover_latest desk max_attempts default_message session_id w
        (get_latest_by_session desk.id_before w.jobs session_id)

  abbrev pub recover_note :
      Setting F
      → ℕ
      → Time
      → String
      → ℕ
      → World F
      → Option NoteCorrectionJob
      → Result (World F × Bool)
  recover_note env max_attempts now session_id source_version w none =
      enqueue_for_session env session_id source_version none w >>= λ w'. ok (w', true)
  recover_note env max_attempts now session_id source_version w (some current) =
      if current.status == known pending
      then ok (dispatch_note env current.id w, env.has_queue && env.publishes)
      else if current.status == known processing && is_job_stalled current.lease_expires_at now
      then ok (dispatch_note env current.id w, env.has_queue && env.publishes)
      else if current.status == known failed && ltb current.attempt_count max_attempts
      then (enqueue_for_session env session_id source_version none w >>= λ w'. ok (w', true))
      else ok (w, false)

  -- `_recover_note_correction`
  unfoldable pub recover_note_correction :
      Setting F → ℕ → Time → String → ℕ → World F → Result (World F × Bool)
  unfolding enqueue_for_session
  recover_note_correction env max_attempts now session_id source_version w =
      recover_note env max_attempts now session_id source_version w
        (note_of source_version (get_latest_by_session env.id_before w.note_jobs session_id))
