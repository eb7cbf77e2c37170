-- ===== src/PostProcessing/Runs.antt =====
-- server/app/contexts/post_processing/application/session_post_processing_runner.py: `process_job`, its
-- try block and its two except clauses.
use meeting_overlay_assistan.Base.{
  or_text, ℕ, ◌-◌, String, Bool, true, false, Option, none, some, List, ◌==◌, if◌then◌else◌,
  string_eq, nat_eq,
}
use meeting_overlay_assistan.Base.Dict.{lookup}
use meeting_overlay_assistan.Base.Outcome.{
  Error, stale_job_claim, value_error, Result, ok, err, ◌>>=◌,
}
use meeting_overlay_assistan.Session.Entity.{
  MeetingSession, mark_post_processing_started, mark_post_processing_completed,
  mark_post_processing_failed,
}
use meeting_overlay_assistan.Jobs.Lifecycle.{known, completed, status_text_eq}
use meeting_overlay_assistan.Jobs.Model.{mark_completed, mark_failed}
use meeting_overlay_assistan.Jobs.Table.{get_by_id, update}
use meeting_overlay_assistan.Jobs.Kinds.{SessionPostProcessingJob}
use meeting_overlay_assistan.Jobs.Fence.{
  is_claim_held, ensure_claim_held, write_claimed_job, resolve_processing_job,
}
use meeting_overlay_assistan.Insight.Events.{MeetingEvent}
use meeting_overlay_assistan.PostProcessing.Utterances.{Utterance, next_sequence}
use meeting_overlay_assistan.PostProcessing.World.{World}
use meeting_overlay_assistan.PostProcessing.Canonical.{
  CanonicalStateSnapshot, snapshot, replace, discard_provisional, restore,
}
use meeting_overlay_assistan.PostProcessing.Runner.{
  Setting, unless_broken, save_session, persist_all, build_all, enqueue_for_session,
}

-- Where the try block ends: the tables, `canonical_replaced`, and the job or the exception.
pub record Outcome (F : Type 0) : Type 0 where
  pub world : World F
  pub replaced : Bool
  pub answer : Result SessionPostProcessingJob

-- `self._repository.get_by_id(processing_job.id) or processing_job`
abbrev pub found_or :
    SessionPostProcessingJob → Option SessionPostProcessingJob → SessionPostProcessingJob
found_or job none = job
found_or job (some found) = found

module _ {F : Type 0} where
  abbrev pub ended : World F → Bool → Result SessionPostProcessingJob → Outcome F
  ended w replaced answer = record { world = w; replaced = replaced; answer = answer }

  -- The exception ends the block.
  abbrev pub on_ok : {A : Type 0} → World F → Bool → Result A → (A → Outcome F) → Outcome F
  on_ok w replaced (err e) rest = ended w replaced (err e)
  on_ok w replaced (ok a) rest = rest a

  unfoldable pub enqueue_correction :
      Setting F
      → MeetingSession
      → SessionPostProcessingJob
      → SessionPostProcessingJob
      → World F
      → Outcome F
  unfolding enqueue_for_session
  enqueue_correction env done job completed_job w =
      if env.has_note_service
      then on_ok w true (unless_broken env.faults.enqueuing tt) (λ quiet.
        on_ok w true
          (enqueue_for_session env done.id done.post_processing.canonical_transcript_version
            job.requested_by_user_id w)
          (λ w'. ended w' true (ok completed_job)))
      else ended w true (ok completed_job)

  -- The block once the job's row is written.
  unfoldable pub after_job :
      Setting F
      → MeetingSession
      → SessionPostProcessingJob
      → World F
      → Result SessionPostProcessingJob
      → Outcome F
  unfolding enqueue_correction
  after_job env done job w answer =
      on_ok w true answer (λ completed_job. enqueue_correction env done job completed_job w)

  -- The block from the completion of the job on.
  unfoldable pub complete_job :
      Setting F → MeetingSession → SessionPostProcessingJob → Option String → World F → Outcome F
  unfolding after_job mark_completed write_claimed_job
  complete_job env done job fence w =
      on_ok w true (mark_completed job env.started_at env.finished_at) (λ completed_job.
        on_ok w true
          (unless_broken env.faults.writing_job (write_claimed_job w.jobs completed_job fence))
          (λ written. after_job env done job (record w { jobs = written.0 }) written.1))

  -- The block from the completion of the session on.
  unfoldable pub complete_session :
      Setting F → MeetingSession → SessionPostProcessingJob → Option String → World F → Outcome F
  unfolding complete_job mark_post_processing_completed
  complete_session env s job fence w =
      on_ok w true
        (mark_post_processing_completed s job.payload.recording_artifact_id env.finished_at)
        (λ done.
          on_ok w true (unless_broken env.faults.completing_session (save_session done w))
            (λ w'. complete_job env done job fence w'))

  -- The block from the check of the claim on.
  unfoldable pub publish_results :
      Setting F
      → MeetingSession
      → SessionPostProcessingJob
      → Option String
      → World F
      → List (Utterance F)
      → List MeetingEvent
      → Outcome F
  unfolding complete_session replace ensure_claim_held
  publish_results env s job fence w utterances events =
      on_ok w false (ensure_claim_held w.jobs job fence) (λ held.
        on_ok w false
          (unless_broken env.faults.replacing (replace env.platform s.id utterances events w))
          (λ w'. complete_session env s job fence w'))

  -- The tables once the drafts are stored and the other transactions ran.
  unfoldable pub transcribed :
      Setting F → MeetingSession → SessionPostProcessingJob → World F → World F
  unfolding persist_all discard_provisional
  transcribed env s job w =
      let w0 = discard_provisional s.id w in
      let drafts =
        persist_all env s job env.heard (next_sequence w0.utterances s.id - 1) w0.utterances in
      env.meanwhile (record w0 { utterances = drafts.0 })

  unfoldable pub drafted :
      Setting F → MeetingSession → SessionPostProcessingJob → World F → Result ℕ
  unfolding persist_all discard_provisional
  drafted env s job w =
      let w0 = discard_provisional s.id w in
      (persist_all env s job env.heard (next_sequence w0.utterances s.id - 1) w0.utterances).1

  -- The try block.
  unfoldable pub attempt :
      Setting F → MeetingSession → SessionPostProcessingJob → Option String → World F → Outcome F
  unfolding publish_results transcribed drafted build_all
  attempt env s job fence w =
      if env.recording_found job.payload.recording_artifact_id job.payload.recording_path
      then (let w1 = transcribed env s job w in
          on_ok w1 false (build_all env s job (drafted env s job w))
            (λ built. publish_results env s job fence w1 built.0 built.1))
      else ended w false (err value_error)

  abbrev pub stored_or : SessionPostProcessingJob → World F → SessionPostProcessingJob
  stored_or job w = found_or job (get_by_id w.jobs job.id)

  abbrev pub after_write :
      SessionPostProcessingJob
      → World F
      → Result SessionPostProcessingJob
      → World F × Result SessionPostProcessingJob
  after_write job w (ok written) = (w, ok written)
  after_write job w (err stale_job_claim) = (w, ok (stored_or job w))
  after_write job w (err e) = (w, err e)

  abbrev pub fail_session :
      Setting F
      → SessionPostProcessingJob
      → Error
      → World F
      → Option MeetingSession
      → Result (World F)
  fail_session env job e w none = ok w
  fail_session env job e w (some latest) =
      mark_post_processing_failed latest (env.message e) job.payload.recording_artifact_id
        env.finished_at
      >>= λ failed. ok (save_session failed w)

  -- The except clause, once the claim is known to be held.
  unfoldable pub recover :
      Setting F
      → SessionPostProcessingJob
      → Option String
      → CanonicalStateSnapshot F
      → Bool
      → Error
      → World F
      → World F × Result SessionPostProcessingJob
  unfolding restore discard_provisional mark_post_processing_failed mark_failed write_claimed_job
  recover env job fence before replaced e w =
      let w1 =
        if replaced
        then restore env.faults.restoring env.faults.restoring_corrections job.session_id before w
        else discard_provisional job.session_id w in
      elim (fail_session env job e w1 (lookup job.session_id w1.sessions)) [
        | err raised ↦ (w1, err raised)
        | ok w2 ↦ elim (mark_failed job (env.message e) env.started_at env.finished_at) [
          | err raised ↦ (w2, err raised)
          | ok failed_job ↦
              let written = write_claimed_job w2.jobs failed_job fence in
              after_write job (record w2 { jobs = written.0 }) written.1
        ]
      ]

  -- What becomes of the try block's end.
  abbrev pub handle :
      Setting F
      → SessionPostProcessingJob
      → Option String
      → CanonicalStateSnapshot F
      → World F
      → Bool
      → Result SessionPostProcessingJob
      → World F × Result SessionPostProcessingJob
  handle env job fence before w replaced (ok answer) = (w, ok answer)
  handle env job fence before w replaced (err stale_job_claim) = (w, ok (stored_or job w))
  handle env job fence before w replaced (err e) =
      if is_claim_held w.jobs job.id fence
      then recover env job fence before replaced e w
      else (w, ok (stored_or job w))

  -- The run from the session's start on.
  unfoldable pub run_started :
      Setting F
      → MeetingSession
      → SessionPostProcessingJob
      → Option String
      → World F
      → World F × Result SessionPostProcessingJob
  unfolding attempt recover is_claim_held snapshot
  run_started env s job expected w =
      let fence = or_text expected job.claimed_by_worker_id in
      let outcome = attempt env s job fence w in
      handle env job fence (snapshot env.platform w s.id) outcome.world outcome.replaced
        outcome.answer

  abbrev pub process_found :
      Setting F
      → SessionPostProcessingJob
      → Option String
      → World F
      → Option MeetingSession
      → World F × Result SessionPostProcessingJob
  process_found env job expected w none =
      elim (mark_failed job (env.missing_message job.session_id) env.started_at env.finished_at) [
        | err e ↦ (w, err e)
        | ok failed_job ↦ (record w { jobs = update w.jobs failed_job }, ok failed_job)
      ]
  process_found env job expected w (some s) =
      elim (mark_post_processing_started s job.payload.recording_artifact_id env.started_at) [
        | err e ↦ (w, err e)
        | ok started ↦ run_started env started job expected (save_session started w)
      ]

  unfoldable pub process_job :
      Setting F → String → Option String → World F → World F × Result SessionPostProcessingJob
  unfolding resolve_processing_job mark_failed mark_post_processing_started run_started update
  process_job env job_id expected w =
      let resolved = resolve_processing_job w.jobs job_id expected env.started_at env.started_at in
      let w0 : World F = record w { jobs = resolved.0 } in
      elim resolved.1 [
        | err e ↦ (w0, err e)
        | ok job ↦
            if job.status == known completed
            then (w0, ok job)
            else process_found env job expected w0 (lookup job.session_id w0.sessions)
      ]
