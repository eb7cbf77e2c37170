-- ===== src/PostProcessing/Ends.antt =====
-- How the try block ends: with the canonical state replaced, or before it touched it.
use meeting_overlay_assistan.Base.{
  ◌≡◌, ◌⊎◌, refl, arith, Bool-cases, Option-cases, inl, inr, String, true, false, Option, List,
  if◌then◌else◌, string_eq, nat_eq,
}
use meeting_overlay_assistan.Base.Outcome.{Result, ok, err}
use meeting_overlay_assistan.Session.Entity.{MeetingSession, mark_post_processing_completed}
use meeting_overlay_assistan.Jobs.Lifecycle.{status_text_eq}
use meeting_overlay_assistan.Jobs.Model.{mark_completed}
use meeting_overlay_assistan.Jobs.Kinds.{SessionPostProcessingJob}
use meeting_overlay_assistan.Jobs.Fence.{ensure_claim_held, write_claimed_job}
use meeting_overlay_assistan.Insight.Events.{MeetingEvent}
use meeting_overlay_assistan.PostProcessing.Fencing.{Result-cases}
use meeting_overlay_assistan.PostProcessing.Utterances.{Utterance}
use meeting_overlay_assistan.PostProcessing.World.{World}
use meeting_overlay_assistan.PostProcessing.Canonical.{replace}
use meeting_overlay_assistan.PostProcessing.Runner.{Setting, save_session, build_all}
use meeting_overlay_assistan.PostProcessing.Runs.{
  Outcome, enqueue_correction, publish_results, transcribed, drafted, attempt,
}
use meeting_overlay_assistan.PostProcessing.Runs.{after_job, complete_job, complete_session}

module _ {F : Type 0} (env : Setting F) where
  abbrev IsReplaced : Outcome F → Type 0
  IsReplaced o = o.replaced ≡ true

  enqueue_correction-IsReplaced :
      (done : MeetingSession) (job completed_job : SessionPostProcessingJob) (w : World F)
      → IsReplaced (enqueue_correction env done job completed_job w)
  unfolding enqueue_correction
  enqueue_correction-IsReplaced done job completed_job w = ground arith

  after_job-IsReplaced :
      (done : MeetingSession) (job : SessionPostProcessingJob) (w : World F)
      (answer : Result SessionPostProcessingJob)
      → IsReplaced (after_job env done job w answer)
  unfolding after_job
  after_job-IsReplaced done job w (err e) = refl
  after_job-IsReplaced done job w (ok completed_job) =
      enqueue_correction-IsReplaced done job completed_job w

  complete_job-IsReplaced :
      (done : MeetingSession) (job : SessionPostProcessingJob) (fence : Option String) (w : World F)
      → IsReplaced (complete_job env done job fence w)
  unfolding complete_job
  complete_job-IsReplaced done job fence w =
      elim (Result-cases (mark_completed job env.started_at env.finished_at)) [
        | inl (e, refused) ↦ rw refused refl
        | inr (completed_job, marked) ↦ elim (Option-cases env.faults.writing_job) [
          | inr (e, broken) ↦ rw (marked, broken) refl
          | inl quiet ↦
              let written = write_claimed_job w.jobs completed_job fence in
              rw (marked, quiet)
                (after_job-IsReplaced done job (record w { jobs = written.0 }) written.1)
        ]
      ]

  complete_session-IsReplaced :
      (s : MeetingSession) (job : SessionPostProcessingJob) (fence : Option String) (w : World F)
      → IsReplaced (complete_session env s job fence w)
  unfolding complete_session
  complete_session-IsReplaced s job fence w =
      elim (Result-cases
        (mark_post_processing_completed s job.payload.recording_artifact_id env.finished_at)) [
          | inl (e, refused) ↦ rw refused refl
          | inr (done, marked) ↦ elim (Option-cases env.faults.completing_session) [
            | inr (e, broken) ↦ rw (marked, broken) refl
            | inl quiet ↦
                rw (marked, quiet) (complete_job-IsReplaced done job fence (save_session done w))
          ]
        ]

  -- The block ends with the canonical state replaced, or with the tables as it found them.
  abbrev pub IsEither : World F → Outcome F → Type 0
  IsEither w o = (o.replaced ≡ true) ⊎ ((o.replaced ≡ false) × (o.world ≡ w))

  publish_results-IsEither :
      (s : MeetingSession) (job : SessionPostProcessingJob) (fence : Option String) (w : World F)
      (us : List (Utterance F)) (es : List MeetingEvent)
      → IsEither w (publish_results env s job fence w us es)
  unfolding publish_results
  publish_results-IsEither s job fence w us es =
      elim (Result-cases (ensure_claim_held w.jobs job fence)) [
        | inl (e, lost) ↦ inr (rw lost refl, rw lost refl)
        | inr (held, kept) ↦ elim (Option-cases env.faults.replacing) [
          | inr (e, broken) ↦ inr (rw (kept, broken) refl, rw (kept, broken) refl)
          | inl quiet ↦ inl (
              rw (kept, quiet)
                (complete_session-IsReplaced s job fence (replace env.platform s.id us es w)))
        ]
      ]

  -- Where the try block stands when it ends without having replaced the canonical state.
  abbrev pub unpublished : MeetingSession → SessionPostProcessingJob → World F → World F
  unpublished s job w =
      if env.recording_found job.payload.recording_artifact_id job.payload.recording_path
      then transcribed env s job w
      else w

  pub attempt-IsEither :
      (s : MeetingSession) (job : SessionPostProcessingJob) (fence : Option String) (w : World F)
      → IsEither (unpublished s job w) (attempt env s job fence w)
  unfolding attempt
  attempt-IsEither s job fence w =
      elim (Bool-cases
        (env.recording_found job.payload.recording_artifact_id job.payload.recording_path)) [
          | inr missing ↦ rw missing (inr (refl, refl))
          | inl found ↦ elim (Result-cases (build_all env s job (drafted env s job w))) [
            | inl (e, failed) ↦ rw (found, failed) (inr (refl, refl))
            | inr (built, done) ↦
                rw (found, done)
                  (publish_results-IsEither s job fence (transcribed env s job w) built.0 built.1)
          ]
        ]
