-- ===== src/PostProcessing/Fencing.antt =====
-- A run whose claim is lost while the recording is transcribed.
use meeting_overlay_assistan.Base.{
  or_text, ◌≡◌, ◌⊎◌, refl, inl, inr, String, Bool, true, false, Option, string_eq, nat_eq,
}
use meeting_overlay_assistan.Base.Outcome.{Error, stale_job_claim, Result, ok, err}
use meeting_overlay_assistan.Session.Entity.{MeetingSession}
use meeting_overlay_assistan.Jobs.Lifecycle.{status_text_eq}
use meeting_overlay_assistan.Jobs.Kinds.{SessionPostProcessingJob}
use meeting_overlay_assistan.Jobs.Fence.{is_claim_held, ensure_claim_held}
use meeting_overlay_assistan.PostProcessing.World.{World}
use meeting_overlay_assistan.PostProcessing.Canonical.{CanonicalStateSnapshot, snapshot}
use meeting_overlay_assistan.PostProcessing.Runner.{Setting, build_all}
use meeting_overlay_assistan.PostProcessing.Runs.{
  publish_results, transcribed, drafted, attempt, stored_or, handle, run_started,
}

pub Result-cases {ℓ} :
    {A : Type ℓ} (r : Result A) → ((e : Error) × (r ≡ err e)) ⊎ ((a : A) × (r ≡ ok a))
Result-cases (err e) = inl (e, refl)
Result-cases (ok a) = inr (a, refl)

module _ {F : Type 0} (env : Setting F) where
  handle-unheld :
      (job : SessionPostProcessingJob) (fence : Option String) (before : CanonicalStateSnapshot F)
      (w : World F) (replaced : Bool) (e : Error)
      → is_claim_held w.jobs job.id fence ≡ false
      → handle env job fence before w replaced (err e) ≡ (w, ok (stored_or job w))
  handle-unheld job fence before w replaced stale_job_claim h = refl
  handle-unheld job fence before w replaced e h = rw h refl

  -- When the claim is lost by the time the recording is transcribed, the run writes nothing any
  -- more, whatever the transcription and the analysis answered: the tables stay as the drafts and
  -- the other transactions left them, and the answer is the job as it is stored.
  pub run_started-unheld :
      (s : MeetingSession) (job : SessionPostProcessingJob) (expected : Option String) (w : World F)
      → env.recording_found job.payload.recording_artifact_id job.payload.recording_path ≡ true
      → is_claim_held
          (transcribed env s job w).jobs
          job.id
          (or_text expected job.claimed_by_worker_id)
        ≡ false
      → run_started env s job expected w
        ≡ (transcribed env s job w, ok (stored_or job (transcribed env s job w)))
  unfolding run_started attempt publish_results ensure_claim_held
  run_started-unheld s job expected w found lost =
      let fence = or_text expected job.claimed_by_worker_id in
      let w1 = transcribed env s job w in
      elim (Result-cases (build_all env s job (drafted env s job w))) [
        | inl (e, failed) ↦
            rw (found, failed)
              (handle-unheld job fence (snapshot env.platform w s.id) w1 false e lost)
        | inr (built, done) ↦ rw (found, done, lost) refl
      ]
