-- ===== src/PostProcessing/Recovery.antt =====
-- Runs that raise: what is left of the canonical state.
use meeting_overlay_assistan.Base.{
  or_text, ◌≡◌, refl, sym, ap, subst, ◌∙◌, arith, ℕ, Bool-cases, inl, inr, String, Bool, false,
  Option, none, some, if◌then◌else◌, string_eq, nat_eq,
}
use meeting_overlay_assistan.Base.Dict.{lookup}
use meeting_overlay_assistan.Base.Outcome.{Error, stale_job_claim, Result, ok, err}
use meeting_overlay_assistan.Session.Entity.{MeetingSession, mark_post_processing_failed}
use meeting_overlay_assistan.Jobs.Lifecycle.{status_text_eq}
use meeting_overlay_assistan.Jobs.Model.{mark_failed}
use meeting_overlay_assistan.Jobs.Kinds.{SessionPostProcessingJob}
use meeting_overlay_assistan.Jobs.Fence.{is_claim_held, write_claimed_job}
use meeting_overlay_assistan.PostProcessing.Fencing.{Result-cases}
use meeting_overlay_assistan.PostProcessing.World.{World}
use meeting_overlay_assistan.PostProcessing.Canonical.{
  CanonicalStateSnapshot, snapshot, discard_provisional, restore,
}
use meeting_overlay_assistan.PostProcessing.Runner.{Setting, save_session}
use meeting_overlay_assistan.PostProcessing.Runs.{
  transcribed, attempt, recover, handle, run_started,
}
use meeting_overlay_assistan.PostProcessing.Views.{
  visible, IsUnseen, visible-delete, transcribed-visible,
}
use meeting_overlay_assistan.PostProcessing.Runs.{fail_session, after_write}
use meeting_overlay_assistan.PostProcessing.Ends.{unpublished, attempt-IsEither}

module _ {F : Type 0} where
  -- The two have the same transcript, the same events and the same corrections.
  pub record SameCanonical (a b : World F) : Type 0 where
    pub utterances : a.utterances ≡ b.utterances
    pub events : a.events ≡ b.events
    pub corrections : a.corrections ≡ b.corrections

  SameCanonical-refl : (a : World F) → SameCanonical a a
  SameCanonical-refl a = record { utterances = refl; events = refl; corrections = refl }

  pub SameCanonical-trans :
      (a b c : World F) → SameCanonical a b → SameCanonical b c → SameCanonical a c
  SameCanonical-trans a b c x y = record {
    utterances = x.utterances ∙ y.utterances;
    events = x.events ∙ y.events;
    corrections = x.corrections ∙ y.corrections;
  }

  after_write-same :
      (job : SessionPostProcessingJob) (w : World F) (r : Result SessionPostProcessingJob)
      → SameCanonical (after_write job w r).0 w
  after_write-same job w (ok written) = SameCanonical-refl w
  after_write-same job w (err stale_job_claim) = SameCanonical-refl w
  after_write-same job w (err e) = ground (arith, SameCanonical-refl w)

  module _ (env : Setting F) (job : SessionPostProcessingJob) (e : Error) where
    fail_session-same :
        (w v : World F) (found : Option MeetingSession)
        → fail_session env job e w found ≡ ok v
        → SameCanonical v w
    fail_session-same w v none h = record {
      utterances = ground arith;
      events = ground arith;
      corrections = ground arith;
    }
    fail_session-same w v (some latest) h =
        elim (Result-cases (
          mark_post_processing_failed latest (env.message e) job.payload.recording_artifact_id
            env.finished_at)) [
              | inl (raised, refused) ↦ absurd (ground arith)
              | inr (failed, marked) ↦
                  let same : v ≡ save_session failed w = ground arith in
                  subst (λ (x : World F). SameCanonical x w) (sym same)
                    (record { utterances = refl; events = refl; corrections = refl })
            ]

    -- Where the except clause takes the canonical state.
    abbrev pub recovered : CanonicalStateSnapshot F → Bool → World F → World F
    recovered before replaced w =
        if replaced
        then restore env.faults.restoring env.faults.restoring_corrections job.session_id before w
        else discard_provisional job.session_id w

    pub recover-same :
        (fence : Option String) (before : CanonicalStateSnapshot F) (replaced : Bool) (w : World F)
        → SameCanonical (recover env job fence before replaced e w).0 (recovered before replaced w)
    unfolding recover
    recover-same fence before replaced w =
        let w1 = recovered before replaced w in
        elim (Result-cases (fail_session env job e w1 (lookup job.session_id w1.sessions))) [
          | inl (raised, refused) ↦ rw (refused, recover) (SameCanonical-refl w1)
          | inr (w2, saved) ↦
              let same = fail_session-same w1 w2 (lookup job.session_id w1.sessions) saved in
              elim (Result-cases (mark_failed job (env.message e) env.started_at env.finished_at)) [
                | inl (raised, refused) ↦ rw (saved, refused, recover) same
                | inr (failed_job, marked) ↦
                    let written = write_claimed_job w2.jobs failed_job fence in
                    let w3 : World F = record w2 { jobs = written.0 } in
                    let kept : SameCanonical w3 w1 = record {
                      utterances = same.utterances;
                      events = same.events;
                      corrections = same.corrections;
                    } in
                    rw (saved, marked, recover)
                      (SameCanonical-trans (after_write job w3 written.1).0 w3 w1
                        (after_write-same job w3 written.1) kept)
              ]
        ]

    -- What holds of the tables as they are and as the except clause leaves them holds of the end.
    handle-either :
        (P : World F → Type 0) (fence : Option String) (before : CanonicalStateSnapshot F)
        (replaced : Bool) (w : World F) (x : Error)
        → P w
        → P (recover env job fence before replaced x w).0
        → P (handle env job fence before w replaced (err x)).0
    handle-either P fence before replaced w stale_job_claim stay left = stay
    handle-either P fence before replaced w x stay left =
        elim (Bool-cases (is_claim_held w.jobs job.id fence)) [
          | inl held ↦ rw held left
          | inr lost ↦ rw lost stay
        ]

  -- The other transactions write no visible transcript, no event and no correction.
  pub record IsQuiet (env : Setting F) : Type 0 where
    pub utterances : (v : World F) → visible (env.meanwhile v).utterances ≡ visible v.utterances
    pub events : (v : World F) → (env.meanwhile v).events ≡ v.events
    pub corrections : (v : World F) → (env.meanwhile v).corrections ≡ v.corrections
    pub contention : (n : ℕ) → IsUnseen (env.contention n)

  -- The two show the same: the rows that are no drafts, the events and the corrections.
  pub record SameView (a b : World F) : Type 0 where
    pub utterances : visible a.utterances ≡ visible b.utterances
    pub events : a.events ≡ b.events
    pub corrections : a.corrections ≡ b.corrections

  module _ (env : Setting F) (s : MeetingSession) (job : SessionPostProcessingJob) where
    unpublished-SameView : (w : World F) → IsQuiet env → SameView (unpublished env s job w) w
    unfolding transcribed discard_provisional
    unpublished-SameView w quiet =
        elim (Bool-cases
          (env.recording_found job.payload.recording_artifact_id job.payload.recording_path)) [
            | inr missing ↦
                rw missing (record { utterances = refl; events = refl; corrections = refl })
            | inl found ↦ rw found (record {
              utterances = transcribed-visible env s job quiet.contention w quiet.utterances;
              events = quiet.events _;
              corrections = quiet.corrections _;
            })
          ]

    recovered-SameView :
        (e : Error) (fence : Option String) (before : CanonicalStateSnapshot F) (w v : World F)
        → SameView v w
        → SameView (recover env job fence before false e v).0 w
    unfolding discard_provisional
    recovered-SameView e fence before w v h =
        let same = recover-same env job e fence before false v in
        record {
          utterances =
              ap visible same.utterances
              ∙ (visible-delete v.utterances job.session_id ∙ h.utterances);
          events = same.events ∙ h.events;
          corrections = same.corrections ∙ h.corrections;
        }

    -- A run that ends before it replaces the canonical state, whatever the reason, leaves the visible
    -- transcript, the events and the corrections as they were, if the other transactions do.
    pub run_started-SameView :
        (expected : Option String) (w : World F)
        → IsQuiet env
        → (attempt env s job (or_text expected job.claimed_by_worker_id) w).replaced ≡ false
        → SameView (run_started env s job expected w).0 w
    unfolding run_started
    run_started-SameView expected w quiet early =
        let fence = or_text expected job.claimed_by_worker_id in
        let before = snapshot env.platform w s.id in
        let outcome = attempt env s job fence w in
        let stood : outcome.world ≡ unpublished env s job w =
          elim (attempt-IsEither env s job fence w) [
            | inl late ↦ absurd (ground arith)
            | inr both ↦ both.1
          ] in
        let shown : SameView outcome.world w =
          subst (λ (x : World F). SameView x w) (sym stood) (unpublished-SameView w quiet) in
        elim (Result-cases outcome.answer) [
          | inr (answer, done) ↦ rw done shown
          | inl (e, raised) ↦
              rw (raised, early)
                (handle-either env job e (λ (x : World F). SameView x w) fence before false
                  outcome.world e shown (recovered-SameView e fence before w outcome.world shown))
        ]
