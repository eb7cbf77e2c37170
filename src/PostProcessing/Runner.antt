-- ===== src/PostProcessing/Runner.antt =====
-- server/app/contexts/post_processing/application/session_post_processing_runner.py: the run of one
-- job. What other transactions do while the recording is transcribed and while a draft is stored is
-- an argument, and so are the
-- exceptions that the storage may raise; a step that raises changes nothing.
use meeting_overlay_assistan.Base.{
  ℕ, ◌+◌, String, Bool, ◌&&◌, Option, none, some, List, [], ◌∷◌, ◌++◌, ◌==◌, if◌then◌else◌,
  string_eq, nat_eq,
}
use meeting_overlay_assistan.Base.Dict.{lookup, insert}
use meeting_overlay_assistan.Base.Text.{strip, is_empty}
use meeting_overlay_assistan.Base.Outcome.{Error, value_error, Result, ok, err, ◌>>=◌}
use meeting_overlay_assistan.Session.States.{Time}
use meeting_overlay_assistan.Session.Entity.{MeetingSession}
use meeting_overlay_assistan.Jobs.Lifecycle.{known, pending, processing, completed, status_text_eq}
use meeting_overlay_assistan.Jobs.Table.{get_by_id, update}
use meeting_overlay_assistan.Jobs.Table
use meeting_overlay_assistan.Jobs.Lookups.{get_latest_by_session}
use meeting_overlay_assistan.Jobs.Kinds.{
  SessionPostProcessingJob, NoteCorrectionJob, create_pending_correction,
}
use meeting_overlay_assistan.Insight.Events.{MeetingEvent, Platform}
use meeting_overlay_assistan.PostProcessing.Utterances.{
  Utterance, UtteranceTable, Contention, create, draft_source, save,
}
use meeting_overlay_assistan.PostProcessing.Builders.{
  SpeakerTranscriptSegment, utterance_of, build_canonical_utterances, build_canonical_events,
}
use meeting_overlay_assistan.PostProcessing.World.{World}

-- An exception that the storage raises at a step, if it does.
pub record Faults : Type 0 where
  pub replacing : Option Error
  pub restoring : Option Error
  pub restoring_corrections : Option Error
  pub completing_session : Option Error
  pub writing_job : Option Error
  pub enqueuing : Option Error

-- What a run meets outside the process.
pub record Setting (F : Type 0) : Type 0 where
  pub platform : Platform
  pub id_before : String → String → Bool
  pub recording_found : Option String → Option String → Bool
  pub heard : List (SpeakerTranscriptSegment F)
  pub broken_off : Option Error
  pub analyzer : Option (Utterance F → Result (List MeetingEvent))
  pub has_note_service : Bool
  pub has_queue : Bool
  pub publishes : Bool
  pub draft_id : ℕ → String
  pub final_id : ℕ → String
  pub note_id : String
  pub started_at : Time
  pub finalized_at_ms : ℕ
  pub finished_at : Time
  pub message : Error → String
  pub missing_message : String → String
  pub meanwhile : World F → World F
  pub contention : ℕ → Contention F
  pub faults : Faults

-- The answer, unless an exception was raised instead.
abbrev pub unless_broken : {A : Type 0} → Option Error → A → Result A
unless_broken none a = ok a
unless_broken (some e) a = err e

module _ {F : Type 0} where
  abbrev pub save_session : MeetingSession → World F → World F
  save_session s w = record w { sessions = insert s.id s w.sessions }

  -- `persist_provisional_segment`; the number is that of the last draft.
  unfoldable pub persist_provisional_segment :
      Setting F
      → MeetingSession
      → SessionPostProcessingJob
      → SpeakerTranscriptSegment F
      → ℕ
      → UtteranceTable F
      → UtteranceTable F × Result ℕ
  unfolding create save
  persist_provisional_segment env s job segment sequence table =
      let u =
        utterance_of (env.draft_id (sequence + 1)) s.id (some s.primary_input_source) job.id
          draft_source (sequence + 1) segment in
      if is_empty (strip segment.text) then (table, ok sequence) else elim (create u) [
        | err e ↦ (table, err e)
        | ok draft ↦
            let stored = save (env.contention (sequence + 1)) table draft in
            (stored.0, stored.1 >>= λ saved. ok (sequence + 1))
      ]

  unfoldable pub persist_all :
      Setting F
      → MeetingSession
      → SessionPostProcessingJob
      → List (SpeakerTranscriptSegment F)
      → ℕ
      → UtteranceTable F
      → UtteranceTable F × Result ℕ
  unfolding persist_provisional_segment
  persist_all env s job [] sequence table = (table, ok sequence)
  persist_all env s job (segment ∷ rest) sequence table =
      let one = persist_provisional_segment env s job segment sequence table in
      elim one.1 [ err e ↦ (one.0, err e) | ok next ↦ persist_all env s job rest next one.0 ]

  -- The transcription, the utterances and the events, or the first exception among them.
  unfoldable pub build_all :
      Setting F
      → MeetingSession
      → SessionPostProcessingJob
      → Result ℕ
      → Result (List (Utterance F) × List MeetingEvent)
  unfolding build_canonical_utterances build_canonical_events
  build_all env s job drafts = do
    drafted ← drafts
    transcript ← unless_broken env.broken_off env.heard
    utterances ←
        build_canonical_utterances env.final_id s.id (some s.primary_input_source) job.id transcript
    events ← build_canonical_events env.analyzer utterances job.id env.finalized_at_ms
    ok (utterances, events)

  -- `NoteCorrectionJobService.dispatch_job`
  abbrev pub dispatch_note : Setting F → String → World F → World F
  dispatch_note env job_id w =
      if env.has_queue && env.publishes
      then record w { published = w.published ++ job_id ∷ [] }
      else w

  abbrev pub new_note : Setting F → String → ℕ → Option String → World F → World F
  new_note env session_id source_version requested_by w =
      let job =
        create_pending_correction env.note_id session_id source_version requested_by
          env.finished_at in
      dispatch_note env job.id (record w { note_jobs = Table.save w.note_jobs job })

  -- `NoteCorrectionJobService.enqueue_for_session` once the session is there.
  abbrev pub enqueue_latest :
      Setting F → String → ℕ → Option String → World F → Option NoteCorrectionJob → World F
  enqueue_latest env session_id source_version requested_by w none =
      new_note env session_id source_version requested_by w
  enqueue_latest env session_id source_version requested_by w (some latest) =
      if latest.payload.source_version == source_version
      then (if latest.status == known processing
          then w
          else if latest.status == known pending
          then dispatch_note env latest.id w
          else if latest.status == known completed
          then w
          else new_note env session_id source_version requested_by w)
      else new_note env session_id source_version requested_by w

  unfoldable pub enqueue_for_session :
      Setting F → String → ℕ → Option String → World F → Result (World F)
  enqueue_for_session env session_id source_version requested_by w =
      elim (lookup session_id w.sessions) [
        | none ↦ err value_error
        | some s ↦ ok (
            enqueue_latest env session_id source_version requested_by w
              (get_latest_by_session env.id_before w.note_jobs session_id))
      ]
