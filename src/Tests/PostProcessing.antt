-- ===== src/Tests/PostProcessing.antt =====
-- Runs of post-processing jobs at concrete inputs.
use meeting_overlay_assistan.Base.{
  or_text, ℕ, ◌==◌, ◌++◌, Bool-cases, inl, inr, true, false, Option, none, some, [], ◌∷◌, ◌≡◌, ◌≢◌,
  refl, string_eq, option_eq, nat_eq, if◌then◌else◌, arith,
}
use meeting_overlay_assistan.Base.Rows.{keep_if}
use meeting_overlay_assistan.Base.Integers.{pos}
use meeting_overlay_assistan.Base.Text.{strip, is_space}
use meeting_overlay_assistan.Base.Outcome.{Error, ok, err, runtime_error, stale_job_claim}
use meeting_overlay_assistan.Session.States.{
  meeting, ended, processing, no_recovery, fresh_post_processing, post_processing_status_eq,
  allowed_transitions, ensure_post_processing_transition,
}
use meeting_overlay_assistan.Session.Entity.{MeetingSession, mark_post_processing_completed}
use meeting_overlay_assistan.Jobs.Lifecycle
use meeting_overlay_assistan.Jobs.Lifecycle.{
  known, status_text_eq, job_status_eq, ensure_job_transition,
}
use meeting_overlay_assistan.Jobs.Model.{mark_completed}
use meeting_overlay_assistan.Jobs.Table.{get_by_id}
use meeting_overlay_assistan.Jobs.Kinds.{SessionPostProcessingJob}
use meeting_overlay_assistan.Jobs.Fence.{is_claim_held, ensure_claim_held}
use meeting_overlay_assistan.Insight.Events.{Platform}
use meeting_overlay_assistan.PostProcessing.Utterances.{
  Utterance, save, is_duplicate, has_id, UtteranceTable, Contention, is_taken, create,
  next_sequence, last_sequence, delete_by_session, try_save,
}
use meeting_overlay_assistan.PostProcessing.Builders.{
  SpeakerTranscriptSegment, build_canonical_utterances, build_canonical_events, build_from,
}
use meeting_overlay_assistan.PostProcessing.World.{World, TranscriptCorrectionDocument}
use meeting_overlay_assistan.PostProcessing.Canonical.{discard_provisional, replace}
use meeting_overlay_assistan.PostProcessing.Runner.{
  Setting, persist_all, persist_provisional_segment, build_all,
}
use meeting_overlay_assistan.PostProcessing.Runs.{
  transcribed, drafted, attempt, run_started, stored_or, publish_results, complete_session,
  complete_job,
}
use meeting_overlay_assistan.PostProcessing.Fencing.{run_started-unheld}
use meeting_overlay_assistan.PostProcessing.Recovery.{IsQuiet, SameView, run_started-SameView}
use meeting_overlay_assistan.PostProcessing.Restoring.{Restores, run_started-restored}
use meeting_overlay_assistan.PostProcessing.Retries.{IsOwn, Saves, save-IsStored, save-known}
use meeting_overlay_assistan.Base.Dict.{lookup}

abbrev plain : Platform
plain = record { lower = λ s. s; is_word = λ c. true; tie = λ a b. false }

abbrev spoken : SpeakerTranscriptSegment ℕ
spoken = record {
  speaker_label = some "A";
  start_ms = pos 0;
  end_ms = pos 5;
  text = "yes";
  confidence = 1;
}

abbrev row : Utterance ℕ
row = record {
  id = "utt-1";
  session_id = "session-1";
  seq_num = 1;
  start_ms = pos 0;
  end_ms = pos 4;
  text = "no";
  confidence = 1;
  input_source = none;
  stt_backend = none;
  latency_ms = none;
  speaker_label = none;
  transcript_source = "live";
  processing_job_id = none;
}

abbrev session : MeetingSession
session = record {
  id = "session-1";
  title = "Plan";
  mode = meeting;
  primary_input_source = "mic";
  status = ended;
  started_at = 1;
  created_by_user_id = none;
  account_id = none;
  contact_id = none;
  context_thread_id = none;
  ended_at = some 2;
  recording_artifact_id = none;
  recovery = no_recovery;
  post_processing = record fresh_post_processing { status = processing };
  actual_active_sources = [];
  participant_links = [];
}

abbrev job : SessionPostProcessingJob
job = record {
  id = "job-1";
  session_id = "session-1";
  payload = record { recording_artifact_id = none; recording_path = some "a.wav" };
  status = known Lifecycle.processing;
  error_message = none;
  requested_by_user_id = none;
  claimed_by_worker_id = some "worker-1";
  lease_expires_at = none;
  attempt_count = 1;
  created_at = 3;
  started_at = some 4;
  completed_at = none;
}

abbrev world : World ℕ
world = record {
  sessions = ("session-1", session) ∷ [];
  jobs = job ∷ [];
  note_jobs = [];
  published = [];
  dispatched = [];
  utterances = row ∷ [];
  events = [];
  corrections = [];
}

abbrev alone : Contention ℕ
alone = record {
  before_insert = λ n table. table;
  before_read = λ n table. table;
  broken = λ n. none;
}

abbrev setting : Option Error → Option Error → (World ℕ → World ℕ) → Setting ℕ
setting broken_off writing_job meanwhile = record {
  platform = plain;
  id_before = λ a b. false;
  recording_found = λ artifact path. true;
  heard = spoken ∷ [];
  broken_off = broken_off;
  analyzer = none;
  has_note_service = true;
  has_queue = true;
  publishes = true;
  draft_id = λ n. "draft";
  final_id = λ n. "final";
  note_id = "note-1";
  started_at = 5;
  finalized_at_ms = 6;
  finished_at = 7;
  message = λ e. "failed";
  missing_message = λ id. "missing";
  meanwhile = meanwhile;
  contention = λ n. alone;
  faults = record {
    replacing = none;
    restoring = none;
    restoring_corrections = none;
    completing_session = none;
    writing_job = writing_job;
    enqueuing = none;
  };
}

abbrev losing : Setting ℕ
losing = setting none none (λ w. record w { jobs = [] })

claim_lost :
    is_claim_held
      (transcribed losing session job world).jobs
      "job-1"
      (or_text (some "worker-1") (some "worker-1"))
    ≡ false
unfolding is_claim_held transcribed get_by_id
claim_lost = refl

run_started-unheld_example : run_started losing session job (some "worker-1") world ≡ (
  transcribed losing session job world,
  ok (stored_or job (transcribed losing session job world)),
)
run_started-unheld_example =
    run_started-unheld losing session job (some "worker-1") world refl claim_lost

abbrev breaking : Setting ℕ
breaking = setting (some runtime_error) none (λ w. w)

breaking-IsQuiet : IsQuiet breaking
breaking-IsQuiet = record {
  utterances = λ v. refl;
  events = λ v. refl;
  corrections = λ v. refl;
  contention = λ n. record { before_insert = λ m table. refl; before_read = λ m table. refl };
}

broken_early : (attempt breaking session job (some "worker-1") world).replaced ≡ false
unfolding attempt drafted build_all persist_all persist_provisional_segment strip is_space create
    save try_save is_duplicate has_id is_taken next_sequence last_sequence string_eq nat_eq
    discard_provisional delete_by_session keep_if
broken_early = refl

run_started-SameView_example :
    SameView (run_started breaking session job (some "worker-1") world).0 world
run_started-SameView_example =
    run_started-SameView breaking session job (some "worker-1") world breaking-IsQuiet broken_early

abbrev failing : Setting ℕ
failing = setting none (some runtime_error) (λ w. w)

broken_late : (attempt failing session job (some "worker-1") world).replaced ≡ true
unfolding attempt drafted transcribed build_all persist_all persist_provisional_segment strip
    is_space create save try_save is_duplicate has_id is_taken next_sequence last_sequence string_eq
    nat_eq discard_provisional delete_by_session keep_if build_canonical_utterances
    build_canonical_events build_from publish_results ensure_claim_held is_claim_held get_by_id
    status_text_eq option_eq complete_session mark_post_processing_completed
    ensure_post_processing_transition allowed_transitions post_processing_status_eq complete_job
    mark_completed ensure_job_transition Lifecycle.allowed_transitions job_status_eq
broken_late = refl

broken_answer : (attempt failing session job (some "worker-1") world).answer ≡ err runtime_error
unfolding attempt drafted transcribed build_all persist_all persist_provisional_segment strip
    is_space create save try_save is_duplicate has_id is_taken next_sequence last_sequence string_eq
    nat_eq discard_provisional delete_by_session keep_if build_canonical_utterances
    build_canonical_events build_from publish_results ensure_claim_held is_claim_held get_by_id
    status_text_eq option_eq complete_session mark_post_processing_completed
    ensure_post_processing_transition allowed_transitions post_processing_status_eq complete_job
    mark_completed ensure_job_transition Lifecycle.allowed_transitions job_status_eq
broken_answer = refl

still_held :
    is_claim_held
      (attempt failing session job (some "worker-1") world).world.jobs
      "job-1"
      (some "worker-1")
    ≡ true
unfolding attempt drafted transcribed build_all persist_all persist_provisional_segment strip
    is_space create save try_save is_duplicate has_id is_taken next_sequence last_sequence string_eq
    nat_eq discard_provisional delete_by_session keep_if build_canonical_utterances
    build_canonical_events build_from publish_results ensure_claim_held is_claim_held get_by_id
    status_text_eq option_eq complete_session mark_post_processing_completed
    ensure_post_processing_transition allowed_transitions post_processing_status_eq complete_job
    mark_completed ensure_job_transition Lifecycle.allowed_transitions job_status_eq replace
still_held = refl

not_stale : ◌≢◌ {A = Error} runtime_error stale_job_claim
not_stale h = absurd (ground (arith, h))

no_document :
    (d : TranscriptCorrectionDocument)
    → lookup "session-1" world.corrections ≡ some d
    → d.session_id ≡ "session-1"
unfolding lookup
no_document d h = absurd (ground (arith, h))

run_started-restored_example :
    Restores plain "session-1" none none world
      (attempt failing session job (some "worker-1") world).world
      (run_started failing session job (some "worker-1") world).0
run_started-restored_example =
    run_started-restored failing session job (some "worker-1") world runtime_error refl broken_late
      broken_answer not_stale still_held no_document

-- Another transaction takes the number 2 before the second insert.
abbrev rival : Contention ℕ
rival = record {
  before_insert =
      λ n table. if n == 1 then table ++ record row { id = "utt-2"; seq_num = 2 } ∷ [] else table;
  before_read = λ n table. table;
  broken = λ n. none;
}

abbrev third : Utterance ℕ
third = record row { id = "utt-3" }

rival-IsOwn : IsOwn rival "utt-3"
unfolding has_id string_eq
rival-IsOwn = record {
  before_insert = λ n table free. rival_brings n table free;
  before_read = λ n table free. free;
  sound = λ n. refl;
}
  where
    has_id-last :
        (table : UtteranceTable ℕ)
        → has_id table "utt-3" ≡ false
        → has_id (table ++ record row { id = "utt-2"; seq_num = 2 } ∷ []) "utt-3" ≡ false
    has_id-last [] free = refl
    has_id-last (u ∷ rest) free = ground (arith, has_id-last rest)

    rival_brings :
        (n : ℕ) (table : UtteranceTable ℕ)
        → has_id table "utt-3" ≡ false
        → has_id (rival.before_insert n table) "utt-3" ≡ false
    rival_brings n table free = elim (Bool-cases (n == 1)) [
      | inl second ↦ rw second (has_id-last table free)
      | inr other ↦ rw other free
    ]

third_fresh : has_id (row ∷ []) "utt-3" ≡ false
unfolding has_id string_eq
third_fresh = refl

rival_last : (met : UtteranceTable ℕ) → rival.before_insert 0 met ≡ met
unfolding nat_eq
rival_last met = refl

save-IsStored_example : Saves third (save rival (row ∷ []) third)
save-IsStored_example = save-IsStored rival third rival-IsOwn (row ∷ []) third_fresh rival_last

row_known : has_id (row ∷ []) "utt-1" ≡ true
unfolding has_id string_eq
row_known = refl

save-known_example : (save alone (row ∷ []) row).1 ≡ err runtime_error
save-known_example =
    save-known alone row (row ∷ []) (λ m. refl) (λ m rows known. known) (λ m rows known. known)
      row_known
