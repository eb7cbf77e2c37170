-- ===== src/Tests/Services.antt =====
-- Enqueueing and the status of the pipeline at concrete inputs.
use meeting_overlay_assistan.Base.{
  ℕ, ◌<◌, arith, Bool, true, false, none, some, [], ◌∷◌, ◌≡◌, refl, string_eq,
}
use meeting_overlay_assistan.Base.Dict.{lookup, insert}
use meeting_overlay_assistan.Base.Rows.{keep_if, sort_by, insert_by}
use meeting_overlay_assistan.Base.Outcome.{ok}
use meeting_overlay_assistan.Session.States.{
  meeting, ended, queued, no_recovery, fresh_post_processing, session_status_eq,
  post_processing_status_eq, allowed_transitions, ensure_post_processing_transition,
  ensure_session_ended_for_post_processing,
}
use meeting_overlay_assistan.Session.States
use meeting_overlay_assistan.Session.Entity.{
  mark_post_processing_failed, MeetingSession, queue_post_processing,
}
use meeting_overlay_assistan.Jobs.Model.{create_pending}
use meeting_overlay_assistan.Jobs.Table.{save}
use meeting_overlay_assistan.Jobs.Lookups.{get_latest_by_session}
use meeting_overlay_assistan.Jobs.Kinds.{SessionPostProcessingJob}
use meeting_overlay_assistan.PostProcessing.World.{World}
use meeting_overlay_assistan.PostProcessing.Dispatch.{Desk, dispatch_job, enqueue_post_processing}
use meeting_overlay_assistan.PostProcessing.Enqueueing.{
  IsEnqueued, enqueue_post_processing-IsEnqueued,
}
use meeting_overlay_assistan.PostProcessing.Restarts.{
  recover_post_processing, mark_session_post_processing_failed,
}
use meeting_overlay_assistan.PostProcessing.Counters.{IsRestart, recover_post_processing-IsRestart}
use meeting_overlay_assistan.Jobs.Lifecycle.{known, status_text_eq, job_status_eq}
use meeting_overlay_assistan.Jobs.Lifecycle
use meeting_overlay_assistan.Reporting.Status.{
  build_final_report_status, resolve_pipeline_status, normalized_status, note_status, current_note,
  completed, completed_stage,
}
use meeting_overlay_assistan.Base.Text.{strip, is_space}
use meeting_overlay_assistan.PostProcessing.Attendance.{
  IsKeyed, IsLookedAfter, recover_post_processing-IsLookedAfter,
}
use meeting_overlay_assistan.Reporting.Completion.{build_final_report_status-completed}

abbrev session : MeetingSession
session = record {
  id = "session-1";
  title = "Plan";
  mode = meeting;
  primary_input_source = "mic";
  status = ended;
  started_at = 1;
  created_by_user_id = none;
  account_id = none;
  contact_id = none;
  context_thread_id = none;
  ended_at = some 2;
  recording_artifact_id = none;
  recovery = no_recovery;
  post_processing = fresh_post_processing;
  actual_active_sources = [];
  participant_links = [];
}

abbrev before : World ℕ
before = record {
  sessions = ("session-1", session) ∷ [];
  jobs = [];
  note_jobs = [];
  published = [];
  dispatched = [];
  utterances = [];
  events = [];
  corrections = [];
}

abbrev desk : Desk
desk = record {
  id_before = λ a b. false;
  has_queue = true;
  publishes = true;
  job_id = "job-1";
  now = 7;
  artifact = none;
}

abbrev job : SessionPostProcessingJob
unfolding create_pending
job =
    create_pending "job-1" "session-1"
      (record { recording_artifact_id = none; recording_path = none }) none 7

abbrev after : World ℕ
after = record before {
  sessions =
      (
        "session-1",
        record session {
          post_processing = record fresh_post_processing { status = queued; requested_at = some 7 };
        },
      )
      ∷ [];
  jobs = job ∷ [];
  dispatched = "job-1" ∷ [];
}

enqueued : enqueue_post_processing desk "session-1" none true before ≡ ok (after, job)
unfolding enqueue_post_processing lookup string_eq get_latest_by_session sort_by keep_if
    queue_post_processing ensure_session_ended_for_post_processing ensure_post_processing_transition
    allowed_transitions session_status_eq post_processing_status_eq create_pending save insert
    dispatch_job
enqueued = refl

enqueue_post_processing-IsEnqueued_example : IsEnqueued "session-1" before after job
enqueue_post_processing-IsEnqueued_example =
    enqueue_post_processing-IsEnqueued desk "session-1" none true before after job enqueued

all_done : (build_final_report_status (λ s. s) true "completed" 1 none none true).status ≡ completed
unfolding build_final_report_status resolve_pipeline_status normalized_status note_status strip
    is_space current_note string_eq
all_done = refl

build_final_report_status-completed_example :
    let answer = build_final_report_status (λ s. s) true "completed" 1 none none true in
    (answer.pipeline_stage ≡ completed_stage)
    × (answer.warning_reason ≡ none)
    × (◌≡◌ {A = Bool} true true)
    × (◌≡◌ {A = Bool} true true)
build_final_report_status-completed_example =
    build_final_report_status-completed (λ s. s) true "completed" 1 none none true refl all_done

abbrev spent : SessionPostProcessingJob
spent = record job { status = known Lifecycle.failed; attempt_count = 1 }

abbrev stopped : World ℕ
stopped = record before { jobs = spent ∷ [] }

abbrev restarted : World ℕ
restarted = record after { jobs = job ∷ spent ∷ [] }

spent_latest : get_latest_by_session desk.id_before stopped.jobs "session-1" ≡ some spent
unfolding get_latest_by_session sort_by insert_by keep_if string_eq job
spent_latest = refl

queued_again : recover_post_processing desk 3 "failed" "session-1" stopped ≡ ok (restarted, true)
unfolding recover_post_processing enqueue_post_processing lookup string_eq get_latest_by_session
    sort_by insert_by keep_if queue_post_processing ensure_session_ended_for_post_processing
    ensure_post_processing_transition allowed_transitions session_status_eq
    post_processing_status_eq create_pending save insert dispatch_job status_text_eq job_status_eq
queued_again = refl

one_below_three : ◌<◌ 1 3
one_below_three = omega arith

recover_post_processing-IsRestart_example : IsRestart desk "session-1" stopped restarted
recover_post_processing-IsRestart_example =
    recover_post_processing-IsRestart desk "session-1" stopped 3 "failed" spent restarted true
      spent_latest refl one_below_three queued_again

-- The session waits for the job that was given up.
abbrev stranded : MeetingSession
stranded = record session {
  post_processing = record fresh_post_processing { status = States.processing };
}

abbrev marked : MeetingSession
marked = record stranded {
  post_processing = record fresh_post_processing {
    status = States.failed;
    error_message = some "failed";
    completed_at = some 7;
  };
}

abbrev waiting : World ℕ
waiting = record stopped { sessions = ("session-1", stranded) ∷ [] }

abbrev closed : World ℕ
closed = record waiting { sessions = ("session-1", marked) ∷ [] }

given_up : recover_post_processing desk 1 "failed" "session-1" waiting ≡ ok (closed, false)
unfolding recover_post_processing mark_session_post_processing_failed lookup insert string_eq
    get_latest_by_session sort_by insert_by keep_if post_processing_status_eq status_text_eq
    job_status_eq mark_post_processing_failed ensure_post_processing_transition allowed_transitions
given_up = refl

waiting-IsKeyed : IsKeyed "session-1" waiting
unfolding lookup string_eq
waiting-IsKeyed s h = ground (arith, h)

recover_post_processing-IsLookedAfter_example : IsLookedAfter desk "session-1" waiting closed
recover_post_processing-IsLookedAfter_example =
    recover_post_processing-IsLookedAfter desk "session-1" waiting 1 "failed" closed false
      waiting-IsKeyed given_up
