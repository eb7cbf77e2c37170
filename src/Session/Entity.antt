-- ===== src/Session/Entity.antt =====
-- server/app/domain/session/meeting_session.py and session_state_machine.py. The entity is frozen:
-- a transition returns a new session or raises. Each reading of the clock is an argument, and so
-- is the id that `uuid4` draws.
use meeting_overlay_assistan.Base.{
  ◌+◌, String, Bool, true, false, ◌||◌, Option, none, some, List, [], ◌∷◌, ◌++◌, ◌==◌, contains,
  if◌then◌else◌, string_eq, or_text,
}
use meeting_overlay_assistan.Base.Text.{strip, is_empty}
use meeting_overlay_assistan.Base.Outcome.{Result, ok, err, value_error, raise_if, ◌>>◌}
use meeting_overlay_assistan.Session.States.{
  Time, SessionMode, AudioSource, SessionStatus, draft, running, ended, queued, processing,
  completed, failed, RecoveryState, no_recovery, PostProcessingState, fresh_post_processing,
  source_value, session_status_eq, recovery_state_eq, post_processing_status_eq,
  ensure_post_processing_transition, ensure_session_ended_for_post_processing,
}
use meeting_overlay_assistan.Session.Participants.{
  SessionParticipant, normalize_session_participants,
}

pub record MeetingSession : Type 0 where
  pub id : String
  pub title : String
  pub mode : SessionMode
  pub primary_input_source : String
  pub status : SessionStatus
  pub started_at : Time
  pub created_by_user_id : Option String
  pub account_id : Option String
  pub contact_id : Option String
  pub context_thread_id : Option String
  pub ended_at : Option Time
  pub recording_artifact_id : Option String
  pub recovery : RecoveryState
  pub post_processing : PostProcessingState
  pub actual_active_sources : List String
  pub participant_links : List SessionParticipant

-- What a caller says of a new session.
pub record DraftRequest : Type 0 where
  pub title : String
  pub mode : SessionMode
  pub source : AudioSource
  pub created_by_user_id : Option String
  pub account_id : Option String
  pub contact_id : Option String
  pub context_thread_id : Option String
  pub participants : Option (List String)
  pub participant_links : Option (List SessionParticipant)

unfoldable pub create_draft : (String → String) → DraftRequest → String → Time → MeetingSession
create_draft casefold r id now = record {
  id = id;
  title = r.title;
  mode = r.mode;
  primary_input_source = source_value r.source;
  status = draft;
  started_at = now;
  created_by_user_id = r.created_by_user_id;
  account_id = r.account_id;
  contact_id = r.contact_id;
  context_thread_id = r.context_thread_id;
  ended_at = none;
  recording_artifact_id = none;
  recovery = no_recovery;
  post_processing = fresh_post_processing;
  actual_active_sources = [];
  participant_links =
      normalize_session_participants casefold r.account_id r.participants r.participant_links;
}

-- `start_meeting_session`
unfoldable pub start_running : MeetingSession → Time → Result MeetingSession
start_running s now =
    if s.status == running
    then ok s
    else if s.status == ended
    then err value_error
    else ok (record s {
      status = running;
      started_at = now;
      ended_at = none;
      actual_active_sources = [];
    })

-- `MeetingSession.start`: a draft that runs at once.
unfoldable pub start :
    (String → String) → DraftRequest → String → Time → Time → Result MeetingSession
unfolding create_draft start_running
start casefold r id created_at now = start_running (create_draft casefold r id created_at) now

-- `end_meeting_session`
unfoldable pub end_session : MeetingSession → Time → MeetingSession
end_session s now =
    if s.status == ended then s else record s { status = ended; ended_at = some now }

unfoldable pub ensure_deletable : MeetingSession → Result (Unit {0})
ensure_deletable s = do
  raise_if (s.status == running) value_error
  raise_if (contains (queued ∷ processing ∷ []) s.post_processing.status) value_error

unfoldable pub ensure_reprocessable : MeetingSession → Result (Unit {0})
ensure_reprocessable s = raise_if (s.status == running) value_error

unfoldable pub mark_recovery_required :
    MeetingSession → String → Time → Time → Result MeetingSession
unfolding end_session
mark_recovery_required s reason ended_now now =
    let normalized_reason = strip reason in
    let ended_session = if s.status == ended then s else end_session s ended_now in
    if is_empty normalized_reason
    then err value_error
    else ok (record ended_session {
      recovery = record {
        required = true;
        reason = some normalized_reason;
        detected_at = some now;
      };
    })

unfoldable pub clear_recovery_required : MeetingSession → MeetingSession
clear_recovery_required s =
    if s.recovery == no_recovery then s else record s { recovery = no_recovery }

unfoldable pub mark_active_source : MeetingSession → String → MeetingSession
mark_active_source s input_source =
    let normalized = strip input_source in
    if is_empty normalized || contains s.actual_active_sources normalized
    then s
    else record s { actual_active_sources = s.actual_active_sources ++ normalized ∷ [] }

-- A title that stays the same gives the same session.
unfoldable pub rename_title : MeetingSession → String → Result MeetingSession
rename_title s title =
    let normalized = strip title in
    if is_empty normalized
    then err value_error
    else if normalized == s.title
    then ok s
    else ok (record s { title = normalized })

-- The details of the contact that a participant is linked to.
pub record ContactLink : Type 0 where
  pub contact_id : String
  pub account_id : Option String
  pub email : Option String
  pub job_title : Option String
  pub department : Option String

unfoldable pub linked_participant :
    Option String → ContactLink → SessionParticipant → SessionParticipant
linked_participant session_account_id l item = record {
  name = item.name;
  normalized_name = item.normalized_name;
  contact_id = some l.contact_id;
  account_id = or_text l.account_id (or_text item.account_id session_account_id);
  email = or_text l.email item.email;
  job_title = or_text l.job_title item.job_title;
  department = or_text l.department item.department;
  resolution_status = "linked";
}

-- The loop over the participants; the flag is `matched`.
unfoldable pub relink :
    Option String → String → ContactLink → List SessionParticipant → List SessionParticipant × Bool
unfolding linked_participant
relink account name l [] = ([], false)
relink account name l (item ∷ rest) =
    let (links, matched) = relink account name l rest in
    if item.name == name
    then (linked_participant account l item ∷ links, true)
    else (item ∷ links, matched)

unfoldable pub link_participant_contact :
    MeetingSession → String → ContactLink → Result MeetingSession
unfolding relink
link_participant_contact s participant_name l =
    let normalized_name = strip participant_name in
    let (updated_links, matched) = relink s.account_id normalized_name l s.participant_links in
    if is_empty normalized_name
    then err value_error
    else if matched
    then ok (record s { participant_links = updated_links })
    else err value_error

unfoldable pub queue_post_processing : MeetingSession → Option String → Time → Result MeetingSession
unfolding ensure_session_ended_for_post_processing ensure_post_processing_transition
queue_post_processing s recording_artifact_id now = do
  ensure_session_ended_for_post_processing s.status
  ensure_post_processing_transition s.post_processing.status queued
  ok (record s {
    recovery = no_recovery;
    recording_artifact_id = or_text recording_artifact_id s.recording_artifact_id;
    post_processing = record s.post_processing {
      status = queued;
      error_message = none;
      requested_at = some now;
      started_at = none;
      completed_at = none;
    };
  })

unfoldable pub mark_post_processing_started :
    MeetingSession → Option String → Time → Result MeetingSession
unfolding ensure_session_ended_for_post_processing ensure_post_processing_transition
mark_post_processing_started s recording_artifact_id now = do
  ensure_session_ended_for_post_processing s.status
  ensure_post_processing_transition s.post_processing.status processing
  ok (record s {
    recovery = no_recovery;
    recording_artifact_id = or_text recording_artifact_id s.recording_artifact_id;
    post_processing = record s.post_processing {
      status = processing;
      error_message = none;
      started_at = some now;
      completed_at = none;
    };
  })

unfoldable pub mark_post_processing_completed :
    MeetingSession → Option String → Time → Result MeetingSession
unfolding ensure_post_processing_transition
mark_post_processing_completed s recording_artifact_id now = do
  ensure_post_processing_transition s.post_processing.status completed
  ok (record s {
    recovery = no_recovery;
    recording_artifact_id = or_text recording_artifact_id s.recording_artifact_id;
    post_processing = record s.post_processing {
      status = completed;
      error_message = none;
      completed_at = some now;
      canonical_transcript_version = s.post_processing.canonical_transcript_version + 1;
      canonical_events_version = s.post_processing.canonical_events_version + 1;
    };
  })

unfoldable pub mark_post_processing_failed :
    MeetingSession → String → Option String → Time → Result MeetingSession
unfolding ensure_post_processing_transition
mark_post_processing_failed s error_message recording_artifact_id now = do
  ensure_post_processing_transition s.post_processing.status failed
  ok (record s {
    recovery = no_recovery;
    recording_artifact_id = or_text recording_artifact_id s.recording_artifact_id;
    post_processing = record s.post_processing {
      status = failed;
      error_message = some error_message;
      completed_at = some now;
    };
  })
