-- ===== src/Insight/Service.antt =====
-- server/app/contexts/insight/application/events/meeting_event_service.py and
-- event_management_service.py. Each method returns the table beside its answer.
use meeting_overlay_assistan.Base.{
  ℕ, String, Option, none, some, List, [], ◌∷◌, map, ◌==◌, ◌!=◌, if◌then◌else◌, string_eq,
  option_eq, or_text, contains,
}
use meeting_overlay_assistan.Base.Rows.{keep_if}
use meeting_overlay_assistan.Base.Dict.{Dict, lookup, insert}
use meeting_overlay_assistan.Base.Text.{is_empty}
use meeting_overlay_assistan.Base.Outcome.{Result, ok, err, value_error, ◌>>=◌}
use meeting_overlay_assistan.Insight.States.{EventType, EventState, event_type_eq, event_state_eq}
use meeting_overlay_assistan.Insight.Events.{MeetingEvent, Platform, can_merge_with, merge_with}
use meeting_overlay_assistan.Insight.Repository.{
  EventTable, save, update, delete, get_by_id, list_by_session, list_by_source_utterance,
  find_merge_target,
}

-- The last event of the type, as the reversed loop finds it.
unfoldable pub last_of_type : EventType → List MeetingEvent → Option MeetingEvent
last_of_type t [] = none
last_of_type t (e ∷ es) = elim (last_of_type t es) [
  | some later ↦ some later
  | none ↦ if e.event_type == t then some e else none
]

-- A missing source utterance and an empty one find nothing.
unfoldable pub find_same_source_event : Platform → EventTable → MeetingEvent → Option MeetingEvent
unfolding last_of_type
find_same_source_event p table candidate = elim candidate.source_utterance_id [
  | none ↦ none
  | some source ↦
      if is_empty source
      then none
      else last_of_type candidate.event_type
          (list_by_source_utterance p table candidate.session_id source candidate.insight_scope)
]

unfoldable pub merge_target : Platform → EventTable → MeetingEvent → Option MeetingEvent
merge_target p table candidate = elim (find_merge_target p table candidate) [
  | none ↦ none
  | some existing ↦ if can_merge_with p existing candidate then some existing else none
]

unfoldable pub merge_same_source_event : MeetingEvent → MeetingEvent → MeetingEvent
unfolding merge_with
merge_same_source_event existing candidate =
    let merged = merge_with existing candidate in
    record merged {
      title = if is_empty candidate.title then merged.title else candidate.title;
      body = or_text candidate.body merged.body;
      speaker_label = or_text candidate.speaker_label merged.speaker_label;
      evidence_text = or_text candidate.evidence_text merged.evidence_text;
      input_source = or_text candidate.input_source merged.input_source;
      updated_at_ms = candidate.updated_at_ms;
    }

abbrev pub merge_found : EventTable → MeetingEvent → Option MeetingEvent → EventTable × MeetingEvent
merge_found table candidate none = (save table candidate, candidate)
merge_found table candidate (some existing) =
    let merged = merge_with existing candidate in (update table merged, merged)

abbrev pub same_source_found :
    Platform → EventTable → MeetingEvent → Option MeetingEvent → EventTable × MeetingEvent
same_source_found p table candidate none =
    merge_found table candidate (merge_target p table candidate)
same_source_found p table candidate (some existing) =
    let merged = merge_same_source_event existing candidate in (update table merged, merged)

unfoldable pub save_or_merge : Platform → EventTable → MeetingEvent → EventTable × MeetingEvent
save_or_merge p table candidate =
    same_source_found p table candidate (find_same_source_event p table candidate)

-- The loop over several candidates, one transaction for all.
unfoldable pub save_all : Platform → EventTable → List MeetingEvent → EventTable
save_all p table [] = table
save_all p table (e ∷ es) = save_all p (save_or_merge p table e).0 es

-- `existing_by_type`, a later event of a type in the place of an earlier.
unfoldable pub events_by_type :
    List EventType → List MeetingEvent → Dict EventType MeetingEvent → Dict EventType MeetingEvent
events_by_type targets [] found = found
events_by_type targets (e ∷ es) found =
    events_by_type targets es
      (if contains targets e.event_type then insert e.event_type e found else found)

abbrev pub corrected : MeetingEvent → MeetingEvent → MeetingEvent
corrected existing e = record existing {
  title = e.title;
  body = e.body;
  state = e.state;
  speaker_label = or_text e.speaker_label existing.speaker_label;
  evidence_text = or_text e.evidence_text existing.evidence_text;
  updated_at_ms = e.updated_at_ms;
}

-- One turn of the loop over the corrected events.
abbrev pub correct_one :
    Dict EventType MeetingEvent → EventTable → MeetingEvent → EventTable × MeetingEvent
correct_one existing table e = elim (lookup e.event_type existing) [
  | none ↦ (save table e, e)
  | some old ↦ (update table (corrected old e), corrected old e)
]

unfoldable pub correct_all :
    List EventType
    → Dict EventType MeetingEvent
    → EventTable
    → List MeetingEvent
    → EventTable × List MeetingEvent
correct_all targets existing table [] = (table, [])
correct_all targets existing table (e ∷ es) =
    let one = correct_one existing table e in
    let rest = correct_all targets existing one.0 es in
    let skipped = correct_all targets existing table es in
    if contains targets e.event_type then (rest.0, one.1 ∷ rest.1) else skipped

-- The loop that deletes the events of the types that no correction names.
unfoldable pub delete_uncorrected :
    List EventType → Dict EventType MeetingEvent → EventTable → EventTable
delete_uncorrected named [] table = table
delete_uncorrected named ((t, e) ∷ rest) table =
    delete_uncorrected named rest (if contains named t then table else delete table e.id)

abbrev pub scope_of : List MeetingEvent → String
scope_of [] = "live"
scope_of (e ∷ es) = e.insight_scope

unfoldable pub apply_source_utterance_corrections :
    Platform
    → EventTable
    → String
    → String
    → List MeetingEvent
    → List EventType
    → EventTable × List MeetingEvent
apply_source_utterance_corrections p table session_id source corrected_events targets =
    let rows = list_by_source_utterance p table session_id source (scope_of corrected_events) in
    let existing = events_by_type targets rows [] in
    let (table', persisted) = correct_all targets existing table corrected_events in
    let named = map (λ (e : MeetingEvent). e.event_type) corrected_events in
    (delete_uncorrected named existing table', persisted)

abbrev pub with_type : Option EventType → List MeetingEvent → List MeetingEvent
with_type none events = events
with_type (some t) events = keep_if (λ (e : MeetingEvent). e.event_type == t) events

abbrev pub with_state : Option EventState → List MeetingEvent → List MeetingEvent
with_state none events = events
with_state (some s) events = keep_if (λ (e : MeetingEvent). e.state == s) events

unfoldable pub list_events :
    Platform → EventTable → String → Option EventType → Option EventState → List MeetingEvent
list_events p table session_id event_type state =
    with_state state (with_type event_type (list_by_session p table session_id))

unfoldable pub get_event : EventTable → String → String → Result MeetingEvent
get_event table session_id event_id = elim (get_by_id table event_id) [
  | none ↦ err value_error
  | some e ↦ if e.session_id != session_id then err value_error else ok e
]

-- The fields that a user edits; `none` leaves a field as it is.
pub record EventEdit : Type 0 where
  pub event_type : Option EventType
  pub title : Option String
  pub body : Option String
  pub evidence_text : Option String
  pub speaker_label : Option String

abbrev pub given_or {ℓ} : {A : Type ℓ} → Option A → A → A
given_or none old = old
given_or (some a) old = a

abbrev pub given_or_old {ℓ} : {A : Type ℓ} → Option A → Option A → Option A
given_or_old none old = old
given_or_old (some a) old = some a

unfoldable pub update_event :
    EventTable → String → String → EventEdit → ℕ → Result (EventTable × MeetingEvent)
unfolding get_event
update_event table session_id event_id edit now = do
  existing ← get_event table session_id event_id
  let updated : MeetingEvent = record existing {
    event_type = given_or edit.event_type existing.event_type;
    title = given_or edit.title existing.title;
    body = given_or_old edit.body existing.body;
    evidence_text = given_or_old edit.evidence_text existing.evidence_text;
    speaker_label = given_or_old edit.speaker_label existing.speaker_label;
    updated_at_ms = now;
  }
  ok (update table updated, updated)

unfoldable pub delete_event : EventTable → String → String → Result EventTable
unfolding get_event
delete_event table session_id event_id = do
  existing ← get_event table session_id event_id
  ok (delete table event_id)
