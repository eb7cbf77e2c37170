-- ===== src/Insight/Repository.antt =====
-- The table of events and its queries: server/app/infrastructure/persistence/postgresql/repositories/
-- events/postgresql_event_repository.py and helpers/event_queries.py.
use meeting_overlay_assistan.Base.{
  String, Bool, true, false, ◌&&◌, ◌||◌, Option, none, some, List, [], ◌∷◌, ◌++◌, map, ◌==◌, ◌!=◌,
  if◌then◌else◌, string_eq, option_eq, ltb, leb,
}
use meeting_overlay_assistan.Base.Rows.{keep_if, sort_by, head}
use meeting_overlay_assistan.Insight.States.{
  EventType, topic, context, closed, event_type_eq, event_state_eq,
}
use meeting_overlay_assistan.Insight.Events.{MeetingEvent, Platform, normalized_title}

abbrev pub EventTable : Type 0
EventTable = List MeetingEvent

-- ORDER BY created_at ASC
abbrev pub created_before : Platform → MeetingEvent → MeetingEvent → Bool
created_before p a b =
    ltb a.created_at_ms b.created_at_ms || (leb a.created_at_ms b.created_at_ms && p.tie a b)

-- ORDER BY updated_at DESC
abbrev pub updated_after : Platform → MeetingEvent → MeetingEvent → Bool
updated_after p a b =
    ltb b.updated_at_ms a.updated_at_ms || (leb b.updated_at_ms a.updated_at_ms && p.tie a b)

abbrev pub save : EventTable → MeetingEvent → EventTable
save table event = table ++ event ∷ []

-- UPDATE writes every column but the session's id.
abbrev pub write_row : MeetingEvent → MeetingEvent → MeetingEvent
write_row event row =
    if row.id == event.id then record event { session_id = row.session_id } else row

unfoldable pub update : EventTable → MeetingEvent → EventTable
update table event = map (write_row event) table

unfoldable pub get_by_id : EventTable → String → Option MeetingEvent
get_by_id table event_id = head (keep_if (λ (row : MeetingEvent). row.id == event_id) table)

unfoldable pub delete : EventTable → String → EventTable
delete table event_id = keep_if (λ (row : MeetingEvent). row.id != event_id) table

unfoldable pub delete_by_session : EventTable → String → EventTable
delete_by_session table session_id =
    keep_if (λ (row : MeetingEvent). row.session_id != session_id) table

unfoldable pub list_by_session : Platform → EventTable → String → List MeetingEvent
list_by_session p table session_id =
    sort_by (created_before p)
      (keep_if (λ (row : MeetingEvent). row.session_id == session_id) table)

-- The WHERE clause with a scope.
abbrev pub of_source : String → String → String → MeetingEvent → Bool
of_source session_id source_utterance_id insight_scope row =
    row.session_id == session_id
    && (row.source_utterance_id == some source_utterance_id && row.insight_scope == insight_scope)

unfoldable pub list_by_source_utterance :
    Platform → EventTable → String → String → String → List MeetingEvent
list_by_source_utterance p table session_id source_utterance_id insight_scope =
    sort_by (created_before p)
      (keep_if (of_source session_id source_utterance_id insight_scope) table)

-- The types that `build_merge_lookup` looks up.
abbrev pub is_merged_type : EventType → Bool
is_merged_type topic = false
is_merged_type context = false
is_merged_type _ = true

abbrev pub is_merge_row : Platform → MeetingEvent → MeetingEvent → Bool
is_merge_row p candidate row =
    row.session_id == candidate.session_id
    && (row.event_type == candidate.event_type
        && (normalized_title p row == normalized_title p candidate
            && (row.insight_scope == candidate.insight_scope && row.state != closed)))

unfoldable pub find_merge_target : Platform → EventTable → MeetingEvent → Option MeetingEvent
find_merge_target p table candidate =
    if is_merged_type candidate.event_type
    then head (sort_by (updated_after p) (keep_if (is_merge_row p candidate) table))
    else none
