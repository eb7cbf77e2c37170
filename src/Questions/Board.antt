-- ===== src/Questions/Board.antt =====
-- server/app/contexts/insight/application/live_questions/question_state_store.py. The lock makes each
-- method one step; a new question's id and time come with the operation that adds it.
use meeting_overlay_assistan.Base.{
  ℕ, ◌+◌, String, Bool, true, false, Option, none, some, List, [], ◌∷◌, map, ◌==◌, ◌!=◌,
  if◌then◌else◌, string_eq,
}
use meeting_overlay_assistan.Base.Rows.{keep_if, head}
use meeting_overlay_assistan.Base.Dict.{Dict, lookup, insert, erase}
use meeting_overlay_assistan.Base.Text.{strip, is_empty}
use meeting_overlay_assistan.Insight.States.{question, open_state, answered, event_state_eq}
use meeting_overlay_assistan.Insight.Events.{
  MeetingEvent, Platform, normalize_title, normalized_title, create,
}
use meeting_overlay_assistan.Questions.Models.{LiveQuestionItem, LiveQuestionOperation}

-- `_open_questions_by_session`
abbrev pub Store : Type 0
Store = Dict String (List MeetingEvent)

-- `dict.get(session_id, ())`
abbrev pub questions_or_none : Option (List MeetingEvent) → List MeetingEvent
questions_or_none none = []
questions_or_none (some questions) = questions

abbrev pub questions_of : String → Store → List MeetingEvent
questions_of session_id store = questions_or_none (lookup session_id store)

abbrev pub is_open : MeetingEvent → Bool
is_open e = e.state == open_state

-- What `MeetingEvent.create` takes from the platform.
pub record Stamp : Type 0 where
  pub id : String
  pub now : ℕ

-- The loop over the current questions: an open one has the title.
unfoldable pub has_open_title : Platform → String → List MeetingEvent → Bool
has_open_title p title [] = false
has_open_title p title (e ∷ es) =
    let rest = has_open_title p title es in
    if e.state != open_state then rest else if normalized_title p e == title then true else rest

abbrev pub summary_or_empty : Option String → String
summary_or_empty none = ""
summary_or_empty (some summary) = summary

unfoldable pub add_question :
    {F : Type 0}
    → Platform
    → String
    → Stamp
    → LiveQuestionOperation F
    → List MeetingEvent
    → List MeetingEvent × Option MeetingEvent
add_question p session_id stamp operation current =
    let summary = strip (summary_or_empty operation.summary) in
    let event =
      create stamp.id stamp.now session_id question summary open_state
        (head operation.evidence_utterance_ids) operation.speaker_label in
    if is_empty summary
    then (current, none)
    else if has_open_title p (normalize_title p summary) current
    then (current, none)
    else (event ∷ current, some event)

-- The loop that looks for the first question of the id.
unfoldable pub close_question : String → List MeetingEvent → List MeetingEvent × Option MeetingEvent
close_question target [] = ([], none)
close_question target (e ∷ es) =
    let rest = close_question target es in
    let closed : MeetingEvent = record e {
      state = answered;
      updated_at_ms = e.updated_at_ms + 1;
    } in
    if e.id != target
    then (e ∷ rest.0, rest.1)
    else if e.state != open_state
    then (e ∷ es, none)
    else (closed ∷ es, some closed)

abbrev pub close_target :
    Option String → List MeetingEvent → List MeetingEvent × Option MeetingEvent
close_target none current = (current, none)
close_target (some target) current =
    if is_empty target then (current, none) else close_question target current

unfoldable pub apply_operation :
    {F : Type 0}
    → Platform
    → String
    → Stamp
    → LiveQuestionOperation F
    → List MeetingEvent
    → List MeetingEvent × Option MeetingEvent
apply_operation p session_id stamp operation current =
    if operation.op == "add"
    then add_question p session_id stamp operation current
    else if operation.op == "close"
    then close_target operation.target_question_id current
    else (current, none)

abbrev pub and_changed : Option MeetingEvent → List MeetingEvent → List MeetingEvent
and_changed none changed = changed
and_changed (some e) changed = e ∷ changed

unfoldable pub apply_operations :
    {F : Type 0}
    → Platform
    → String
    → List (Stamp × LiveQuestionOperation F)
    → List MeetingEvent
    → List MeetingEvent × List MeetingEvent
apply_operations p session_id [] current = (current, [])
apply_operations p session_id ((stamp, operation) ∷ rest) current =
    let one = apply_operation p session_id stamp operation current in
    let others = apply_operations p session_id rest one.0 in (others.0, and_changed one.1 others.1)

-- `apply_result` of the operations of a result, each with its stamp.
unfoldable pub apply_result :
    {F : Type 0}
    → Platform
    → String
    → List (Stamp × LiveQuestionOperation F)
    → Store
    → Store × List MeetingEvent
unfolding apply_operations
apply_result p session_id operations store =
    let done = apply_operations p session_id operations (questions_of session_id store) in
    (insert session_id (keep_if is_open done.0) store, done.1)

unfoldable pub list_open_questions : {F : Type 0} → F → String → Store → List (LiveQuestionItem F)
list_open_questions zero session_id store =
    map
      (λ (e : MeetingEvent). record {
        id = e.id;
        summary = e.title;
        speaker_label = e.speaker_label;
        confidence = zero;
      })
      (keep_if is_open (questions_of session_id store))

unfoldable pub clear_session : String → Store → Store
clear_session session_id store = erase session_id store
