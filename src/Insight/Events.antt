-- ===== src/Insight/Events.antt =====
-- server/app/contexts/insight/domain/meeting_event.py. `str.lower`, the class `\w` of `re`, and the
-- order that the database gives to rows of the same time belong to the platform.
use Prim.Native.Char.{code}
use meeting_overlay_assistan.Base.{
  ℕ, String, Bool, true, false, ◌&&◌, ◌||◌, Option, none, ◌==◌, ◌!=◌, if◌then◌else◌, string_eq,
  or_text, leb,
}
use meeting_overlay_assistan.Base.Text.{strip, is_space}
use meeting_overlay_assistan.Insight.States.{
  EventType, topic, question, decision, action_item, risk, EventState, open_state, confirmed,
  answered, updated, resolved, closed, event_type_eq, event_state_eq,
}

pub record MeetingEvent : Type 0 where
  pub id : String
  pub session_id : String
  pub event_type : EventType
  pub title : String
  pub state : EventState
  pub source_utterance_id : Option String
  pub evidence_text : Option String
  pub speaker_label : Option String
  pub body : Option String
  pub created_at_ms : ℕ
  pub updated_at_ms : ℕ
  pub input_source : Option String
  pub insight_scope : String
  pub event_source : String
  pub processing_job_id : Option String
  pub finalized_at_ms : Option ℕ

pub record Platform : Type 0 where
  pub lower : String → String
  pub is_word : ℕ → Bool
  pub tie : MeetingEvent → MeetingEvent → Bool

-- `re.sub(r"\s+", " ", text)`; the flag says that the last character was a space.
unfoldable pub compact_spaces : Bool → String → String
compact_spaces after_space String.[] = String.[]
compact_spaces after_space (String.◌∷◌ c s) =
    let in_run = compact_spaces true s in
    let next_word = compact_spaces false s in
    if is_space (code c)
    then (if after_space then in_run else String.◌∷◌ " " in_run)
    else String.◌∷◌ c next_word

-- `re.sub(r"[^\w가-힣]+", "", text)`; the range is that of the Hangul syllables.
unfoldable pub keep_words : (ℕ → Bool) → String → String
keep_words is_word String.[] = String.[]
keep_words is_word (String.◌∷◌ c s) =
    let rest = keep_words is_word s in
    if is_word (code c) || (leb 44032 (code c) && leb (code c) 55203)
    then String.◌∷◌ c rest
    else rest

unfoldable pub normalize_title : Platform → String → String
normalize_title p title = keep_words p.is_word (compact_spaces false (p.lower (strip title)))

abbrev pub normalized_title : Platform → MeetingEvent → String
normalized_title p e = normalize_title p e.title

-- `MeetingEvent.create` with its defaults; the id and the clock are arguments.
unfoldable pub create :
    String
    → ℕ
    → String
    → EventType
    → String
    → EventState
    → Option String
    → Option String
    → MeetingEvent
create id now session_id event_type title state source_utterance_id speaker_label = record {
  id = id;
  session_id = session_id;
  event_type = event_type;
  title = title;
  state = state;
  source_utterance_id = source_utterance_id;
  evidence_text = none;
  speaker_label = speaker_label;
  body = none;
  created_at_ms = now;
  updated_at_ms = now;
  input_source = none;
  insight_scope = "live";
  event_source = "live";
  processing_job_id = none;
  finalized_at_ms = none;
}

unfoldable pub can_merge_with : Platform → MeetingEvent → MeetingEvent → Bool
can_merge_with p self candidate =
    if self.event_type != candidate.event_type
    then false
    else if self.state == closed
    then false
    else if self.event_type == topic
    then false
    else normalized_title p self == normalized_title p candidate

abbrev pub keep_or_take : EventState → EventState → EventState → EventState
keep_or_take self other target = if other == target then other else self

unfoldable pub merge_state : MeetingEvent → MeetingEvent → EventState
merge_state self candidate =
    if self.state == candidate.state
    then self.state
    else if self.event_type == decision && self.state == confirmed
    then keep_or_take self.state candidate.state updated
    else if self.event_type == risk && self.state == open_state
    then keep_or_take self.state candidate.state resolved
    else if self.event_type == question && self.state == open_state
    then keep_or_take self.state candidate.state answered
    else if self.event_type == action_item && self.state == open_state
    then keep_or_take self.state candidate.state closed
    else self.state

unfoldable pub merge_with : MeetingEvent → MeetingEvent → MeetingEvent
unfolding merge_state
merge_with self candidate =
    if self.event_type == topic
    then record self {
      title = candidate.title;
      body = candidate.body;
      source_utterance_id = or_text candidate.source_utterance_id self.source_utterance_id;
      speaker_label = or_text candidate.speaker_label self.speaker_label;
      evidence_text = or_text candidate.evidence_text self.evidence_text;
      input_source = or_text candidate.input_source self.input_source;
      updated_at_ms = candidate.updated_at_ms;
    }
    else record self {
      body = or_text self.body candidate.body;
      state = merge_state self candidate;
      source_utterance_id = or_text candidate.source_utterance_id self.source_utterance_id;
      evidence_text = or_text self.evidence_text candidate.evidence_text;
      speaker_label = or_text self.speaker_label candidate.speaker_label;
      input_source = or_text self.input_source candidate.input_source;
      updated_at_ms = candidate.updated_at_ms;
    }
