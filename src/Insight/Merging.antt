-- ===== src/Insight/Merging.antt =====
-- What merging a candidate into an event may change.
use meeting_overlay_assistan.Base.{string_eq, option_eq, ◌≡◌, arith}
use meeting_overlay_assistan.Base.Outcome.{ok}
use meeting_overlay_assistan.Insight.States.{
  event_type_eq, event_state_eq, validate_event_transition, allowed_transitions,
  can_transition_event,
}
use meeting_overlay_assistan.Insight.Events.{MeetingEvent, merge_with, merge_state}

-- The state that the merge keeps or takes is one that the state machine allows, for an event of
-- any type and a candidate of any type.
pub merge_with-validate :
    (self c : MeetingEvent)
    → validate_event_transition self.event_type self.state (merge_with self c).state ≡ ok tt
unfolding merge_with merge_state validate_event_transition can_transition_event allowed_transitions
merge_with-validate self c = ground arith
