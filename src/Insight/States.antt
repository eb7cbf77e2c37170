-- ===== src/Insight/States.antt =====
-- EventType, EventState and EventPriority of server/app/domain/shared/enums.py, and
-- server/app/contexts/insight/domain/event_state_machine.py.
use meeting_overlay_assistan.Base.{
  ℕ, Bool, true, false, not, List, [], ◌∷◌, Eq, ◌==◌, contains, if◌then◌else◌,
}
use meeting_overlay_assistan.Base.Outcome.{Result, ok, value_error, raise_if, ◌>>◌}

pub data EventType : Type 0 where
  topic question decision action_item risk context : EventType

pub data EventState : Type 0 where
  open_state confirmed candidate answered unresolved updated monitoring resolved closed active :
      EventState

instance unfoldable pub event_type_eq : Eq EventType
event_type_eq = record { dec = hlevel }

instance unfoldable pub event_state_eq : Eq EventState
event_state_eq = record { dec = hlevel }

-- The value of the IntEnum that stands for the type in `MeetingEvent.priority`.
abbrev pub priority_of : EventType → ℕ
priority_of topic = 60
priority_of question = 70
priority_of risk = 80
priority_of decision = 85
priority_of action_item = 90
priority_of context = 0

-- The table `_ALLOWED_TRANSITIONS`; the empty set for a missing state.
unfoldable pub allowed_transitions : EventType → EventState → List EventState
allowed_transitions question open_state = answered ∷ closed ∷ []
allowed_transitions question answered = open_state ∷ closed ∷ []
allowed_transitions decision confirmed = updated ∷ closed ∷ []
allowed_transitions decision updated = confirmed ∷ closed ∷ []
allowed_transitions action_item open_state = closed ∷ []
allowed_transitions action_item closed = open_state ∷ []
allowed_transitions risk open_state = resolved ∷ closed ∷ []
allowed_transitions risk resolved = open_state ∷ closed ∷ []
allowed_transitions _ _ = []

-- `event_type in _ALLOWED_TRANSITIONS`
abbrev pub has_transitions : EventType → Bool
has_transitions context = false
has_transitions _ = true

unfoldable pub can_transition_event : EventType → EventState → EventState → Bool
unfolding allowed_transitions
can_transition_event t current target =
    if current == target then true else contains (allowed_transitions t current) target

unfoldable pub validate_event_transition : EventType → EventState → EventState → Result (Unit {0})
unfolding can_transition_event
validate_event_transition t current target = if current == target then ok tt else do
  raise_if (not (has_transitions t)) value_error
  raise_if (not (can_transition_event t current target)) value_error
