-- ===== src/Session/States.antt =====
-- server/app/domain/shared/enums.py, domain/session/session_states.py and
-- domain/session/post_processing_state_machine.py.
use meeting_overlay_assistan.Base.{
  ℕ, String, Bool, false, not, Option, none, List, [], ◌∷◌, Eq, ◌!=◌, contains, string_eq,
}
use native.Mathlib.Decide.{ℕ_discrete}
use meeting_overlay_assistan.Base.Outcome.{Result, value_error, raise_if}

-- An instant. The code keeps ISO 8601 texts of UTC instants.
abbrev pub Time : Type 0
Time = ℕ

pub data SessionMode : Type 0 where
  meeting lecture video : SessionMode

pub data AudioSource : Type 0 where
  mic system_audio mic_and_audio file : AudioSource

unfoldable pub source_value : AudioSource → String
source_value mic = "mic"
source_value system_audio = "system_audio"
source_value mic_and_audio = "mic_and_audio"
source_value file = "file"

pub data SessionStatus : Type 0 where
  draft running ended archived : SessionStatus

pub data PostProcessingStatus : Type 0 where
  not_started queued processing completed failed : PostProcessingStatus

instance unfoldable pub session_status_eq : Eq SessionStatus
session_status_eq = record { dec = hlevel }

instance unfoldable pub post_processing_status_eq : Eq PostProcessingStatus
post_processing_status_eq = record { dec = hlevel }

pub record RecoveryState : Type 0 where
  pub required : Bool
  pub reason : Option String
  pub detected_at : Option Time

instance unfoldable pub recovery_state_eq : Eq RecoveryState
unfolding string_eq ℕ_discrete
recovery_state_eq = record { dec = hlevel (ℕ_discrete, string_eq.dec) }

-- `RecoveryState()`
abbrev pub no_recovery : RecoveryState
no_recovery = record { required = false; reason = none; detected_at = none }

pub record PostProcessingState : Type 0 where
  pub status : PostProcessingStatus
  pub error_message : Option String
  pub requested_at : Option Time
  pub started_at : Option Time
  pub completed_at : Option Time
  pub canonical_transcript_version : ℕ
  pub canonical_events_version : ℕ

-- `PostProcessingState()`
abbrev pub fresh_post_processing : PostProcessingState
fresh_post_processing = record {
  status = not_started;
  error_message = none;
  requested_at = none;
  started_at = none;
  completed_at = none;
  canonical_transcript_version = 0;
  canonical_events_version = 0;
}

-- The table `_ALLOWED_TRANSITIONS`.
unfoldable pub allowed_transitions : PostProcessingStatus → List PostProcessingStatus
allowed_transitions not_started = queued ∷ []
allowed_transitions queued = queued ∷ processing ∷ failed ∷ []
allowed_transitions processing = processing ∷ completed ∷ failed ∷ []
allowed_transitions completed = queued ∷ failed ∷ []
allowed_transitions failed = queued ∷ []

unfoldable pub ensure_post_processing_transition :
    PostProcessingStatus → PostProcessingStatus → Result (Unit {0})
unfolding allowed_transitions
ensure_post_processing_transition current target =
    raise_if (not (contains (allowed_transitions current) target)) value_error

unfoldable pub ensure_session_ended_for_post_processing : SessionStatus → Result (Unit {0})
ensure_session_ended_for_post_processing status = raise_if (status != ended) value_error
