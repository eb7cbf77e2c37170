-- ===== src/Jobs/Lifecycle.antt =====
-- server/app/domain/shared/job_lifecycle.py.
use meeting_overlay_assistan.Base.{String, not, List, [], ◌∷◌, Eq, contains, string_eq}
use meeting_overlay_assistan.Base.Outcome.{Result, err, value_error, raise_if}

pub data JobStatus : Type 0 where
  pending processing completed failed : JobStatus

instance unfoldable pub job_status_eq : Eq JobStatus
job_status_eq = record { dec = hlevel }

-- A job keeps its status as a text: the value of a `JobStatus`, or a text that is none.
pub data StatusText : Type 0 where
  known : JobStatus → StatusText
  unknown : String → StatusText

instance unfoldable pub status_text_eq : Eq StatusText
unfolding string_eq
status_text_eq = record { dec = hlevel string_eq.dec }

-- The table `_ALLOWED_TRANSITIONS`.
unfoldable pub allowed_transitions : JobStatus → List JobStatus
allowed_transitions pending = processing ∷ failed ∷ []
allowed_transitions processing = processing ∷ completed ∷ failed ∷ []
allowed_transitions completed = []
allowed_transitions failed = []

unfoldable pub ensure_job_transition : StatusText → JobStatus → Result (Unit {0})
unfolding allowed_transitions
ensure_job_transition (unknown text) target = err value_error
ensure_job_transition (known current) target =
    raise_if (not (contains (allowed_transitions current) target)) value_error
