-- ===== src/Session/Versions.antt =====
-- The canonical versions count the completions of post-processing.
use meeting_overlay_assistan.Base.{ℕ, ◌+◌, ◌≤◌, String, ◌≡◌, List, [], ◌∷◌, string_eq, arith}
use meeting_overlay_assistan.Base.Outcome.{Result, ok}
use meeting_overlay_assistan.Session.States.{
  Time, PostProcessingStatus, queued, processing, session_status_eq, post_processing_status_eq,
}
use meeting_overlay_assistan.Session.Entity.{MeetingSession, DraftRequest, create_draft}
use meeting_overlay_assistan.Session.History.{Call, starts, queues, completes, perform, step, run}

-- The call completed a post-processing.
abbrev is_completion : Call → Result MeetingSession → ℕ
is_completion (completes artifact now) (ok t) = 1
is_completion _ _ = 0

-- How many calls of a history complete a post-processing, and how many queue one.
abbrev pub completions : MeetingSession → List Call → ℕ
completions s [] = 0
completions s (c ∷ cs) = is_completion c (perform s c) + completions (step s c) cs

abbrev is_queueing : Call → ℕ
is_queueing (queues artifact now) = 1
is_queueing _ = 0

abbrev pub queueings : List Call → ℕ
queueings [] = 0
queueings (c ∷ cs) = is_queueing c + queueings cs

abbrev pub version : MeetingSession → ℕ
version s = s.post_processing.canonical_transcript_version

version-step :
    (s : MeetingSession) (c : Call) → version (step s c) ≡ version s + is_completion c (perform s c)
unfolding perform
version-step s (starts now) = ground arith
version-step s c = ground arith

-- The canonical transcript version rises by one with each completed post-processing, and by
-- nothing else.
pub version-run :
    (s : MeetingSession) (calls : List Call)
    → version (run s calls) ≡ version s + completions s calls
unfolding run
version-run s [] = omega arith
version-run s (c ∷ cs) = omega (arith, version-run (step s c) cs, version-step s c)

-- A request that is queued or being worked on.
abbrev outstanding : PostProcessingStatus → ℕ
outstanding queued = 1
outstanding processing = 1
outstanding _ = 0

abbrev debt : MeetingSession → ℕ
debt s = version s + outstanding s.post_processing.status

debt-step : (s : MeetingSession) (c : Call) → debt (step s c) ≤ debt s + is_queueing c
unfolding perform
debt-step s (starts now) = ground arith
debt-step s c = ground arith

debt-run : (s : MeetingSession) (cs : List Call) → debt (run s cs) ≤ debt s + queueings cs
unfolding run
debt-run s [] = omega arith
debt-run s (c ∷ cs) = omega (arith, debt-run (step s c) cs, debt-step s c)

-- A new draft gains at most one canonical version for each time that post-processing was queued.
pub version-le-queueings :
    (casefold : String → String) (r : DraftRequest) (id : String) (now : Time) (calls : List Call)
    → version (run (create_draft casefold r id now) calls) ≤ queueings calls
unfolding create_draft
version-le-queueings casefold r id now calls =
    omega (arith, debt-run (create_draft casefold r id now) calls)
