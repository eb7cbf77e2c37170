-- ===== src/Session/Invariant.antt =====
-- What holds of a session after any history.
use meeting_overlay_assistan.Base.{String, ◌≡◌, ◌≢◌, true, none, List, [], ◌∷◌, string_eq, arith}
use meeting_overlay_assistan.Base.Text.{strip}
use meeting_overlay_assistan.Base.Distinct.{IsDistinct, IsDistinct-snoc}
use meeting_overlay_assistan.Session.States.{
  Time, ended, archived, not_started, session_status_eq, post_processing_status_eq,
}
use meeting_overlay_assistan.Session.Entity.{
  MeetingSession, DraftRequest, create_draft, mark_active_source,
}
use meeting_overlay_assistan.Session.History.{Call, uses_source, perform, step, run}

pub record IsWellFormed (s : MeetingSession) : Type 0 where
  pub never_archived : s.status ≢ archived
  pub stamped_when_ended : s.status ≡ ended → s.ended_at ≢ none
  pub open_until_ended : s.status ≢ ended → s.ended_at ≡ none
  pub processed_after_end : s.post_processing.status ≢ not_started → s.status ≡ ended
  pub recovered_after_end : s.recovery.required ≡ true → s.status ≡ ended
  pub recovery_explained : s.recovery.required ≡ true → s.recovery.reason ≢ none
  pub versions_agree :
      s.post_processing.canonical_transcript_version ≡ s.post_processing.canonical_events_version
  pub sources_distinct : IsDistinct s.actual_active_sources

mark_active_source-IsWellFormed :
    (s : MeetingSession) (source : String)
    → IsWellFormed s
    → IsWellFormed (mark_active_source s source)
unfolding mark_active_source
mark_active_source-IsWellFormed s source w =
    ground (arith, IsDistinct-snoc s.actual_active_sources (strip source) w.sources_distinct)

-- Whatever the call, and whether it raises or not, the session stays well formed.
pub step-IsWellFormed : (s : MeetingSession) (c : Call) → IsWellFormed s → IsWellFormed (step s c)
unfolding perform
step-IsWellFormed s (uses_source source) w = mark_active_source-IsWellFormed s source w
step-IsWellFormed s c w = ground arith

run-IsWellFormed : (s : MeetingSession) (cs : List Call) → IsWellFormed s → IsWellFormed (run s cs)
unfolding run
run-IsWellFormed s [] w = w
run-IsWellFormed s (c ∷ cs) w = run-IsWellFormed (step s c) cs (step-IsWellFormed s c w)

create_draft-IsWellFormed :
    (casefold : String → String) (r : DraftRequest) (id : String) (now : Time)
    → IsWellFormed (create_draft casefold r id now)
unfolding create_draft
create_draft-IsWellFormed casefold r id now = ground arith

-- A session that began as a draft is well formed after any calls, whether they raise or not: it is
-- never archived, has an end stamp exactly when it has ended, is post-processed or marked for
-- recovery only after it has ended, keeps a reason for a recovery, keeps its two canonical versions
-- equal and its active sources distinct.
pub run-create_draft :
    (casefold : String → String) (r : DraftRequest) (id : String) (now : Time) (calls : List Call)
    → IsWellFormed (run (create_draft casefold r id now) calls)
run-create_draft casefold r id now calls =
    run-IsWellFormed (create_draft casefold r id now) calls
      (create_draft-IsWellFormed casefold r id now)

step-ended : (s : MeetingSession) (c : Call) → s.status ≡ ended → (step s c).status ≡ ended
unfolding perform
step-ended s c h = ground arith

-- A session that has ended stays ended, whatever is called.
pub run-ended :
    (s : MeetingSession) (calls : List Call) → s.status ≡ ended → (run s calls).status ≡ ended
unfolding run
run-ended s [] h = h
run-ended s (c ∷ cs) h = run-ended (step s c) cs (step-ended s c h)
