-- ===== src/Session/History.antt =====
-- Histories of one session: any calls of its transitions, in any order. A call that raises leaves
-- the session that the caller holds as it was.
use meeting_overlay_assistan.Base.{String, Option, List, [], ◌∷◌}
use meeting_overlay_assistan.Base.Outcome.{Result, ok, err}
use meeting_overlay_assistan.Session.States.{Time}
use meeting_overlay_assistan.Session.Entity.{
  MeetingSession, ContactLink, start_running, end_session, mark_recovery_required,
  clear_recovery_required, mark_active_source, rename_title, link_participant_contact,
  queue_post_processing, mark_post_processing_started, mark_post_processing_completed,
  mark_post_processing_failed,
}

pub data Call : Type 0 where
  starts ends : Time → Call
  requires_recovery : String → Time → Time → Call
  clears_recovery : Call
  uses_source renames : String → Call
  links_contact : String → ContactLink → Call
  queues starts_processing completes : Option String → Time → Call
  fails : String → Option String → Time → Call

unfoldable pub perform : MeetingSession → Call → Result MeetingSession
unfolding start_running end_session mark_recovery_required clear_recovery_required
    mark_active_source rename_title link_participant_contact queue_post_processing
    mark_post_processing_started mark_post_processing_completed mark_post_processing_failed
perform s (starts now) = start_running s now
perform s (ends now) = ok (end_session s now)
perform s (requires_recovery reason ended_now now) = mark_recovery_required s reason ended_now now
perform s clears_recovery = ok (clear_recovery_required s)
perform s (uses_source source) = ok (mark_active_source s source)
perform s (renames title) = rename_title s title
perform s (links_contact name link) = link_participant_contact s name link
perform s (queues artifact now) = queue_post_processing s artifact now
perform s (starts_processing artifact now) = mark_post_processing_started s artifact now
perform s (completes artifact now) = mark_post_processing_completed s artifact now
perform s (fails message artifact now) = mark_post_processing_failed s message artifact now

abbrev pub after : MeetingSession → Result MeetingSession → MeetingSession
after s (ok t) = t
after s (err e) = s

abbrev pub step : MeetingSession → Call → MeetingSession
step s c = after s (perform s c)

unfoldable pub run : MeetingSession → List Call → MeetingSession
run s [] = s
run s (c ∷ cs) = run (step s c) cs
