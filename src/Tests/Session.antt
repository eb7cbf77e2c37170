-- ===== src/Tests/Session.antt =====
-- Sessions at concrete inputs.
use meeting_overlay_assistan.Base.{
  ◌+◌, ◌≤◌, String, ◌≡◌, refl, none, some, List, [], ◌∷◌, map, string_eq,
}
use meeting_overlay_assistan.Base.Lists.{All}
use meeting_overlay_assistan.Base.Distinct.{IsDistinct}
use meeting_overlay_assistan.Base.Text.{strip, lstrip, rstrip, is_space}
use meeting_overlay_assistan.Session.States.{
  meeting, mic, ended, session_status_eq, post_processing_status_eq,
}
use meeting_overlay_assistan.Session.Participants.{
  normalize_session_participants, participant_names, link_by_name, unmatched,
  normalize_participant_names, collect_names, find_participant,
}
use meeting_overlay_assistan.Session.Participants.Names.{
  IsClean, IsKept, names, participants-IsClean, participants_keep,
}
use meeting_overlay_assistan.Session.Entity.{
  MeetingSession, DraftRequest, ContactLink, create_draft, link_participant_contact,
}
use meeting_overlay_assistan.Session.History.{
  Call, starts, ends, queues, starts_processing, completes, fails, uses_source, requires_recovery,
  run, perform,
}
use meeting_overlay_assistan.Session.Invariant.{IsWellFormed, run-create_draft, run-ended}
use meeting_overlay_assistan.Session.Versions.{
  version, completions, queueings, version-run, version-le-queueings,
}
use meeting_overlay_assistan.Session.Links.{Links, link_participant_contact-Links}

abbrev same_text : String → String
same_text s = s

abbrev weekly : DraftRequest
weekly = record {
  title = "weekly";
  mode = meeting;
  source = mic;
  created_by_user_id = some "user-1";
  account_id = some "account-1";
  contact_id = none;
  context_thread_id = none;
  participants = some (" Ann " ∷ "Bo" ∷ "Ann" ∷ "  " ∷ []);
  participant_links = none;
}

abbrev session : MeetingSession
session = create_draft same_text weekly "session-1" 10

-- A session that runs, ends, and is post-processed twice; some calls raise.
abbrev busy_day : List Call
busy_day =
    starts 11
    ∷ queues none 12
    ∷ uses_source " mic "
    ∷ uses_source "mic"
    ∷ ends 20
    ∷ starts 21
    ∷ queues none 22
    ∷ starts_processing none 23
    ∷ completes none 24
    ∷ requires_recovery "crash" 25 26
    ∷ queues none 27
    ∷ starts_processing none 28
    ∷ fails "no audio" none 29
    ∷ queues none 30
    ∷ starts_processing none 31
    ∷ completes none 32
    ∷ []

busy_day_versions : version (run session busy_day) ≡ 2
unfolding run create_draft perform session_status_eq strip is_space string_eq
    post_processing_status_eq
busy_day_versions = refl

session_names : map (λ p. p.name) session.participant_links ≡ "Ann" ∷ "Bo" ∷ []
unfolding create_draft normalize_session_participants participant_names link_by_name unmatched
    normalize_participant_names collect_names find_participant strip lstrip rstrip is_space
    string_eq
session_names = refl

run-create_draft_example :
    IsWellFormed (run (create_draft same_text weekly "session-1" 10) busy_day)
run-create_draft_example = run-create_draft same_text weekly "session-1" 10 busy_day

abbrev ended_session : MeetingSession
ended_session = run session (starts 11 ∷ ends 20 ∷ [])

ended_session-ended : ended_session.status ≡ ended
unfolding run create_draft perform session_status_eq
ended_session-ended = refl

run-ended_example : (run ended_session busy_day).status ≡ ended
run-ended_example = run-ended ended_session busy_day ended_session-ended

version-run_example :
    version (run session busy_day) ≡ version session + completions session busy_day
version-run_example = version-run session busy_day

version-le-queueings_example :
    version (run (create_draft same_text weekly "session-1" 10) busy_day) ≤ queueings busy_day
version-le-queueings_example = version-le-queueings same_text weekly "session-1" 10 busy_day

abbrev ann : ContactLink
ann = record {
  contact_id = "contact-7";
  account_id = none;
  email = some "ann@example.com";
  job_title = none;
  department = none;
}

link_participant_contact-Links_example :
    Links session (strip " Ann") ann (link_participant_contact session " Ann" ann)
link_participant_contact-Links_example = link_participant_contact-Links session " Ann" ann

abbrev raw_names : List String
raw_names = " Ann " ∷ "Bo" ∷ "Ann" ∷ "  " ∷ []

participants-IsClean_example :
    IsDistinct (names same_text none (some raw_names) none)
    × All IsClean (names same_text none (some raw_names) none)
participants-IsClean_example = participants-IsClean same_text none (some raw_names) none

participants_keep_example : All (IsKept (names same_text none (some raw_names) none)) raw_names
participants_keep_example = participants_keep same_text none raw_names none
