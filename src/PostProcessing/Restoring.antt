-- ===== src/PostProcessing/Restoring.antt =====
-- Runs that raise after they replaced the canonical state.
use meeting_overlay_assistan.Base.{
  or_text, ◌≡◌, ◌≢◌, refl, sym, ap, subst, ◌∙◌, arith, String, Bool, true, false, Option, none,
  some, Option-cases, inl, inr, List, [], ◌∷◌, ◌++◌, ◌==◌, ltb, ◌!=◌, string_eq, nat_eq,
}
use meeting_overlay_assistan.Base.Dict.{lookup, lookup-insert, lookup-erase}
use meeting_overlay_assistan.Base.Outcome.{Error, stale_job_claim, Result, err}
use meeting_overlay_assistan.Session.Entity.{MeetingSession}
use meeting_overlay_assistan.Jobs.Lifecycle.{status_text_eq}
use meeting_overlay_assistan.Jobs.Kinds.{SessionPostProcessingJob}
use meeting_overlay_assistan.Jobs.Fence.{is_claim_held}
use meeting_overlay_assistan.Insight.Events.{MeetingEvent, Platform}
use meeting_overlay_assistan.PostProcessing.Utterances.{Utterance}
use meeting_overlay_assistan.PostProcessing.World.{World, TranscriptCorrectionDocument}
use meeting_overlay_assistan.PostProcessing.Canonical.{
  CanonicalStateSnapshot, snapshot, restore, restore_tables, restore_corrections,
}
use meeting_overlay_assistan.PostProcessing.Runner.{Setting}
use meeting_overlay_assistan.PostProcessing.Runs.{attempt, recover, handle, run_started}
use meeting_overlay_assistan.Base.Rows.{
  keep_if, In-keep_if, In-sort_by, keep_if-append, keep_if-kept, keep_if-none,
}
use meeting_overlay_assistan.PostProcessing.Utterances.{
  is_visible, of_session, delete_by_session, save_many, select_visible_utterances, list_by_session,
}
use meeting_overlay_assistan.PostProcessing.Canonical.{save_events}
use mathlib.Core.List.{append-nil, append_assoc}
use meeting_overlay_assistan.Insight.Repository.{EventTable}
use meeting_overlay_assistan.Insight.Repository
use meeting_overlay_assistan.PostProcessing.Recovery.{
  SameCanonical, SameCanonical-trans, recover-same,
}

module _ {F : Type 0} where
  handle-held :
      (env : Setting F) (job : SessionPostProcessingJob) (fence : Option String)
      (before : CanonicalStateSnapshot F) (replaced : Bool) (w : World F) (e : Error)
      → e ≢ stale_job_claim
      → is_claim_held w.jobs job.id fence ≡ true
      → handle env job fence before w replaced (err e) ≡ recover env job fence before replaced e w
  handle-held env job fence before replaced w stale_job_claim other held = absurd (other refl)
  handle-held env job fence before replaced w e other held = rw held refl

  restored-utterances :
      (p : Platform) (session_id : String) (w v : World F)
      → keep_if
          (of_session session_id)
          (restore_tables session_id (snapshot p w session_id) v).utterances
        ≡ select_visible_utterances false (list_by_session w.utterances session_id)
  unfolding restore_tables snapshot save_many delete_by_session select_visible_utterances
      list_by_session
  restored-utterances p session_id w v =
      let others = keep_if (λ (u : Utterance F). u.session_id != session_id) v.utterances in
      let stored = select_visible_utterances false (list_by_session w.utterances session_id) in
      let gone : keep_if (of_session session_id) others ≡ [] =
        keep_if-none (of_session session_id) (λ (u : Utterance F). u.session_id != session_id)
          v.utterances (λ u h. ground arith) in
      let all : keep_if (of_session session_id) stored ≡ stored =
        keep_if-kept (of_session session_id) stored (λ u there.
          let listed =
            (In-keep_if is_visible u (list_by_session w.utterances session_id) there).0 in
          (In-keep_if (of_session session_id) u w.utterances (
            In-sort_by (λ (a b : Utterance F). ltb a.seq_num b.seq_num) u
              (keep_if (of_session session_id) w.utterances) listed)).1) in
      keep_if-append (of_session session_id) others stored
      ∙ (ap (λ (us : List (Utterance F)). us ++ keep_if (of_session session_id) stored) gone ∙ all)

abbrev pub event_of : String → MeetingEvent → Bool
event_of session_id e = e.session_id == session_id

save_events-append :
    (table : EventTable) (es : List MeetingEvent) → save_events table es ≡ table ++ es
unfolding save_events
save_events-append table [] = sym (append-nil table)
save_events-append table (e ∷ es) =
    save_events-append (table ++ e ∷ []) es ∙ append_assoc table (e ∷ []) es

restored-events :
    {F : Type 0} (p : Platform) (session_id : String) (w v : World F)
    → keep_if (event_of session_id) (restore_tables session_id (snapshot p w session_id) v).events
      ≡ Repository.list_by_session p w.events session_id
unfolding restore_tables snapshot Repository.delete_by_session Repository.list_by_session
restored-events p session_id w v =
    let others = keep_if (λ (e : MeetingEvent). e.session_id != session_id) v.events in
    let rows = keep_if (event_of session_id) w.events in
    let stored = Repository.list_by_session p w.events session_id in
    let gone : keep_if (event_of session_id) others ≡ [] =
      keep_if-none (event_of session_id) (λ (e : MeetingEvent). e.session_id != session_id) v.events
        (λ e h. ground arith) in
    let all : keep_if (event_of session_id) stored ≡ stored =
      keep_if-kept (event_of session_id) stored (λ e there.
        (In-keep_if (event_of session_id) e w.events
          (In-sort_by (Repository.created_before p) e rows there)).1) in
    ap (keep_if (event_of session_id)) (save_events-append others stored)
    ∙ (keep_if-append (event_of session_id) others stored
        ∙ (ap (λ (es : List MeetingEvent). es ++ keep_if (event_of session_id) stored) gone ∙ all))

-- The session has the visible transcript and the events of the start again.
pub record IsRestored {F : Type 0} (p : Platform) (session_id : String) (start after : World F)
    : Type 0 where
  pub utterances :
      keep_if (of_session session_id) after.utterances
      ≡ select_visible_utterances false (list_by_session start.utterances session_id)
  pub events :
      keep_if (event_of session_id) after.events
      ≡ Repository.list_by_session p start.events session_id

-- What the recovery leaves, by the exceptions of the transaction and of the store of corrections:
-- all as the run left it; the transcript and the events of the start; or its corrections too.
abbrev pub Restores :
    {F : Type 0}
    → Platform
    → String
    → Option Error
    → Option Error
    → World F
    → World F
    → World F
    → Type 0
Restores p session_id (some e) broken_store start reached after = SameCanonical after reached
Restores p session_id none (some e) start reached after =
    IsRestored p session_id start after × (after.corrections ≡ reached.corrections)
Restores p session_id none none start reached after =
    IsRestored p session_id start after
    × (lookup session_id after.corrections ≡ lookup session_id start.corrections)

restored_corrections :
    {F : Type 0} (p : Platform) (session_id : String) (w v : World F)
    → ((d : TranscriptCorrectionDocument)
        → lookup session_id w.corrections ≡ some d
        → d.session_id ≡ session_id)
    → lookup session_id (restore_corrections session_id (snapshot p w session_id) v).corrections
      ≡ lookup session_id w.corrections
unfolding restore_corrections snapshot
restored_corrections p session_id w v own = elim (Option-cases (lookup session_id w.corrections)) [
  | inl missing ↦ rw missing (lookup-erase session_id session_id v.corrections ∙ ground arith)
  | inr (d, there) ↦
      rw there (lookup-insert d.session_id session_id d v.corrections ∙ ground (arith, own d there))
]

restore-Restores :
    {F : Type 0} (p : Platform) (session_id : String) (broken broken_store : Option Error)
    (w v : World F)
    → ((d : TranscriptCorrectionDocument)
        → lookup session_id w.corrections ≡ some d
        → d.session_id ≡ session_id)
    → Restores p session_id broken broken_store w v
        (restore broken broken_store session_id (snapshot p w session_id) v)
unfolding restore restore_tables restore_corrections
restore-Restores p session_id (some e) broken_store w v own = record {
  utterances = refl;
  events = refl;
  corrections = refl;
}
restore-Restores p session_id none (some e) w v own = (
  record {
    utterances = restored-utterances p session_id w v;
    events = restored-events p session_id w v;
  },
  refl,
)
restore-Restores p session_id none none w v own = (
  record {
    utterances = restored-utterances p session_id w v;
    events = restored-events p session_id w v;
  },
  restored_corrections p session_id w (restore_tables session_id (snapshot p w session_id) v) own,
)

IsRestored-same :
    {F : Type 0} (p : Platform) (session_id : String) (start after after' : World F)
    → SameCanonical after' after
    → IsRestored p session_id start after
    → IsRestored p session_id start after'
IsRestored-same p session_id start after after' same h = record {
  utterances = ap (keep_if (of_session session_id)) same.utterances ∙ h.utterances;
  events = ap (keep_if (event_of session_id)) same.events ∙ h.events;
}

Restores-same :
    {F : Type 0} (p : Platform) (session_id : String) (broken broken_store : Option Error)
    (start reached after after' : World F)
    → SameCanonical after' after
    → Restores p session_id broken broken_store start reached after
    → Restores p session_id broken broken_store start reached after'
Restores-same p session_id (some e) broken_store start reached after after' same h =
    SameCanonical-trans after' after reached same h
Restores-same p session_id none (some e) start reached after after' same h =
    (IsRestored-same p session_id start after after' same h.0, same.corrections ∙ h.1)
Restores-same p session_id none none start reached after after' same h = (
  IsRestored-same p session_id start after after' same h.0,
  ap (lookup session_id) same.corrections ∙ h.1,
)

-- A run that raises after it replaced the canonical state, while it still holds the claim, gives the
-- session back the visible transcript, the events and the corrections that it had when the run
-- started, if the recovery's transaction and store of corrections do not fail, where each stored
-- document of corrections is that of its session. If the store fails, the corrections stay as the run
-- left them; if the transaction fails, all three stay so.
pub run_started-restored :
    {F : Type 0} (env : Setting F) (s : MeetingSession) (job : SessionPostProcessingJob)
    (expected : Option String) (w : World F) (e : Error)
    → job.session_id ≡ s.id
    → (attempt env s job (or_text expected job.claimed_by_worker_id) w).replaced ≡ true
    → (attempt env s job (or_text expected job.claimed_by_worker_id) w).answer ≡ err e
    → e ≢ stale_job_claim
    → is_claim_held
        (attempt env s job (or_text expected job.claimed_by_worker_id) w).world.jobs
        job.id
        (or_text expected job.claimed_by_worker_id)
      ≡ true
    → ((d : TranscriptCorrectionDocument)
        → lookup s.id w.corrections ≡ some d
        → d.session_id ≡ s.id)
    → Restores env.platform s.id env.faults.restoring env.faults.restoring_corrections w
        (attempt env s job (or_text expected job.claimed_by_worker_id) w).world
        (run_started env s job expected w).0
unfolding run_started
run_started-restored env s job expected w e mine late raised other held own =
    let fence = or_text expected job.claimed_by_worker_id in
    let before = snapshot env.platform w s.id in
    let outcome = attempt env s job fence w in
    let broken = env.faults.restoring in
    let broken_store = env.faults.restoring_corrections in
    let ended : (run_started env s job expected w).0
        ≡ (recover env job fence before true e outcome.world).0 =
      rw (raised, late)
        (ap (λ (r : World _ × Result SessionPostProcessingJob). r.0)
          (handle-held env job fence before true outcome.world e other held)) in
    let same : SameCanonical (recover env job fence before true e outcome.world).0
        (restore broken broken_store s.id before outcome.world) =
      subst
        (λ (i : String).
          SameCanonical (recover env job fence before true e outcome.world).0
            (restore broken broken_store i before outcome.world))
        mine (recover-same env job e fence before true outcome.world) in
    subst (Restores env.platform s.id broken broken_store w outcome.world) (sym ended) (
      Restores-same env.platform s.id broken broken_store w outcome.world
        (restore broken broken_store s.id before outcome.world)
        (recover env job fence before true e outcome.world).0 same
        (restore-Restores env.platform s.id broken broken_store w outcome.world own))
