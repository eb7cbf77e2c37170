-- ===== src/PostProcessing/Canonical.antt =====
-- server/app/contexts/post_processing/application/session_post_processing_canonical_state.py. A
-- transaction is one step.
use meeting_overlay_assistan.Base.{String, false, Option, none, some, List, [], ◌∷◌, string_eq}
use meeting_overlay_assistan.Base.Dict.{lookup, insert, erase}
use meeting_overlay_assistan.Base.Outcome.{Error}
use meeting_overlay_assistan.Insight.Events.{MeetingEvent, Platform}
use meeting_overlay_assistan.Insight.Repository.{EventTable}
use meeting_overlay_assistan.Insight.Repository
use meeting_overlay_assistan.Insight.Service.{save_all}
use meeting_overlay_assistan.PostProcessing.Utterances.{
  Utterance, draft_source, select_visible_utterances, list_by_session, delete_by_session, save_many,
}
use meeting_overlay_assistan.PostProcessing.World.{World, TranscriptCorrectionDocument}

pub record CanonicalStateSnapshot (F : Type 0) : Type 0 where
  pub utterances : List (Utterance F)
  pub events : List MeetingEvent
  pub correction_document : Option TranscriptCorrectionDocument

-- The loop that stores the events of the snapshot as they are.
unfoldable pub save_events : EventTable → List MeetingEvent → EventTable
save_events table [] = table
save_events table (e ∷ es) = save_events (Repository.save table e) es

module _ {F : Type 0} where
  unfoldable pub snapshot : Platform → World F → String → CanonicalStateSnapshot F
  snapshot p w session_id = record {
    utterances = select_visible_utterances false (list_by_session w.utterances session_id);
    events = Repository.list_by_session p w.events session_id;
    correction_document = lookup session_id w.corrections;
  }

  unfoldable pub replace :
      Platform → String → List (Utterance F) → List MeetingEvent → World F → World F
  replace p session_id utterances events w = record w {
    utterances = save_many (delete_by_session w.utterances session_id none) utterances;
    events = save_all p (Repository.delete_by_session w.events session_id) events;
    corrections = erase session_id w.corrections;
  }

  unfoldable pub discard_provisional : String → World F → World F
  discard_provisional session_id w = record w {
    utterances = delete_by_session w.utterances session_id (some draft_source);
  }

  -- The transaction of `restore`.
  unfoldable pub restore_tables : String → CanonicalStateSnapshot F → World F → World F
  unfolding save_events
  restore_tables session_id s w = record w {
    utterances = save_many (delete_by_session w.utterances session_id none) s.utterances;
    events = save_events (Repository.delete_by_session w.events session_id) s.events;
  }

  unfoldable pub restore_corrections : String → CanonicalStateSnapshot F → World F → World F
  restore_corrections session_id s w = record w {
    corrections = elim s.correction_document [
      | none ↦ erase session_id w.corrections
      | some document ↦ insert document.session_id document w.corrections
    ];
  }

  -- An exception of the transaction, the first one given, or of the store of corrections is logged,
  -- and the caller goes on.
  unfoldable pub restore :
      Option Error → Option Error → String → CanonicalStateSnapshot F → World F → World F
  unfolding restore_tables restore_corrections
  restore broken broken_store session_id s w = elim broken [
    | some e ↦ w
    | none ↦ elim broken_store [
      | some e ↦ restore_tables session_id s w
      | none ↦ restore_corrections session_id s (restore_tables session_id s w)
    ]
  ]
