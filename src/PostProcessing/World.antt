-- ===== src/PostProcessing/World.antt =====
-- What the post-processing of a session reads and writes: the tables, the stored corrections of
-- transcripts, and the ids published to the queues of note-correction
-- and of post-processing jobs.
use meeting_overlay_assistan.Base.{ℕ, String, List, Bool, string_eq}
use meeting_overlay_assistan.Base.Dict.{Dict}
use meeting_overlay_assistan.Session.Entity.{MeetingSession}
use meeting_overlay_assistan.Jobs.Table.{Table}
use meeting_overlay_assistan.Jobs.Kinds.{PostProcessingPayload, NotePayload}
use meeting_overlay_assistan.Insight.Repository.{EventTable}
use meeting_overlay_assistan.PostProcessing.Utterances.{UtteranceTable}

-- server/app/contexts/reporting/application/refinement/transcript_correction_store.py: an item and
-- the document of a session.
pub record TranscriptCorrectionItem : Type 0 where
  pub utterance_id : String
  pub raw_text : String
  pub corrected_text : String
  pub changed : Bool
  pub risk_flags : List String

pub record TranscriptCorrectionDocument : Type 0 where
  pub session_id : String
  pub source_version : ℕ
  pub model : String
  pub items : List TranscriptCorrectionItem

pub record World (F : Type 0) : Type 0 where
  pub sessions : Dict String MeetingSession
  pub jobs : Table PostProcessingPayload
  pub note_jobs : Table NotePayload
  pub published : List String
  pub dispatched : List String
  pub utterances : UtteranceTable F
  pub events : EventTable
  pub corrections : Dict String TranscriptCorrectionDocument
