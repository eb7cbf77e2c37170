-- ===== src/Questions/Models.antt =====
-- The records of server/app/contexts/insight/application/live_questions/models.py. A float is of any
-- type that has a zero; times are on the native numbers.
use meeting_overlay_assistan.Base.{ℕ, String, Option, List}

pub record LiveQuestionUtterance (F : Type 0) : Type 0 where
  pub id : String
  pub text : String
  pub speaker_label : Option String
  pub timestamp_ms : Option ℕ
  pub confidence : F

pub record LiveQuestionItem (F : Type 0) : Type 0 where
  pub id : String
  pub summary : String
  pub speaker_label : Option String
  pub confidence : F

pub record LiveQuestionRequest (F : Type 0) : Type 0 where
  pub session_id : String
  pub window_id : String
  pub utterances : List (LiveQuestionUtterance F)
  pub open_questions : List (LiveQuestionItem F)
  pub created_at_ms : ℕ

pub record LiveQuestionOperation (F : Type 0) : Type 0 where
  pub op : String
  pub summary : Option String
  pub confidence : F
  pub evidence_utterance_ids : List String
  pub target_question_id : Option String
  pub speaker_label : Option String
  pub reason : Option String

pub record LiveQuestionResult (F : Type 0) : Type 0 where
  pub session_id : String
  pub window_id : String
  pub operations : List (LiveQuestionOperation F)
  pub created_at_ms : ℕ
