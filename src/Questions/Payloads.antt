-- ===== src/Questions/Payloads.antt =====
-- `to_payload` and `from_payload` of server/app/contexts/insight/application/live_questions/models.py;
-- the time that a missing one gives way to is an argument.
use meeting_overlay_assistan.Base.{ℕ, string_eq}
use meeting_overlay_assistan.Base.Outcome.{Result, ok, ◌>>=◌}
use meeting_overlay_assistan.Questions.Models.{
  LiveQuestionUtterance, LiveQuestionItem, LiveQuestionRequest, LiveQuestionOperation,
  LiveQuestionResult,
}
use meeting_overlay_assistan.Questions.Json.{
  text, whole, real, array, Fields, no_fields, field, Python, get, text_of, float_of, int_or,
  int_given, text_given, iterate_or_none, texts_of, dicts_of, text_or_null, whole_or_null,
  text_items, object_items,
}

module _ {F : Type 0} where
  unfoldable pub utterance_to_payload : LiveQuestionUtterance F → Fields F
  utterance_to_payload u = field "id" (text u.id) (
      field "text" (text u.text) (
        field "speaker_label" (text_or_null u.speaker_label) (
          field "timestamp_ms" (whole_or_null u.timestamp_ms)
            (field "confidence" (real u.confidence) no_fields))))

  unfoldable pub utterance_from_payload : Python F → Fields F → Result (LiveQuestionUtterance F)
  utterance_from_payload py payload = do
    speaker_label ← text_given py (get "speaker_label" payload)
    timestamp_ms ← int_given py (get "timestamp_ms" payload)
    confidence ← float_of py (get "confidence" payload)
    ok record {
      id = text_of py (get "id" payload);
      text = text_of py (get "text" payload);
      speaker_label = speaker_label;
      timestamp_ms = timestamp_ms;
      confidence = confidence;
    }

  unfoldable pub item_to_payload : LiveQuestionItem F → Fields F
  item_to_payload i = field "id" (text i.id) (
      field "summary" (text i.summary) (
        field "speaker_label" (text_or_null i.speaker_label)
          (field "confidence" (real i.confidence) no_fields)))

  unfoldable pub item_from_payload : Python F → Fields F → Result (LiveQuestionItem F)
  item_from_payload py payload = do
    speaker_label ← text_given py (get "speaker_label" payload)
    confidence ← float_of py (get "confidence" payload)
    ok record {
      id = text_of py (get "id" payload);
      summary = text_of py (get "summary" payload);
      speaker_label = speaker_label;
      confidence = confidence;
    }

  unfoldable pub operation_to_payload : LiveQuestionOperation F → Fields F
  operation_to_payload o = field "op" (text o.op) (
      field "summary" (text_or_null o.summary) (
        field "confidence" (real o.confidence) (
          field "evidence_utterance_ids" (array (text_items o.evidence_utterance_ids)) (
            field "target_question_id" (text_or_null o.target_question_id) (
              field "speaker_label" (text_or_null o.speaker_label)
                (field "reason" (text_or_null o.reason) no_fields))))))

  unfoldable pub operation_from_payload : Python F → Fields F → Result (LiveQuestionOperation F)
  operation_from_payload py payload = do
    summary ← text_given py (get "summary" payload)
    confidence ← float_of py (get "confidence" payload)
    ids ← iterate_or_none py (get "evidence_utterance_ids" payload)
    evidence ← texts_of py ids
    target ← text_given py (get "target_question_id" payload)
    speaker_label ← text_given py (get "speaker_label" payload)
    reason ← text_given py (get "reason" payload)
    ok record {
      op = text_of py (get "op" payload);
      summary = summary;
      confidence = confidence;
      evidence_utterance_ids = evidence;
      target_question_id = target;
      speaker_label = speaker_label;
      reason = reason;
    }

  unfoldable pub request_to_payload : LiveQuestionRequest F → Fields F
  request_to_payload r = field "session_id" (text r.session_id) (
      field "window_id" (text r.window_id) (
        field "utterances" (array (object_items utterance_to_payload r.utterances)) (
          field "open_questions" (array (object_items item_to_payload r.open_questions))
            (field "created_at_ms" (whole r.created_at_ms) no_fields))))

  unfoldable pub request_from_payload : Python F → ℕ → Fields F → Result (LiveQuestionRequest F)
  request_from_payload py now payload = do
    utterances ← iterate_or_none py (get "utterances" payload)
    spoken ← dicts_of (utterance_from_payload py) utterances
    questions ← iterate_or_none py (get "open_questions" payload)
    asked ← dicts_of (item_from_payload py) questions
    created ← int_or py now (get "created_at_ms" payload)
    ok record {
      session_id = text_of py (get "session_id" payload);
      window_id = text_of py (get "window_id" payload);
      utterances = spoken;
      open_questions = asked;
      created_at_ms = created;
    }

  unfoldable pub result_to_payload : LiveQuestionResult F → Fields F
  result_to_payload r = field "session_id" (text r.session_id) (
      field "window_id" (text r.window_id) (
        field "operations" (array (object_items operation_to_payload r.operations))
          (field "created_at_ms" (whole r.created_at_ms) no_fields)))

  unfoldable pub result_from_payload : Python F → ℕ → Fields F → Result (LiveQuestionResult F)
  result_from_payload py now payload = do
    items ← iterate_or_none py (get "operations" payload)
    operations ← dicts_of (operation_from_payload py) items
    created ← int_or py now (get "created_at_ms" payload)
    ok record {
      session_id = text_of py (get "session_id" payload);
      window_id = text_of py (get "window_id" payload);
      operations = operations;
      created_at_ms = created;
    }
