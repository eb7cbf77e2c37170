-- ===== src/Tests/Insight.antt =====
-- Events and live questions at concrete inputs.
use meeting_overlay_assistan.Base.{
  List, ℕ, String, true, false, ◌||◌, none, some, [], ◌∷◌, ◌≡◌, ◌≢◌, refl, subst, ◌==◌, contains,
  string_eq, arith,
}
use meeting_overlay_assistan.Base.Text.{strip, is_empty, is_space}
use meeting_overlay_assistan.Base.Outcome.{ok, err, value_error}
use meeting_overlay_assistan.Base.Dict.{lookup}
use meeting_overlay_assistan.Insight.States.{question, open_state, validate_event_transition}
use meeting_overlay_assistan.Insight.Events.{MeetingEvent, Platform, merge_with, normalize_title}
use meeting_overlay_assistan.Insight.Service.{save_all}
use meeting_overlay_assistan.Insight.Slots.{IsSingle}
use meeting_overlay_assistan.Insight.Singles.{AreNew, save_all-IsSingle}
use meeting_overlay_assistan.Insight.Merging.{merge_with-validate}
use meeting_overlay_assistan.Questions.Models.{
  LiveQuestionRequest, LiveQuestionOperation, LiveQuestionResult,
}
use meeting_overlay_assistan.Questions.Board.{
  questions_of, Stamp, summary_or_empty, add_question, apply_result,
}
use meeting_overlay_assistan.Questions.Titles.{open_titles, add_question-open_titles}
use meeting_overlay_assistan.Questions.Boards.{IsStore, apply_result-IsStore}
use meeting_overlay_assistan.Questions.Sessions.{
  StoreCall, apply, clear, run_store, run_board, questions_of-run_store,
}
use meeting_overlay_assistan.Questions.Json.{Python}
use meeting_overlay_assistan.Questions.Payloads.{
  request_to_payload, request_from_payload, result_to_payload, result_from_payload,
}
use meeting_overlay_assistan.Questions.RoundTrips.{
  IsOperation, request_round_trip, result_round_trip,
}
use meeting_overlay_assistan.Base.Equality.{nat_eq}

abbrev plain : Platform
plain = record { lower = λ s. s; is_word = λ c. true; tie = λ a b. false }

abbrev asked : String → String → MeetingEvent
asked id source = record {
  id = id;
  session_id = "session-1";
  event_type = question;
  title = "Who writes the plan?";
  state = open_state;
  source_utterance_id = some source;
  evidence_text = none;
  speaker_label = none;
  body = none;
  created_at_ms = 1;
  updated_at_ms = 1;
  input_source = none;
  insight_scope = "live";
  event_source = "live";
  processing_job_id = none;
  finalized_at_ms = none;
}

empty-IsSingle : IsSingle []
empty-IsSingle = record { keys = λ a b there. absurd there; slots = λ a b there. absurd there }

differ-ids : ◌≢◌ {A = String} "event-2" "event-1"
unfolding string_eq
differ-ids e =
    let same : ◌==◌ {A = String} "event-2" "event-2" ≡ true = refl in
    let moved : ◌==◌ {A = String} "event-2" "event-1" ≡ true =
      subst (λ (s : String). ("event-2" == s) ≡ true) e same in
    absurd (ground (arith, moved))

asked-AreNew : AreNew (asked "event-1" "utt-1" ∷ asked "event-2" "utt-2" ∷ []) []
asked-AreNew =
    ((λ a there. absurd there), ((differ-ids, tt), ((λ a there. absurd there), (tt, tt))))

save_all-IsSingle_example :
    IsSingle (save_all plain [] (asked "event-1" "utt-1" ∷ asked "event-2" "utt-2" ∷ []))
save_all-IsSingle_example =
    save_all-IsSingle plain [] (asked "event-1" "utt-1" ∷ asked "event-2" "utt-2" ∷ [])
      empty-IsSingle asked-AreNew

merge_with-validate_example :
    validate_event_transition question open_state
      (merge_with (asked "event-1" "utt-1") (asked "event-2" "utt-2")).state
    ≡ ok tt
merge_with-validate_example =
    merge_with-validate (asked "event-1" "utt-1") (asked "event-2" "utt-2")

abbrev stamp : Stamp
stamp = record { id = "event-7"; now = 7 }

abbrev adding : LiveQuestionOperation ℕ
adding = record {
  op = "add";
  summary = some "Who writes the plan?";
  confidence = 0;
  evidence_utterance_ids = "utt-1" ∷ [];
  target_question_id = none;
  speaker_label = none;
  reason = none;
}

empty-IsStore : IsStore plain []
unfolding lookup
empty-IsStore session_id = (tt, tt)

apply_result-IsStore_example :
    IsStore plain (apply_result plain "session-1" ((stamp, adding) ∷ (stamp, adding) ∷ []) []).0
apply_result-IsStore_example =
    apply_result-IsStore plain "session-1" ((stamp, adding) ∷ (stamp, adding) ∷ []) [] empty-IsStore

summary-full : is_empty (strip (summary_or_empty adding.summary)) ≡ false
unfolding strip is_space
summary-full = refl

add_question-open_titles_example :
    contains
      (open_titles plain (add_question plain "session-1" stamp adding []).0)
      "Who writes the plan?"
    ≡ (normalize_title plain (strip (summary_or_empty adding.summary)) == "Who writes the plan?"
        || contains (open_titles plain []) "Who writes the plan?")
add_question-open_titles_example =
    add_question-open_titles plain "session-1" stamp adding [] "Who writes the plan?" summary-full

differ-sessions : ◌≢◌ {A = String} "session-1" "session-2"
unfolding string_eq
differ-sessions e =
    let same : ◌==◌ {A = String} "session-1" "session-1" ≡ true = refl in
    let moved : ◌==◌ {A = String} "session-1" "session-2" ≡ true =
      subst (λ (s : String). ("session-1" == s) ≡ true) e same in
    absurd (ground (arith, moved))

abbrev python : Python ℕ
python = record {
  zero = 0;
  float_eq = nat_eq;
  to_str = λ v. "";
  to_float = λ v. err value_error;
  to_int = λ v. err value_error;
}

abbrev request : LiveQuestionRequest ℕ
request = record {
  session_id = "session-1";
  window_id = "window-1";
  utterances =
      record {
        id = "utt-1";
        text = "Who?";
        speaker_label = none;
        timestamp_ms = some 4;
        confidence = 2;
      }
      ∷ [];
  open_questions =
      record { id = "event-1"; summary = "When?"; speaker_label = some "A"; confidence = 0 } ∷ [];
  created_at_ms = 9;
}

nine : ◌≢◌ {A = ℕ} 9 0
nine = omega arith

request_round_trip_example : request_from_payload python 1 (request_to_payload request) ≡ ok request
request_round_trip_example = request_round_trip python 1 request (tt, tt) (refl, tt) nine

abbrev result : LiveQuestionResult ℕ
result = record {
  session_id = "session-1";
  window_id = "window-1";
  operations = adding ∷ [];
  created_at_ms = 9;
}

adding-IsOperation : IsOperation python adding
adding-IsOperation = record {
  summaries = refl;
  evidence = (refl, tt);
  targets = tt;
  speakers = tt;
  reasons = tt;
}

result_round_trip_example : result_from_payload python 1 (result_to_payload result) ≡ ok result
result_round_trip_example = result_round_trip python 1 result (adding-IsOperation, tt) nine

abbrev calls : List (StoreCall ℕ)
calls =
    apply "session-1" ((stamp, adding) ∷ [])
    ∷ apply "session-2" ((stamp, adding) ∷ [])
    ∷ clear "session-1"
    ∷ []

questions_of-run_store_example :
    questions_of "session-2" (run_store plain calls [])
    ≡ run_board plain "session-2" calls (questions_of "session-2" [])
questions_of-run_store_example = questions_of-run_store plain "session-2" calls []
