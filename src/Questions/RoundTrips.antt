-- ===== src/Questions/RoundTrips.antt =====
-- Reading back what was written to the queues.
use meeting_overlay_assistan.Base.{
  ℕ, String, string_eq, false, Option, none, some, List, [], ◌∷◌, nat_eq, ◌≡◌, ◌≢◌, refl, arith,
}
use meeting_overlay_assistan.Base.Lists.{All}
use meeting_overlay_assistan.Base.Text.{is_empty}
use meeting_overlay_assistan.Base.Outcome.{Result, ok}
use meeting_overlay_assistan.Questions.Models.{
  LiveQuestionUtterance, LiveQuestionItem, LiveQuestionRequest, LiveQuestionOperation,
  LiveQuestionResult,
}
use meeting_overlay_assistan.Questions.Json.{
  text, whole, real, array, Items, no_items, item, Fields, Python, get, text_of, float_of, int_or,
  int_given, text_given, iterate_or_none, texts_of, dicts_of, text_or_null, whole_or_null,
  text_items, object_items,
}
use meeting_overlay_assistan.Questions.Payloads.{
  utterance_to_payload, utterance_from_payload, item_to_payload, item_from_payload,
  operation_to_payload, operation_from_payload, request_to_payload, request_from_payload,
  result_to_payload, result_from_payload,
}

-- A text that is given is not empty.
abbrev pub IsGiven : Option String → Type 0
IsGiven none = Unit
IsGiven (some s) = is_empty s ≡ false

module _ {F : Type 0} (py : Python F) where
  text_of-text : (s : String) → text_of py (text s) ≡ s
  text_of-text String.[] = refl
  text_of-text (String.◌∷◌ c s) = refl

  text_given-text_or_null : (o : Option String) → IsGiven o → text_given py (text_or_null o) ≡ ok o
  text_given-text_or_null none h = refl
  text_given-text_or_null (some String.[]) h = absurd (ground (arith, h))
  text_given-text_or_null (some (String.◌∷◌ c s)) h = refl

  int_given-whole_or_null : (o : Option ℕ) → int_given py (whole_or_null o) ≡ ok o
  int_given-whole_or_null none = refl
  int_given-whole_or_null (some n) = refl

  float_of-real : (x : F) → float_of py (real x) ≡ ok x
  float_of-real x = elim (py.float_eq.dec x py.zero) [
    | yes same ↦ rw same (ground arith)
    | no differ ↦ ground arith
  ]

  texts_of-text_items :
      (ss : List String)
      → All (λ (s : String). is_empty s ≡ false) ss
      → texts_of py (text_items ss) ≡ ok ss
  unfolding texts_of text_items
  texts_of-text_items [] h = refl
  texts_of-text_items (String.[] ∷ ss) h = absurd (ground (arith, h.0))
  texts_of-text_items (String.◌∷◌ c s ∷ ss) h = rw (texts_of-text_items ss h.1)

  iterated : (vs : Items F) → iterate_or_none py (array vs) ≡ ok vs
  iterated no_items = refl
  iterated (item v vs) = refl

  dicts_of-object_items :
      {A : Type 0} (write : A → Fields F) (read : Fields F → Result A) (xs : List A)
      → All (λ (a : A). read (write a) ≡ ok a) xs
      → dicts_of read (object_items write xs) ≡ ok xs
  unfolding dicts_of object_items
  dicts_of-object_items write read [] h = refl
  dicts_of-object_items write read (a ∷ rest) h =
      rw (h.0, dicts_of-object_items write read rest h.1)

  item_round_trip :
      (i : LiveQuestionItem F)
      → IsGiven i.speaker_label
      → item_from_payload py (item_to_payload i) ≡ ok i
  unfolding item_from_payload item_to_payload get string_eq
  item_round_trip i h =
      rw
        (
          text_given-text_or_null i.speaker_label h,
          float_of-real i.confidence,
          text_of-text i.id,
          text_of-text i.summary,
        )
        refl

  utterance_round_trip :
      (u : LiveQuestionUtterance F)
      → IsGiven u.speaker_label
      → utterance_from_payload py (utterance_to_payload u) ≡ ok u
  unfolding utterance_from_payload utterance_to_payload get string_eq
  utterance_round_trip u h =
      rw
        (
          text_given-text_or_null u.speaker_label h,
          int_given-whole_or_null u.timestamp_ms,
          float_of-real u.confidence,
          text_of-text u.id,
          text_of-text u.text,
        )
        refl

  -- No text of the operation that is given is empty.
  pub record IsOperation (o : LiveQuestionOperation F) : Type 0 where
    pub summaries : IsGiven o.summary
    pub evidence : All (λ (s : String). is_empty s ≡ false) o.evidence_utterance_ids
    pub targets : IsGiven o.target_question_id
    pub speakers : IsGiven o.speaker_label
    pub reasons : IsGiven o.reason

  operation_round_trip :
      (o : LiveQuestionOperation F)
      → IsOperation o
      → operation_from_payload py (operation_to_payload o) ≡ ok o
  unfolding operation_from_payload operation_to_payload get string_eq
  operation_round_trip o h =
      rw
        (
          text_given-text_or_null o.summary h.summaries,
          float_of-real o.confidence,
          iterated (text_items o.evidence_utterance_ids),
          texts_of-text_items o.evidence_utterance_ids h.evidence,
          text_given-text_or_null o.target_question_id h.targets,
          text_given-text_or_null o.speaker_label h.speakers,
          text_given-text_or_null o.reason h.reasons,
          text_of-text o.op,
        )
        refl

  All-map :
      {A : Type 0} (P Q : A → Type 0) (xs : List A) → ((a : A) → P a → Q a) → All P xs → All Q xs
  All-map P Q [] f h = tt
  All-map P Q (x ∷ xs) f h = (f x h.0, All-map P Q xs f h.1)

  int_or-whole : (now n : ℕ) → n ≢ 0 → int_or py now (whole n) ≡ ok n
  int_or-whole now n h = ground arith

  -- A request is read back from its payload, whatever the time of the reading, if no label of it is
  -- the empty text and it was not created at the time 0.
  pub request_round_trip :
      (now : ℕ) (r : LiveQuestionRequest F)
      → All (λ (u : LiveQuestionUtterance F). IsGiven u.speaker_label) r.utterances
      → All (λ (i : LiveQuestionItem F). IsGiven i.speaker_label) r.open_questions
      → r.created_at_ms ≢ 0
      → request_from_payload py now (request_to_payload r) ≡ ok r
  unfolding request_from_payload request_to_payload get string_eq
  request_round_trip now r labels items created =
      let spoken =
        dicts_of-object_items utterance_to_payload (utterance_from_payload py) r.utterances (
          All-map (λ (u : LiveQuestionUtterance F). IsGiven u.speaker_label)
            (λ (u : LiveQuestionUtterance F).
              utterance_from_payload py (utterance_to_payload u) ≡ ok u)
            r.utterances utterance_round_trip labels) in
      let asked = dicts_of-object_items item_to_payload (item_from_payload py) r.open_questions (
        All-map (λ (i : LiveQuestionItem F). IsGiven i.speaker_label)
          (λ (i : LiveQuestionItem F). item_from_payload py (item_to_payload i) ≡ ok i)
          r.open_questions item_round_trip items) in
      rw
        (
          iterated (object_items utterance_to_payload r.utterances),
          spoken,
          iterated (object_items item_to_payload r.open_questions),
          asked,
          int_or-whole now r.created_at_ms created,
          text_of-text r.session_id,
          text_of-text r.window_id,
        )
        refl

  -- A result is read back from its payload, whatever the time of the reading, if no text that an
  -- operation of it gives is empty and it was not created at the time 0.
  pub result_round_trip :
      (now : ℕ) (r : LiveQuestionResult F)
      → All IsOperation r.operations
      → r.created_at_ms ≢ 0
      → result_from_payload py now (result_to_payload r) ≡ ok r
  unfolding result_from_payload result_to_payload get string_eq
  result_round_trip now r operations created =
      let read =
        dicts_of-object_items operation_to_payload (operation_from_payload py) r.operations (
          All-map IsOperation
            (λ (o : LiveQuestionOperation F).
              operation_from_payload py (operation_to_payload o) ≡ ok o)
            r.operations operation_round_trip operations) in
      rw
        (
          iterated (object_items operation_to_payload r.operations),
          read,
          int_or-whole now r.created_at_ms created,
          text_of-text r.session_id,
          text_of-text r.window_id,
        )
        refl
