-- ===== src/Questions/Titles.antt =====
-- The titles of the open questions: what an operation does to them.
use meeting_overlay_assistan.Base.{
  ◌+◌, String, true, false, ◌||◌, Option, none, some, List, [], ◌∷◌, map, ◌==◌, string_eq, contains,
  ◌≡◌, refl, ap, ◌∙◌, sym, subst, arith, Bool-cases, inl, inr,
}
use meeting_overlay_assistan.Base.Distinct.{IsDistinct}
use meeting_overlay_assistan.Base.Rows.{keep_if, head}
use meeting_overlay_assistan.Base.Text.{strip, is_empty}
use meeting_overlay_assistan.Insight.States.{question, open_state, answered, event_state_eq}
use meeting_overlay_assistan.Insight.Events.{
  MeetingEvent, Platform, normalize_title, normalized_title, create,
}
use meeting_overlay_assistan.Questions.Models.{LiveQuestionOperation}
use meeting_overlay_assistan.Questions.Board.{
  is_open, Stamp, has_open_title, summary_or_empty, add_question, close_question, close_target,
  apply_operation, apply_operations,
}

module _ (p : Platform) where
  -- The normalized titles of the questions that are open.
  unfoldable pub open_titles : List MeetingEvent → List String
  open_titles current = map (normalized_title p) (keep_if is_open current)

  has_open_title-contains :
      (title : String) (current : List MeetingEvent)
      → has_open_title p title current ≡ contains (open_titles current) title
  unfolding has_open_title open_titles keep_if
  has_open_title-contains title [] = refl
  has_open_title-contains title (e ∷ es) = ground (arith, has_open_title-contains title es)

  close_question-titles :
      (target title : String) (current : List MeetingEvent)
      → contains (open_titles current) title ≡ false
      → contains (open_titles (close_question target current).0) title ≡ false
  unfolding close_question open_titles keep_if
  close_question-titles target title [] h = refl
  close_question-titles target title (e ∷ es) h =
      ground (arith, close_question-titles target title es)

  open_titles-open :
      (e : MeetingEvent) (es : List MeetingEvent)
      → is_open e ≡ true
      → open_titles (e ∷ es) ≡ normalized_title p e ∷ open_titles es
  unfolding open_titles keep_if
  open_titles-open e es h = rw h

  open_titles-shut :
      (e : MeetingEvent) (es : List MeetingEvent)
      → is_open e ≡ false
      → open_titles (e ∷ es) ≡ open_titles es
  unfolding open_titles keep_if
  open_titles-shut e es h = rw h

  close_question-IsDistinct :
      (target : String) (current : List MeetingEvent)
      → IsDistinct (open_titles current)
      → IsDistinct (open_titles (close_question target current).0)
  unfolding close_question
  close_question-IsDistinct target [] h = h
  close_question-IsDistinct target (e ∷ es) h = elim (Bool-cases (is_open e)) [
    | inl o ↦
        let (new, distinct) = subst IsDistinct (open_titles-open e es o) h in
        elim (Bool-cases (e.id == target)) [
          | inl same ↦
              let shut : (close_question target (e ∷ es)).0
                  ≡ record e { state = answered; updated_at_ms = e.updated_at_ms + 1 } ∷ es =
                ground arith in
              rw
                (
                  shut,
                  open_titles-shut
                      (record e { state = answered; updated_at_ms = e.updated_at_ms + 1 }) es
                      (ground arith),
                )
                distinct
          | inr other ↦
              let kept : (close_question target (e ∷ es)).0 ≡ e ∷ (close_question target es).0 =
                ground arith in
              let both : IsDistinct
                  (normalized_title p e ∷ open_titles (close_question target es).0) =
                (
                  close_question-titles target (normalized_title p e) es new,
                  close_question-IsDistinct target es distinct,
                ) in
              subst IsDistinct
                (sym (ap open_titles kept ∙ open_titles-open e (close_question target es).0 o)) both
        ]
    | inr n ↦
        let distinct = subst IsDistinct (open_titles-shut e es n) h in
        elim (Bool-cases (e.id == target)) [
          | inl same ↦
              let kept : (close_question target (e ∷ es)).0 ≡ e ∷ es = ground arith in
              subst (λ (xs : List MeetingEvent). IsDistinct (open_titles xs)) (sym kept) h
          | inr other ↦
              let kept : (close_question target (e ∷ es)).0 ≡ e ∷ (close_question target es).0 =
                ground arith in
              subst IsDistinct
                (sym (ap open_titles kept ∙ open_titles-shut e (close_question target es).0 n))
                (close_question-IsDistinct target es distinct)
        ]
  ]

  close_target-IsDistinct :
      (target : Option String) (current : List MeetingEvent)
      → IsDistinct (open_titles current)
      → IsDistinct (open_titles (close_target target current).0)
  close_target-IsDistinct none current h = h
  close_target-IsDistinct (some target) current h = elim (Bool-cases (is_empty target)) [
    | inl blank ↦ rw blank h
    | inr full ↦ rw full (close_question-IsDistinct target current h)
  ]

  module _ {F : Type 0} (session_id : String) (stamp : Stamp)
      (operation : LiveQuestionOperation F) where
    add_question-IsDistinct :
        (current : List MeetingEvent)
        → IsDistinct (open_titles current)
        → IsDistinct (open_titles (add_question p session_id stamp operation current).0)
    unfolding add_question create
    add_question-IsDistinct current h =
        let summary = strip (summary_or_empty operation.summary) in
        elim (Bool-cases (is_empty summary)) [
          | inl blank ↦ rw blank h
          | inr full ↦ elim (Bool-cases (has_open_title p (normalize_title p summary) current)) [
            | inl listed ↦ rw (full, listed) h
            | inr unlisted ↦
                let event =
                  create stamp.id stamp.now session_id question summary open_state
                    (head operation.evidence_utterance_ids) operation.speaker_label in
                let both : IsDistinct (normalize_title p summary ∷ open_titles current) = (
                  sym (has_open_title-contains (normalize_title p summary) current) ∙ unlisted,
                  h,
                ) in
                rw (full, unlisted, open_titles-open event current (ground arith)) both
          ]
        ]

    apply_operation-IsDistinct :
        (current : List MeetingEvent)
        → IsDistinct (open_titles current)
        → IsDistinct (open_titles (apply_operation p session_id stamp operation current).0)
    unfolding apply_operation
    apply_operation-IsDistinct current h = elim (Bool-cases (operation.op == "add")) [
      | inl add ↦ rw add (add_question-IsDistinct current h)
      | inr other ↦ elim (Bool-cases (operation.op == "close")) [
        | inl close ↦
            rw (other, close) (close_target-IsDistinct operation.target_question_id current h)
        | inr neither ↦ rw (other, neither) h
      ]
    ]

  pub apply_operations-IsDistinct :
      {F : Type 0} (session_id : String) (operations : List (Stamp × LiveQuestionOperation F))
      (current : List MeetingEvent)
      → IsDistinct (open_titles current)
      → IsDistinct (open_titles (apply_operations p session_id operations current).0)
  unfolding apply_operations
  apply_operations-IsDistinct session_id [] current h = h
  apply_operations-IsDistinct session_id ((stamp, operation) ∷ rest) current h =
      apply_operations-IsDistinct session_id rest
        (apply_operation p session_id stamp operation current).0
        (apply_operation-IsDistinct session_id stamp operation current h)

  -- Adding a question with a summary makes its title one of the open titles and leaves the other
  -- titles as they are, whether the question was new or not.
  pub add_question-open_titles :
      {F : Type 0} (session_id : String) (stamp : Stamp) (operation : LiveQuestionOperation F)
      (current : List MeetingEvent) (title : String)
      → is_empty (strip (summary_or_empty operation.summary)) ≡ false
      → contains (open_titles (add_question p session_id stamp operation current).0) title ≡ (
          normalize_title p (strip (summary_or_empty operation.summary)) == title
          || contains (open_titles current) title)
  unfolding add_question create
  add_question-open_titles session_id stamp operation current title full =
      let summary = strip (summary_or_empty operation.summary) in
      let listed_before = has_open_title-contains (normalize_title p summary) current in
      elim (Bool-cases (has_open_title p (normalize_title p summary) current)) [
        | inl listed ↦ rw (full, listed) ground arith
        | inr unlisted ↦
            let event =
              create stamp.id stamp.now session_id question summary open_state
                (head operation.evidence_utterance_ids) operation.speaker_label in
            rw (full, unlisted, open_titles-open event current (ground arith)) ground arith
      ]
