-- ===== src/Questions/Boards.antt =====
-- The boards of the store: what every result and every clearing keeps.
use meeting_overlay_assistan.Base.{
  String, true, List, [], ◌∷◌, map, ◌==◌, if◌then◌else◌, string_eq, ◌≡◌, refl, arith, Bool-cases,
  inl, inr,
}
use meeting_overlay_assistan.Base.Lists.{All}
use meeting_overlay_assistan.Base.Distinct.{IsDistinct}
use meeting_overlay_assistan.Base.Rows.{keep_if}
use meeting_overlay_assistan.Base.Dict.{insert, erase, lookup-insert, lookup-erase}
use meeting_overlay_assistan.Insight.States.{event_state_eq}
use meeting_overlay_assistan.Insight.Events.{MeetingEvent, Platform, normalized_title}
use meeting_overlay_assistan.Questions.Models.{LiveQuestionOperation}
use meeting_overlay_assistan.Questions.Board.{
  Store, questions_of, is_open, Stamp, apply_operations, apply_result, clear_session,
}
use meeting_overlay_assistan.Questions.Titles.{open_titles, apply_operations-IsDistinct}

pub questions_of-insert :
    (k j : String) (v : List MeetingEvent) (store : Store)
    → questions_of j (insert k v store) ≡ (if k == j then v else questions_of j store)
questions_of-insert k j v store = ground (arith, lookup-insert k j v store)

pub questions_of-erase :
    (k j : String) (store : Store)
    → questions_of j (erase k store) ≡ (if k == j then [] else questions_of j store)
questions_of-erase k j store = ground (arith, lookup-erase k j store)

module _ (p : Platform) where
  -- What the store keeps of a session: open questions, no two of one normalized title.
  abbrev pub IsBoard : List MeetingEvent → Type 0
  IsBoard questions =
      All (λ (e : MeetingEvent). is_open e ≡ true) questions
      × IsDistinct (map (normalized_title p) questions)

  kept-open :
      (current : List MeetingEvent)
      → All (λ (e : MeetingEvent). is_open e ≡ true) (keep_if is_open current)
  unfolding keep_if
  kept-open [] = tt
  kept-open (e ∷ es) = elim (Bool-cases (is_open e)) [
    | inl o ↦ rw o (o, kept-open es)
    | inr n ↦ rw n (kept-open es)
  ]

  open-kept :
      (current : List MeetingEvent)
      → All (λ (e : MeetingEvent). is_open e ≡ true) current
      → keep_if is_open current ≡ current
  unfolding keep_if
  open-kept [] h = refl
  open-kept (e ∷ es) h = rw (h.0, open-kept es h.1)

  -- Every session of the store has a board.
  abbrev pub IsStore : Store → Type 0
  IsStore store = (session_id : String) → IsBoard (questions_of session_id store)

  -- Whatever the operations are, the store goes on keeping open questions only, and for each session
  -- no two of one normalized title.
  pub apply_result-IsStore :
      {F : Type 0} (session_id : String) (operations : List (Stamp × LiveQuestionOperation F))
      (store : Store)
      → IsStore store
      → IsStore (apply_result p session_id operations store).0
  unfolding apply_result open_titles
  apply_result-IsStore session_id operations store h other =
      let (opens, distinct) = h session_id in
      let before : IsDistinct (open_titles p (questions_of session_id store)) =
        rw (open-kept (questions_of session_id store) opens) distinct in
      let done = apply_operations p session_id operations (questions_of session_id store) in
      let board : IsBoard (keep_if is_open done.0) = (
        kept-open done.0,
        apply_operations-IsDistinct p session_id operations (questions_of session_id store) before,
      ) in
      rw (questions_of-insert session_id other (keep_if is_open done.0) store)
        (elim (Bool-cases (session_id == other)) [
          | inl same ↦ rw same board
          | inr differ ↦ rw differ (h other)
        ])

  pub clear_session-IsStore :
      (session_id : String) (store : Store)
      → IsStore store
      → IsStore (clear_session session_id store)
  unfolding clear_session
  clear_session-IsStore session_id store h other =
      rw (questions_of-erase session_id other store) (elim (Bool-cases (session_id == other)) [
        | inl same ↦ rw same (tt, tt)
        | inr differ ↦ rw differ (h other)
      ])
