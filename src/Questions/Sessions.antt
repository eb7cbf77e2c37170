-- ===== src/Questions/Sessions.antt =====
-- The store against its abstraction: one board for each session, and none knows of the others.
use meeting_overlay_assistan.Base.{
  String, List, [], ◌∷◌, ◌==◌, if◌then◌else◌, string_eq, ◌≡◌, refl, ap, ◌∙◌, arith, Bool-cases, inl,
  inr,
}
use meeting_overlay_assistan.Base.Rows.{keep_if}
use meeting_overlay_assistan.Insight.Events.{MeetingEvent, Platform}
use meeting_overlay_assistan.Questions.Models.{LiveQuestionOperation}
use meeting_overlay_assistan.Questions.Board.{
  Store, questions_of, is_open, Stamp, apply_operations, apply_result, clear_session,
}
use meeting_overlay_assistan.Questions.Boards.{questions_of-insert, questions_of-erase}

-- One call on the store.
pub data StoreCall (F : Type 0) : Type 0 where
  apply : String → List (Stamp × LiveQuestionOperation F) → StoreCall F
  clear : String → StoreCall F

module _ {F : Type 0} (p : Platform) where
  unfoldable pub store_step : StoreCall F → Store → Store
  unfolding apply_result clear_session
  store_step (apply session_id operations) store = (apply_result p session_id operations store).0
  store_step (clear session_id) store = clear_session session_id store

  unfoldable pub run_store : List (StoreCall F) → Store → Store
  unfolding store_step
  run_store [] store = store
  run_store (call ∷ calls) store = run_store calls (store_step call store)

  -- The board of one session: calls for other sessions leave it alone.
  unfoldable pub board_step : String → StoreCall F → List MeetingEvent → List MeetingEvent
  board_step session_id (apply other operations) board =
      if other == session_id
      then keep_if is_open (apply_operations p other operations board).0
      else board
  board_step session_id (clear other) board = if other == session_id then [] else board

  unfoldable pub run_board : String → List (StoreCall F) → List MeetingEvent → List MeetingEvent
  unfolding board_step
  run_board session_id [] board = board
  run_board session_id (call ∷ calls) board =
      run_board session_id calls (board_step session_id call board)

  questions_of-store_step :
      (session_id : String) (call : StoreCall F) (store : Store)
      → questions_of session_id (store_step call store)
        ≡ board_step session_id call (questions_of session_id store)
  unfolding store_step board_step apply_result clear_session
  questions_of-store_step session_id (apply other operations) store =
      let done = apply_operations p other operations (questions_of other store) in
      let kept = questions_of-insert other session_id (keep_if is_open done.0) store in
      elim (Bool-cases (other == session_id)) [
        | inl same ↦
            let sessions : other ≡ session_id = ground arith in
            kept
            ∙ rw same (
                ap
                  (λ (i : String).
                    keep_if is_open (apply_operations p other operations (questions_of i store)).0)
                  sessions)
        | inr differ ↦ kept ∙ rw differ refl
      ]
  questions_of-store_step session_id (clear other) store = questions_of-erase other session_id store

  -- Whatever calls the store has had, the questions that it keeps for a session are those of the
  -- session's own board after the session's own calls.
  pub questions_of-run_store :
      (session_id : String) (calls : List (StoreCall F)) (store : Store)
      → questions_of session_id (run_store calls store)
        ≡ run_board session_id calls (questions_of session_id store)
  unfolding run_store run_board
  questions_of-run_store session_id [] store = refl
  questions_of-run_store session_id (call ∷ calls) store =
      questions_of-run_store session_id calls (store_step call store)
      ∙ ap (run_board session_id calls) (questions_of-store_step session_id call store)
