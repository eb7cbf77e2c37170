-- ===== src/Live/Service.antt =====
-- runtime/services/live_stream_service.py and the steps of a worker of
-- runtime/workers/stt_worker_pool.py. Between its awaits on a pipeline or an empty queue, a method
-- is one step.
use Prim.Native.Nat.{max}
use meeting_overlay_assistan.Base.{
  ℕ, String, Bool, not, ◌&&◌, ◌||◌, Option, none, some, List, [], ◌∷◌, ◌==◌, if◌then◌else◌,
  string_eq,
}
use meeting_overlay_assistan.Base.Dict.{Dict}
use meeting_overlay_assistan.Base.Outcome.{Result, ok, err, key_error}
use meeting_overlay_assistan.Live.Chunks.{Chunk}
use meeting_overlay_assistan.Live.Context.{
  LiveStreamContext, InferenceResult, JobKind, preview, final, payload, error_result, enqueue_chunk,
  mark_input_closed, mark_preview_emitted, publish_result, publish_terminal_once, next_result, busy,
  has_pending_chunks, is_filled,
}
use meeting_overlay_assistan.Live.Registry.{
  LiveStreamRegistry, get_context, put_context, remove_context, create_context,
}
use meeting_overlay_assistan.Live.Scheduler.{Runtime, notify_context_ready}

-- What the pipeline answers to a worker: its utterances and events, or the text of an exception.
pub data Answer (A : Type 0) : Type 0 where
  answers : List A → List A → Answer A
  fails_with : String → Answer A

module _ {A : Type 0} where
  abbrev pub put : Runtime A → String → LiveStreamContext A → Runtime A
  put rt id c = record rt { registry = put_context rt.registry id c }

  abbrev pub opened :
      Runtime A → Result (LiveStreamContext A × LiveStreamRegistry A) → Result (String × Runtime A)
  opened rt (ok (c, registry)) = ok (c.context_id, record rt { registry = registry })
  opened rt (err e) = err e

  -- The number is the constructor's `pending_chunks_per_stream`.
  unfoldable pub open_stream :
      Runtime A → ℕ → String → Option String → String → Bool → String → Result (String × Runtime A)
  open_stream rt pending_chunks_per_stream session_id input_source stream_kind supports_preview
        hex =
      opened rt (
        create_context rt.registry session_id input_source stream_kind supports_preview
          (max pending_chunks_per_stream 1) hex)

  unfoldable pub enqueue_stream_chunk : Runtime A → String → Chunk → Result (Runtime A)
  enqueue_stream_chunk rt id chunk = elim (get_context rt.registry id) [
    | none ↦ err key_error
    | some c ↦ ok (notify_context_ready (put rt id (enqueue_chunk c chunk)) id)
  ]

  abbrev pub received :
      Runtime A
      → String
      → Option (InferenceResult A × LiveStreamContext A)
      → Option (InferenceResult A × Runtime A)
  received rt id none = none
  received rt id (some (result, c)) = some (result, put rt id c)

  -- `none` while the call waits for a result.
  unfoldable pub receive_result :
      Runtime A → String → Result (Option (InferenceResult A × Runtime A))
  receive_result rt id = elim (get_context rt.registry id) [
    | none ↦ err key_error
    | some c ↦ ok (received rt id (next_result c))
  ]

  unfoldable pub publish_error : Runtime A → String → String → Runtime A
  publish_error rt id message = elim (get_context rt.registry id) [
    | none ↦ rt
    | some c ↦ put rt id (publish_result c (error_result message))
  ]

  abbrev pub publish_to_session :
      String
      → InferenceResult A
      → Dict String (LiveStreamContext A)
      → Dict String (LiveStreamContext A)
  publish_to_session session_id result [] = []
  publish_to_session session_id result ((id, c) ∷ rest) =
      (id, if c.session_id == session_id then publish_result c result else c)
      ∷ publish_to_session session_id result rest

  unfoldable pub publish_question_events : Runtime A → String → List A → Runtime A
  publish_question_events rt session_id events = if not (is_filled events) then rt else record rt {
    registry = record rt.registry {
      contexts = publish_to_session session_id (payload [] events) rt.registry.contexts;
    };
  }

  abbrev pub close_found : Runtime A → String → LiveStreamContext A → Runtime A
  close_found rt id c =
      let closed = mark_input_closed c in
      if not (busy closed) && not (has_pending_chunks closed)
      then put rt id (publish_terminal_once closed)
      else if has_pending_chunks closed
      then notify_context_ready (put rt id closed) id
      else put rt id closed

  unfoldable pub close_input : Runtime A → String → Runtime A
  close_input rt id = elim (get_context rt.registry id) [ none ↦ rt | some c ↦ close_found rt id c ]

  unfoldable pub close_stream : Runtime A → String → Runtime A
  close_stream rt id = record rt { registry = remove_context rt.registry id }

  -- What a worker does with the answer, before it completes the job.
  abbrev pub publish_answer : LiveStreamContext A → JobKind → Answer A → LiveStreamContext A
  publish_answer c kind (fails_with message) = publish_result c (error_result message)
  publish_answer c preview (answers utterances events) =
      let d = if is_filled utterances then mark_preview_emitted c else c in
      if is_filled utterances then publish_result d (payload utterances []) else d
  publish_answer c final (answers utterances events) =
      if is_filled utterances || is_filled events
      then publish_result c (payload utterances events)
      else c

  unfoldable pub publish_job_answer : Runtime A → String → JobKind → Answer A → Runtime A
  publish_job_answer rt id kind answer = elim (get_context rt.registry id) [
    | none ↦ rt
    | some c ↦ put rt id (publish_answer c kind answer)
  ]
