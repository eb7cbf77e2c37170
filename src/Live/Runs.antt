-- ===== src/Live/Runs.antt =====
-- Histories of the whole runtime: clients open, feed and close streams, workers take, answer and
-- complete jobs, in any order. A call that raises changes nothing.
use meeting_overlay_assistan.Base.{ℕ, String, Bool, Option, none, some, List, [], ◌∷◌, string_eq}
use meeting_overlay_assistan.Base.Outcome.{Result, ok, err}
use meeting_overlay_assistan.Live.Chunks.{Chunk}
use meeting_overlay_assistan.Live.Context.{InferenceResult, JobKind}
use meeting_overlay_assistan.Live.ReadyQueue.{queue_name_eq, empty_queues}
use meeting_overlay_assistan.Live.Scheduler.{Runtime, complete_job, next_job_pass}
use meeting_overlay_assistan.Live.Service.{
  Answer, open_stream, enqueue_stream_chunk, receive_result, publish_error, publish_question_events,
  close_input, close_stream, publish_job_answer,
}

pub data RuntimeEvent (A : Type 0) : Type 0 where
  opens : String → Option String → String → Bool → String → RuntimeEvent A
  feeds : String → Chunk → RuntimeEvent A
  receives closes_input closes_stream : String → RuntimeEvent A
  reports : String → String → RuntimeEvent A
  questions : String → List A → RuntimeEvent A
  polls : RuntimeEvent A
  answers_job : String → JobKind → Answer A → RuntimeEvent A
  completes_job : String → JobKind → RuntimeEvent A

module _ {A : Type 0} where
  abbrev pub after_open : Runtime A → Result (String × Runtime A) → Runtime A
  after_open rt (ok (id, rt')) = rt'
  after_open rt (err e) = rt

  abbrev pub after_feed : Runtime A → Result (Runtime A) → Runtime A
  after_feed rt (ok rt') = rt'
  after_feed rt (err e) = rt

  abbrev pub after_receive : Runtime A → Result (Option (InferenceResult A × Runtime A)) → Runtime A
  after_receive rt (ok (some (result, rt'))) = rt'
  after_receive rt (ok none) = rt
  after_receive rt (err e) = rt

  -- The number is the service's `pending_chunks_per_stream`.
  unfoldable pub step : ℕ → Runtime A → RuntimeEvent A → Runtime A
  step limit rt (opens session_id source kind previews hex) =
      after_open rt (open_stream rt limit session_id source kind previews hex)
  step limit rt (feeds id chunk) = after_feed rt (enqueue_stream_chunk rt id chunk)
  step limit rt (receives id) = after_receive rt (receive_result rt id)
  step limit rt (closes_input id) = close_input rt id
  step limit rt (closes_stream id) = close_stream rt id
  step limit rt (reports id message) = publish_error rt id message
  step limit rt (questions session_id events) = publish_question_events rt session_id events
  step limit rt polls = (next_job_pass rt).0
  step limit rt (answers_job id kind answer) = publish_job_answer rt id kind answer
  step limit rt (completes_job id kind) = complete_job rt id kind

  unfoldable pub run : ℕ → Runtime A → List (RuntimeEvent A) → Runtime A
  run limit rt [] = rt
  run limit rt (e ∷ es) = run limit (step limit rt e) es

  abbrev pub new_runtime : ℕ → Runtime A
  new_runtime max_running_streams = record {
    registry = record { max_running_streams = max_running_streams; contexts = [] };
    queues = empty_queues;
  }
