-- ===== src/Live/History.antt =====
-- Histories of one stream: the calls that the service, the scheduler and the workers make on its
-- context, in any order.
use meeting_overlay_assistan.Base.{String, Option, none, some, List, [], ◌∷◌}
use meeting_overlay_assistan.Base.Outcome.{Result, ok, err}
use meeting_overlay_assistan.Live.Chunks.{Chunk}
use meeting_overlay_assistan.Live.Context.{
  LiveStreamContext, InferenceResult, JobKind, payload, error_result, enqueue_chunk,
  pop_job_chunk_nowait, mark_busy, mark_idle, mark_input_closed, mark_preview_emitted,
  publish_result, publish_terminal_once, next_result, ensure_preview_cycle_id,
}

-- The runtime publishes a payload or an error by `publish_result`, and the terminal result by
-- `publish_terminal_once` only.
pub data Op (A : Type 0) : Type 0 where
  receives : Chunk → Op A
  takes starts idles : JobKind → Op A
  closes_input emits_preview ends delivers numbers_preview : Op A
  publishes : List A → List A → Op A
  reports : String → Op A

module _ {A : Type 0} where
  abbrev pub after_pop :
      LiveStreamContext A → Result (Chunk × LiveStreamContext A) → LiveStreamContext A
  after_pop c (ok r) = r.1
  after_pop c (err e) = c

  abbrev pub after_delivery :
      LiveStreamContext A → Option (InferenceResult A × LiveStreamContext A) → LiveStreamContext A
  after_delivery c (some r) = r.1
  after_delivery c none = c

  unfoldable pub step : LiveStreamContext A → Op A → LiveStreamContext A
  unfolding enqueue_chunk mark_busy mark_idle mark_input_closed mark_preview_emitted publish_result
      publish_terminal_once next_result ensure_preview_cycle_id pop_job_chunk_nowait
  step c (receives chunk) = enqueue_chunk c chunk
  step c (takes kind) = after_pop c (pop_job_chunk_nowait c kind)
  step c (starts kind) = mark_busy c kind
  step c (idles kind) = mark_idle c kind
  step c closes_input = mark_input_closed c
  step c emits_preview = mark_preview_emitted c
  step c ends = publish_terminal_once c
  step c delivers = after_delivery c (next_result c)
  step c numbers_preview = (ensure_preview_cycle_id c).2
  step c (publishes utterances events) = publish_result c (payload utterances events)
  step c (reports message) = publish_result c (error_result message)

  unfoldable pub run : LiveStreamContext A → List (Op A) → LiveStreamContext A
  run c [] = c
  run c (o ∷ os) = run (step c o) os
