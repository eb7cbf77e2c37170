-- ===== src/Live/Claiming.antt =====
-- runtime/scheduler/inference_job.py and `claim_inference_job` of
-- runtime/scheduler/helpers/job_flow.py. The monitor that records preview stages is left out.
use meeting_overlay_assistan.Base.{ℕ, String, Option, none}
use meeting_overlay_assistan.Base.Outcome.{Result, ok, err}
use meeting_overlay_assistan.Live.Chunks.{Chunk}
use meeting_overlay_assistan.Live.Context.{
  LiveStreamContext, JobKind, preview, final, Priority, priority, mark_busy, pop_job_chunk_nowait,
}

pub record InferenceJob : Type 0 where
  pub context_id : String
  pub session_id : String
  pub input_source : Option String
  pub stream_kind : String
  pub kind : JobKind
  pub priority : Priority
  pub chunk : Chunk
  pub preview_cycle_id : Option ℕ

module _ {A : Type 0} where
  -- The cycle of a preview job; a final job has none.
  abbrev pub job_cycle_id : LiveStreamContext A → JobKind → Option ℕ
  job_cycle_id c preview = c.active_preview_cycle_id
  job_cycle_id c final = none

  abbrev pub job_of :
      LiveStreamContext A
      → JobKind
      → Result (Chunk × LiveStreamContext A)
      → LiveStreamContext A × Result InferenceJob
  job_of c preferred_kind (err e) = (c, err e)
  job_of c preferred_kind (ok (chunk, d)) = (
    d,
    ok (record {
      context_id = d.context_id;
      session_id = d.session_id;
      input_source = d.input_source;
      stream_kind = d.stream_kind;
      kind = preferred_kind;
      priority = priority d;
      chunk = chunk;
      preview_cycle_id = job_cycle_id d preferred_kind;
    }),
  )

  -- The lane is busy also when the pop raises.
  unfoldable pub claim_inference_job :
      LiveStreamContext A → JobKind → LiveStreamContext A × Result InferenceJob
  unfolding mark_busy pop_job_chunk_nowait
  claim_inference_job c preferred_kind =
      let marked = mark_busy c preferred_kind in
      job_of marked preferred_kind (pop_job_chunk_nowait marked preferred_kind)
