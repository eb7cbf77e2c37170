-- ===== src/Tests/Runtime.antt =====
-- The live runtime at concrete inputs.
use Prim.Native.Nat.{ℕ}
use meeting_overlay_assistan.Base.{
  String, ◌≡◌, refl, Bool, true, false, Option, none, some, List, [], ◌∷◌, string_eq,
}
use meeting_overlay_assistan.Base.Dict.{lookup, insert, erase}
use meeting_overlay_assistan.Live.Context.{
  LiveStreamContext, preview, final, new_context, enqueue_chunk,
}
use meeting_overlay_assistan.Live.Policy.{is_job_kind_ready, ready_job_kinds}
use meeting_overlay_assistan.Live.Claiming.{claim_inference_job}
use meeting_overlay_assistan.Live.ReadyQueue.{
  queue_name_eq, ReadyQueues, enqueue_named, enqueue_ready_context, discard_ready_context, without,
  leave_queue, pop_ready_ids, pop_ready_context, pop_next_ready_context,
}
use meeting_overlay_assistan.Live.ReadyQueue.Order.{
  IsNextPopped, pop_next_ready_context-IsNextPopped,
}
use meeting_overlay_assistan.Live.Registry.{create_context}
use meeting_overlay_assistan.Live.Scheduler.{
  Runtime, next_job_pass, waits, enqueue_kinds, enqueue_ready_kinds, refresh_context_state,
  notify_context_ready,
}
use meeting_overlay_assistan.Live.Service.{open_stream, enqueue_stream_chunk}
use meeting_overlay_assistan.Live.Runs.{RuntimeEvent, opens, feeds, polls, step, run, new_runtime}
use meeting_overlay_assistan.Live.Attended.{IsSound}
use meeting_overlay_assistan.Live.Attended.Runs.{run-new_runtime, waits-idle}

abbrev stream_id : String
stream_id = "pcm:s1:0"

abbrev fed_events : List (RuntimeEvent ℕ)
fed_events = opens "s1" (some "mic") "pcm" true "0" ∷ feeds stream_id (1 ∷ []) ∷ []

-- One stream without previews, whose only final is taken by a worker.
abbrev busy_events : List (RuntimeEvent ℕ)
busy_events = opens "s1" (some "mic") "pcm" false "0" ∷ feeds stream_id (1 ∷ []) ∷ polls ∷ []

run-new_runtime_example : IsSound (run 4 (new_runtime 2) busy_events)
run-new_runtime_example = run-new_runtime 4 2 busy_events

abbrev busy_runtime : Runtime ℕ
busy_runtime = run 4 (new_runtime 2) busy_events

abbrev or_fresh : Option (LiveStreamContext ℕ) → LiveStreamContext ℕ
or_fresh none = new_context stream_id "s1" (some "mic") "pcm" true 4
or_fresh (some c) = c

abbrev busy_stream : LiveStreamContext ℕ
busy_stream = or_fresh (lookup stream_id busy_runtime.registry.contexts)

busy_stream-found : lookup stream_id busy_runtime.registry.contexts ≡ some busy_stream
unfolding run step lookup insert string_eq open_stream create_context new_context
    enqueue_stream_chunk notify_context_ready refresh_context_state enqueue_ready_kinds
    enqueue_kinds ready_job_kinds enqueue_chunk enqueue_ready_context enqueue_named
    discard_ready_context without erase queue_name_eq is_job_kind_ready next_job_pass
    pop_next_ready_context pop_ready_context pop_ready_ids leave_queue claim_inference_job
busy_stream-found = refl

busy_runtime-waits : (next_job_pass busy_runtime).1 ≡ waits
unfolding run step lookup insert string_eq open_stream create_context new_context
    enqueue_stream_chunk notify_context_ready refresh_context_state enqueue_ready_kinds
    enqueue_kinds ready_job_kinds enqueue_chunk enqueue_ready_context enqueue_named
    discard_ready_context without erase queue_name_eq is_job_kind_ready next_job_pass
    pop_next_ready_context pop_ready_context pop_ready_ids leave_queue claim_inference_job
busy_runtime-waits = refl

waits-idle_example :
    (is_job_kind_ready busy_stream final ≡ false)
    × (busy_stream.final_busy ≡ false → is_job_kind_ready busy_stream preview ≡ false)
waits-idle_example =
    waits-idle 4 2 busy_events stream_id busy_stream busy_runtime-waits busy_stream-found

abbrev fed_queues : ReadyQueues
fed_queues = (run 4 (new_runtime 2) fed_events).queues

abbrev everyone : String → Bool
everyone id = true

pop_next_ready_context_example :
    IsNextPopped everyone fed_queues
      (pop_next_ready_context everyone fed_queues).0
      (pop_next_ready_context everyone fed_queues).1
pop_next_ready_context_example =
    pop_next_ready_context-IsNextPopped everyone fed_queues (run-new_runtime 4 2 fed_events).agree
