-- ===== src/Live/Attended/Runs.antt =====
-- Every history of the runtime attends to all registered streams, and forgets no job.
use meeting_overlay_assistan.Base.{
  ℕ, String, true, false, Option, none, some, List, [], ◌∷◌, string_eq, ◌≡◌, contains, arith, refl,
}
use meeting_overlay_assistan.Base.Distinct.{IsDistinct}
use meeting_overlay_assistan.Base.Dict.{lookup}
use meeting_overlay_assistan.Live.Context.{LiveStreamContext, JobKind, preview, final, priority}
use meeting_overlay_assistan.Live.Policy.{is_job_kind_ready}
use meeting_overlay_assistan.Live.ReadyQueue.{
  QueueName, queue_name_eq, high_final, preview_queue, normal_final, ReadyQueues, members,
  resolve_queue_name, empty_queues, ids_of, pop_next_ready_context,
}
use meeting_overlay_assistan.Live.ReadyQueue.Order.{pop_next_ready_context-IsNextPopped}
use meeting_overlay_assistan.Live.Registry.{is_registered}
use meeting_overlay_assistan.Live.Scheduler.{Runtime, next_job_pass, waits, handle_item}
use meeting_overlay_assistan.Live.Attended.{IsAttended, IsSound}
use meeting_overlay_assistan.Live.Attended.Operations.{complete_job-IsSound, close_input-IsSound}
use meeting_overlay_assistan.Live.Attended.Claims.{next_job_pass-IsSound}
use meeting_overlay_assistan.Live.Runs.{
  RuntimeEvent, opens, feeds, receives, closes_input, closes_stream, reports, questions, polls,
  answers_job, completes_job, step, run, new_runtime,
}
use meeting_overlay_assistan.Live.Attended.Calls.{
  open_stream-IsSound, feed-IsSound, receive-IsSound, close_stream-IsSound, publish_error-IsSound,
  publish_job_answer-IsSound, questions-IsSound,
}

empty_queues-IsDistinct : (n : QueueName) → IsDistinct (ids_of empty_queues n)
empty_queues-IsDistinct high_final = tt
empty_queues-IsDistinct preview_queue = tt
empty_queues-IsDistinct normal_final = tt

ids_of-empty_queues :
    (n : QueueName) (id : String)
    → contains (ids_of empty_queues n) id ≡ contains (members empty_queues id) n
unfolding lookup
ids_of-empty_queues high_final id = refl
ids_of-empty_queues preview_queue id = refl
ids_of-empty_queues normal_final id = refl

all_named : (n : QueueName) → contains (high_final ∷ preview_queue ∷ normal_final ∷ []) n ≡ true
all_named high_final = ground arith
all_named preview_queue = ground arith
all_named normal_final = ground arith

module _ {A : Type 0} where
  step-IsSound :
      (limit : ℕ) (rt : Runtime A) (e : RuntimeEvent A) → IsSound rt → IsSound (step limit rt e)
  unfolding step
  step-IsSound limit rt (opens session source kind previews hex) s =
      open_stream-IsSound rt limit session source kind previews hex s
  step-IsSound limit rt (feeds id chunk) s = feed-IsSound rt id chunk s
  step-IsSound limit rt (receives id) s = receive-IsSound rt id s
  step-IsSound limit rt (closes_input id) s = close_input-IsSound rt id s
  step-IsSound limit rt (closes_stream id) s = close_stream-IsSound rt id s
  step-IsSound limit rt (reports id message) s = publish_error-IsSound rt id message s
  step-IsSound limit rt (questions session_id events) s = questions-IsSound rt session_id events s
  step-IsSound limit rt polls s = next_job_pass-IsSound rt s
  step-IsSound limit rt (answers_job id kind answer) s =
      publish_job_answer-IsSound rt id kind answer s
  step-IsSound limit rt (completes_job id kind) s = complete_job-IsSound rt id kind s

  run-IsSound :
      (limit : ℕ) (rt : Runtime A) (es : List (RuntimeEvent A))
      → IsSound rt
      → IsSound (run limit rt es)
  unfolding run
  run-IsSound limit rt [] s = s
  run-IsSound limit rt (e ∷ es) s =
      run-IsSound limit (step limit rt e) es (step-IsSound limit rt e s)

  new_runtime-IsSound : (n : ℕ) → IsSound {A = A} (new_runtime n)
  unfolding lookup
  new_runtime-IsSound n = record {
    agree = record { distinct = empty_queues-IsDistinct; named = ids_of-empty_queues };
    attended = λ id c e. ground arith;
  }

  -- From an empty runtime, whatever clients and workers do, in any order: the ready queues and their
  -- memberships agree, without repetition; each registered stream stands under its id, its ready
  -- final is queued by its priority, its ready preview is queued unless a final of it is being
  -- worked on, and it was told its end if it is closed, drained and idle.
  pub run-new_runtime :
      (limit max_running_streams : ℕ) (events : List (RuntimeEvent A))
      → IsSound (run limit (new_runtime max_running_streams) events)
  run-new_runtime limit max_running_streams events =
      run-IsSound limit (new_runtime max_running_streams) events
        (new_runtime-IsSound max_running_streams)

  -- The next pass finds nothing only if nothing was popped.
  waits-none :
      (rt : Runtime A) (item : Option (String × JobKind))
      → (handle_item rt item).1 ≡ waits
      → item ≡ none
  waits-none rt none e = refl
  waits-none rt (some (id, k)) e = absurd (ground arith)

  idle_if_unqueued :
      (q : ReadyQueues) (id : String) (c : LiveStreamContext A)
      → IsAttended q id c
      → ((n : QueueName) → contains (members q id) n ≡ false)
      → (is_job_kind_ready c final ≡ false)
        × (c.final_busy ≡ false → is_job_kind_ready c preview ≡ false)
  idle_if_unqueued q id c w out = (
    ground (arith, w.final_queued, out (resolve_queue_name final (priority c))),
    λ b. ground (arith, w.preview_queued, out preview_queue),
  )

  -- In every history from an empty runtime: where the next pass of a worker waits, no registered
  -- stream has a final that is ready, nor a preview that is ready while no final of the stream is
  -- being worked on.
  pub waits-idle :
      (limit max_running_streams : ℕ) (events : List (RuntimeEvent A)) (id : String)
      (c : LiveStreamContext A)
      → let rt = run limit (new_runtime max_running_streams) events in
        (next_job_pass rt).1 ≡ waits
        → lookup id rt.registry.contexts ≡ some c
        → (is_job_kind_ready c final ≡ false)
          × (c.final_busy ≡ false → is_job_kind_ready c preview ≡ false)
  unfolding next_job_pass
  waits-idle limit max_running_streams events id c idle found =
      let rt = run limit (new_runtime max_running_streams) events in
      let s = run-new_runtime limit max_running_streams events in
      let popped = pop_next_ready_context (is_registered rt.registry) rt.queues in
      let p = pop_next_ready_context-IsNextPopped (is_registered rt.registry) rt.queues s.agree in
      let nothing : popped.0 ≡ none = waits-none (record rt { queues = popped.1 }) popped.0 idle in
      idle_if_unqueued rt.queues id c (s.attended id c found)
        λ n. p.emptied n id nothing (all_named n) (ground (arith, found))
