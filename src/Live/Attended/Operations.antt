-- ===== src/Live/Attended/Operations.antt =====
-- The operations of the scheduler and the service, and the steps of a worker.
use meeting_overlay_assistan.Base.{
  String, true, false, some, string_eq, ◌≡◌, arith, refl, Bool-cases, Option-cases, inl, inr, ◌∙◌,
}
use meeting_overlay_assistan.Base.Dict.{lookup, insert, lookup-insert}
use meeting_overlay_assistan.Live.Chunks.{Chunk}
use meeting_overlay_assistan.Live.Context.{
  LiveStreamContext, JobKind, preview, final, enqueue_chunk, mark_idle, mark_input_closed,
  publish_result, publish_terminal_once, mark_preview_emitted, busy, has_pending_chunks,
}
use meeting_overlay_assistan.Live.Policy.{is_job_kind_ready}
use meeting_overlay_assistan.Live.ReadyQueue.{queue_name_eq, ReadyQueues}
use meeting_overlay_assistan.Live.Registry.{get_context}
use meeting_overlay_assistan.Live.Scheduler.{Runtime, notify_context_ready, complete_job}
use meeting_overlay_assistan.Live.Service.{Answer, answers, put, close_input, publish_answer}
use meeting_overlay_assistan.Live.Attended.{IsAttended, IsSound}
use meeting_overlay_assistan.Live.Attended.Steps.{
  but, put_but, refresh-IsSound, keep-IsSound, discard-IsSound,
}

module _ {A : Type 0} where
  idle_key : (c : LiveStreamContext A) (k : JobKind) → (mark_idle c k).context_id ≡ c.context_id
  unfolding mark_idle
  idle_key c preview = refl
  idle_key c final = refl

  pub complete_job-IsSound :
      (rt : Runtime A) (id : String) (k : JobKind) → IsSound rt → IsSound (complete_job rt id k)
  unfolding complete_job
  complete_job-IsSound rt id k s = elim (Option-cases (get_context rt.registry id)) [
    | inl missing ↦ rw (missing, complete_job) (discard-IsSound rt id s missing)
    | inr (c, found) ↦
        rw (found, complete_job)
          (refresh-IsSound rt id (mark_idle c k) (but rt id s)
            (idle_key c k ∙ (s.attended id c found).keyed))
  ]

  -- A context that changed keeps its id, and is notified.
  pub notify_changed-IsSound :
      (rt : Runtime A) (id : String) (c : LiveStreamContext A)
      → IsSound rt
      → c.context_id ≡ id
      → IsSound (notify_context_ready (put rt id c) id)
  unfolding notify_context_ready
  notify_changed-IsSound rt id c s k =
      let found : lookup id (insert id c rt.registry.contexts) ≡ some c =
        ground (arith, lookup-insert id id c rt.registry.contexts) in
      rw (found, notify_context_ready)
        (refresh-IsSound (put rt id c) id c (put_but rt id c (but rt id s)) k)

  pub enqueue_key :
      (c : LiveStreamContext A) (chunk : Chunk) → (enqueue_chunk c chunk).context_id ≡ c.context_id
  unfolding enqueue_chunk
  enqueue_key c chunk = ground arith

  closed_alone :
      (q : ReadyQueues) (id : String) (c : LiveStreamContext A)
      → IsAttended q id c
      → has_pending_chunks (mark_input_closed c) ≡ false
      → busy (mark_input_closed c) ≡ true
      → IsAttended q id (mark_input_closed c)
  unfolding mark_input_closed is_job_kind_ready
  closed_alone q id c w p b = ground arith

  closed_told :
      (q : ReadyQueues) (id : String) (c : LiveStreamContext A)
      → IsAttended q id c
      → has_pending_chunks (mark_input_closed c) ≡ false
      → IsAttended q id (publish_terminal_once (mark_input_closed c))
  unfolding mark_input_closed is_job_kind_ready publish_terminal_once
  closed_told q id c w p = ground arith

  closed_key : (c : LiveStreamContext A) → (mark_input_closed c).context_id ≡ c.context_id
  unfolding mark_input_closed
  closed_key c = refl

  pub close_input-IsSound :
      (rt : Runtime A) (id : String) → IsSound rt → IsSound (close_input rt id)
  unfolding close_input
  close_input-IsSound rt id s = elim (Option-cases (get_context rt.registry id)) [
    | inl missing ↦ rw (missing, close_input) s
    | inr (c, found) ↦
        let w = s.attended id c found in
        let closed = mark_input_closed c in
        rw (found, close_input)
          (elim (Bool-cases (has_pending_chunks closed)) [
            | inl more ↦
                let notified = notify_changed-IsSound rt id closed s (closed_key c ∙ w.keyed) in
                elim (Bool-cases (busy closed)) [
                  | inl b ↦ rw (more, b) notified
                  | inr b ↦ rw (more, b) notified
                ]
            | inr drained ↦ elim (Bool-cases (busy closed)) [
              | inl b ↦
                  rw (drained, b)
                    (keep-IsSound rt id closed s (closed_alone rt.queues id c w drained b))
              | inr b ↦
                  rw (drained, b)
                    (keep-IsSound rt id (publish_terminal_once closed) s
                      (closed_told rt.queues id c w drained))
            ]
          ])
  ]

  pub publish_answer-IsAttended :
      (q : ReadyQueues) (id : String) (c : LiveStreamContext A) (k : JobKind) (a : Answer A)
      → IsAttended q id c
      → IsAttended q id (publish_answer c k a)
  unfolding publish_result mark_preview_emitted is_job_kind_ready
  publish_answer-IsAttended q id c preview (answers us es) w = ground arith
  publish_answer-IsAttended q id c k a w = ground arith
