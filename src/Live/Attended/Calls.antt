-- ===== src/Live/Attended/Calls.antt =====
-- The calls of the service and the answers of the workers.
use Prim.Native.Nat.{max}
use Prim.Native.String.{◌++◌ as ◌<>◌}
use meeting_overlay_assistan.Base.{
  ℕ, String, Bool, Option, some, List, [], ◌∷◌, ◌==◌, if◌then◌else◌, string_eq, ◌≡◌, arith, refl,
  Bool-cases, Option-cases, inl, inr, subst, ◌∙◌, leb,
}
use mathlib.Core.Option
use meeting_overlay_assistan.Base.Lists.{length}
use meeting_overlay_assistan.Base.Dict.{Dict, lookup, lookup-erase}
use meeting_overlay_assistan.Live.Chunks.{Chunk}
use meeting_overlay_assistan.Live.Context.{
  LiveStreamContext, InferenceResult, JobKind, new_context, enqueue_chunk, payload, error_result,
  publish_result, next_result,
}
use meeting_overlay_assistan.Live.Policy.{is_job_kind_ready}
use meeting_overlay_assistan.Live.ReadyQueue.{queue_name_eq, ReadyQueues}
use meeting_overlay_assistan.Live.Registry.{get_context, create_context}
use meeting_overlay_assistan.Live.Scheduler.{Runtime}
use meeting_overlay_assistan.Live.Service.{
  Answer, open_stream, enqueue_stream_chunk, receive_result, publish_error, publish_to_session,
  publish_question_events, close_stream, publish_answer, publish_job_answer,
}
use meeting_overlay_assistan.Live.Attended.{IsAttended, IsSound}
use meeting_overlay_assistan.Live.Attended.Steps.{keep-IsSound}
use meeting_overlay_assistan.Live.Attended.Operations.{
  notify_changed-IsSound, enqueue_key, publish_answer-IsAttended,
}
use meeting_overlay_assistan.Live.Runs.{after_open, after_feed, after_receive}

module _ {A : Type 0} where
  new_context-IsAttended :
      (q : ReadyQueues) (id session : String) (source : Option String) (kind : String)
      (previews : Bool) (n : ℕ)
      → IsAttended {A = A} q id (new_context id session source kind previews n)
  unfolding new_context is_job_kind_ready
  new_context-IsAttended q id session source kind previews n = ground arith

  pub open_stream-IsSound :
      (rt : Runtime A) (limit : ℕ) (session : String) (source : Option String) (kind : String)
      (previews : Bool) (hex : String)
      → IsSound rt
      → IsSound (after_open rt (open_stream rt limit session source kind previews hex))
  unfolding open_stream create_context
  open_stream-IsSound rt limit session source kind previews hex s =
      let id = kind <> (":" <> (session <> (":" <> hex))) in
      let c : LiveStreamContext A = new_context id session source kind previews (max limit 1) in
      elim (Bool-cases (leb rt.registry.max_running_streams (length rt.registry.contexts))) [
        | inl full ↦ rw full s
        | inr room ↦ rw room (
            keep-IsSound rt id c s
              (new_context-IsAttended rt.queues id session source kind previews (max limit 1)))
      ]

  pub feed-IsSound :
      (rt : Runtime A) (id : String) (chunk : Chunk)
      → IsSound rt
      → IsSound (after_feed rt (enqueue_stream_chunk rt id chunk))
  unfolding enqueue_stream_chunk
  feed-IsSound rt id chunk s = elim (Option-cases (get_context rt.registry id)) [
    | inl missing ↦ rw (missing, enqueue_stream_chunk) s
    | inr (c, found) ↦
        rw (found, enqueue_stream_chunk)
          (notify_changed-IsSound rt id (enqueue_chunk c chunk) s
            (enqueue_key c chunk ∙ (s.attended id c found).keyed))
  ]

  publish_result-IsAttended :
      (q : ReadyQueues) (id : String) (c : LiveStreamContext A) (r : InferenceResult A)
      → IsAttended q id c
      → IsAttended q id (publish_result c r)
  unfolding publish_result is_job_kind_ready
  publish_result-IsAttended q id c r w = ground arith

  next_result-IsAttended :
      (q : ReadyQueues) (id : String) (c d : LiveStreamContext A) (r : InferenceResult A)
      → IsAttended q id c
      → next_result c ≡ some (r, d)
      → IsAttended q id d
  unfolding next_result is_job_kind_ready
  next_result-IsAttended q id c d r w e = ground arith

  pub receive-IsSound :
      (rt : Runtime A) (id : String)
      → IsSound rt
      → IsSound (after_receive rt (receive_result rt id))
  unfolding receive_result
  receive-IsSound rt id s = elim (Option-cases (get_context rt.registry id)) [
    | inl missing ↦ rw (missing, receive_result) s
    | inr (c, found) ↦
        rw (found, receive_result)
          (elim (Option-cases (next_result c)) [
            | inl empty ↦ rw empty s
            | inr ((r, d), e) ↦ rw e (
                keep-IsSound rt id d s
                  (next_result-IsAttended rt.queues id c d r (s.attended id c found) e))
          ])
  ]

  abbrev asked : String → InferenceResult A → LiveStreamContext A → LiveStreamContext A
  asked session_id result c = if c.session_id == session_id then publish_result c result else c

  lookup-publish_to_session :
      (session_id : String) (result : InferenceResult A) (d : Dict String (LiveStreamContext A))
      (j : String)
      → lookup j (publish_to_session session_id result d)
        ≡ Option.map (asked session_id result) (lookup j d)
  unfolding lookup
  lookup-publish_to_session session_id result [] j = refl
  lookup-publish_to_session session_id result ((i, c) ∷ d) j =
      ground (arith, lookup-publish_to_session session_id result d j)

  asked-IsAttended :
      (q : ReadyQueues) (id session_id : String) (r : InferenceResult A) (c : LiveStreamContext A)
      → IsAttended q id c
      → IsAttended q id (asked session_id r c)
  asked-IsAttended q id session_id r c w = elim (Bool-cases (c.session_id == session_id)) [
    | inl e ↦ rw e (publish_result-IsAttended q id c r w)
    | inr e ↦ rw e w
  ]

  pub asked_all-IsSound :
      (rt : Runtime A) (session_id : String) (r : InferenceResult A)
      → IsSound rt
      → IsSound (record rt {
        registry = record rt.registry {
          contexts = publish_to_session session_id r rt.registry.contexts;
        };
      })
  asked_all-IsSound rt session_id r s = record {
    agree = s.agree;
    attended = λ j d e.
        let seen = lookup-publish_to_session session_id r rt.registry.contexts j in
        elim (Option-cases (lookup j rt.registry.contexts)) [
          | inl missing ↦ absurd (ground (arith, e, seen, missing))
          | inr (c, found) ↦
              let changed : asked session_id r c ≡ d = ground (arith, e, seen, found) in
              subst (λ (x : LiveStreamContext A). IsAttended rt.queues j x) changed
                (asked-IsAttended rt.queues j session_id r c (s.attended j c found))
        ];
  }

  pub questions-IsSound :
      (rt : Runtime A) (session_id : String) (events : List A)
      → IsSound rt
      → IsSound (publish_question_events rt session_id events)
  unfolding publish_question_events
  questions-IsSound rt session_id [] s = s
  questions-IsSound rt session_id (e ∷ es) s =
      asked_all-IsSound rt session_id (payload [] (e ∷ es)) s

  pub close_stream-IsSound :
      (rt : Runtime A) (id : String) → IsSound rt → IsSound (close_stream rt id)
  unfolding close_stream
  close_stream-IsSound rt id s = record {
    agree = s.agree;
    attended = λ j c e. s.attended j c (ground (arith, e, lookup-erase id j rt.registry.contexts));
  }

  pub publish_error-IsSound :
      (rt : Runtime A) (id message : String) → IsSound rt → IsSound (publish_error rt id message)
  unfolding publish_error
  publish_error-IsSound rt id message s = elim (Option-cases (get_context rt.registry id)) [
    | inl missing ↦ rw (missing, publish_error) s
    | inr (c, found) ↦
        rw (found, publish_error)
          (keep-IsSound rt id (publish_result c (error_result message)) s (
            publish_result-IsAttended rt.queues id c (error_result message)
              (s.attended id c found)))
  ]

  pub publish_job_answer-IsSound :
      (rt : Runtime A) (id : String) (k : JobKind) (a : Answer A)
      → IsSound rt
      → IsSound (publish_job_answer rt id k a)
  unfolding publish_job_answer
  publish_job_answer-IsSound rt id k a s = elim (Option-cases (get_context rt.registry id)) [
    | inl missing ↦ rw (missing, publish_job_answer) s
    | inr (c, found) ↦
        rw (found, publish_job_answer)
          (keep-IsSound rt id (publish_answer c k a) s
            (publish_answer-IsAttended rt.queues id c k a (s.attended id c found)))
  ]
