-- ===== src/Live/Attended/Claims.antt =====
-- The passes of `next_job`.
use meeting_overlay_assistan.Base.{
  String, true, Option, none, some, string_eq, ◌≡◌, ◌⊎◌, contains, arith, refl, Bool-cases,
  Option-cases, inl, inr,
}
use meeting_overlay_assistan.Base.Dict.{lookup}
use meeting_overlay_assistan.Live.Context.{LiveStreamContext, JobKind, preview, final}
use meeting_overlay_assistan.Live.Policy.{is_job_kind_ready}
use meeting_overlay_assistan.Live.Claiming.{claim_inference_job}
use meeting_overlay_assistan.Live.ReadyQueue.{
  QueueName, queue_name_eq, high_final, preview_queue, normal_final, ReadyQueues, members,
  pop_next_ready_context, kind_of,
}
use meeting_overlay_assistan.Live.ReadyQueue.Order.{
  IsNextPopped, pop_next_ready_context-IsNextPopped,
}
use meeting_overlay_assistan.Live.Registry.{get_context, is_registered}
use meeting_overlay_assistan.Live.Scheduler.{Runtime, handle_ready, handle_item, next_job_pass}
use meeting_overlay_assistan.Live.Attended.{IsAttended, IsSound}
use meeting_overlay_assistan.Live.Attended.Steps.{
  IsSoundBut, put_context-IsSound, refresh-IsSound, IsAttended-grow,
}

module _ {A : Type 0} where
  -- The lane of the kind is busy now; the other kind is queued as it was.
  claimed-IsAttended :
      (q after : ReadyQueues) (id : String) (c : LiveStreamContext A) (k : JobKind)
      → IsAttended q id c
      → is_job_kind_ready c k ≡ true
      → ((n : QueueName)
          → contains (members q id) n ≡ true
          → (k ≡ kind_of n) ⊎ (contains (members after id) n ≡ true))
      → IsAttended after id (claim_inference_job c k).0
  unfolding claim_inference_job is_job_kind_ready
  claimed-IsAttended q after id c preview w r kept =
      ground (arith, kept high_final, kept normal_final)
  claimed-IsAttended q after id c final w r kept = ground (arith, kept preview_queue)

  module _ (rt : Runtime A) (after : ReadyQueues) (s : IsSound rt) where
    abbrev popped : Runtime A
    popped = record rt { queues = after }

    waits-IsSound : IsNextPopped (is_registered rt.registry) rt.queues none after → IsSound popped
    waits-IsSound p = record {
      agree = p.agree;
      attended = λ j c e.
          IsAttended-grow rt.queues after j c
            (λ n m. elim (p.kept n j (ground (arith, e)) m) [
              | inl f ↦ absurd (ground (arith, f))
              | inr still ↦ still
            ])
            (s.attended j c e);
    }

    module _ (id : String) (k : JobKind)
        (p : IsNextPopped (is_registered rt.registry) rt.queues (some (id, k)) after) where
      popped-IsSoundBut : IsSoundBut popped id
      popped-IsSoundBut = record {
        agree = p.agree;
        attended = λ j c other e.
            IsAttended-grow rt.queues after j c
              (λ n m. elim (p.kept n j (ground (arith, e)) m) [
                | inl f ↦ absurd (ground (arith, f, other))
                | inr still ↦ still
              ])
              (s.attended j c e);
      }

      handle_ready-IsSound :
          (c : LiveStreamContext A)
          → lookup id rt.registry.contexts ≡ some c
          → IsSound (handle_ready popped id k c).0
      handle_ready-IsSound c e = elim (Bool-cases (is_job_kind_ready c k)) [
        | inr unready ↦
            rw unready (refresh-IsSound popped id c popped-IsSoundBut (s.attended id c e).keyed)
        | inl ready ↦ rw ready (
            put_context-IsSound popped after id (claim_inference_job c k).0 popped-IsSoundBut
              p.agree (λ j n other m. m)
              (claimed-IsAttended rt.queues after id c k (s.attended id c e) ready λ n m.
                elim (p.kept n id (ground (arith, e)) m) [
                  | inl f ↦ inl (ground (arith, f))
                  | inr still ↦ inr still
                ]))
      ]

      handle_popped-IsSound : IsSound (handle_item popped (some (id, k))).0
      handle_popped-IsSound = elim (Option-cases (get_context rt.registry id)) [
        | inl missing ↦ absurd (ground (arith, p.found id k refl, missing))
        | inr (c, e) ↦ rw e (handle_ready-IsSound c e)
      ]

  handle_item-IsSound :
      (rt : Runtime A) (item : Option (String × JobKind)) (after : ReadyQueues)
      → IsSound rt
      → IsNextPopped (is_registered rt.registry) rt.queues item after
      → IsSound (handle_item (record rt { queues = after }) item).0
  handle_item-IsSound rt none after s p = waits-IsSound rt after s p
  handle_item-IsSound rt (some (id, k)) after s p = handle_popped-IsSound rt after s id k p

  pub next_job_pass-IsSound : (rt : Runtime A) → IsSound rt → IsSound (next_job_pass rt).0
  unfolding next_job_pass
  next_job_pass-IsSound rt s =
      let popped = pop_next_ready_context (is_registered rt.registry) rt.queues in
      handle_item-IsSound rt popped.0 popped.1 s
        (pop_next_ready_context-IsNextPopped (is_registered rt.registry) rt.queues s.agree)
