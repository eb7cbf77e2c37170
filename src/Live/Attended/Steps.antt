-- ===== src/Live/Attended/Steps.antt =====
-- Every step of the runtime attends to all registered streams.
use meeting_overlay_assistan.Base.{
  String, true, false, none, some, ◌==◌, string_eq, ◌≡◌, contains, arith, Bool-cases, inl, inr,
  subst,
}
use meeting_overlay_assistan.Base.Dict.{lookup, lookup-insert}
use meeting_overlay_assistan.Live.Context.{LiveStreamContext, final, priority}
use meeting_overlay_assistan.Live.ReadyQueue.{
  QueueName, queue_name_eq, preview_queue, ReadyQueues, members, resolve_queue_name,
  discard_ready_context,
}
use meeting_overlay_assistan.Live.ReadyQueue.Agreement.{
  Agree, discard_ready_context-Agree, members-discard,
}
use meeting_overlay_assistan.Live.Registry.{put_context}
use meeting_overlay_assistan.Live.Scheduler.{Runtime, refresh, discard, refresh_context_state}
use meeting_overlay_assistan.Live.Attended.{IsAttended, IsSound}
use meeting_overlay_assistan.Live.Attended.Refresh.{refresh_context_state-IsRefreshed}

module _ {A : Type 0} where
  pub IsAttended-grow :
      (q after : ReadyQueues) (id : String) (c : LiveStreamContext A)
      → ((n : QueueName) → contains (members q id) n ≡ true → contains (members after id) n ≡ true)
      → IsAttended q id c
      → IsAttended after id c
  IsAttended-grow q after id c grow w = record {
    keyed = w.keyed;
    final_queued = λ r. grow (resolve_queue_name final (priority c)) (w.final_queued r);
    preview_queued = λ r b. grow preview_queue (w.preview_queued r b);
    told = w.told;
  }

  -- Every registered stream but this one is attended to.
  pub record IsSoundBut (rt : Runtime A) (id : String) : Type 0 where
    pub agree : Agree rt.queues
    pub attended :
        (j : String) (c : LiveStreamContext A)
        → (id == j) ≡ false
        → lookup j rt.registry.contexts ≡ some c
        → IsAttended rt.queues j c

  pub but : (rt : Runtime A) (id : String) → IsSound rt → IsSoundBut rt id
  but rt id s = record { agree = s.agree; attended = λ j c other e. s.attended j c e }

  pub put_but :
      (rt : Runtime A) (id : String) (c : LiveStreamContext A)
      → IsSoundBut rt id
      → IsSoundBut (record rt { registry = put_context rt.registry id c }) id
  put_but rt id c s = record {
    agree = s.agree;
    attended = λ j d other e.
        s.attended j d other (ground (arith, e, lookup-insert id j c rt.registry.contexts));
  }

  -- A context is put back, with queues that took no other id out.
  pub put_context-IsSound :
      (rt : Runtime A) (after : ReadyQueues) (id : String) (c : LiveStreamContext A)
      → IsSoundBut rt id
      → Agree after
      → ((j : String) (n : QueueName)
          → (id == j) ≡ false
          → contains (members rt.queues j) n ≡ true
          → contains (members after j) n ≡ true)
      → IsAttended after id c
      → IsSound (record { registry = put_context rt.registry id c; queues = after })
  put_context-IsSound rt after id c s a grow w = record {
    agree = a;
    attended = λ j d e. elim (Bool-cases (id == j)) [
      | inl same ↦
          let here : id ≡ j = ground arith in
          let mine : c ≡ d = ground (arith, e, lookup-insert id j c rt.registry.contexts) in
          subst (λ (i : String). IsAttended after i d) here
            (subst (λ (x : LiveStreamContext A). IsAttended after id x) mine w)
      | inr other ↦
          IsAttended-grow rt.queues after j d (λ n. grow j n other)
            (s.attended j d other (ground (arith, e, lookup-insert id j c rt.registry.contexts)))
    ];
  }

  -- The context is refreshed, whatever it has become.
  pub refresh-IsSound :
      (rt : Runtime A) (id : String) (c : LiveStreamContext A)
      → IsSoundBut rt id
      → c.context_id ≡ id
      → IsSound (refresh rt id c)
  refresh-IsSound rt id c s k =
      let r = refresh_context_state-IsRefreshed c rt.queues s.agree in
      put_context-IsSound rt (refresh_context_state c rt.queues).1 id
        (refresh_context_state c rt.queues).0 s r.agree (λ j n other m. r.others j n (rw k other) m)
        (subst
          (λ (i : String).
            IsAttended (refresh_context_state c rt.queues).1 i
              (refresh_context_state c rt.queues).0)
          k r.attended)

  -- The context changes and the queues stay.
  pub keep-IsSound :
      (rt : Runtime A) (id : String) (c : LiveStreamContext A)
      → IsSound rt
      → IsAttended rt.queues id c
      → IsSound (record rt { registry = put_context rt.registry id c })
  keep-IsSound rt id c s w =
      put_context-IsSound rt rt.queues id c (but rt id s) s.agree (λ j n other m. m) w

  -- An id that is not registered leaves the queues.
  pub discard-IsSound :
      (rt : Runtime A) (id : String)
      → IsSound rt
      → lookup id rt.registry.contexts ≡ none
      → IsSound (discard rt id)
  discard-IsSound rt id s missing = record {
    agree = discard_ready_context-Agree id rt.queues s.agree;
    attended = λ j c e.
        IsAttended-grow rt.queues (discard_ready_context id rt.queues) j c
          (λ n m. ground (arith, members-discard id rt.queues j)) (s.attended j c e);
  }
