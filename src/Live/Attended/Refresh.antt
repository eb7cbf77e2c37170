-- ===== src/Live/Attended/Refresh.antt =====
-- Refreshing a context attends to it.
use meeting_overlay_assistan.Base.{
  String, Bool, true, false, ◌&&◌, ◌||◌, ◌==◌, if◌then◌else◌, string_eq, ◌≡◌, contains, arith, refl,
  Bool-cases, inl, inr, ◌∙◌,
}
use meeting_overlay_assistan.Live.Context.{
  LiveStreamContext, preview, final, priority, ensure_preview_cycle_id, publish_terminal_once,
}
use meeting_overlay_assistan.Live.Policy.{
  is_job_kind_ready, ready_job_kinds, should_publish_terminal,
}
use meeting_overlay_assistan.Live.ReadyQueue.{
  QueueName, queue_name_eq, preview_queue, ReadyQueues, members, resolve_queue_name,
  enqueue_ready_context, enqueue_named, discard_ready_context,
}
use meeting_overlay_assistan.Live.ReadyQueue.Agreement.{
  Agree, enqueue_named-Agree, members-enqueue_named, discard_ready_context-Agree, members-discard,
}
use meeting_overlay_assistan.Live.Scheduler.{
  enqueue_kind, enqueue_kinds, enqueue_ready_kinds, refresh_context_state,
}
use meeting_overlay_assistan.Live.Attended.{IsAttended}

abbrev enqueue_if : Bool → String → QueueName → ReadyQueues → ReadyQueues
enqueue_if b id r q = if b then enqueue_named id r q else q

members-enqueue_if :
    (b : Bool) (id : String) (r : QueueName) (q : ReadyQueues) (j : String) (n : QueueName)
    → contains (members (enqueue_if b id r q) j) n
      ≡ (contains (members q j) n || (b && (id == j && r == n)))
members-enqueue_if true id r q j n = members-enqueue_named id r q j n
members-enqueue_if false id r q j n = ground arith

enqueue_if-Agree :
    (b : Bool) (id : String) (r : QueueName) (q : ReadyQueues)
    → Agree q
    → Agree (enqueue_if b id r q)
enqueue_if-Agree true id r q a = enqueue_named-Agree id r q a
enqueue_if-Agree false id r q a = a

module _ {A : Type 0} where
  abbrev final_queue : LiveStreamContext A → QueueName
  final_queue c = resolve_queue_name final (priority c)

  -- The queues that a refresh enters, in one expression.
  abbrev with_preview : LiveStreamContext A → ReadyQueues → ReadyQueues
  with_preview c q =
      enqueue_if (is_job_kind_ready c preview) c.context_id preview_queue
        (discard_ready_context c.context_id q)

  abbrev entered : LiveStreamContext A → ReadyQueues → ReadyQueues
  entered c q =
      enqueue_if (is_job_kind_ready c final) c.context_id (final_queue c) (with_preview c q)

  -- What a refresh leaves alone.
  record IsSame (c d : LiveStreamContext A) : Type 0 where
    key : d.context_id ≡ c.context_id
    rank : priority d ≡ priority c
    final_ready : is_job_kind_ready d final ≡ is_job_kind_ready c final
    preview_ready : is_job_kind_ready d preview ≡ is_job_kind_ready c preview
    ending : should_publish_terminal d ≡ should_publish_terminal c

  unchanged : (c : LiveStreamContext A) → IsSame c c
  unchanged c = record {
    key = refl;
    rank = refl;
    final_ready = refl;
    preview_ready = refl;
    ending = refl;
  }

  enqueue_preview-IsSame :
      (c : LiveStreamContext A) (q : ReadyQueues) → IsSame c (enqueue_kind c q preview).0
  unfolding ensure_preview_cycle_id is_job_kind_ready
  enqueue_preview-IsSame c q = ground arith

  queues-enqueue_preview :
      (c : LiveStreamContext A) (q : ReadyQueues)
      → is_job_kind_ready c preview ≡ true
      → (enqueue_kind c q preview).1 ≡ enqueue_named c.context_id preview_queue q
  unfolding ensure_preview_cycle_id is_job_kind_ready enqueue_ready_context
  queues-enqueue_preview c q h = ground arith

  enqueue_ready_kinds-IsSame :
      (c : LiveStreamContext A) (q : ReadyQueues) → IsSame c (enqueue_ready_kinds c q).0
  unfolding enqueue_ready_kinds enqueue_kinds ready_job_kinds
  enqueue_ready_kinds-IsSame c q =
      let free = discard_ready_context c.context_id q in
      let changed = enqueue_preview-IsSame c free in
      elim (Bool-cases (is_job_kind_ready c preview)) [
        | inl p ↦ elim (Bool-cases (is_job_kind_ready c final)) [
          | inl f ↦ rw (p, f) changed
          | inr f ↦ rw (p, f) changed
        ]
        | inr p ↦ elim (Bool-cases (is_job_kind_ready c final)) [
          | inl f ↦ rw (p, f) (unchanged c)
          | inr f ↦ rw (p, f) (unchanged c)
        ]
      ]

  queues_of_enqueue :
      (c : LiveStreamContext A) (q : ReadyQueues) → (enqueue_ready_kinds c q).1 ≡ entered c q
  unfolding enqueue_ready_kinds enqueue_kinds ready_job_kinds enqueue_ready_context
  queues_of_enqueue c q =
      let free = discard_ready_context c.context_id q in
      let same = enqueue_preview-IsSame c free in
      elim (Bool-cases (is_job_kind_ready c preview)) [
        | inl p ↦ elim (Bool-cases (is_job_kind_ready c final)) [
          | inl f ↦ rw (p, f, same.key, same.rank, queues-enqueue_preview c free p) refl
          | inr f ↦ rw (p, f, queues-enqueue_preview c free p) refl
        ]
        | inr p ↦ elim (Bool-cases (is_job_kind_ready c final)) [
          | inl f ↦ rw (p, f) refl
          | inr f ↦ rw (p, f) refl
        ]
      ]

  members-entered :
      (c : LiveStreamContext A) (q : ReadyQueues) (j : String) (n : QueueName)
      → contains (members (entered c q) j) n ≡ (
          ((contains (members (discard_ready_context c.context_id q) j) n)
            || (is_job_kind_ready c preview && (c.context_id == j && preview_queue == n)))
          || (is_job_kind_ready c final && (c.context_id == j && final_queue c == n)))
  members-entered c q j n =
      let free = discard_ready_context c.context_id q in
      rw
        (
          members-enqueue_if (is_job_kind_ready c final) c.context_id (final_queue c)
              (with_preview c q) j n,
          members-enqueue_if (is_job_kind_ready c preview) c.context_id preview_queue free j n,
        )
        refl

  entered-Agree : (c : LiveStreamContext A) (q : ReadyQueues) → Agree q → Agree (entered c q)
  entered-Agree c q a =
      enqueue_if-Agree (is_job_kind_ready c final) c.context_id (final_queue c) (with_preview c q) (
        enqueue_if-Agree (is_job_kind_ready c preview) c.context_id preview_queue
          (discard_ready_context c.context_id q) (discard_ready_context-Agree c.context_id q a))

  -- A refresh attends to its context, keeps the queues in agreement, and takes no other id out.
  pub record IsRefreshed (c d : LiveStreamContext A) (q after : ReadyQueues) : Type 0 where
    pub agree : Agree after
    pub attended : IsAttended after c.context_id d
    pub others :
        (j : String) (n : QueueName)
        → (c.context_id == j) ≡ false
        → contains (members q j) n ≡ true
        → contains (members after j) n ≡ true

  refreshed-IsAttended :
      (c d : LiveStreamContext A) (q : ReadyQueues)
      → IsSame c d
      → (should_publish_terminal d ≡ true → d.terminal_published ≡ true)
      → IsAttended (entered c q) c.context_id d
  refreshed-IsAttended c d q s t = record {
    keyed = s.key;
    final_queued = λ r.
        ground (arith, members-entered c q c.context_id (final_queue d), s.rank, s.final_ready);
    preview_queued =
        λ r b. ground (arith, members-entered c q c.context_id preview_queue, s.preview_ready);
    told = t;
  }

  abbrev told_if_ended : LiveStreamContext A → LiveStreamContext A
  told_if_ended d = if should_publish_terminal d then publish_terminal_once d else d

  told_if_ended-IsSame : (d : LiveStreamContext A) → IsSame d (told_if_ended d)
  unfolding publish_terminal_once is_job_kind_ready
  told_if_ended-IsSame d = ground arith

  told_if_ended-told :
      (d : LiveStreamContext A)
      → should_publish_terminal (told_if_ended d) ≡ true
      → (told_if_ended d).terminal_published ≡ true
  unfolding publish_terminal_once
  told_if_ended-told d h = ground arith

  IsSame-trans : (c d e : LiveStreamContext A) → IsSame c d → IsSame d e → IsSame c e
  IsSame-trans c d e s t = record {
    key = t.key ∙ s.key;
    rank = t.rank ∙ s.rank;
    final_ready = t.final_ready ∙ s.final_ready;
    preview_ready = t.preview_ready ∙ s.preview_ready;
    ending = t.ending ∙ s.ending;
  }

  pub refresh_context_state-IsRefreshed :
      (c : LiveStreamContext A) (q : ReadyQueues)
      → Agree q
      → let refreshed = refresh_context_state c q in IsRefreshed c refreshed.0 q refreshed.1
  unfolding refresh_context_state
  refresh_context_state-IsRefreshed c q a =
      let d = (enqueue_ready_kinds c q).0 in
      rw (queues_of_enqueue c q) (record {
        agree = entered-Agree c q a;
        attended =
            refreshed-IsAttended c (told_if_ended d) q
              (IsSame-trans c d (told_if_ended d) (enqueue_ready_kinds-IsSame c q)
                (told_if_ended-IsSame d))
              (told_if_ended-told d);
        others = λ j n other m.
            ground (arith, members-entered c q j n, members-discard c.context_id q j);
      })
