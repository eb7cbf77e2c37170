-- ===== src/Live/ReadyQueue/Popping.antt =====
-- Popping keeps the queues and the memberships in agreement, and loses no id that is registered.
use meeting_overlay_assistan.Base.{
  String, Bool, true, false, not, ◌&&◌, Option, none, some, List, [], ◌∷◌, ◌==◌, contains,
  if◌then◌else◌, string_eq, ◌≡◌, ◌⊎◌, refl, arith, Bool-cases, inl, inr,
}
use meeting_overlay_assistan.Base.Dict.{lookup-insert, lookup-erase}
use meeting_overlay_assistan.Base.Distinct.{IsDistinct}
use meeting_overlay_assistan.Live.ReadyQueue.{
  QueueName, high_final, preview_queue, normal_final, queue_name_eq, ReadyQueues, ids_of, set_ids,
  members, without, leave_queue, pop_ready_ids, pop_ready_context,
}
use meeting_overlay_assistan.Live.ReadyQueue.Agreement.{Agree, contains-without}

ids_of-set_ids :
    (q : ReadyQueues) (r n : QueueName) (ids : List String)
    → ids_of (set_ids q r ids) n ≡ (if r == n then ids else ids_of q n)
ids_of-set_ids q high_final high_final ids = ground arith
ids_of-set_ids q preview_queue preview_queue ids = ground arith
ids_of-set_ids q normal_final normal_final ids = ground arith
ids_of-set_ids q r n ids = ground arith

members-set_ids :
    (q : ReadyQueues) (r : QueueName) (ids : List String) (j : String)
    → members (set_ids q r ids) j ≡ members q j
members-set_ids q high_final ids j = refl
members-set_ids q preview_queue ids j = refl
members-set_ids q normal_final ids j = refl

ids_of-leave :
    (id : String) (r : QueueName) (ns : List QueueName) (q : ReadyQueues) (n : QueueName)
    → ids_of (leave_queue id r ns q) n ≡ ids_of q n
unfolding leave_queue
ids_of-leave id r ns q high_final = refl
ids_of-leave id r ns q preview_queue = refl
ids_of-leave id r ns q normal_final = refl

members-leave :
    (id : String) (r : QueueName) (q : ReadyQueues) (j : String) (n : QueueName)
    → contains (members (leave_queue id r (members q id) q) j) n
      ≡ (contains (members q j) n && not (id == j && r == n))
unfolding leave_queue
members-leave id r q j n =
    let left = without r (members q id) in
    ground (
      arith,
      lookup-erase id j q.memberships,
      lookup-insert id j left q.memberships,
      contains-without r n (members q id),
    )

-- The list of a queue, where the named one is replaced.
abbrev list_at : ReadyQueues → QueueName → List String → QueueName → List String
list_at q r ids n = if r == n then ids else ids_of q n

-- The agreement of queues whose named queue is the list.
record AgreeWith (q : ReadyQueues) (r : QueueName) (ids : List String) : Type 0 where
  distinct : (n : QueueName) → IsDistinct (list_at q r ids n)
  named : (n : QueueName) (j : String) → contains (list_at q r ids n) j ≡ contains (members q j) n

AgreeWith-Agree :
    (q : ReadyQueues) (r : QueueName) (ids : List String)
    → AgreeWith q r ids
    → Agree (set_ids q r ids)
AgreeWith-Agree q r ids a = record {
  distinct = λ n. rw (ids_of-set_ids q r n ids) (a.distinct n);
  named = λ n j. rw (ids_of-set_ids q r n ids, members-set_ids q r ids j) (a.named n j);
}

Agree-AgreeWith : (q : ReadyQueues) (r : QueueName) → Agree q → AgreeWith q r (ids_of q r)
Agree-AgreeWith q r a = record {
  distinct = λ n. ground (arith, a.distinct n);
  named = λ n j. ground (arith, a.named n j);
}

leave-AgreeWith :
    (id : String) (r : QueueName) (rest : List String) (q : ReadyQueues)
    → AgreeWith q r (id ∷ rest)
    → AgreeWith (leave_queue id r (members q id) q) r rest
leave-AgreeWith id r rest q a = record {
  distinct = λ n. rw (ids_of-leave id r (members q id) q n) (ground (arith, a.distinct n));
  named = λ n j.
      rw (ids_of-leave id r (members q id) q n, members-leave id r q j n)
        (ground (arith, a.named n j, a.distinct r));
}

-- What a pop from one queue gives: the first registered id of the queue, and queues in agreement
-- that only lost it and ids that are not registered.
pub record IsPopped (registered : String → Bool) (r : QueueName) (q : ReadyQueues)
    (popped : Option String) (after : ReadyQueues) : Type 0 where
  pub agree : Agree after
  pub found : (id : String) → popped ≡ some id → registered id ≡ true
  pub queued : (id : String) → popped ≡ some id → contains (members q id) r ≡ true
  pub kept :
      (n : QueueName) (j : String)
      → registered j ≡ true
      → contains (members q j) n ≡ true
      → ((r ≡ n) × (popped ≡ some j)) ⊎ (contains (members after j) n ≡ true)
  pub emptied :
      popped ≡ none → (j : String) → registered j ≡ true → contains (members q j) r ≡ false

-- The head of the queue is registered: it is popped.
pop_head-IsPopped :
    (registered : String → Bool) (r : QueueName) (id : String) (rest : List String)
    (q : ReadyQueues)
    → AgreeWith q r (id ∷ rest)
    → registered id ≡ true
    → contains (members q id) r ≡ true
    → IsPopped registered r q (some id) (set_ids (leave_queue id r (members q id) q) r rest)
pop_head-IsPopped registered r id rest q a known here =
    let left = leave_queue id r (members q id) q in
    record {
      agree = AgreeWith-Agree left r rest (leave-AgreeWith id r rest q a);
      found = λ i e. ground (arith, known);
      queued = λ i e. ground (arith, here);
      kept = λ n j reg m. elim (Bool-cases (id == j && r == n)) [
        | inl same ↦ inl (ground arith, ground arith)
        | inr other ↦
            inr (rw (members-set_ids left r rest j) (rw (members-leave id r q j n) (ground arith)))
      ];
      emptied = λ e j reg. ground arith;
    }

-- The head of the queue is not registered: it is dropped.
drop_head-IsPopped :
    (registered : String → Bool) (r : QueueName) (id : String) (q after : ReadyQueues)
    (popped : Option String)
    → registered id ≡ false
    → IsPopped registered r (leave_queue id r (members q id) q) popped after
    → IsPopped registered r q popped after
drop_head-IsPopped registered r id q after popped unknown p = record {
  agree = p.agree;
  found = p.found;
  queued = λ i e. ground (arith, p.queued i e, members-leave id r q i r);
  kept = λ n j reg m. p.kept n j reg (ground (arith, members-leave id r q j n));
  emptied = λ e j reg. ground (arith, p.emptied e j reg, members-leave id r q j r);
}

pop_ready_ids-IsPopped :
    (registered : String → Bool) (r : QueueName) (ids : List String) (q : ReadyQueues)
    → AgreeWith q r ids
    → let popped = pop_ready_ids registered r ids q in IsPopped registered r q popped.0 popped.1
unfolding pop_ready_ids
pop_ready_ids-IsPopped registered r [] q a = record {
  agree = AgreeWith-Agree q r [] a;
  found = λ id e. ground arith;
  queued = λ id e. ground arith;
  kept = λ n j reg m. inr (rw (members-set_ids q r [] j) m);
  emptied = λ e j reg. ground (arith, a.named r j);
}
pop_ready_ids-IsPopped registered r (id ∷ rest) q a =
    let here : contains (members q id) r ≡ true = ground (arith, a.named r id) in
    let left = leave_queue id r (members q id) q in
    elim (Bool-cases (registered id)) [
      | inl known ↦ rw (here, known) (pop_head-IsPopped registered r id rest q a known here)
      | inr unknown ↦
          rw (here, unknown)
            (drop_head-IsPopped registered r id q _ _ unknown
              (pop_ready_ids-IsPopped registered r rest left (leave-AgreeWith id r rest q a)))
    ]

pub pop_ready_context-IsPopped :
    (registered : String → Bool) (r : QueueName) (q : ReadyQueues)
    → Agree q
    → let popped = pop_ready_context registered r q in IsPopped registered r q popped.0 popped.1
unfolding pop_ready_context
pop_ready_context-IsPopped registered r q a =
    pop_ready_ids-IsPopped registered r (ids_of q r) q (Agree-AgreeWith q r a)
