-- ===== src/Live/ReadyQueue/Order.antt =====
-- The order of the queues: high final, preview, normal final.
use meeting_overlay_assistan.Base.{
  String, Bool, true, false, Option, none, some, List, [], ◌∷◌, contains, ◌==◌, string_eq, ◌≡◌, ◌⊎◌,
  refl, arith, Bool-cases, inl, inr,
}
use meeting_overlay_assistan.Live.Context.{JobKind, preview}
use meeting_overlay_assistan.Live.ReadyQueue.{
  QueueName, high_final, preview_queue, normal_final, queue_name_eq, ReadyQueues, members, kind_of,
  or_else, pop_ready_context, pop_next_ready_context,
}
use meeting_overlay_assistan.Live.ReadyQueue.Agreement.{Agree}
use meeting_overlay_assistan.Live.ReadyQueue.Popping.{IsPopped, pop_ready_context-IsPopped}

-- What popping the named queues in turn gives, if any: a registered id, and queues in agreement
-- that lost no other registered id. There is none only if no registered id stands in the named
-- queues, and a preview only if none stands in the high one.
pub record IsNextOf (names : List QueueName) (registered : String → Bool) (q : ReadyQueues)
    (item : Option (String × JobKind)) (after : ReadyQueues) : Type 0 where
  pub agree : Agree after
  pub found : (id : String) (k : JobKind) → item ≡ some (id, k) → registered id ≡ true
  pub kept :
      (n : QueueName) (j : String)
      → registered j ≡ true
      → contains (members q j) n ≡ true
      → (item ≡ some (j, kind_of n)) ⊎ (contains (members after j) n ≡ true)
  pub emptied :
      (n : QueueName) (j : String)
      → item ≡ none
      → contains names n ≡ true
      → registered j ≡ true
      → contains (members q j) n ≡ false
  pub high_first :
      (id j : String)
      → item ≡ some (id, preview)
      → contains names high_final ≡ true
      → registered j ≡ true
      → contains (members q j) high_final ≡ false

preview-not_high : (r : QueueName) → kind_of r ≡ preview → (high_final == r) ≡ false
preview-not_high high_final e = ground arith
preview-not_high preview_queue e = ground arith
preview-not_high normal_final e = ground arith

module _ (registered : String → Bool) where
  abbrev Next : Type 0
  Next = ReadyQueues → Option (String × JobKind) × ReadyQueues

  or_else-IsNextOf :
      (r : QueueName) (names : List QueueName) (q : ReadyQueues)
      (popped : Option String × ReadyQueues) (next : Next)
      → contains names high_final ≡ false
      → IsPopped registered r q popped.0 popped.1
      → ((q' : ReadyQueues) → Agree q' → IsNextOf names registered q' (next q').0 (next q').1)
      → let item = or_else r popped next in IsNextOf (r ∷ names) registered q item.0 item.1
  or_else-IsNextOf r names q (some id, after) next low p rest = record {
    agree = p.agree;
    found = λ i k e. ground (arith, p.found i);
    kept = λ n j reg m. elim (p.kept n j reg m) [
      | inl (same, e) ↦ inl (ground (arith, same, e))
      | inr still ↦ inr still
    ];
    emptied = λ n j e. ground arith;
    high_first = λ i j e c reg. ground (arith, preview-not_high r);
  }
  or_else-IsNextOf r names q (none, after) next low p rest =
      let later = rest after p.agree in
      record {
        agree = later.agree;
        found = later.found;
        kept = λ n j reg m. elim (p.kept n j reg m) [
          | inl (same, e) ↦ absurd (ground (arith, e))
          | inr still ↦ later.kept n j reg still
        ];
        emptied = λ n j e c reg. elim (Bool-cases (contains (members q j) n)) [
          | inr missing ↦ missing
          | inl here ↦ elim (p.kept n j reg here) [
            | inl (same, f) ↦ absurd (ground (arith, f))
            | inr still ↦ absurd (ground (arith, p.emptied refl j reg, later.emptied n j e, still))
          ]
        ];
        high_first = λ i j e c reg. ground (arith, p.emptied refl j reg);
      }

  none_left : (q : ReadyQueues) → Agree q → IsNextOf [] registered q none q
  none_left q a = record {
    agree = a;
    found = λ id k e. ground arith;
    kept = λ n j reg m. inr m;
    emptied = λ n j e c. ground arith;
    high_first = λ id j e. ground arith;
  }

  abbrev pub IsNextPopped : ReadyQueues → Option (String × JobKind) → ReadyQueues → Type 0
  IsNextPopped q item after =
      IsNextOf (high_final ∷ preview_queue ∷ normal_final ∷ []) registered q item after

  -- From queues in agreement, the next pop gives a registered id or none, and leaves queues in
  -- agreement that lost no other registered id. It gives none only if no registered id is queued,
  -- and a preview only if no registered id stands in the high queue.
  pub pop_next_ready_context-IsNextPopped :
      (q : ReadyQueues)
      → Agree q
      → let popped = pop_next_ready_context registered q in IsNextPopped q popped.0 popped.1
  unfolding pop_next_ready_context
  pop_next_ready_context-IsNextPopped q a =
      or_else-IsNextOf high_final (preview_queue ∷ normal_final ∷ []) q
        (pop_ready_context registered high_final q) _ (ground arith)
        (pop_ready_context-IsPopped registered high_final q a)
        λ q1 a1.
          or_else-IsNextOf preview_queue (normal_final ∷ []) q1
            (pop_ready_context registered preview_queue q1) _ (ground arith)
            (pop_ready_context-IsPopped registered preview_queue q1 a1)
            λ q2 a2.
              or_else-IsNextOf normal_final [] q2 (pop_ready_context registered normal_final q2) _
                (ground arith) (pop_ready_context-IsPopped registered normal_final q2 a2)
                λ q3 a3. none_left q3 a3
