-- ===== src/Live/ReadyQueue/Agreement.antt =====
-- The queues and the memberships say the same.
use meeting_overlay_assistan.Base.{
  String, not, ◌&&◌, ◌||◌, List, [], ◌∷◌, ◌++◌, Eq, ◌==◌, contains, if◌then◌else◌, string_eq, ◌≡◌,
  refl, arith,
}
use meeting_overlay_assistan.Base.Dict.{lookup-insert, lookup-erase}
use meeting_overlay_assistan.Base.Distinct.{IsDistinct, IsDistinct-snoc, contains-append}
use meeting_overlay_assistan.Live.ReadyQueue.{
  QueueName, high_final, preview_queue, normal_final, queue_name_eq, ReadyQueues, ids_of, members,
  enqueue_named, without, discard_ready_context,
}

module _ {ℓ} {A : Type ℓ} ⦃e : Eq A⦄ where
  pub contains-without :
      (a b : A) (xs : List A) → contains (without a xs) b ≡ (contains xs b && not (a == b))
  unfolding without
  contains-without a b [] = refl
  contains-without a b (x ∷ xs) = ground (arith, contains-without a b xs)

  without-IsDistinct : (a : A) (xs : List A) → IsDistinct xs → IsDistinct (without a xs)
  unfolding without
  without-IsDistinct a [] d = tt
  without-IsDistinct a (x ∷ xs) d =
      ground (arith, without-IsDistinct a xs d.1, contains-without a x xs)

-- Every id stands in exactly the queues that its memberships name, and once in each.
pub record Agree (q : ReadyQueues) : Type 0 where
  pub distinct : (name : QueueName) → IsDistinct (ids_of q name)
  pub named :
      (name : QueueName) (id : String) → contains (ids_of q name) id ≡ contains (members q id) name

ids_of-enqueue_named :
    (id : String) (r : QueueName) (q : ReadyQueues) (n : QueueName)
    → ids_of (enqueue_named id r q) n
      ≡ (if r == n && not (contains (members q id) r) then ids_of q n ++ id ∷ [] else ids_of q n)
unfolding enqueue_named
ids_of-enqueue_named id high_final q high_final = ground arith
ids_of-enqueue_named id preview_queue q preview_queue = ground arith
ids_of-enqueue_named id normal_final q normal_final = ground arith
ids_of-enqueue_named id r q n = ground arith

pub members-enqueue_named :
    (id : String) (r : QueueName) (q : ReadyQueues) (j : String) (n : QueueName)
    → contains (members (enqueue_named id r q) j) n
      ≡ (contains (members q j) n || (id == j && r == n))
unfolding enqueue_named
members-enqueue_named id high_final q j n =
    ground (arith, lookup-insert id j (high_final ∷ members q id) q.memberships)
members-enqueue_named id preview_queue q j n =
    ground (arith, lookup-insert id j (preview_queue ∷ members q id) q.memberships)
members-enqueue_named id normal_final q j n =
    ground (arith, lookup-insert id j (normal_final ∷ members q id) q.memberships)

pub enqueue_named-Agree :
    (id : String) (r : QueueName) (q : ReadyQueues) → Agree q → Agree (enqueue_named id r q)
enqueue_named-Agree id r q a = record {
  distinct = λ n.
      rw (ids_of-enqueue_named id r q n) (
        ground (arith, a.distinct n, IsDistinct-snoc (ids_of q n) id (a.distinct n), a.named n id));
  named = λ n j.
      rw (members-enqueue_named id r q j n, ids_of-enqueue_named id r q n)
        (ground (arith, a.named n j, a.named n id, contains-append (ids_of q n) (id ∷ []) j));
}

ids_of-discard :
    (id : String) (q : ReadyQueues) (n : QueueName)
    → ids_of (discard_ready_context id q) n ≡ without id (ids_of q n)
unfolding discard_ready_context
ids_of-discard id q high_final = refl
ids_of-discard id q preview_queue = refl
ids_of-discard id q normal_final = refl

pub members-discard :
    (id : String) (q : ReadyQueues) (j : String)
    → members (discard_ready_context id q) j ≡ (if id == j then [] else members q j)
unfolding discard_ready_context
members-discard id q j = ground (arith, lookup-erase id j q.memberships)

pub discard_ready_context-Agree :
    (id : String) (q : ReadyQueues) → Agree q → Agree (discard_ready_context id q)
discard_ready_context-Agree id q a = record {
  distinct = λ n. rw (ids_of-discard id q n) (without-IsDistinct id (ids_of q n) (a.distinct n));
  named = λ n j.
      rw (ids_of-discard id q n, members-discard id q j)
        (ground (arith, contains-without id j (ids_of q n), a.named n j));
}
