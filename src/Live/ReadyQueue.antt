-- ===== src/Live/ReadyQueue.antt =====
-- runtime/scheduler/helpers/ready_queue.py: three queues of context ids, and for each id the names
-- of the queues that it stands in.
pub mod Agreement
pub mod Popping
pub mod Order
use meeting_overlay_assistan.Base.{
  String, Bool, true, false, not, ◌&&◌, Option, none, some, List, [], ◌∷◌, ◌++◌, Eq, ◌==◌, ◌!=◌,
  contains, if◌then◌else◌, string_eq,
}
use meeting_overlay_assistan.Base.Dict.{Dict, lookup, insert, erase}
use meeting_overlay_assistan.Live.Context.{JobKind, preview, final, Priority, high, normal}

pub data QueueName : Type 0 where
  high_final preview_queue normal_final : QueueName

instance unfoldable pub queue_name_eq : Eq QueueName
queue_name_eq = record { dec = hlevel }

pub record ReadyQueues : Type 0 where
  pub high_final_ready_ids : List String
  pub preview_ready_ids : List String
  pub normal_final_ready_ids : List String
  pub memberships : Dict String (List QueueName)

abbrev pub empty_queues : ReadyQueues
empty_queues = record {
  high_final_ready_ids = [];
  preview_ready_ids = [];
  normal_final_ready_ids = [];
  memberships = [];
}

abbrev pub ids_of : ReadyQueues → QueueName → List String
ids_of q high_final = q.high_final_ready_ids
ids_of q preview_queue = q.preview_ready_ids
ids_of q normal_final = q.normal_final_ready_ids

abbrev pub set_ids : ReadyQueues → QueueName → List String → ReadyQueues
set_ids q high_final ids = record q { high_final_ready_ids = ids }
set_ids q preview_queue ids = record q { preview_ready_ids = ids }
set_ids q normal_final ids = record q { normal_final_ready_ids = ids }

abbrev pub names_or_empty : Option (List QueueName) → List QueueName
names_or_empty none = []
names_or_empty (some names) = names

-- `memberships.get(context_id)`, with the empty set for a missing id.
abbrev pub members : ReadyQueues → String → List QueueName
members q id = names_or_empty (lookup id q.memberships)

abbrev pub resolve_queue_name : JobKind → Priority → QueueName
resolve_queue_name preview p = preview_queue
resolve_queue_name final high = high_final
resolve_queue_name final normal = normal_final

-- The rest of `enqueue_ready_context`, once the queue's name is known.
unfoldable pub enqueue_named : String → QueueName → ReadyQueues → ReadyQueues
enqueue_named context_id queue_name q =
    let names = members q context_id in
    if contains names queue_name
    then q
    else set_ids (record q { memberships = insert context_id (queue_name ∷ names) q.memberships })
        queue_name (ids_of q queue_name ++ context_id ∷ [])

unfoldable pub enqueue_ready_context : String → JobKind → Priority → ReadyQueues → ReadyQueues
enqueue_ready_context context_id preferred_kind priority q =
    enqueue_named context_id (resolve_queue_name preferred_kind priority) q

unfoldable pub without {ℓ} : {A : Type ℓ} ⦃e : Eq A⦄ → A → List A → List A
without a [] = []
without a (x ∷ xs) = let rest = without a xs in if x == a then rest else x ∷ rest

unfoldable pub discard_ready_context : String → ReadyQueues → ReadyQueues
unfolding without
discard_ready_context context_id q = record {
  high_final_ready_ids = without context_id q.high_final_ready_ids;
  preview_ready_ids = without context_id q.preview_ready_ids;
  normal_final_ready_ids = without context_id q.normal_final_ready_ids;
  memberships = erase context_id q.memberships;
}

-- `memberships.remove(name)`; an id that stands in no queue any more is forgotten.
unfoldable pub leave_queue : String → QueueName → List QueueName → ReadyQueues → ReadyQueues
leave_queue context_id queue_name names q =
    let left = without queue_name names in
    record q {
      memberships = elim left [
        | [] ↦ erase context_id q.memberships
        | n ∷ ns ↦ insert context_id (n ∷ ns) q.memberships
      ];
    }

abbrev pub kind_of : QueueName → JobKind
kind_of preview_queue = preview
kind_of high_final = final
kind_of normal_final = final

-- The loop of `_pop_ready_context` over one queue: the ids popped before one that is registered
-- and still queued are dropped.
unfoldable pub pop_ready_ids :
    (String → Bool) → QueueName → List String → ReadyQueues → Option String × ReadyQueues
unfolding leave_queue
pop_ready_ids registered queue_name [] q = (none, set_ids q queue_name [])
pop_ready_ids registered queue_name (context_id ∷ rest) q =
    let names = members q context_id in
    let left = leave_queue context_id queue_name names q in
    let skipped = pop_ready_ids registered queue_name rest q in
    let dropped = pop_ready_ids registered queue_name rest left in
    if not (contains names queue_name)
    then skipped
    else if registered context_id
    then (some context_id, set_ids left queue_name rest)
    else dropped

unfoldable pub pop_ready_context :
    (String → Bool) → QueueName → ReadyQueues → Option String × ReadyQueues
unfolding pop_ready_ids
pop_ready_context registered queue_name q =
    pop_ready_ids registered queue_name (ids_of q queue_name) q

abbrev pub or_else :
    QueueName
    → Option String × ReadyQueues
    → (ReadyQueues → Option (String × JobKind) × ReadyQueues)
    → Option (String × JobKind) × ReadyQueues
or_else queue_name (none, q) next = next q
or_else queue_name (some id, q) next = (some (id, kind_of queue_name), q)

-- The queues in their order; the kind follows from the queue.
unfoldable pub pop_next_ready_context :
    (String → Bool) → ReadyQueues → Option (String × JobKind) × ReadyQueues
unfolding pop_ready_context
pop_next_ready_context registered q =
    or_else high_final (pop_ready_context registered high_final q) λ q₁.
      or_else preview_queue (pop_ready_context registered preview_queue q₁)
        λ q₂. or_else normal_final (pop_ready_context registered normal_final q₂) λ q₃. (none, q₃)
