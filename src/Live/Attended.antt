-- ===== src/Live/Attended.antt =====
-- What the runtime keeps for each registered stream: its ready jobs are queued, and it is told when
-- it has ended.
pub mod Refresh
pub mod Steps
pub mod Operations
pub mod Claims
pub mod Calls
pub mod Runs
use meeting_overlay_assistan.Base.{
  ℕ, String, Bool, true, false, not, ◌&&◌, ◌||◌, Option, none, some, List, [], ◌∷◌, ◌==◌,
  if◌then◌else◌, string_eq, ◌≡◌, ◌⊎◌, contains, arith,
}
use meeting_overlay_assistan.Base.Dict.{lookup}
use meeting_overlay_assistan.Live.Context.{LiveStreamContext, JobKind, preview, final, priority}
use meeting_overlay_assistan.Live.Policy.{is_job_kind_ready, should_publish_terminal}
use meeting_overlay_assistan.Live.ReadyQueue.{
  QueueName, queue_name_eq, ReadyQueues, members, resolve_queue_name,
}
use meeting_overlay_assistan.Live.ReadyQueue.Agreement.{Agree}
use meeting_overlay_assistan.Live.Scheduler.{Runtime}

module _ {A : Type 0} where
  -- A ready final is queued by its priority. So is a ready preview, unless a final is being worked
  -- on, whose completion will queue it. A stream that is closed, drained and idle was told so.
  pub record IsAttended (q : ReadyQueues) (id : String) (c : LiveStreamContext A) : Type 0 where
    pub keyed : c.context_id ≡ id
    pub final_queued :
        is_job_kind_ready c final ≡ true
        → contains (members q id) (resolve_queue_name final (priority c)) ≡ true
    pub preview_queued :
        is_job_kind_ready c preview ≡ true
        → c.final_busy ≡ false
        → contains (members q id) (resolve_queue_name preview (priority c)) ≡ true
    pub told : should_publish_terminal c ≡ true → c.terminal_published ≡ true

  pub record IsSound (rt : Runtime A) : Type 0 where
    pub agree : Agree rt.queues
    pub attended :
        (id : String) (c : LiveStreamContext A)
        → lookup id rt.registry.contexts ≡ some c
        → IsAttended rt.queues id c
