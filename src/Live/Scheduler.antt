-- ===== src/Live/Scheduler.antt =====
-- runtime/scheduler/inference_scheduler.py. Each method runs under the scheduler's lock and never
-- suspends while it holds it but to wait, so it is one step; so is each pass of the loop of
-- `next_job`. The monitor's stages and the wake-up of waiting workers are left out.
use meeting_overlay_assistan.Base.{
  String, not, ◌&&◌, Option, none, some, List, [], ◌∷◌, if◌then◌else◌, string_eq,
}
use meeting_overlay_assistan.Base.Outcome.{Result, ok, err, Error}
use meeting_overlay_assistan.Live.Context.{
  LiveStreamContext, JobKind, preview, final, priority, ensure_preview_cycle_id, mark_idle,
  publish_terminal_once, is_some,
}
use meeting_overlay_assistan.Live.Policy.{
  ready_job_kinds, is_job_kind_ready, should_publish_terminal,
}
use meeting_overlay_assistan.Live.Claiming.{InferenceJob, claim_inference_job}
use meeting_overlay_assistan.Live.ReadyQueue.{
  ReadyQueues, enqueue_ready_context, discard_ready_context, pop_next_ready_context,
}
use meeting_overlay_assistan.Live.Registry.{
  LiveStreamRegistry, get_context, put_context, is_registered,
}

-- The registry and the scheduler's queues.
pub record Runtime (A : Type 0) : Type 0 where
  pub registry : LiveStreamRegistry A
  pub queues : ReadyQueues

-- One pass of `next_job` waits for a notification, refreshes a context that was not ready, or
-- returns a job.
pub data Pass : Type 0 where
  waits refreshes : Pass
  returns : InferenceJob → Pass
  raises : Error → Pass

abbrev pub pass_of : Result InferenceJob → Pass
pass_of (ok job) = returns job
pass_of (err e) = raises e

module _ {A : Type 0} where
  -- The body of the loop over the ready kinds.
  abbrev pub enqueue_kind :
      LiveStreamContext A → ReadyQueues → JobKind → LiveStreamContext A × ReadyQueues
  enqueue_kind c q final = (c, enqueue_ready_context c.context_id final (priority c) q)
  enqueue_kind c q preview =
      let (preview_cycle_id, created, d) = ensure_preview_cycle_id c in
      if not (is_some preview_cycle_id)
      then (d, q)
      else if not created && not (is_some d.queued_preview_cycle_id)
      then (d, q)
      else (d, enqueue_ready_context d.context_id preview (priority d) q)

  unfoldable pub enqueue_kinds :
      LiveStreamContext A → ReadyQueues → List JobKind → LiveStreamContext A × ReadyQueues
  enqueue_kinds c q [] = (c, q)
  enqueue_kinds c q (k ∷ ks) = let (d, q') = enqueue_kind c q k in enqueue_kinds d q' ks

  unfoldable pub enqueue_ready_kinds :
      LiveStreamContext A → ReadyQueues → LiveStreamContext A × ReadyQueues
  unfolding enqueue_kinds
  enqueue_ready_kinds c q =
      enqueue_kinds c (discard_ready_context c.context_id q) (ready_job_kinds c)

  -- `_refresh_context_state`, and the terminal result that its caller publishes if it says so.
  unfoldable pub refresh_context_state :
      LiveStreamContext A → ReadyQueues → LiveStreamContext A × ReadyQueues
  refresh_context_state c q =
      let (d, q') = enqueue_ready_kinds c q in
      (if should_publish_terminal d then publish_terminal_once d else d, q')

  abbrev pub refresh : Runtime A → String → LiveStreamContext A → Runtime A
  refresh rt id c =
      let (d, q) = refresh_context_state c rt.queues in
      record { registry = put_context rt.registry id d; queues = q }

  abbrev pub discard : Runtime A → String → Runtime A
  discard rt id = record rt { queues = discard_ready_context id rt.queues }

  unfoldable pub notify_context_ready : Runtime A → String → Runtime A
  notify_context_ready rt id = elim (get_context rt.registry id) [
    | none ↦ discard rt id
    | some c ↦ refresh rt id c
  ]

  unfoldable pub complete_job : Runtime A → String → JobKind → Runtime A
  complete_job rt id job_kind = elim (get_context rt.registry id) [
    | none ↦ discard rt id
    | some c ↦ refresh rt id (mark_idle c job_kind)
  ]

  -- The rest of a pass, for the id and the kind popped.
  abbrev pub handle_ready : Runtime A → String → JobKind → LiveStreamContext A → Runtime A × Pass
  handle_ready rt id kind c =
      if not (is_job_kind_ready c kind)
      then (refresh rt id c, refreshes)
      else let (d, claimed) = claim_inference_job c kind in
        (record rt { registry = put_context rt.registry id d }, pass_of claimed)

  abbrev pub handle_found :
      Runtime A → String → JobKind → Option (LiveStreamContext A) → Runtime A × Pass
  handle_found rt id kind none = (rt, refreshes)
  handle_found rt id kind (some c) = handle_ready rt id kind c

  abbrev pub handle_item : Runtime A → Option (String × JobKind) → Runtime A × Pass
  handle_item rt none = (rt, waits)
  handle_item rt (some (id, kind)) = handle_found rt id kind (get_context rt.registry id)

  unfoldable pub next_job_pass : Runtime A → Runtime A × Pass
  next_job_pass rt =
      let (item, q) = pop_next_ready_context (is_registered rt.registry) rt.queues in
      handle_item (record rt { queues = q }) item
