-- ===== src/Jobs/History.antt =====
-- Histories of one table of jobs: services enqueue, workers claim, renew and finish, in any order.
use meeting_overlay_assistan.Base.{
  ℕ, ◌+◌, String, Option, none, some, List, [], ◌∷◌, if◌then◌else◌, string_eq, option_eq, contains,
}
use meeting_overlay_assistan.Base.Outcome.{Result, ok, err}
use meeting_overlay_assistan.Session.States.{Time}
use meeting_overlay_assistan.Jobs.Model.{Job, create_pending, mark_completed, mark_failed}
use meeting_overlay_assistan.Jobs.Table.{
  Table, get_by_id, save, renew_lease, ClaimRequest, claim_available,
}
use meeting_overlay_assistan.Jobs.Table.Rows.{ids}
use meeting_overlay_assistan.Jobs.Fence.{write_claimed_job}

-- A worker finishes a job that it reads: it completes it, or it fails it with a message.
pub data Finish : Type 0 where
  completes : Finish
  fails : String → Finish

pub data Event (P : Type 0) : Type 0 where
  enqueues : String → String → P → Option String → Time → Event P
  claims : ClaimRequest → Event P
  renews : String → String → Time → Event P
  finishes : String → String → Finish → Time → Time → Event P

module _ {P : Type 0} where
  abbrev pub finish : Finish → Job P → Time → Time → Result (Job P)
  finish completes job now finished_now = mark_completed job now finished_now
  finish (fails message) job now finished_now = mark_failed job message now finished_now

  -- The table and the jobs handed out after a claim; a claim that raises is rolled back.
  abbrev pub after_claim : Table P → Result (Table P × List (Job P)) → Table P × List (Job P)
  after_claim table (ok r) = r
  after_claim table (err e) = (table, [])

  abbrev pub write_finished : Table P → String → Result (Job P) → Table P
  write_finished table worker_id (ok job) = (write_claimed_job table job (some worker_id)).0
  write_finished table worker_id (err e) = table

  abbrev pub finish_found : Table P → String → Finish → Time → Time → Option (Job P) → Table P
  finish_found table worker_id how now finished_now none = table
  finish_found table worker_id how now finished_now (some job) =
      write_finished table worker_id (finish how job now finished_now)

  -- An id that is taken is refused by the primary key.
  unfoldable pub step : Table P → Event P → Table P
  step table (enqueues id session_id payload user now) =
      if contains (ids table) id
      then table
      else save table (create_pending id session_id payload user now)
  step table (claims q) = (after_claim table (claim_available q table)).0
  step table (renews id worker_id until) = (renew_lease table id worker_id until).0
  step table (finishes id worker_id how now finished_now) =
      finish_found table worker_id how now finished_now (get_by_id table id)

  abbrev pub handed_out : Option (Job P) → ℕ
  handed_out none = 0
  handed_out (some job) = 1

  -- 1 if the event hands the job out to a worker.
  unfoldable pub handovers : Table P → Event P → String → ℕ
  handovers table (claims q) id =
      handed_out (get_by_id (after_claim table (claim_available q table)).1 id)
  handovers table (enqueues i session_id payload user now) id = 0
  handovers table (renews i worker_id until) id = 0
  handovers table (finishes i worker_id how now finished_now) id = 0

  unfoldable pub run : Table P → List (Event P) → Table P
  run table [] = table
  run table (e ∷ es) = run (step table e) es

  -- How often the job is handed out over a history.
  unfoldable pub total_handovers : Table P → List (Event P) → String → ℕ
  total_handovers table [] id = 0
  total_handovers table (e ∷ es) id = handovers table e id + total_handovers (step table e) es id
