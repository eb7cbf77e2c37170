-- ===== src/Jobs/Fence/Safety.antt =====
-- The fence: a worker that lost its claim writes nothing.
use meeting_overlay_assistan.Base.{
  String, ◌≡◌, ◌≢◌, refl, some, true, false, List, [], ◌∷◌, map, if◌then◌else◌, string_eq,
  option_eq, contains, arith, sym, subst,
}
use meeting_overlay_assistan.Base.Distinct.{IsDistinct}
use meeting_overlay_assistan.Base.Outcome.{ok, err, stale_job_claim}
use meeting_overlay_assistan.Jobs.Lifecycle.{status_text_eq}
use meeting_overlay_assistan.Jobs.Model.{Job}
use meeting_overlay_assistan.Jobs.Table.{
  Table, get_by_id, write_row, update, is_fenced, any_fenced, update_if_claimed, ClaimRequest,
  claim_available,
}
use meeting_overlay_assistan.Jobs.Table.Rows.{ids}
use meeting_overlay_assistan.Jobs.Table.Claims.{IsClaim, claim_available-eq_ok}
use meeting_overlay_assistan.Jobs.Table.Writes.{leased}
use meeting_overlay_assistan.Jobs.Fence.{holds, write_claimed_job}

module _ {P : Type 0} where
  any_fenced-absent :
      (id w : String) (table : Table P)
      → contains (ids table) id ≡ false
      → any_fenced id w table ≡ false
  unfolding any_fenced is_fenced
  any_fenced-absent id w [] h = refl
  any_fenced-absent id w (row ∷ rest) h = ground (arith, any_fenced-absent id w rest)

  -- Where ids are distinct, the fence reads the row that a lookup finds.
  pub any_fenced-get_by_id :
      (id w : String) (table : Table P)
      → IsDistinct (ids table)
      → any_fenced id w table ≡ holds w (get_by_id table id)
  unfolding any_fenced is_fenced get_by_id
  any_fenced-get_by_id id w [] d = refl
  any_fenced-get_by_id id w (row ∷ rest) d =
      ground (arith, any_fenced-get_by_id id w rest d.1, any_fenced-absent id w rest)

  fenced_row : Job P → String → Job P → Job P
  fenced_row job w row = if is_fenced job.id w row then write_row job row else row

  map-fenced_row :
      (job : Job P) (w : String) (table : Table P)
      → any_fenced job.id w table ≡ false
      → map (fenced_row job w) table ≡ table
  unfolding any_fenced fenced_row
  map-fenced_row job w [] h = refl
  map-fenced_row job w (row ∷ rest) h = ground (arith, map-fenced_row job w rest)

  update-absent :
      (job : Job P) (table : Table P)
      → contains (ids table) job.id ≡ false
      → update table job ≡ table
  unfolding update
  update-absent job [] h = refl
  update-absent job (row ∷ rest) h = ground (arith, update-absent job rest)

  map-fenced_row-update :
      (job : Job P) (w : String) (table : Table P)
      → IsDistinct (ids table)
      → any_fenced job.id w table ≡ true
      → map (fenced_row job w) table ≡ update table job
  unfolding any_fenced is_fenced fenced_row update
  map-fenced_row-update job w [] d h = refl
  map-fenced_row-update job w (row ∷ rest) d h = ground (
    arith,
    map-fenced_row-update job w rest d.1,
    update-absent job rest,
    map-fenced_row job w rest,
    any_fenced-absent job.id w rest,
  )

  -- On a table with distinct ids, a write behind the fence by a worker that holds the claim is the
  -- plain UPDATE; by any other worker it leaves the whole table as it was and raises.
  pub write_claimed_job_lem :
      (table : Table P) (job : Job P) (w : String)
      → IsDistinct (ids table)
      → write_claimed_job table job (some w) ≡ (
          if holds w (get_by_id table job.id)
          then (update table job, ok job)
          else (table, err stale_job_claim))
  unfolding write_claimed_job update_if_claimed fenced_row
  write_claimed_job_lem table job w d = ground (
    arith,
    any_fenced-get_by_id job.id w table d,
    map-fenced_row job w table,
    map-fenced_row-update job w table d,
  )

  not_held :
      (q : ClaimRequest) (job row : Job P) (w : String)
      → w ≢ q.worker_id
      → job ≡ leased q row
      → holds w (some job) ≡ false
  not_held q job row w other e = ground arith

  -- Once a claim, on a table with distinct ids, has given a job to one worker, a write for that job
  -- by any other worker raises and leaves the table as it was.
  pub claimed_job_fenced :
      (q : ClaimRequest) (table after : Table P) (claimed : List (Job P)) (job late : Job P)
      (w : String)
      → IsDistinct (ids table)
      → claim_available q table ≡ ok (after, claimed)
      → get_by_id claimed late.id ≡ some job
      → w ≢ q.worker_id
      → write_claimed_job after late (some w) ≡ (after, err stale_job_claim)
  claimed_job_fenced q table after claimed job late w d h found other =
      let c : IsClaim q table after claimed = claim_available-eq_ok q table after claimed d h in
      let (row, _, _, as_leased, stored) = c.claimed_jobs late.id job found in
      rw (write_claimed_job_lem after late w (subst IsDistinct (sym c.ids_kept) d))
        (rw stored (rw (not_held q job row w other as_leased)))
