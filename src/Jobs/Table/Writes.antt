-- ===== src/Jobs/Table/Writes.antt =====
-- The writes of a claim, row by row.
use meeting_overlay_assistan.Base.{
  ◌+◌, String, ◌≡◌, refl, ◌∙◌, none, some, true, false, List, [], ◌∷◌, map, ◌==◌, if◌then◌else◌,
  string_eq, option_eq, contains, arith,
}
use meeting_overlay_assistan.Base.Lists.{All}
use meeting_overlay_assistan.Base.Distinct.{IsDistinct}
use meeting_overlay_assistan.Base.Outcome.{ok}
use meeting_overlay_assistan.Jobs.Lifecycle.{known, processing, status_text_eq}
use meeting_overlay_assistan.Jobs.Model.{Job, mark_processing}
use meeting_overlay_assistan.Jobs.Table.{
  Table, get_by_id, write_row, update, claim_rows, exhaust_row, ClaimRequest, is_available,
}
use meeting_overlay_assistan.Jobs.Table.Rows.{
  ids, IsRowOf, get_by_id-absent, get_by_id-update, ids-map,
}

module _ {P : Type 0} where
  -- The row as its claimer holds it.
  abbrev pub leased : ClaimRequest → Job P → Job P
  leased q row = record row {
    status = known processing;
    error_message = none;
    claimed_by_worker_id = some q.worker_id;
    lease_expires_at = some q.lease_expires_at;
    attempt_count = row.attempt_count + 1;
    started_at = some q.claimed_at;
    completed_at = none;
  }

  abbrev pub exhausted : ClaimRequest → Job P → Job P
  exhausted q = exhaust_row q.exhausted_message q.claimed_at q.max_attempts

  abbrev pub IsAvailable : ClaimRequest → Job P → Type 0
  IsAvailable q row = is_available q.claimed_at q.max_attempts row ≡ true

  pub mark_processing-available :
      (q : ClaimRequest) (row : Job P)
      → IsAvailable q row
      → mark_processing row
          (some q.worker_id)
          (some q.lease_expires_at)
          (some q.claimed_at)
          q.claimed_at
        ≡ ok (leased q row)
  unfolding mark_processing is_available
  mark_processing-available q row h = ground arith

  pub update_all : Table P → List (Job P) → Table P
  update_all table [] = table
  update_all table (j ∷ js) = update_all (update table j) js

  pub claim_rows_lem :
      (q : ClaimRequest) (table : Table P) (rows : List (Job P))
      → All (IsAvailable q) rows
      → claim_rows q.worker_id q.lease_expires_at q.claimed_at table rows
        ≡ ok (update_all table (map (leased q) rows), map (leased q) rows)
  unfolding claim_rows update_all
  claim_rows_lem q table [] h = refl
  claim_rows_lem q table (row ∷ rest) h =
      rw (mark_processing-available q row h.0)
        (rw (claim_rows_lem q (update table (leased q row)) rest h.1))

  rows_after_update :
      (q : ClaimRequest) (table : Table P) (row : Job P) (rest : List (Job P))
      → contains (ids rest) row.id ≡ false
      → All (IsRowOf table) rest
      → All (IsRowOf (update table (leased q row))) rest
  rows_after_update q table row [] c h = tt
  rows_after_update q table row (x ∷ xs) c h = (
    ground (arith, get_by_id-update table (leased q row) x.id),
    rows_after_update q table row xs (ground arith) h.1,
  )

  -- A lookup after the writes finds the claimed form of a selected row, and any other as it was.
  pub get_by_id-update_all :
      (q : ClaimRequest) (table : Table P) (rows : List (Job P)) (id : String)
      → IsDistinct (ids rows)
      → All (IsRowOf table) rows
      → get_by_id (update_all table (map (leased q) rows)) id
        ≡ elim (get_by_id rows id) [ none ↦ get_by_id table id | some row ↦ some (leased q row) ]
  unfolding update_all get_by_id
  get_by_id-update_all q table [] id d h = refl
  get_by_id-update_all q table (row ∷ rest) id d h = ground (
    arith,
    get_by_id-update_all q (update table (leased q row)) rest id d.1
        (rows_after_update q table row rest d.0 h.1),
    get_by_id-update table (leased q row) id,
    get_by_id-absent rest id,
  )

  pub id-exhausted : (q : ClaimRequest) (row : Job P) → (exhausted q row).id ≡ row.id
  unfolding exhaust_row
  id-exhausted q row = ground arith

  pub ids-update : (table : Table P) (job : Job P) → ids (update table job) ≡ ids table
  unfolding update
  ids-update table job =
      ids-map (λ row. if row.id == job.id then write_row job row else row) (λ row. ground arith)
        table

  pub ids-update_all :
      (table : Table P) (jobs : List (Job P)) → ids (update_all table jobs) ≡ ids table
  unfolding update_all
  ids-update_all table [] = refl
  ids-update_all table (j ∷ js) = ids-update_all (update table j) js ∙ ids-update table j
