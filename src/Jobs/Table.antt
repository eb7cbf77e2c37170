-- ===== src/Jobs/Table.antt =====
-- The table of one kind of jobs and the queries of its repository:
-- server/app/infrastructure/persistence/postgresql/repositories/
-- postgresql_session_post_processing_job_repository.py, session_post_processing_job_helpers/
-- queries.py and job_sql_templates.py. Each method is one transaction. The rows that other
-- transactions hold (`SKIP LOCKED`), and the collation that breaks ties between ids, are parameters.
pub mod Claims
pub mod Writes
pub mod Rows
pub mod Selection
pub mod Order
pub mod Claimable
pub mod Preference
use Prim.Native.Nat.{max}
use meeting_overlay_assistan.Base.{
  ℕ, zero, suc, ◌+◌, String, Option, none, some, Bool, true, false, not, ◌&&◌, ◌||◌, List, [], ◌∷◌,
  map, ◌==◌, if◌then◌else◌, string_eq, option_eq, ltb, leb,
}
use meeting_overlay_assistan.Base.Lists.{take}
use meeting_overlay_assistan.Base.Outcome.{Result, ok, err, ◌>>=◌, ◌>>◌}
use meeting_overlay_assistan.Session.States.{Time}
use meeting_overlay_assistan.Jobs.Lifecycle.{
  StatusText, known, pending, processing, completed, failed, status_text_eq,
}
use meeting_overlay_assistan.Jobs.Model.{Job, mark_processing}

abbrev pub Table : Type 0 → Type 0
Table P = List (Job P)

-- `lease_expires_at IS NULL OR lease_expires_at <= now`
abbrev pub lease_over : Option Time → Time → Bool
lease_over none now = true
lease_over (some t) now = leb t now

module _ {P : Type 0} where
  -- INSERT
  unfoldable pub save : Table P → Job P → Table P
  save table job = job ∷ table

  -- GET_BY_ID
  unfoldable pub get_by_id : Table P → String → Option (Job P)
  get_by_id [] id = none
  get_by_id (row ∷ rest) id = if row.id == id then some row else get_by_id rest id

  -- UPDATE … WHERE id: every column but the session's id is written.
  abbrev pub write_row : Job P → Job P → Job P
  write_row job row = record job { session_id = row.session_id }

  unfoldable pub update : Table P → Job P → Table P
  update table job = map (λ row. if row.id == job.id then write_row job row else row) table

  -- The WHERE clause of FENCED_UPDATE.
  unfoldable pub is_fenced : String → String → Job P → Bool
  is_fenced id worker_id row =
      row.id == id && (row.status == known processing && row.claimed_by_worker_id == some worker_id)

  unfoldable pub any_fenced : String → String → Table P → Bool
  any_fenced id worker_id [] = false
  any_fenced id worker_id (row ∷ rest) = is_fenced id worker_id row || any_fenced id worker_id rest

  -- FENCED_UPDATE; the answer is `rowcount > 0`.
  unfoldable pub update_if_claimed : Table P → Job P → String → Table P × Bool
  update_if_claimed table job worker_id = (
    map (λ row. if is_fenced job.id worker_id row then write_row job row else row) table,
    any_fenced job.id worker_id table,
  )

  -- RENEW_LEASE
  unfoldable pub renew_lease : Table P → String → String → Time → Table P × Bool
  renew_lease table id worker_id lease_expires_at = (
    map
        (λ row.
          if is_fenced id worker_id row
          then record row { lease_expires_at = some lease_expires_at }
          else row)
        table,
    any_fenced id worker_id table,
  )

  -- EXHAUST_STALE: a job whose lease ran out in its last attempt has failed.
  unfoldable pub exhaust_row : String → Time → ℕ → Job P → Job P
  exhaust_row message now max_attempts row =
      if row.status == known processing
        && (lease_over row.lease_expires_at now && leb max_attempts row.attempt_count)
      then record row {
        status = known failed;
        error_message = some message;
        claimed_by_worker_id = none;
        lease_expires_at = none;
        completed_at = some now;
      }
      else row

  -- The WHERE clause of CLAIM_AVAILABLE.
  unfoldable pub is_available : Time → ℕ → Job P → Bool
  is_available now max_attempts row =
      row.status == known pending
      || (row.status == known processing
          && (lease_over row.lease_expires_at now && ltb row.attempt_count max_attempts))

  unfoldable pub pick : (Job P → Bool) → Table P → Table P
  pick test [] = []
  pick test (row ∷ rest) = if test row then row ∷ pick test rest else pick test rest

  -- ORDER BY: pending jobs first, then the older, then by id.
  module _ (id_before : String → String → Bool) where
    unfoldable pub claim_rank : Job P → ℕ
    claim_rank row = if row.status == known pending then 0 else 1

    unfoldable pub claims_before : Job P → Job P → Bool
    claims_before a b =
        ltb (claim_rank a) (claim_rank b)
        || (leb (claim_rank a) (claim_rank b)
            && (ltb a.created_at b.created_at
                || (leb a.created_at b.created_at && id_before a.id b.id)))

    unfoldable pub insert_claim : Job P → Table P → Table P
    insert_claim a [] = a ∷ []
    insert_claim a (b ∷ rest) = if claims_before b a then b ∷ insert_claim a rest else a ∷ b ∷ rest

    unfoldable pub order_claims : Table P → Table P
    unfolding insert_claim
    order_claims [] = []
    order_claims (a ∷ rest) = insert_claim a (order_claims rest)

  -- The loop over the rows selected: each is marked and written back.
  unfoldable pub claim_rows :
      String → Time → Time → Table P → List (Job P) → Result (Table P × List (Job P))
  claim_rows worker_id lease_expires_at claimed_at table [] = ok (table, [])
  claim_rows worker_id lease_expires_at claimed_at table (row ∷ rest) = do
    claimed ←
        mark_processing row (some worker_id) (some lease_expires_at) (some claimed_at) claimed_at
    (table', claimed_rest) ←
        claim_rows worker_id lease_expires_at claimed_at (update table claimed) rest
    ok (table', claimed ∷ claimed_rest)

-- Who claims, and what the transaction meets.
pub record ClaimRequest : Type 0 where
  pub worker_id : String
  pub lease_expires_at : Time
  pub claimed_at : Time
  pub limit : ℕ
  pub max_attempts : ℕ
  pub locked : String → Bool
  pub id_before : String → String → Bool
  pub exhausted_message : String

module _ {P : Type 0} where
  abbrev pub exhaust_stale : ClaimRequest → Table P → Table P
  exhaust_stale q = map (exhaust_row q.exhausted_message q.claimed_at q.max_attempts)

  unfoldable pub select_claims : ClaimRequest → Table P → List (Job P)
  select_claims q table = take (max q.limit 1) (
      order_claims q.id_before
        (pick (λ row. is_available q.claimed_at q.max_attempts row && not (q.locked row.id)) table))

  unfoldable pub claim_available : ClaimRequest → Table P → Result (Table P × List (Job P))
  claim_available q table =
      let fresh = exhaust_stale q table in
      claim_rows q.worker_id q.lease_expires_at q.claimed_at fresh (select_claims q fresh)
