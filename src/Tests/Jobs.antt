-- ===== src/Tests/Jobs.antt =====
-- Jobs at concrete inputs.
use meeting_overlay_assistan.Base.{
  ℕ, ◌+◌, ◌≤◌, String, ◌≡◌, ◌≢◌, refl, Bool, true, false, none, some, List, [], ◌∷◌, ◌==◌,
  if◌then◌else◌, string_eq, option_eq, arith, subst,
}
use meeting_overlay_assistan.Base.Distinct.{IsDistinct}
use meeting_overlay_assistan.Base.Outcome.{ok, err, stale_job_claim}
use meeting_overlay_assistan.Jobs.Lifecycle.{
  ensure_job_transition, allowed_transitions, status_text_eq, job_status_eq, known, pending,
  processing, failed,
}
use meeting_overlay_assistan.Jobs.Model.{mark_processing, mark_completed, Job, create_pending}
use meeting_overlay_assistan.Jobs.Table.{
  Table, get_by_id, update, ClaimRequest, claim_rows, select_claims, pick, claim_rank,
  claims_before, insert_claim, order_claims, exhaust_row, is_available, save, renew_lease,
  is_fenced, any_fenced, update_if_claimed, claim_available,
}
use meeting_overlay_assistan.Jobs.Table.Rows.{ids}
use meeting_overlay_assistan.Jobs.Table.Preference.{IsPreferred, claim_available-IsPreferred}
use meeting_overlay_assistan.Jobs.Fence.{holds, write_claimed_job}
use meeting_overlay_assistan.Jobs.Fence.Safety.{write_claimed_job_lem, claimed_job_fenced}
use meeting_overlay_assistan.Jobs.History.{
  Event, enqueues, claims, renews, finishes, completes, handovers, step, total_handovers,
}
use meeting_overlay_assistan.Jobs.Attempts.{total_handovers-le}

abbrev no_one_locks : String → Bool
no_one_locks id = false

abbrev by_arrival : String → String → Bool
by_arrival a b = false

abbrev claim_at : String → ℕ → ClaimRequest
claim_at worker now = record {
  worker_id = worker;
  lease_expires_at = now + 5;
  claimed_at = now;
  limit = 1;
  max_attempts = 2;
  locked = no_one_locks;
  id_before = by_arrival;
  exhausted_message = "attempts used up";
}

abbrev waiting : Job ℕ
waiting = record {
  id = "job-1";
  session_id = "session-1";
  payload = 0;
  status = known pending;
  error_message = none;
  requested_by_user_id = none;
  claimed_by_worker_id = none;
  lease_expires_at = none;
  attempt_count = 0;
  created_at = 3;
  started_at = none;
  completed_at = none;
}

waiting-create_pending : create_pending "job-1" "session-1" 0 none 3 ≡ waiting
unfolding create_pending
waiting-create_pending = refl

abbrev leased_job : Job ℕ
leased_job = record waiting {
  id = "job-2";
  status = known processing;
  claimed_by_worker_id = some "worker-9";
  lease_expires_at = some 50;
  attempt_count = 1;
}

abbrev lost_job : Job ℕ
lost_job = record leased_job { id = "job-3"; lease_expires_at = some 4; attempt_count = 2 }

abbrev table : Table ℕ
table = waiting ∷ leased_job ∷ lost_job ∷ []

table-IsDistinct : IsDistinct (ids table)
unfolding string_eq
table-IsDistinct = (refl, (refl, (refl, tt)))

-- The job is enqueued, claimed, lost, claimed again, lost again, and never claimed a third time.
abbrev history : List (Event ℕ)
history =
    enqueues "job-1" "session-1" 0 none 3
    ∷ claims (claim_at "worker-1" 10)
    ∷ renews "job-1" "worker-1" 18
    ∷ claims (claim_at "worker-2" 20)
    ∷ finishes "job-1" "worker-1" completes 21 21
    ∷ claims (claim_at "worker-1" 30)
    ∷ finishes "job-1" "worker-2" completes 31 31
    ∷ []

history-handovers : total_handovers [] history "job-1" ≡ 2
unfolding total_handovers handovers step save get_by_id create_pending renew_lease is_fenced
    any_fenced mark_completed write_claimed_job update_if_claimed claim_available claim_rows
    select_claims pick claim_rank claims_before insert_claim order_claims exhaust_row is_available
    mark_processing update string_eq status_text_eq job_status_eq ensure_job_transition
    allowed_transitions option_eq
history-handovers = refl

abbrev given_job : Job ℕ
given_job = record waiting {
  status = known processing;
  claimed_by_worker_id = some "worker-1";
  lease_expires_at = some 15;
  attempt_count = 1;
  started_at = some 10;
}

abbrev failed_job : Job ℕ
failed_job = record lost_job {
  status = known failed;
  error_message = some "attempts used up";
  claimed_by_worker_id = none;
  lease_expires_at = none;
  completed_at = some 10;
}

abbrev table_after : Table ℕ
table_after = given_job ∷ leased_job ∷ failed_job ∷ []

abbrev given : List (Job ℕ)
given = given_job ∷ []

claimed : claim_available (claim_at "worker-1" 10) table ≡ ok (table_after, given)
unfolding claim_available claim_rows select_claims pick claim_rank claims_before insert_claim
    order_claims exhaust_row is_available mark_processing update string_eq status_text_eq
    job_status_eq ensure_job_transition allowed_transitions
claimed = refl

given-job_1 : get_by_id given "job-1" ≡ some given_job
unfolding get_by_id string_eq
given-job_1 = refl

other_worker : ◌≢◌ {A = String} "worker-2" "worker-1"
unfolding string_eq
other_worker e =
    let same : ◌==◌ {A = String} "worker-1" "worker-2" ≡ true =
      subst (λ (s : String). (s == "worker-2") ≡ true) e refl in
    absurd (ground (arith, same))

total_handovers-le_example : total_handovers [] history "job-1" ≤ 2
total_handovers-le_example =
    total_handovers-le 2 history "job-1"
      (tt, (ground arith, (tt, (ground arith, (tt, (ground arith, (tt, tt))))))) (ground arith)

claimed_job_fenced_example :
    write_claimed_job table_after waiting (some "worker-2") ≡ (table_after, err stale_job_claim)
claimed_job_fenced_example =
    claimed_job_fenced (claim_at "worker-1" 10) table table_after given given_job waiting "worker-2"
      table-IsDistinct claimed given-job_1 other_worker

claim_available-IsPreferred_example :
    (after : Table ℕ) × (jobs : List (Job ℕ)) × (claim_available (claim_at "worker-1" 10) table
      ≡ ok (after, jobs))
    × IsPreferred (claim_at "worker-1" 10) table after jobs
claim_available-IsPreferred_example =
    claim_available-IsPreferred (claim_at "worker-1" 10) table table-IsDistinct

write_claimed_job_example : write_claimed_job table leased_job (some "worker-1") ≡ (
    if holds "worker-1" (get_by_id table "job-2")
    then (update table leased_job, ok leased_job)
    else (table, err stale_job_claim))
write_claimed_job_example = write_claimed_job_lem table leased_job "worker-1" table-IsDistinct
