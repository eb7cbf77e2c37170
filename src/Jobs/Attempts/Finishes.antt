-- ===== src/Jobs/Attempts/Finishes.antt =====
-- A worker that finishes a job counts no attempt.
use meeting_overlay_assistan.Base.{
  ℕ, String, ◌≡◌, ◌≢◌, refl, Option, none, some, Bool, true, false, if◌then◌else◌, string_eq,
  option_eq, arith, sym, subst,
}
use meeting_overlay_assistan.Base.Distinct.{IsDistinct}
use meeting_overlay_assistan.Base.Outcome.{Result, ok, err, stale_job_claim}
use meeting_overlay_assistan.Session.States.{Time}
use meeting_overlay_assistan.Jobs.Lifecycle.{known, pending, status_text_eq}
use meeting_overlay_assistan.Jobs.Model.{Job, mark_completed, mark_failed}
use meeting_overlay_assistan.Jobs.Table.{Table, get_by_id, update}
use meeting_overlay_assistan.Jobs.Table.Rows.{get_by_id-update, id_of_get_by_id}
use meeting_overlay_assistan.Jobs.Table.Writes.{ids-update}
use meeting_overlay_assistan.Jobs.Fence.{holds}
use meeting_overlay_assistan.Jobs.Fence.Safety.{write_claimed_job_lem}
use meeting_overlay_assistan.Jobs.History.{
  Finish, completes, fails, finishes, finish, write_finished, finish_found, step, handovers,
}
use meeting_overlay_assistan.Jobs.Attempts.Counted.{IsSound, attempts, IsCounted}

module _ {P : Type 0} where
  -- What a worker writes at the end keeps the job's id and attempts.
  finished_job :
      (how : Finish) (job done : Job P) (now finished_now : Time)
      → finish how job now finished_now ≡ ok done
      → (done.id ≡ job.id)
        × (done.attempt_count ≡ job.attempt_count)
        × (done.status ≢ known pending)
  unfolding mark_completed mark_failed
  finished_job completes job done now finished_now e = ground arith
  finished_job (fails message) job done now finished_now e = ground arith

  update-IsSound :
      (m : ℕ) (table : Table P) (job done : Job P)
      → IsSound m table
      → get_by_id table done.id ≡ some job
      → done.attempt_count ≡ job.attempt_count
      → done.status ≢ known pending
      → IsSound m (update table done)
        × ((i : String) → attempts (update table done) i ≡ attempts table i)
  update-IsSound m table job done s found same busy = (
    record {
      distinct = subst IsDistinct (sym (ids-update table done)) s.distinct;
      within = λ i. ground (arith, get_by_id-update table done i, s.within i);
    },
    λ i. ground (arith, get_by_id-update table done i),
  )

  -- The table stays sound and no job gains an attempt.
  abbrev IsKept : ℕ → Table P → Table P → Type 0
  IsKept m table table' = IsSound m table' × ((i : String) → attempts table' i ≡ attempts table i)

  write_finished-IsKept :
      (m : ℕ) (table : Table P) (w : String) (how : Finish) (job : Job P) (now finished_now : Time)
      (r : Result (Job P))
      → IsSound m table
      → get_by_id table job.id ≡ some job
      → finish how job now finished_now ≡ r
      → IsKept m table (write_finished table w r)
  write_finished-IsKept m table w how job now finished_now (err x) s found e = (s, λ i. refl)
  write_finished-IsKept m table w how job now finished_now (ok done) s found e =
      let (same_id, same, busy) = finished_job how job done now finished_now e in
      let kept : IsKept m table (update table done) =
        update-IsSound m table job done s (rw same_id found) same busy in
      subst (λ (r : Table P × Result (Job P)). IsKept m table r.0)
        (sym (write_claimed_job_lem table done w s.distinct))
        (written (holds w (get_by_id table done.id)) kept)
    where
      written :
          (b : Bool)
          → IsKept m table (update table done)
          → IsKept m table
              (if◌then◌else◌ {A = Table P × Result (Job P)} b
                (update table done, ok done)
                (table, err stale_job_claim)).0
      written true k = k
      written false k = (s, λ i. refl)

  finish_found-IsKept :
      (m : ℕ) (table : Table P) (id w : String) (how : Finish) (now finished_now : Time)
      (o : Option (Job P))
      → IsSound m table
      → get_by_id table id ≡ o
      → IsKept m table (finish_found table w how now finished_now o)
  finish_found-IsKept m table id w how now finished_now none s e = (s, λ i. refl)
  finish_found-IsKept m table id w how now finished_now (some job) s e =
      write_finished-IsKept m table w how job now finished_now (finish how job now finished_now) s
        (subst (λ i. get_by_id table i ≡ some job) (sym (id_of_get_by_id table id job e)) e) refl

  pub finishes-IsCounted :
      (m : ℕ) (table : Table P) (id w : String) (how : Finish) (now finished_now : Time)
      → IsSound m table
      → IsCounted m table (finishes id w how now finished_now)
  unfolding step handovers
  finishes-IsCounted m table id w how now finished_now s =
      let (sound, kept) =
        finish_found-IsKept m table id w how now finished_now (get_by_id table id) s refl in
      (sound, λ i. omega (arith, kept i))
