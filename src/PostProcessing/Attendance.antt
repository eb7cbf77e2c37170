-- ===== src/PostProcessing/Attendance.antt =====
-- What the recovery of a session at startup leaves: no session waits for a job that is not there.
use meeting_overlay_assistan.Base.{
  ℕ, String, Bool, true, false, Option, none, some, ◌==◌, ◌!=◌, string_eq, nat_eq, ltb, ◌≡◌, ◌≢◌,
  ◌⊎◌, refl, sym, subst, arith, Bool-cases, inl, inr,
}
use meeting_overlay_assistan.Base.Dict.{lookup, insert, lookup-insert}
use meeting_overlay_assistan.Base.Rows.{In}
use meeting_overlay_assistan.Base.Outcome.{Result, ok, err, ◌>>=◌}
use meeting_overlay_assistan.Session.States.{
  post_processing_status_eq, ensure_post_processing_transition,
}
use meeting_overlay_assistan.Session.States
use meeting_overlay_assistan.Session.Entity.{MeetingSession, mark_post_processing_failed}
use meeting_overlay_assistan.Jobs.Lifecycle.{known, pending, processing, failed, status_text_eq}
use meeting_overlay_assistan.Jobs.Table.{Table}
use meeting_overlay_assistan.Jobs.Lookups.{get_latest_by_session}
use meeting_overlay_assistan.Jobs.Kinds.{SessionPostProcessingJob, PostProcessingPayload}
use meeting_overlay_assistan.PostProcessing.World.{World}
use meeting_overlay_assistan.PostProcessing.Fencing.{Result-cases}
use meeting_overlay_assistan.PostProcessing.Dispatch.{Desk, dispatch_job, enqueue_post_processing}
use meeting_overlay_assistan.PostProcessing.Enqueueing.{
  get_latest_by_session-In, enqueue_post_processing-IsEnqueued,
}
use meeting_overlay_assistan.PostProcessing.Restarts.{
  enqueued_again, text_or, is_job_stalled, fail_if_processing, mark_session_post_processing_failed,
  recover_latest, recover_post_processing,
}

module _ {F : Type 0} where
  -- The session is stored under its own id.
  abbrev pub IsKeyed : String → World F → Type 0
  IsKeyed session_id w =
      (s : MeetingSession) → lookup session_id w.sessions ≡ some s → s.id ≡ session_id

  -- A job of the session that waits or runs is stored.
  abbrev pub IsAttended : String → World F → Type 0
  IsAttended session_id w =
      (j : SessionPostProcessingJob) × (In j w.jobs
        × ((j.session_id ≡ session_id)
            × ((j.status ≡ known pending) ⊎ (j.status ≡ known processing))))

  module _ (desk : Desk) (session_id : String) (w : World F) where
    -- A job of the session that waits or runs is stored; or the session is not marked as processing;
    -- or its latest job neither waits nor runs nor failed.
    abbrev pub IsLookedAfter : World F → Type 0
    IsLookedAfter w' =
        IsAttended session_id w'
        ⊎ (((s : MeetingSession)
              → lookup session_id w'.sessions ≡ some s
              → s.post_processing.status ≢ States.processing)
            ⊎ ((latest : SessionPostProcessingJob) × ((get_latest_by_session desk.id_before w.jobs
                      session_id
                    ≡ some latest)
                  × ((latest.status ≢ known pending)
                      × ((latest.status ≢ known processing) × (latest.status ≢ known failed))))))

    abbrev Looks : Result (World F × Bool) → Type 0
    Looks (err e) = Unit
    Looks (ok (w', queued)) = IsLookedAfter w'

    enqueued_again-Looks : Looks (enqueued_again desk session_id w)
    enqueued_again-Looks =
        elim (Result-cases (enqueue_post_processing desk session_id none true w)) [
          | inl (e, refused) ↦ rw refused tt
          | inr ((w', j), done) ↦
              let enqueued =
                enqueue_post_processing-IsEnqueued desk session_id none true w w' j done in
              rw done (inl (j, (enqueued.stored, (enqueued.mine, enqueued.active))))
        ]

    dispatch_job-jobs : (id : String) → (dispatch_job desk id w).0.jobs ≡ w.jobs
    unfolding dispatch_job
    dispatch_job-jobs id = ground arith

    dispatched-Looks :
        (latest : SessionPostProcessingJob)
        → get_latest_by_session desk.id_before w.jobs session_id ≡ some latest
        → (latest.status ≡ known pending) ⊎ (latest.status ≡ known processing)
        → IsLookedAfter (dispatch_job desk latest.id w).0
    dispatched-Looks latest found active =
        let (there, mine) =
          get_latest_by_session-In desk.id_before w.jobs session_id latest found in
        inl (
          latest,
          (
            subst (λ (t : Table PostProcessingPayload). In latest t)
                (sym (dispatch_job-jobs latest.id)) there,
            (mine, active),
          ),
        )

    marked_failed :
        (message : String) (s marked : MeetingSession)
        → mark_post_processing_failed s message none desk.now ≡ ok marked
        → (marked.id ≡ s.id) × (marked.post_processing.status ≡ States.failed)
    unfolding mark_post_processing_failed
    marked_failed message s marked done =
        elim (Result-cases
          (ensure_post_processing_transition s.post_processing.status States.failed)) [
            | inl (e, refused) ↦ absurd (ground arith)
            | inr (allowed, passed) ↦ (ground arith, ground arith)
          ]

    failed_session :
        (message : String) (s marked : MeetingSession)
        → s.id ≡ session_id
        → mark_post_processing_failed s message none desk.now ≡ ok marked
        → (t : MeetingSession) → lookup session_id (insert marked.id marked w.sessions) ≡ some t
        → t.post_processing.status ≢ States.processing
    failed_session message s marked own done t found runs =
        let (same, over) = marked_failed message s marked done in
        let there = lookup-insert marked.id session_id marked w.sessions in
        let mine : (marked.id == session_id) ≡ true = ground (arith, same, own) in
        let equal : marked ≡ t = ground (arith, there, found, mine) in
        absurd (ground (arith, over, equal, runs))

    fail_if_processing-Looks :
        (message : String) (found : Option MeetingSession)
        → lookup session_id w.sessions ≡ found
        → IsKeyed session_id w
        → Looks (fail_if_processing desk message w found >>= λ w'. ok (w', false))
    fail_if_processing-Looks message none missing keyed =
        inr (inl (λ s there. absurd (ground (arith, missing, there))))
    fail_if_processing-Looks message (some s) there keyed =
        elim (Bool-cases (s.post_processing.status != States.processing)) [
          | inl idle ↦ rw idle (inr (inl (λ t found runs. ground (arith, there, found, runs))))
          | inr runs ↦ elim (Result-cases (mark_post_processing_failed s message none desk.now)) [
            | inl (e, refused) ↦ rw (runs, refused) tt
            | inr (marked, done) ↦
                rw (runs, done) (inr (inl (failed_session message s marked (keyed s there) done)))
          ]
        ]

    recover_latest-Looks :
        (max_attempts : ℕ) (default_message : String) (latest : Option SessionPostProcessingJob)
        → get_latest_by_session desk.id_before w.jobs session_id ≡ latest
        → IsKeyed session_id w
        → Looks (recover_latest desk max_attempts default_message session_id w latest)
    unfolding mark_session_post_processing_failed
    recover_latest-Looks max_attempts default_message none missing keyed = enqueued_again-Looks
    recover_latest-Looks max_attempts default_message (some latest) found keyed =
        let (there, mine) =
          get_latest_by_session-In desk.id_before w.jobs session_id latest found in
        elim (Bool-cases (latest.status == known pending)) [
          | inl waits ↦ rw waits (dispatched-Looks latest found (inl (ground arith)))
          | inr begun ↦ elim (Bool-cases (latest.status == known processing)) [
            | inl runs ↦ elim (Bool-cases (is_job_stalled latest.lease_expires_at desk.now)) [
              | inl stalled ↦
                  rw (begun, runs, stalled) (dispatched-Looks latest found (inr (ground arith)))
              | inr held ↦
                  let idle : (latest.status == known failed) ≡ false = ground arith in
                  rw (begun, runs, held, idle) (inl (latest, (there, (mine, inr (ground arith)))))
            ]
            | inr over ↦ elim (Bool-cases (latest.status == known failed)) [
              | inr other ↦
                  rw (begun, over, other)
                    (inr (inr (latest, (found, (ground arith, (ground arith, ground arith))))))
              | inl broken ↦ elim (Bool-cases (ltb latest.attempt_count max_attempts)) [
                | inl below ↦ rw (begun, over, broken, below) enqueued_again-Looks
                | inr spent ↦
                    rw (begun, over, broken, spent)
                      (fail_if_processing-Looks (text_or latest.error_message default_message)
                        (lookup session_id w.sessions) refl keyed)
              ]
            ]
          ]
        ]

    -- After a recovery that does not raise, a job of the session that waits or runs is stored, or the
    -- session is not marked as processing, or its latest job neither waits nor runs nor failed; where
    -- the session is stored under its own id.
    pub recover_post_processing-IsLookedAfter :
        (max_attempts : ℕ) (default_message : String) (w' : World F) (queued : Bool)
        → IsKeyed session_id w
        → recover_post_processing desk max_attempts default_message session_id w ≡ ok (w', queued)
        → IsLookedAfter w'
    unfolding recover_post_processing
    recover_post_processing-IsLookedAfter max_attempts default_message w' queued keyed h =
        subst Looks h (
          recover_latest-Looks max_attempts default_message
            (get_latest_by_session desk.id_before w.jobs session_id) refl keyed)
