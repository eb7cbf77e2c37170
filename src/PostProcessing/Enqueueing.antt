-- ===== src/PostProcessing/Enqueueing.antt =====
-- The job that enqueueing answers.
use meeting_overlay_assistan.Base.{
  String, Bool, Option, none, some, ◌==◌, string_eq, ◌≡◌, ◌⊎◌, refl, sym, subst, arith, Bool-cases,
  Option-cases, inl, inr,
}
use meeting_overlay_assistan.Base.Dict.{lookup, insert}
use meeting_overlay_assistan.Base.Rows.{In, keep_if, sort_by, In-keep_if, In-sort_by, In-head}
use meeting_overlay_assistan.Base.Outcome.{Result, ok, err}
use meeting_overlay_assistan.Session.Entity.{MeetingSession, queue_post_processing}
use meeting_overlay_assistan.Jobs.Lifecycle.{known, pending, processing, status_text_eq}
use meeting_overlay_assistan.Jobs.Model.{Job, create_pending}
use meeting_overlay_assistan.Jobs.Table.{Table, save}
use meeting_overlay_assistan.Jobs.Lookups.{get_latest_by_session, created_last}
use meeting_overlay_assistan.Jobs.Kinds.{SessionPostProcessingJob, PostProcessingPayload}
use meeting_overlay_assistan.PostProcessing.World.{World}
use meeting_overlay_assistan.PostProcessing.Runner.{save_session}
use meeting_overlay_assistan.PostProcessing.Fencing.{Result-cases}
use meeting_overlay_assistan.PostProcessing.Dispatch.{
  Desk, artifact_id_of, path_of, dispatch_job, dispatch_if, enqueue_new, enqueue_after,
  enqueue_post_processing,
}

-- The latest job of a session is a row of the session.
pub get_latest_by_session-In :
    {P : Type 0} (id_before : String → String → Bool) (table : Table P) (session_id : String)
    (j : Job P)
    → get_latest_by_session id_before table session_id ≡ some j
    → In j table × (j.session_id ≡ session_id)
unfolding get_latest_by_session
get_latest_by_session-In id_before table session_id j h =
    let rows = keep_if (λ (row : Job _). row.session_id == session_id) table in
    let (there, mine) =
      In-keep_if (λ (row : Job _). row.session_id == session_id) j table
        (In-sort_by (created_last id_before) j rows
          (In-head j (sort_by (created_last id_before) rows) h)) in
    (there, ground arith)

module _ {F : Type 0} where
  -- The job is one of the session's that waits or runs, and at most this job was added.
  pub record IsEnqueued (session_id : String) (w w' : World F) (j : SessionPostProcessingJob)
      : Type 0 where
    pub mine : j.session_id ≡ session_id
    pub active : (j.status ≡ known pending) ⊎ (j.status ≡ known processing)
    pub stored : In j w'.jobs
    pub kept : (w'.jobs ≡ w.jobs) ⊎ (w'.jobs ≡ save w.jobs j)

  pub dispatch_if-jobs :
      (desk : Desk) (dispatch : Bool) (job_id : String) (w : World F)
      → (dispatch_if desk dispatch job_id w).jobs ≡ w.jobs
  unfolding dispatch_job
  dispatch_if-jobs desk dispatch job_id w = ground arith

  module _ (desk : Desk) (session_id : String) (requested_by : Option String) (dispatch : Bool)
      (w : World F) where
    -- What holds of an answer that is one.
    abbrev Answers : Result (World F × SessionPostProcessingJob) → Type 0
    Answers (err e) = Unit
    Answers (ok (w', j)) = IsEnqueued session_id w w' j

    enqueue_new-Answers :
        (s : MeetingSession) → Answers (enqueue_new desk session_id requested_by dispatch w s)
    unfolding create_pending save
    enqueue_new-Answers s =
        elim (Result-cases (queue_post_processing s (artifact_id_of desk.artifact) desk.now)) [
          | inl (e, refused) ↦ rw refused tt
          | inr (queued, done) ↦
              let job =
                create_pending desk.job_id session_id
                  (record {
                    recording_artifact_id = queued.recording_artifact_id;
                    recording_path = path_of desk.artifact;
                  })
                  requested_by desk.now in
              let v : World F = record w {
                sessions = insert queued.id queued w.sessions;
                jobs = save w.jobs job;
              } in
              let jobs = dispatch_if-jobs desk dispatch desk.job_id v in
              rw done (record {
                mine = refl;
                active = inl refl;
                stored =
                    subst (λ (t : Table PostProcessingPayload). In job t) (sym jobs) (inl refl);
                kept = inr jobs;
              })
        ]

    enqueue_after-Answers :
        (s : MeetingSession) (latest : Option SessionPostProcessingJob)
        → get_latest_by_session desk.id_before w.jobs session_id ≡ latest
        → Answers (enqueue_after desk session_id requested_by dispatch w s latest)
    enqueue_after-Answers s none h = enqueue_new-Answers s
    enqueue_after-Answers s (some latest) h =
        let (there, mine) = get_latest_by_session-In desk.id_before w.jobs session_id latest h in
        elim (Bool-cases (latest.status == known processing)) [
          | inl runs ↦
              rw runs (record {
                mine = mine;
                active = inr (ground arith);
                stored = there;
                kept = inl refl;
              })
          | inr idle ↦ elim (Bool-cases (latest.status == known pending)) [
            | inr over ↦ rw (idle, over) (enqueue_new-Answers s)
            | inl waits ↦
                elim (Result-cases
                  (queue_post_processing s latest.payload.recording_artifact_id desk.now)) [
                    | inl (e, refused) ↦ rw (idle, waits, refused) tt
                    | inr (queued, done) ↦
                        let jobs =
                          dispatch_if-jobs desk dispatch latest.id (save_session queued w) in
                        rw (idle, waits, done)
                          (record {
                            mine = mine;
                            active = inl (ground arith);
                            stored =
                                subst (λ (t : Table PostProcessingPayload). In latest t) (sym jobs)
                                  there;
                            kept = inl jobs;
                          })
                  ]
          ]
        ]

    -- Where enqueueing answers a job, this is a job of the session that waits or runs and that is
    -- stored, and no other job was added.
    pub enqueue_post_processing-IsEnqueued :
        (w' : World F) (j : SessionPostProcessingJob)
        → enqueue_post_processing desk session_id requested_by dispatch w ≡ ok (w', j)
        → IsEnqueued session_id w w' j
    unfolding enqueue_post_processing
    enqueue_post_processing-IsEnqueued w' j h = elim (Option-cases (lookup session_id w.sessions)) [
      | inl missing ↦ absurd (ground arith)
      | inr (s, found) ↦
          let latest = get_latest_by_session desk.id_before w.jobs session_id in
          let same : enqueue_after desk session_id requested_by dispatch w s latest ≡ ok (w', j) =
            (rw (found, enqueue_post_processing) at h) in
          subst Answers same (enqueue_after-Answers s latest refl)
    ]
