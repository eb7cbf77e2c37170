-- ===== src/Live/Readiness.antt =====
-- What readiness promises to the scheduler and its workers.
use meeting_overlay_assistan.Base.{
  ◌≡◌, true, false, Option, none, some, [], string_eq, arith, contains,
}
use meeting_overlay_assistan.Base.Outcome.{Result, ok, err}
use meeting_overlay_assistan.Live.Context.{
  LiveStreamContext, JobKind, preview, final, is_job_kind_busy, job_kind_eq,
}
use meeting_overlay_assistan.Live.Policy.{is_job_kind_ready, ready_job_kinds, next_job_kind}
use meeting_overlay_assistan.Live.Claiming.{InferenceJob, claim_inference_job}

module _ {A : Type 0} where
  -- The job claimed is of this kind and stream, and its lane takes no second job.
  pub record IsClaimed (c d : LiveStreamContext A) (k : JobKind) (job : InferenceJob) : Type 0 where
    pub lane_busy : is_job_kind_busy d k ≡ true
    pub not_ready : is_job_kind_ready d k ≡ false
    pub kind : job.kind ≡ k
    pub stream : job.context_id ≡ c.context_id
    pub closed : d.input_closed ≡ c.input_closed

  abbrev pub IsClaim :
      LiveStreamContext A → LiveStreamContext A → JobKind → Result InferenceJob → Type 0
  IsClaim c d k (ok job) = IsClaimed c d k job
  IsClaim c d k (err e) = ⊥

  -- Claiming a kind that is ready does not raise: it gives a job of this kind and stream, and
  -- leaves the kind's lane busy and no longer ready, and the input open or closed as it was.
  pub claim_inference_job-IsClaim :
      (c : LiveStreamContext A) (k : JobKind)
      → is_job_kind_ready c k ≡ true
      → IsClaim c (claim_inference_job c k).0 k (claim_inference_job c k).1
  unfolding is_job_kind_ready claim_inference_job
  claim_inference_job-IsClaim c preview h = ground arith
  claim_inference_job-IsClaim c final h = ground arith

  -- The kind that is next, if any, is among the ready ones; none is ready where there is none.
  abbrev pub IsNext : LiveStreamContext A → Option JobKind → Type 0
  IsNext c none = ready_job_kinds c ≡ []
  IsNext c (some k) = (is_job_kind_ready c k ≡ true) × (contains (ready_job_kinds c) k ≡ true)

  -- `next_job_kind` names a kind that is ready, and it names one whenever any kind is ready.
  pub next_job_kind-IsNext : (c : LiveStreamContext A) → IsNext c (next_job_kind c)
  unfolding next_job_kind ready_job_kinds is_job_kind_ready
  next_job_kind-IsNext c = ground arith
