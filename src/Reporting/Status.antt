-- ===== src/Reporting/Status.antt =====
-- server/app/contexts/reporting/application/jobs/helpers/final_status.py. `str.lower` belongs to the
-- platform, and so does the test whether the file of a report is there, whose answer is an argument.
use meeting_overlay_assistan.Base.{
  ℕ, String, Bool, true, false, not, ◌&&◌, ◌||◌, Option, none, some, ◌==◌, string_eq, nat_eq,
  if◌then◌else◌,
}
use meeting_overlay_assistan.Base.Text.{strip, is_empty}
use meeting_overlay_assistan.Jobs.Lifecycle.{StatusText, known, status_text_eq}
use meeting_overlay_assistan.Jobs.Lifecycle
use meeting_overlay_assistan.Jobs.Model.{Job}
use meeting_overlay_assistan.Jobs.Kinds.{NoteCorrectionJob, ReportGenerationJob}

pub data PipelineStatus : Type 0 where
  pending processing failed completed : PipelineStatus

pub data PipelineStage : Type 0 where
  live_stage post_processing_stage note_correction_stage report_generation_stage completed_stage :
      PipelineStage

pub data Warning : Type 0 where
  latest_regeneration_failed latest_regeneration_processing latest_regeneration_pending : Warning
  latest_post_processing_failed : Warning

-- `note_correction_job` if it is about the current transcript.
unfoldable pub current_note : ℕ → Option NoteCorrectionJob → Option NoteCorrectionJob
current_note version none = none
current_note version (some job) = if job.payload.source_version == version then some job else none

unfoldable pub normalized_status : (String → String) → String → String
normalized_status lower status = if is_empty status then "not_started" else lower (strip status)

-- The status of an optional job is the one given.
abbrev pub has_status : {P : Type 0} → Lifecycle.JobStatus → Option (Job P) → Bool
has_status status none = false
has_status status (some job) = job.status == known status

abbrev pub is_missing {ℓ} : {A : Type ℓ} → Option A → Bool
is_missing none = true
is_missing (some a) = false

-- The branches from the report job on.
unfoldable pub report_status : Option ReportGenerationJob → Bool → PipelineStatus × PipelineStage
report_status latest_job has_usable_report =
    if has_status Lifecycle.pending latest_job
    then (pending, report_generation_stage)
    else if has_status Lifecycle.processing latest_job
    then (processing, report_generation_stage)
    else if has_status Lifecycle.failed latest_job
    then (failed, report_generation_stage)
    else if has_status Lifecycle.completed latest_job && not has_usable_report
    then (failed, report_generation_stage)
    else if has_usable_report
    then (completed, completed_stage)
    else (pending, report_generation_stage)

-- The branches from the note job on.
unfoldable pub note_status :
    Option NoteCorrectionJob → Option ReportGenerationJob → Bool → PipelineStatus × PipelineStage
unfolding report_status
note_status note_job latest_job has_usable_report =
    if is_missing note_job
      && (has_usable_report && (is_missing latest_job || has_status Lifecycle.completed latest_job))
    then (completed, completed_stage)
    else if is_missing note_job
    then (pending, note_correction_stage)
    else if has_status Lifecycle.pending note_job
    then (pending, note_correction_stage)
    else if has_status Lifecycle.processing note_job
    then (processing, note_correction_stage)
    else if has_status Lifecycle.failed note_job
    then (failed, note_correction_stage)
    else report_status latest_job has_usable_report

unfoldable pub resolve_pipeline_status :
    (String → String)
    → Bool
    → String
    → Option NoteCorrectionJob
    → Option ReportGenerationJob
    → Bool
    → PipelineStatus × PipelineStage
unfolding note_status normalized_status
resolve_pipeline_status lower session_ended post_processing_status note_job latest_job
      has_usable_report =
    let status = normalized_status lower post_processing_status in
    if not session_ended
    then (pending, live_stage)
    else if status == "not_started" || status == "queued"
    then (pending, post_processing_stage)
    else if status == "processing"
    then (processing, post_processing_stage)
    else if status == "failed"
    then (failed, post_processing_stage)
    else note_status note_job latest_job has_usable_report

abbrev pub resolve_warning_reason : Option ReportGenerationJob → Option Warning
resolve_warning_reason job =
    if has_status Lifecycle.failed job
    then some latest_regeneration_failed
    else if has_status Lifecycle.processing job
    then some latest_regeneration_processing
    else if has_status Lifecycle.pending job
    then some latest_regeneration_pending
    else none

-- `warning_reason` of `build_final_report_status`.
unfoldable pub warning_of : String → Option ReportGenerationJob → Bool → Option Warning
warning_of post_processing_status latest_job has_usable_report =
    if has_usable_report
      && (not (is_missing latest_job) && not (has_status Lifecycle.completed latest_job))
    then resolve_warning_reason latest_job
    else if has_usable_report && post_processing_status == "failed"
    then some latest_post_processing_failed
    else none

-- The parts of `FinalReportStatus` that are computed.
pub record FinalReportStatus : Type 0 where
  pub status : PipelineStatus
  pub pipeline_stage : PipelineStage
  pub note_correction_job_status : Option StatusText
  pub warning_reason : Option Warning
  pub latest_job_status : Option StatusText

abbrev pub status_of : {P : Type 0} → Option (Job P) → Option StatusText
status_of none = none
status_of (some job) = some job.status

unfoldable pub build_final_report_status :
    (String → String)
    → Bool
    → String
    → ℕ
    → Option NoteCorrectionJob
    → Option ReportGenerationJob
    → Bool
    → FinalReportStatus
unfolding resolve_pipeline_status warning_of current_note
build_final_report_status lower session_ended post_processing_status version note_job latest_job
      has_usable_report =
    let note = current_note version note_job in
    let resolved =
      resolve_pipeline_status lower session_ended post_processing_status note latest_job
        has_usable_report in
    record {
      status = resolved.0;
      pipeline_stage = resolved.1;
      note_correction_job_status = status_of note;
      warning_reason = warning_of post_processing_status latest_job has_usable_report;
      latest_job_status = status_of latest_job;
    }
