-- ===== src/Jobs/Kinds.antt =====
-- The three job models: server/app/domain/models/session_post_processing_job.py,
-- note_correction_job.py and report_generation_job.py. Their transitions are those of `Job`; only
-- the completion of a report job writes columns of its own.
use meeting_overlay_assistan.Base.{ℕ, String, Option, none}
use meeting_overlay_assistan.Base.Outcome.{Result, ok, ◌>>=◌}
use meeting_overlay_assistan.Session.States.{Time}
use meeting_overlay_assistan.Jobs.Model.{Job}
use meeting_overlay_assistan.Jobs.Model

pub record PostProcessingPayload : Type 0 where
  pub recording_artifact_id : Option String
  pub recording_path : Option String

pub record NotePayload : Type 0 where
  pub source_version : ℕ

pub record ReportPayload : Type 0 where
  pub recording_artifact_id : Option String
  pub recording_path : Option String
  pub transcript_path : Option String
  pub markdown_report_id : Option String
  pub pdf_report_id : Option String

abbrev pub SessionPostProcessingJob : Type 0
SessionPostProcessingJob = Job PostProcessingPayload

abbrev pub NoteCorrectionJob : Type 0
NoteCorrectionJob = Job NotePayload

abbrev pub ReportGenerationJob : Type 0
ReportGenerationJob = Job ReportPayload

unfoldable pub create_pending_correction :
    String → String → ℕ → Option String → Time → NoteCorrectionJob
unfolding Model.create_pending
create_pending_correction id session_id source_version requested_by_user_id now =
    Model.create_pending id session_id (record { source_version = source_version })
      requested_by_user_id now

unfoldable pub create_pending_report :
    String → String → Option String → Option String → Option String → Time → ReportGenerationJob
unfolding Model.create_pending
create_pending_report id session_id artifact path requested_by_user_id now =
    Model.create_pending id session_id
      (record {
        recording_artifact_id = artifact;
        recording_path = path;
        transcript_path = none;
        markdown_report_id = none;
        pdf_report_id = none;
      })
      requested_by_user_id now

unfoldable pub mark_report_completed :
    ReportGenerationJob
    → Option String
    → Option String
    → Option String
    → Time
    → Time
    → Result ReportGenerationJob
unfolding Model.mark_completed
mark_report_completed j transcript_path markdown_report_id pdf_report_id now finished_now = do
  done ← Model.mark_completed j now finished_now
  ok (record done {
    payload = record j.payload {
      transcript_path = transcript_path;
      markdown_report_id = markdown_report_id;
      pdf_report_id = pdf_report_id;
    };
  })
