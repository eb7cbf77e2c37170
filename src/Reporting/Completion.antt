-- ===== src/Reporting/Completion.antt =====
-- What a status that is completed says.
use meeting_overlay_assistan.Base.{
  ℕ, String, Bool, true, false, Option, none, some, ◌==◌, string_eq, nat_eq, ◌≡◌, refl, sym, subst,
  ap, ◌∙◌, arith, Bool-cases, inl, inr,
}
use meeting_overlay_assistan.Base.Text.{strip, is_space}
use meeting_overlay_assistan.Jobs.Lifecycle.{StatusText, known, status_text_eq}
use meeting_overlay_assistan.Jobs.Lifecycle
use meeting_overlay_assistan.Jobs.Kinds.{NoteCorrectionJob, ReportGenerationJob}
use meeting_overlay_assistan.Reporting.Status.{
  PipelineStatus, PipelineStage, completed, completed_stage, current_note, normalized_status,
  has_status, report_status, note_status, resolve_pipeline_status, warning_of,
  build_final_report_status,
}

-- The branch is that of a usable report, and the latest report job neither waits nor runs nor failed.
record IsUsable (latest_job : Option ReportGenerationJob) (has_usable_report : Bool)
    (answer : PipelineStatus × PipelineStage) : Type 0 where
  stage : answer.1 ≡ completed_stage
  usable : has_usable_report ≡ true
  waits : has_status Lifecycle.pending latest_job ≡ false
  runs : has_status Lifecycle.processing latest_job ≡ false
  failed : has_status Lifecycle.failed latest_job ≡ false

report_status-IsUsable :
    (latest_job : Option ReportGenerationJob) (has_usable_report : Bool)
    → (report_status latest_job has_usable_report).0 ≡ completed
    → IsUsable latest_job has_usable_report (report_status latest_job has_usable_report)
unfolding report_status
report_status-IsUsable none has_usable_report h = record {
  stage = ground arith;
  usable = ground arith;
  waits = refl;
  runs = refl;
  failed = refl;
}
report_status-IsUsable (some job) has_usable_report h = record {
  stage = ground arith;
  usable = ground arith;
  waits = ground arith;
  runs = ground arith;
  failed = ground arith;
}

note_status-IsUsable :
    (note_job : Option NoteCorrectionJob) (latest_job : Option ReportGenerationJob)
    (has_usable_report : Bool)
    → (note_status note_job latest_job has_usable_report).0 ≡ completed
    → IsUsable latest_job has_usable_report (note_status note_job latest_job has_usable_report)
unfolding note_status
note_status-IsUsable none none has_usable_report h = record {
  stage = ground arith;
  usable = ground arith;
  waits = refl;
  runs = refl;
  failed = refl;
}
note_status-IsUsable none (some job) has_usable_report h = record {
  stage = ground arith;
  usable = ground arith;
  waits = ground arith;
  runs = ground arith;
  failed = ground arith;
}
note_status-IsUsable (some note) latest_job has_usable_report h =
    let same : note_status (some note) latest_job has_usable_report
        ≡ report_status latest_job has_usable_report =
      ground arith in
    subst (IsUsable latest_job has_usable_report) (sym same) (
      report_status-IsUsable latest_job has_usable_report
        (sym (ap (λ (a : PipelineStatus × PipelineStage). a.0) same) ∙ h))

failed_status :
    (lower : String → String)
    → lower "failed" ≡ "failed"
    → normalized_status lower "failed" ≡ "failed"
unfolding normalized_status strip is_space
failed_status lower h = h

-- A status that is completed is at the completed stage, and carries no warning, the session has
-- ended and there is a usable report, where lower-casing keeps the text "failed".
pub build_final_report_status-completed :
    (lower : String → String) (session_ended : Bool) (post_processing_status : String) (version : ℕ)
    (note_job : Option NoteCorrectionJob) (latest_job : Option ReportGenerationJob)
    (has_usable_report : Bool)
    → lower "failed" ≡ "failed"
    → (build_final_report_status lower session_ended post_processing_status version note_job
        latest_job has_usable_report).status
      ≡ completed
    → let answer =
        build_final_report_status lower session_ended post_processing_status version note_job
          latest_job has_usable_report in
      (answer.pipeline_stage ≡ completed_stage)
      × (answer.warning_reason ≡ none)
      × (session_ended ≡ true)
      × (has_usable_report ≡ true)
unfolding build_final_report_status resolve_pipeline_status warning_of
build_final_report_status-completed lower session_ended post_processing_status version note_job
      latest_job has_usable_report fixed h =
    let status = normalized_status lower post_processing_status in
    let note = current_note version note_job in
    elim (Bool-cases (post_processing_status == "failed")) [
      | inl broken ↦
          let text : post_processing_status ≡ "failed" = ground arith in
          let same : status ≡ "failed" =
            subst (λ (s : String). normalized_status lower s ≡ "failed") (sym text)
              (failed_status lower fixed) in
          absurd (ground (arith, same))
      | inr other ↦
          let ends : session_ended ≡ true = ground arith in
          let resolved : resolve_pipeline_status lower session_ended post_processing_status note
                latest_job has_usable_report
              ≡ note_status note latest_job has_usable_report =
            ground arith in
          let u =
            note_status-IsUsable note latest_job has_usable_report
              (sym (ap (λ (a : PipelineStatus × PipelineStage). a.0) resolved) ∙ h) in
          (
            ap (λ (a : PipelineStatus × PipelineStage). a.1) resolved ∙ u.stage,
            ground (arith, other, u.waits, u.runs, u.failed),
            ends,
            u.usable,
          )
    ]
