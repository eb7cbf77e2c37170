-- ===== src/PostProcessing/Builders.antt =====
-- server/app/contexts/post_processing/application/session_post_processing_builders.py. The analyzer
-- is an argument, and so are the ids that `uuid4` draws.
use meeting_overlay_assistan.Base.{
  ℕ, ◌+◌, String, Option, none, some, List, [], ◌∷◌, ◌++◌, map, if◌then◌else◌, or_text,
}
use meeting_overlay_assistan.Base.Integers.{ℤ}
use meeting_overlay_assistan.Base.Text.{strip, is_empty}
use meeting_overlay_assistan.Base.Outcome.{Result, ok, ◌>>=◌}
use meeting_overlay_assistan.Insight.Events.{MeetingEvent}
use meeting_overlay_assistan.PostProcessing.Utterances.{Utterance, create}

-- A segment of the transcription of a recording.
pub record SpeakerTranscriptSegment (F : Type 0) : Type 0 where
  pub speaker_label : Option String
  pub start_ms : ℤ
  pub end_ms : ℤ
  pub text : String
  pub confidence : F

module _ {F : Type 0} where
  -- The utterance that a segment becomes, of the source given.
  abbrev pub utterance_of :
      String
      → String
      → Option String
      → String
      → String
      → ℕ
      → SpeakerTranscriptSegment F
      → Utterance F
  utterance_of id session_id input_source job_id transcript_source seq_num segment = record {
    id = id;
    session_id = session_id;
    seq_num = seq_num;
    start_ms = segment.start_ms;
    end_ms = segment.end_ms;
    text = strip segment.text;
    confidence = segment.confidence;
    input_source = input_source;
    stt_backend = some "post_processed";
    latency_ms = none;
    speaker_label = segment.speaker_label;
    transcript_source = transcript_source;
    processing_job_id = some job_id;
  }

  -- The loop over the segments, from the number given.
  unfoldable pub build_from :
      (ℕ → String)
      → String
      → Option String
      → String
      → ℕ
      → List (SpeakerTranscriptSegment F)
      → Result (List (Utterance F))
  unfolding create
  build_from new_id session_id input_source job_id seq_num [] = ok []
  build_from new_id session_id input_source job_id seq_num (segment ∷ rest) =
      let later = build_from new_id session_id input_source job_id (seq_num + 1) rest in
      if is_empty (strip segment.text)
      then later
      else create (
          utterance_of (new_id seq_num) session_id input_source job_id "post_processed" seq_num
            segment)
        >>= λ u. later >>= λ us. ok (u ∷ us)

  unfoldable pub build_canonical_utterances :
      (ℕ → String)
      → String
      → Option String
      → String
      → List (SpeakerTranscriptSegment F)
      → Result (List (Utterance F))
  unfolding build_from
  build_canonical_utterances new_id session_id input_source job_id speaker_transcript =
      build_from new_id session_id input_source job_id 1 speaker_transcript

  abbrev pub finalized : String → ℕ → Utterance F → MeetingEvent → MeetingEvent
  finalized job_id now u event = record event {
    source_utterance_id = some u.id;
    evidence_text = or_text event.evidence_text (some u.text);
    speaker_label = or_text u.speaker_label event.speaker_label;
    input_source = or_text u.input_source event.input_source;
    insight_scope = "finalized";
    event_source = "post_processed";
    processing_job_id = some job_id;
    finalized_at_ms = some now;
  }

  unfoldable pub analyze_all :
      (Utterance F → Result (List MeetingEvent))
      → String
      → ℕ
      → List (Utterance F)
      → Result (List MeetingEvent)
  analyze_all analyze job_id now [] = ok []
  analyze_all analyze job_id now (u ∷ us) = do
    events ← analyze u
    rest ← analyze_all analyze job_id now us
    ok (map (finalized job_id now u) events ++ rest)

  unfoldable pub build_canonical_events :
      Option (Utterance F → Result (List MeetingEvent))
      → List (Utterance F)
      → String
      → ℕ
      → Result (List MeetingEvent)
  unfolding analyze_all
  build_canonical_events none utterances job_id now = ok []
  build_canonical_events (some analyze) utterances job_id now =
      analyze_all analyze job_id now utterances
