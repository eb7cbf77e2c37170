-- ===== src/PostProcessing/Sequences.antt =====
-- The numbers and the texts of the utterances that a run builds.
use meeting_overlay_assistan.Base.{
  ℕ, ◌+◌, String, Bool, true, not, ◌&&◌, ◌||◌, Option, List, [], ◌∷◌, if◌then◌else◌, string_eq,
  nat_eq,
}
use meeting_overlay_assistan.Base.Integers.{pos, lt}
use meeting_overlay_assistan.Base.Text.{strip, is_empty}
use meeting_overlay_assistan.PostProcessing.Utterances.{Utterance}
use meeting_overlay_assistan.PostProcessing.Builders.{SpeakerTranscriptSegment, utterance_of}

module _ {F : Type 0} where
  abbrev pub is_spoken : SpeakerTranscriptSegment F → Bool
  is_spoken segment = not (is_empty (strip segment.text))

  abbrev pub is_in_order : SpeakerTranscriptSegment F → Bool
  is_in_order segment = not (lt segment.start_ms (pos 0) || lt segment.end_ms segment.start_ms)

  -- Every segment with a text has a range.
  unfoldable pub are_in_order : List (SpeakerTranscriptSegment F) → Bool
  are_in_order [] = true
  are_in_order (segment ∷ rest) =
      (not (is_spoken segment) || is_in_order segment) && are_in_order rest

  module _ (new_id : ℕ → String) (session_id : String) (input_source : Option String)
      (job_id : String) where
    -- The utterances of the segments with a text, each with the place of its segment as its number.
    unfoldable pub spoken_from : ℕ → List (SpeakerTranscriptSegment F) → List (Utterance F)
    spoken_from n [] = []
    spoken_from n (segment ∷ rest) =
        let later = spoken_from (n + 1) rest in
        if is_spoken segment
        then utterance_of (new_id n) session_id input_source job_id "post_processed" n segment
          ∷ later
        else later
