-- ===== src/Tests/Pipeline.antt =====
-- Segments of finals and windows of sections at concrete inputs.
use meeting_overlay_assistan.Base.{ℕ, ◌≤◌, ◌<◌, none, List, [], ◌∷◌, ◌≡◌, arith, string_eq, nat_eq}
use meeting_overlay_assistan.Base.Distinct.{IsDistinct}
use meeting_overlay_assistan.Alignment.{StreamAlignmentManager, new_manager}
use meeting_overlay_assistan.Alignment.Calls.{Call, preview, final, clear, run}
use meeting_overlay_assistan.Alignment.Segments.{run-IsDistinct}
use meeting_overlay_assistan.Alignment.Races.{bound, interrupted, resumed, consume_for_final-twice}
use meeting_overlay_assistan.Chunker.{MarkdownChunker, text_length}
use meeting_overlay_assistan.Chunker.Sections.{IsCut, slice_section-IsCover}

abbrev calls : List Call
calls = preview 1 ∷ final 2 0 2 ∷ final 3 2 3 ∷ preview 4 ∷ clear ∷ final 5 3 5 ∷ []

run-IsDistinct_example : IsDistinct (run (new_manager 0 0 100, []) calls).1
run-IsDistinct_example = run-IsDistinct 0 0 100 calls

abbrev manager : StreamAlignmentManager
manager = new_manager 0 0 100

consume_for_final-twice_example :
    ((interrupted manager 3 2 4 0 2 2 4).1.segment_id ≡ bound manager 3 2 4 0 2 2 4)
    × ((resumed manager 3 2 4 0 2 2 4).1.segment_id ≡ bound manager 3 2 4 0 2 2 4)
consume_for_final-twice_example = consume_for_final-twice manager 3 2 4 0 2 2 4

abbrev small : MarkdownChunker
small = record { target_chars = 4; overlap_chars = 1 }

abbrev two : ℕ → ℕ
two n = 2

two-positive : ◌≤◌ 1 (two 4)
two-positive = omega arith

four-positive : ◌≤◌ 1 4
four-positive = omega arith

long : 4 < text_length "one two"
unfolding text_length
long = omega arith

slice_section-IsCover_example : IsCut two small none "one two"
slice_section-IsCover_example =
    slice_section-IsCover two small none "one two" two-positive four-positive long
