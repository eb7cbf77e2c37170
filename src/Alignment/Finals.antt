-- ===== src/Alignment/Finals.antt =====
-- What a final result leaves of the alignment, where it matches a preview and where it does not.
use meeting_overlay_assistan.Base.{
  ℕ, true, none, some, List, nat_eq, option_eq, ◌≡◌, ◌≢◌, refl, sym, ◌∙◌, subst, arith, Bool-cases,
  Option-cases, inl, inr,
}
use meeting_overlay_assistan.Alignment.{
  SegmentId, live, timed, segment_id_eq, StreamAlignmentManager, consume_for_final,
  record_alignment, should_grace_match_recent_preview,
}
use meeting_overlay_assistan.Alignment.Calls.{final, step, IsUntaken, IsFree, IsAligned}

pub final-active :
    (m : StreamAlignmentManager) (taken : List ℕ) (now start end : ℕ) (segment : SegmentId)
    → IsAligned (m, taken)
    → m.active_preview_segment_id ≡ some segment
    → IsAligned (step (m, taken) (final now start end))
unfolding step consume_for_final record_alignment
final-active m taken now start end (timed s t) h a =
    absurd (subst (IsFree m.segment_counter taken) a h.active)
final-active m taken now start end (live n) h a =
    let free : IsUntaken m.segment_counter taken (live n) =
      subst (IsFree m.segment_counter taken) a h.active in
    let recent : m.recent_preview_segment_id ≡ some (live n) = elim h.paired [
      | inl nothing ↦ absurd (ground arith)
      | inr same ↦ sym same ∙ a
    ] in
    rw a (record {
      distinct = (free.1, h.distinct);
      drawn = (free.0, h.drawn);
      active = tt;
      recent = inl recent;
      paired = inl refl;
    })

should_grace-differ :
    (m : StreamAlignmentManager) (now : ℕ)
    → should_grace_match_recent_preview m now ≡ true
    → m.recent_preview_segment_id ≢ m.recent_consumed_segment_id
unfolding should_grace_match_recent_preview
should_grace-differ m now h = ground arith

final-grace :
    (m : StreamAlignmentManager) (taken : List ℕ) (now start end : ℕ) (segment : SegmentId)
    → IsAligned (m, taken)
    → m.active_preview_segment_id ≡ none
    → should_grace_match_recent_preview m now ≡ true
    → m.recent_preview_segment_id ≡ some segment
    → IsAligned (step (m, taken) (final now start end))
unfolding step consume_for_final record_alignment
final-grace m taken now start end (timed s t) h a soon r = elim h.recent [
  | inl same ↦ absurd (should_grace-differ m now soon same)
  | inr free ↦ absurd (subst (IsFree m.segment_counter taken) r free)
]
final-grace m taken now start end (live n) h a soon r = elim h.recent [
  | inl same ↦ absurd (should_grace-differ m now soon same)
  | inr unused ↦
      let free : IsUntaken m.segment_counter taken (live n) =
        subst (IsFree m.segment_counter taken) r unused in
      rw (a, soon, r)
        (record {
          distinct = (free.1, h.distinct);
          drawn = (free.0, h.drawn);
          active = tt;
          recent = inl refl;
          paired = inl refl;
        })
]

pub final-idle :
    (m : StreamAlignmentManager) (taken : List ℕ) (now start end : ℕ)
    → IsAligned (m, taken)
    → m.active_preview_segment_id ≡ none
    → IsAligned (step (m, taken) (final now start end))
unfolding step consume_for_final record_alignment
final-idle m taken now start end h a = elim (Bool-cases (should_grace_match_recent_preview m now)) [
  | inr late ↦
      rw (a, late)
        (record {
          distinct = h.distinct;
          drawn = h.drawn;
          active = tt;
          recent = h.recent;
          paired = inl refl;
        })
  | inl soon ↦ elim (Option-cases m.recent_preview_segment_id) [
    | inl nothing ↦
        rw (a, soon, nothing)
          (record {
            distinct = h.distinct;
            drawn = h.drawn;
            active = tt;
            recent = inr tt;
            paired = inl refl;
          })
    | inr (segment, r) ↦ final-grace m taken now start end segment h a soon r
  ]
]
