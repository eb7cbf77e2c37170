-- ===== src/Alignment/Races.antt =====
-- A final result between the binding of a preview and its emission: the two lanes run on threads of
-- their own, and each call holds the lock for itself only (pipeline/state/runtime_lane_state.py).
use meeting_overlay_assistan.Base.{ℕ, ◌≡◌, refl, Option-cases, inl, inr}
use meeting_overlay_assistan.Alignment.{
  SegmentId, FinalBinding, StreamAlignmentManager, get_or_create_preview_binding,
  mark_preview_emitted, consume_for_final,
}

module _ (m : StreamAlignmentManager) (emitted first second start end start' end' : ℕ) where
  -- The bound segment, and what the two finals take.
  abbrev pub bound : SegmentId
  bound = (get_or_create_preview_binding m).1.1

  abbrev pub interrupted : StreamAlignmentManager × FinalBinding
  interrupted = consume_for_final (get_or_create_preview_binding m).0 first start end

  abbrev pub resumed : StreamAlignmentManager × FinalBinding
  resumed =
      consume_for_final
        (mark_preview_emitted interrupted.0 (get_or_create_preview_binding m).1.0 bound emitted)
        second start' end'

  -- Whatever the manager's state, a final that comes between the binding of a preview and its
  -- emission takes the preview's segment, and the next final takes the same segment once more.
  pub consume_for_final-twice : (interrupted.1.segment_id ≡ bound) × (resumed.1.segment_id ≡ bound)
  unfolding consume_for_final get_or_create_preview_binding mark_preview_emitted
  consume_for_final-twice = elim (Option-cases m.active_preview_segment_id) [
    | inl nothing ↦ elim (Option-cases m.active_preview_seq_num) [
      | inl unnumbered ↦ rw (nothing, unnumbered) (refl, refl)
      | inr (seq, numbered) ↦ rw (nothing, numbered) (refl, refl)
    ]
    | inr (segment, a) ↦ elim (Option-cases m.active_preview_seq_num) [
      | inl unnumbered ↦ rw (a, unnumbered) (refl, refl)
      | inr (seq, numbered) ↦ rw (a, numbered) (refl, refl)
    ]
  ]
