-- ===== src/Alignment/Segments.antt =====
-- The segments that final results take, where a preview is emitted in one step with its binding.
use meeting_overlay_assistan.Base.{
  ℕ, ◌+◌, ◌||◌, List, [], ◌∷◌, ◌==◌, nat_eq, option_eq, ltb, refl, subst, arith, Bool-cases,
  Option-cases, inl, inr,
}
use meeting_overlay_assistan.Base.Distinct.{IsDistinct}
use meeting_overlay_assistan.Alignment.{
  live, segment_id_eq, StreamAlignmentManager, new_manager, tick_preview_backpressure,
  clear_preview_backpressure, apply_final_queue_delay, get_or_create_preview_binding,
  mark_preview_emitted, clear_active_preview,
}
use meeting_overlay_assistan.Alignment.Calls.{
  Call, preview, final, clear, tick, release, delay, step, run, IsUntaken, IsFree, IsAligned,
  AreDrawn-suc, fresh-contains,
}
use meeting_overlay_assistan.Alignment.Finals.{final-active, final-idle}

preview-IsAligned :
    (m : StreamAlignmentManager) (taken : List ℕ) (now : ℕ)
    → IsAligned (m, taken)
    → IsAligned (step (m, taken) (preview now))
unfolding step get_or_create_preview_binding mark_preview_emitted
preview-IsAligned m taken now h = elim (Option-cases m.active_preview_segment_id) [
  | inl nothing ↦
      let next = m.segment_counter + 1 in
      let fresh : IsUntaken next taken (live next) =
        (omega arith, fresh-contains m.segment_counter next taken h.drawn (omega arith)) in
      elim (Option-cases m.active_preview_seq_num) [
        | inl unnumbered ↦
            rw (nothing, unnumbered)
              (record {
                distinct = h.distinct;
                drawn = AreDrawn-suc m.segment_counter taken h.drawn;
                active = fresh;
                recent = inr fresh;
                paired = inr refl;
              })
        | inr (seq, numbered) ↦
            rw (nothing, numbered)
              (record {
                distinct = h.distinct;
                drawn = AreDrawn-suc m.segment_counter taken h.drawn;
                active = fresh;
                recent = inr fresh;
                paired = inr refl;
              })
      ]
  | inr (segment, a) ↦
      let free : IsUntaken m.segment_counter taken segment =
        subst (IsFree m.segment_counter taken) a h.active in
      elim (Option-cases m.active_preview_seq_num) [
        | inl unnumbered ↦
            rw (a, unnumbered)
              (record {
                distinct = h.distinct;
                drawn = h.drawn;
                active = free;
                recent = inr free;
                paired = inr refl;
              })
        | inr (seq, numbered) ↦
            rw (a, numbered)
              (record {
                distinct = h.distinct;
                drawn = h.drawn;
                active = free;
                recent = inr free;
                paired = inr refl;
              })
      ]
]

tick-IsAligned :
    (m : StreamAlignmentManager) (taken : List ℕ)
    → IsAligned (m, taken)
    → IsAligned (step (m, taken) tick)
unfolding step tick_preview_backpressure
tick-IsAligned m taken h = elim (Bool-cases (m.preview_backpressure_remaining_chunks == 0)) [
  | inl over ↦ rw over h
  | inr held ↦ rw held (record {
    distinct = h.distinct;
    drawn = h.drawn;
    active = h.active;
    recent = h.recent;
    paired = h.paired;
  })
]

delay-IsAligned :
    (m : StreamAlignmentManager) (taken : List ℕ) (ms : ℕ)
    → IsAligned (m, taken)
    → IsAligned (step (m, taken) (delay ms))
unfolding step apply_final_queue_delay
delay-IsAligned m taken ms h =
    elim (Bool-cases (
      m.preview_backpressure_queue_delay_ms == 0
      || (ltb ms m.preview_backpressure_queue_delay_ms
          || m.preview_backpressure_hold_chunks == 0))) [
            | inl quiet ↦ rw quiet h
            | inr late ↦ rw late (record {
              distinct = h.distinct;
              drawn = h.drawn;
              active = h.active;
              recent = h.recent;
              paired = h.paired;
            })
          ]

step-IsAligned :
    (m : StreamAlignmentManager) (taken : List ℕ) (call : Call)
    → IsAligned (m, taken)
    → IsAligned (step (m, taken) call)
unfolding step clear_active_preview clear_preview_backpressure
step-IsAligned m taken (preview now) h = preview-IsAligned m taken now h
step-IsAligned m taken (final now start end) h = elim (Option-cases m.active_preview_segment_id) [
  | inl nothing ↦ final-idle m taken now start end h nothing
  | inr (segment, a) ↦ final-active m taken now start end segment h a
]
step-IsAligned m taken clear h = record {
  distinct = h.distinct;
  drawn = h.drawn;
  active = tt;
  recent = h.recent;
  paired = inl refl;
}
step-IsAligned m taken tick h = tick-IsAligned m taken h
step-IsAligned m taken release h = record {
  distinct = h.distinct;
  drawn = h.drawn;
  active = h.active;
  recent = h.recent;
  paired = h.paired;
}
step-IsAligned m taken (delay ms) h = delay-IsAligned m taken ms h

run-IsAligned :
    (state : StreamAlignmentManager × List ℕ) (calls : List Call)
    → IsAligned state
    → IsAligned (run state calls)
unfolding run
run-IsAligned state [] h = h
run-IsAligned (m, taken) (call ∷ calls) h =
    run-IsAligned (step (m, taken) call) calls (step-IsAligned m taken call h)

-- From a new manager, whatever the calls and their order, no two final results take the same live
-- segment, where each preview is emitted in one step with its binding.
pub run-IsDistinct :
    (queue_delay_ms hold_chunks max_gap_ms : ℕ) (calls : List Call)
    → IsDistinct (run (new_manager queue_delay_ms hold_chunks max_gap_ms, []) calls).1
unfolding new_manager
run-IsDistinct queue_delay_ms hold_chunks max_gap_ms calls =
    let fresh : IsAligned (new_manager queue_delay_ms hold_chunks max_gap_ms, []) = record {
      distinct = tt;
      drawn = tt;
      active = tt;
      recent = inl refl;
      paired = inl refl;
    } in
    (run-IsAligned (new_manager queue_delay_ms hold_chunks max_gap_ms, []) calls fresh).distinct
