-- ===== src/Alignment/Calls.antt =====
-- The calls of the pipeline on the alignment manager, and what holds between them; a preview is
-- emitted in one step with its binding.
use meeting_overlay_assistan.Base.{
  ℕ, ◌+◌, ◌≤◌, ◌<◌, false, Option, none, some, List, [], ◌∷◌, nat_eq, option_eq, contains, ◌≡◌,
  refl, arith, ◌⊎◌,
}
use meeting_overlay_assistan.Base.Lists.{All}
use meeting_overlay_assistan.Base.Distinct.{IsDistinct}
use meeting_overlay_assistan.Alignment.{
  SegmentId, live, timed, segment_id_eq, StreamAlignmentManager, tick_preview_backpressure,
  clear_preview_backpressure, apply_final_queue_delay, get_or_create_preview_binding,
  mark_preview_emitted, consume_for_final, record_alignment, clear_active_preview, FinalBinding,
}

-- One call of the pipeline; a preview's binding is emitted at once.
pub data Call : Type 0 where
  preview : ℕ → Call
  final : ℕ → ℕ → ℕ → Call
  clear : Call
  tick : Call
  release : Call
  delay : ℕ → Call

-- The numbers of the live segments that finals took, the latest first.
abbrev pub taken_live : FinalBinding → List ℕ → List ℕ
taken_live b taken = elim b.segment_id [ live n ↦ n ∷ taken | timed s t ↦ taken ]

unfoldable pub step : StreamAlignmentManager × List ℕ → Call → StreamAlignmentManager × List ℕ
unfolding get_or_create_preview_binding mark_preview_emitted consume_for_final record_alignment
    clear_active_preview tick_preview_backpressure clear_preview_backpressure
    apply_final_queue_delay
step (m, taken) (preview now) =
    let (m', binding) = get_or_create_preview_binding m in
    (mark_preview_emitted m' binding.0 binding.1 now, taken)
step (m, taken) (final now start end) =
    let (m', binding) = consume_for_final m now start end in
    (record_alignment m' binding.alignment_status, taken_live binding taken)
step (m, taken) clear = (clear_active_preview m, taken)
step (m, taken) tick = ((tick_preview_backpressure m).0, taken)
step (m, taken) release = (clear_preview_backpressure m, taken)
step (m, taken) (delay ms) = ((apply_final_queue_delay m ms).0, taken)

unfoldable pub run : StreamAlignmentManager × List ℕ → List Call → StreamAlignmentManager × List ℕ
unfolding step
run state [] = state
run state (call ∷ calls) = run (step state call) calls

-- A segment that a final may still take: a live one that was drawn and that no final took.
abbrev pub IsUntaken : ℕ → List ℕ → SegmentId → Type 0
IsUntaken counter taken (live n) = (n ≤ counter) × (contains taken n ≡ false)
IsUntaken counter taken (timed s t) = ⊥

abbrev pub IsFree : ℕ → List ℕ → Option SegmentId → Type 0
IsFree counter taken none = Unit
IsFree counter taken (some segment) = IsUntaken counter taken segment

pub record IsAligned (state : StreamAlignmentManager × List ℕ) : Type 0 where
  pub distinct : IsDistinct state.1
  pub drawn : All (λ (n : ℕ). n ≤ state.0.segment_counter) state.1
  pub active : IsFree state.0.segment_counter state.1 state.0.active_preview_segment_id
  pub recent :
      (state.0.recent_preview_segment_id ≡ state.0.recent_consumed_segment_id)
      ⊎ IsFree state.0.segment_counter state.1 state.0.recent_preview_segment_id
  pub paired :
      (state.0.active_preview_segment_id ≡ none)
      ⊎ (state.0.active_preview_segment_id ≡ state.0.recent_preview_segment_id)

abbrev pub AreDrawn : ℕ → List ℕ → Type 0
AreDrawn counter = All (λ (n : ℕ). n ≤ counter)

pub AreDrawn-suc : (counter : ℕ) (ns : List ℕ) → AreDrawn counter ns → AreDrawn (counter + 1) ns
AreDrawn-suc counter [] h = tt
AreDrawn-suc counter (n ∷ ns) h = (ground (arith, h.0), AreDrawn-suc counter ns h.1)

pub fresh-contains :
    (counter n : ℕ) (ns : List ℕ) → AreDrawn counter ns → counter < n → contains ns n ≡ false
fresh-contains counter n [] h above = refl
fresh-contains counter n (k ∷ ns) h above = ground (arith, h.0, fresh-contains counter n ns h.1)
