-- ===== src/Alignment.antt =====
-- server/app/contexts/live_capture/application/audio/pipeline/alignment/stream_alignment_manager.py:
-- which segment a final result belongs to. The text of a segment's id is a constructor: `seg-live-n`
-- or `seg-start-end`. The settings are natural numbers, since the code only tells those above 0 from
-- the others. The ratio of the counters, a float, is left out.
pub mod Calls
pub mod Finals
pub mod Segments
pub mod Races
use Prim.Native.Nat.{max}
use meeting_overlay_assistan.Base.{
  ℕ, ◌+◌, ◌-◌, Bool, true, false, not, ◌&&◌, ◌||◌, Option, none, some, Eq, ◌==◌, if◌then◌else◌,
  nat_eq, option_eq, ltb, leb,
}
use native.Mathlib.Decide.{ℕ_discrete}

pub data SegmentId : Type 0 where
  live : ℕ → SegmentId
  timed : ℕ → ℕ → SegmentId

instance unfoldable pub segment_id_eq : Eq SegmentId
unfolding ℕ_discrete
segment_id_eq = record { dec = hlevel ℕ_discrete }

pub data AlignmentStatus : Type 0 where
  matched_active_preview grace_matched_recent_preview standalone_final : AlignmentStatus

pub record StreamAlignmentManager : Type 0 where
  pub preview_backpressure_queue_delay_ms : ℕ
  pub preview_backpressure_hold_chunks : ℕ
  pub segment_grace_match_max_gap_ms : ℕ
  pub preview_seq_num : ℕ
  pub segment_counter : ℕ
  pub active_preview_seq_num : Option ℕ
  pub active_preview_segment_id : Option SegmentId
  pub recent_preview_seq_num : Option ℕ
  pub recent_preview_segment_id : Option SegmentId
  pub recent_preview_seen_at_ms : Option ℕ
  pub recent_consumed_segment_id : Option SegmentId
  pub preview_backpressure_remaining_chunks : ℕ
  pub alignment_matched_count : ℕ
  pub alignment_grace_matched_count : ℕ
  pub alignment_standalone_count : ℕ

unfoldable pub new_manager : ℕ → ℕ → ℕ → StreamAlignmentManager
new_manager queue_delay_ms hold_chunks max_gap_ms = record {
  preview_backpressure_queue_delay_ms = queue_delay_ms;
  preview_backpressure_hold_chunks = hold_chunks;
  segment_grace_match_max_gap_ms = max_gap_ms;
  preview_seq_num = 0;
  segment_counter = 0;
  active_preview_seq_num = none;
  active_preview_segment_id = none;
  recent_preview_seq_num = none;
  recent_preview_segment_id = none;
  recent_preview_seen_at_ms = none;
  recent_consumed_segment_id = none;
  preview_backpressure_remaining_chunks = 0;
  alignment_matched_count = 0;
  alignment_grace_matched_count = 0;
  alignment_standalone_count = 0;
}

unfoldable pub tick_preview_backpressure :
    StreamAlignmentManager → StreamAlignmentManager × (Bool × ℕ)
tick_preview_backpressure m =
    let rest = m.preview_backpressure_remaining_chunks - 1 in
    if m.preview_backpressure_remaining_chunks == 0
    then (m, (false, 0))
    else (record m { preview_backpressure_remaining_chunks = rest }, (true, rest))

unfoldable pub clear_preview_backpressure : StreamAlignmentManager → StreamAlignmentManager
clear_preview_backpressure m = record m { preview_backpressure_remaining_chunks = 0 }

unfoldable pub apply_final_queue_delay :
    StreamAlignmentManager → ℕ → StreamAlignmentManager × (Bool × ℕ)
apply_final_queue_delay m final_queue_delay_ms =
    let remaining = m.preview_backpressure_remaining_chunks in
    let held = max remaining m.preview_backpressure_hold_chunks in
    if m.preview_backpressure_queue_delay_ms == 0
      || (ltb final_queue_delay_ms m.preview_backpressure_queue_delay_ms
          || m.preview_backpressure_hold_chunks == 0)
    then (m, (false, remaining))
    else (record m { preview_backpressure_remaining_chunks = held }, (true, held))

abbrev pub with_seq : StreamAlignmentManager → Option ℕ → StreamAlignmentManager × ℕ
with_seq m (some seq) = (m, seq)
with_seq m none =
    let next = m.preview_seq_num + 1 in
    (record m { preview_seq_num = next; active_preview_seq_num = some next }, next)

abbrev pub with_segment :
    StreamAlignmentManager → Option SegmentId → StreamAlignmentManager × SegmentId
with_segment m (some segment) = (m, segment)
with_segment m none =
    let next = m.segment_counter + 1 in
    (record m { segment_counter = next; active_preview_segment_id = some (live next) }, live next)

unfoldable pub get_or_create_preview_binding :
    StreamAlignmentManager → StreamAlignmentManager × (ℕ × SegmentId)
get_or_create_preview_binding m =
    let (m1, seq) = with_seq m m.active_preview_seq_num in
    let (m2, segment) = with_segment m1 m1.active_preview_segment_id in (m2, (seq, segment))

unfoldable pub mark_preview_emitted :
    StreamAlignmentManager → ℕ → SegmentId → ℕ → StreamAlignmentManager
mark_preview_emitted m seq_num segment_id now_ms = record m {
  active_preview_seq_num = some seq_num;
  active_preview_segment_id = some segment_id;
  recent_preview_seq_num = some seq_num;
  recent_preview_segment_id = some segment_id;
  recent_preview_seen_at_ms = some now_ms;
}

-- What a final result is bound to.
pub record FinalBinding : Type 0 where
  pub segment_id : SegmentId
  pub seq_num : Option ℕ
  pub alignment_status : AlignmentStatus

abbrev pub seen_within : Option ℕ → ℕ → ℕ → Bool
seen_within none now_ms gap = false
seen_within (some seen) now_ms gap = leb now_ms (seen + gap)

abbrev pub is_given {ℓ} : {A : Type ℓ} → Option A → Bool
is_given none = false
is_given (some a) = true

unfoldable pub should_grace_match_recent_preview : StreamAlignmentManager → ℕ → Bool
should_grace_match_recent_preview m now_ms =
    not (m.segment_grace_match_max_gap_ms == 0)
    && (is_given m.recent_preview_segment_id
        && (is_given m.recent_preview_seq_num
            && (not (m.recent_preview_segment_id == m.recent_consumed_segment_id)
                && seen_within m.recent_preview_seen_at_ms now_ms
                    m.segment_grace_match_max_gap_ms)))

abbrev pub grace_or_standalone :
    StreamAlignmentManager → ℕ → ℕ → Bool → Option SegmentId → StreamAlignmentManager × FinalBinding
grace_or_standalone m start_ms end_ms true (some segment) = (
  record m { recent_consumed_segment_id = some segment },
  record {
    segment_id = segment;
    seq_num = m.recent_preview_seq_num;
    alignment_status = grace_matched_recent_preview;
  },
)
grace_or_standalone m start_ms end_ms _ _ = (
  m,
  record {
    segment_id = timed start_ms end_ms;
    seq_num = none;
    alignment_status = standalone_final;
  },
)

abbrev pub consume_active :
    StreamAlignmentManager → ℕ → ℕ → ℕ → Option SegmentId → StreamAlignmentManager × FinalBinding
consume_active m now_ms start_ms end_ms (some segment) = (
  record m {
    active_preview_segment_id = none;
    active_preview_seq_num = none;
    recent_consumed_segment_id = some segment;
  },
  record {
    segment_id = segment;
    seq_num = m.active_preview_seq_num;
    alignment_status = matched_active_preview;
  },
)
consume_active m now_ms start_ms end_ms none =
    grace_or_standalone m start_ms end_ms (should_grace_match_recent_preview m now_ms)
      m.recent_preview_segment_id

unfoldable pub consume_for_final :
    StreamAlignmentManager → ℕ → ℕ → ℕ → StreamAlignmentManager × FinalBinding
unfolding should_grace_match_recent_preview
consume_for_final m now_ms start_ms end_ms =
    consume_active m now_ms start_ms end_ms m.active_preview_segment_id

unfoldable pub record_alignment : StreamAlignmentManager → AlignmentStatus → StreamAlignmentManager
record_alignment m matched_active_preview = record m {
  alignment_matched_count = m.alignment_matched_count + 1;
}
record_alignment m grace_matched_recent_preview = record m {
  alignment_grace_matched_count = m.alignment_grace_matched_count + 1;
}
record_alignment m standalone_final = record m {
  alignment_standalone_count = m.alignment_standalone_count + 1;
}

unfoldable pub clear_active_preview : StreamAlignmentManager → StreamAlignmentManager
clear_active_preview m = record m {
  active_preview_seq_num = none;
  active_preview_segment_id = none;
}
