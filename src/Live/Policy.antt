-- ===== src/Live/Policy.antt =====
-- runtime/contexts/helpers/job_policy.py and `should_publish_terminal` of
-- runtime/scheduler/helpers/job_flow.py.
use meeting_overlay_assistan.Base.{
  Bool, false, not, ◌&&◌, ◌||◌, Option, none, some, List, [], ◌∷◌, ◌++◌, if◌then◌else◌, leb,
}
use meeting_overlay_assistan.Live.Context.{
  LiveStreamContext, JobKind, preview, final, busy, has_pending_final_chunks,
  has_pending_preview_chunk, has_pending_chunks, pending_final_chunk_count,
  preview_bootstrap_pending, is_job_kind_busy,
}

module _ {A : Type 0} where
  abbrev pub should_prioritize_bootstrap_preview : LiveStreamContext A → Bool
  should_prioritize_bootstrap_preview c = preview_bootstrap_pending c && has_pending_preview_chunk c

  unfoldable pub is_job_kind_ready : LiveStreamContext A → JobKind → Bool
  is_job_kind_ready c preview =
      if c.preview_busy
      then false
      else not c.input_closed
        && (c.pipeline_supports_preview
            && (has_pending_preview_chunk c
                && (should_prioritize_bootstrap_preview c
                    || leb (pending_final_chunk_count c) c.preview_ready_max_pending_finals)))
  is_job_kind_ready c final = if c.final_busy then false else has_pending_final_chunks c

  unfoldable pub preferred_ready_kind : LiveStreamContext A → Option JobKind
  unfolding is_job_kind_ready
  preferred_ready_kind c =
      if c.input_closed && (has_pending_final_chunks c && not (is_job_kind_busy c final))
      then some final
      else if should_prioritize_bootstrap_preview c
      then some preview
      else if is_job_kind_ready c preview
      then some preview
      else if is_job_kind_ready c final
      then some final
      else none

  unfoldable pub next_job_kind : LiveStreamContext A → Option JobKind
  unfolding is_job_kind_ready
  next_job_kind c =
      if c.input_closed && (has_pending_final_chunks c && not (is_job_kind_busy c final))
      then some final
      else if is_job_kind_ready c preview
      then some preview
      else if is_job_kind_ready c final
      then some final
      else none

  unfoldable pub ready_job_kinds : LiveStreamContext A → List JobKind
  unfolding is_job_kind_ready
  ready_job_kinds c =
      (if is_job_kind_ready c preview then preview ∷ [] else [])
      ++ (if is_job_kind_ready c final then final ∷ [] else [])

  unfoldable pub resolve_job_kind : LiveStreamContext A → Option JobKind → Option JobKind
  unfolding preferred_ready_kind
  resolve_job_kind c none = if has_pending_chunks c then preferred_ready_kind c else none
  resolve_job_kind c (some kind) =
      if is_job_kind_ready c kind
      then some kind
      else if has_pending_chunks c
      then preferred_ready_kind c
      else none

  abbrev pub should_publish_terminal : LiveStreamContext A → Bool
  should_publish_terminal c = c.input_closed && (not (has_pending_chunks c) && not (busy c))
