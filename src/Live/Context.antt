-- ===== src/Live/Context.antt =====
-- runtime/contexts/live_stream_context.py with its helpers state_queries.py and
-- state_transitions.py, and scheduler/inference_result.py. What the pipeline answers to
-- `supports_preview` is a field; the items of a result are of any type.
use meeting_overlay_assistan.Base.{
  ℕ, ◌+◌, String, Bool, true, false, not, ◌&&◌, ◌||◌, Option, none, some, List, [], ◌∷◌, ◌++◌,
  if◌then◌else◌, string_eq, leb, Eq,
}
use meeting_overlay_assistan.Base.Lists.{length}
use meeting_overlay_assistan.Base.Outcome.{Result, ok, err, index_error}
use meeting_overlay_assistan.Live.Chunks.{Chunk, merge_chunks, coalesce_final_tail_chunk}

-- The kinds "preview" and "final"; no caller passes another text.
pub data JobKind : Type 0 where
  preview final : JobKind

instance unfoldable pub job_kind_eq : Eq JobKind
job_kind_eq = record { dec = hlevel }

pub data Priority : Type 0 where
  high normal : Priority

pub record InferenceResult (A : Type 0) : Type 0 where
  pub utterances : List A
  pub events : List A
  pub error_message : Option String
  pub terminal : Bool

pub record LiveStreamContext (A : Type 0) : Type 0 where
  pub context_id : String
  pub session_id : String
  pub input_source : Option String
  pub stream_kind : String
  pub pipeline_supports_preview : Bool
  pub max_pending_chunks : ℕ
  pub preview_ready_max_pending_finals : ℕ
  pub pending_final_chunks : List Chunk
  pub pending_preview_chunk : Option Chunk
  pub output_queue : List (InferenceResult A)
  pub preview_busy : Bool
  pub final_busy : Bool
  pub input_closed : Bool
  pub terminal_published : Bool
  pub coalesced_chunk_count : ℕ
  pub first_preview_emitted : Bool
  pub next_preview_cycle_id : ℕ
  pub queued_preview_cycle_id : Option ℕ
  pub active_preview_cycle_id : Option ℕ

-- `x is not None`, `bool(xs)`
abbrev pub is_some {ℓ} : {X : Type ℓ} → Option X → Bool
is_some none = false
is_some (some x) = true

abbrev pub is_filled {ℓ} : {X : Type ℓ} → List X → Bool
is_filled [] = false
is_filled (x ∷ xs) = true

module _ {A : Type 0} where
  abbrev pub payload : List A → List A → InferenceResult A
  payload utterances events = record {
    utterances = utterances;
    events = events;
    error_message = none;
    terminal = false;
  }

  abbrev pub error_result : String → InferenceResult A
  error_result message = record {
    utterances = [];
    events = [];
    error_message = some message;
    terminal = false;
  }

  abbrev pub terminal_result : InferenceResult A
  terminal_result = record { utterances = []; events = []; error_message = none; terminal = true }

  -- `LiveStreamContext(…)`
  unfoldable pub new_context :
      String → String → Option String → String → Bool → ℕ → LiveStreamContext A
  new_context context_id session_id input_source stream_kind supports_preview max_pending_chunks =
      record {
        context_id = context_id;
        session_id = session_id;
        input_source = input_source;
        stream_kind = stream_kind;
        pipeline_supports_preview = supports_preview;
        max_pending_chunks = max_pending_chunks;
        preview_ready_max_pending_finals = 2;
        pending_final_chunks = [];
        pending_preview_chunk = none;
        output_queue = [];
        preview_busy = false;
        final_busy = false;
        input_closed = false;
        terminal_published = false;
        coalesced_chunk_count = 0;
        first_preview_emitted = false;
        next_preview_cycle_id = 1;
        queued_preview_cycle_id = none;
        active_preview_cycle_id = none;
      }

  abbrev pub busy : LiveStreamContext A → Bool
  busy c = c.preview_busy || c.final_busy

  abbrev pub has_pending_final_chunks : LiveStreamContext A → Bool
  has_pending_final_chunks c = is_filled c.pending_final_chunks

  abbrev pub has_pending_preview_chunk : LiveStreamContext A → Bool
  has_pending_preview_chunk c = is_some c.pending_preview_chunk

  abbrev pub pending_final_chunk_count : LiveStreamContext A → ℕ
  pending_final_chunk_count c = length c.pending_final_chunks

  abbrev pub pending_chunk_count : LiveStreamContext A → ℕ
  pending_chunk_count c =
      length c.pending_final_chunks + (if is_some c.pending_preview_chunk then 1 else 0)

  abbrev pub has_pending_chunks : LiveStreamContext A → Bool
  has_pending_chunks c = has_pending_final_chunks c || has_pending_preview_chunk c

  abbrev pub priority : LiveStreamContext A → Priority
  priority c = if c.input_closed && has_pending_final_chunks c then high else normal

  abbrev pub preview_bootstrap_pending : LiveStreamContext A → Bool
  preview_bootstrap_pending c =
      c.pipeline_supports_preview && (not c.input_closed && not c.first_preview_emitted)

  abbrev pub is_job_kind_busy : LiveStreamContext A → JobKind → Bool
  is_job_kind_busy c preview = c.preview_busy
  is_job_kind_busy c final = c.final_busy

  -- The first half of `enqueue_chunk`: the final queue, bounded by merging at its end.
  unfoldable pub enqueue_final : LiveStreamContext A → Chunk → LiveStreamContext A
  enqueue_final c chunk =
      let (chunks, coalesced) =
        coalesce_final_tail_chunk c.stream_kind c.pending_final_chunks chunk in
      if leb c.max_pending_chunks (length c.pending_final_chunks)
      then record c {
        pending_final_chunks = chunks;
        coalesced_chunk_count = c.coalesced_chunk_count + coalesced;
      }
      else record c { pending_final_chunks = c.pending_final_chunks ++ chunk ∷ [] }

  -- The second half: the one preview chunk.
  unfoldable pub enqueue_preview : LiveStreamContext A → Chunk → LiveStreamContext A
  enqueue_preview c chunk =
      if c.input_closed || not c.pipeline_supports_preview
      then c
      else elim c.pending_preview_chunk [
        | none ↦ record c { pending_preview_chunk = some chunk }
        | some waiting ↦ record c {
          pending_preview_chunk = some (merge_chunks c.stream_kind waiting chunk);
          coalesced_chunk_count = c.coalesced_chunk_count + 1;
        }
      ]

  unfoldable pub enqueue_chunk : LiveStreamContext A → Chunk → LiveStreamContext A
  unfolding enqueue_final enqueue_preview
  enqueue_chunk c chunk = enqueue_preview (enqueue_final c chunk) chunk

  unfoldable pub pop_job_chunk_nowait :
      LiveStreamContext A → JobKind → Result (Chunk × LiveStreamContext A)
  pop_job_chunk_nowait c preview = elim c.pending_preview_chunk [
    | none ↦ err index_error
    | some chunk ↦ ok (
      chunk,
      record c {
        pending_preview_chunk = none;
        active_preview_cycle_id = c.queued_preview_cycle_id;
        queued_preview_cycle_id = none;
      },
    )
  ]
  pop_job_chunk_nowait c final = elim c.pending_final_chunks [
    | [] ↦ err index_error
    | chunk ∷ rest ↦ ok (chunk, record c { pending_final_chunks = rest })
  ]

  unfoldable pub mark_busy : LiveStreamContext A → JobKind → LiveStreamContext A
  mark_busy c preview = record c { preview_busy = true }
  mark_busy c final = record c { final_busy = true }

  unfoldable pub mark_idle : LiveStreamContext A → JobKind → LiveStreamContext A
  mark_idle c preview = record c { preview_busy = false; active_preview_cycle_id = none }
  mark_idle c final = record c { final_busy = false }

  unfoldable pub mark_input_closed : LiveStreamContext A → LiveStreamContext A
  mark_input_closed c = record c { input_closed = true; pending_preview_chunk = none }

  unfoldable pub mark_preview_emitted : LiveStreamContext A → LiveStreamContext A
  mark_preview_emitted c = record c { first_preview_emitted = true }

  unfoldable pub publish_result : LiveStreamContext A → InferenceResult A → LiveStreamContext A
  publish_result c result = record c { output_queue = c.output_queue ++ result ∷ [] }

  unfoldable pub publish_terminal_once : LiveStreamContext A → LiveStreamContext A
  publish_terminal_once c = if c.terminal_published then c else record c {
    terminal_published = true;
    output_queue = c.output_queue ++ terminal_result ∷ [];
  }

  -- `next_result`; `none` while there is nothing to receive.
  unfoldable pub next_result :
      LiveStreamContext A → Option (InferenceResult A × LiveStreamContext A)
  next_result c = elim c.output_queue [
    | [] ↦ none
    | result ∷ rest ↦ some (result, record c { output_queue = rest })
  ]

  -- The id of the cycle, whether it is new, and the context.
  unfoldable pub ensure_preview_cycle_id :
      LiveStreamContext A → Option ℕ × Bool × LiveStreamContext A
  ensure_preview_cycle_id c =
      if not (has_pending_preview_chunk c)
      then (none, false, c)
      else if is_some c.queued_preview_cycle_id
      then (c.queued_preview_cycle_id, false, c)
      else (
        some c.next_preview_cycle_id,
        true,
        record c {
          next_preview_cycle_id = c.next_preview_cycle_id + 1;
          queued_preview_cycle_id = some c.next_preview_cycle_id;
        },
      )
