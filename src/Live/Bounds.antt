-- ===== src/Live/Bounds.antt =====
-- What every history of a stream keeps: the bound on its final queue, and its one terminal result.
use meeting_overlay_assistan.Base.{
  ℕ, ◌+◌, ◌≤◌, String, ◌≡◌, refl, Bool, true, Option, none, List, [], ◌∷◌, ◌++◌, if◌then◌else◌,
  string_eq, arith,
}
use meeting_overlay_assistan.Base.Lists.{length, length-append}
use meeting_overlay_assistan.Live.Chunks.{Chunk, coalesce_final_tail_chunk}
use meeting_overlay_assistan.Live.Context.{
  LiveStreamContext, InferenceResult, new_context, enqueue_final, enqueue_preview, payload,
  error_result, terminal_result,
}
use meeting_overlay_assistan.Live.History.{
  Op, receives, ends, delivers, publishes, reports, step, run,
}

-- Merging into a queue that is not empty keeps its length.
length-coalesce :
    (k : String) (cs : List Chunk) (chunk : Chunk)
    → 1 ≤ length cs
    → length (coalesce_final_tail_chunk k cs chunk).0 ≡ length cs
unfolding coalesce_final_tail_chunk
length-coalesce k [] chunk h = omega (arith, h)
length-coalesce k (c ∷ []) chunk h = refl
length-coalesce k (c ∷ d ∷ cs) chunk h =
    omega (arith, length-coalesce k (d ∷ cs) chunk (ground arith))

module _ {A : Type 0} where
  -- The terminal results in a queue.
  abbrev pub terminals : List (InferenceResult A) → ℕ
  terminals [] = 0
  terminals (r ∷ rs) = (if r.terminal then 1 else 0) + terminals rs

  terminals-append :
      (rs qs : List (InferenceResult A)) → terminals (rs ++ qs) ≡ terminals rs + terminals qs
  terminals-append [] qs = omega arith
  terminals-append (r ∷ rs) qs = omega (arith, terminals-append rs qs)

  pub record IsBounded (c : LiveStreamContext A) : Type 0 where
    pub some_room : 1 ≤ c.max_pending_chunks
    pub finals_bounded : length c.pending_final_chunks ≤ c.max_pending_chunks
    pub terminal_once : terminals c.output_queue ≤ (if c.terminal_published then 1 else 0)
    pub closed_preview : c.input_closed ≡ true → c.pending_preview_chunk ≡ none

  enqueue_final-IsBounded :
      (c : LiveStreamContext A) (chunk : Chunk) → IsBounded c → IsBounded (enqueue_final c chunk)
  unfolding enqueue_final
  enqueue_final-IsBounded c chunk w = ground (
    arith,
    length-coalesce c.stream_kind c.pending_final_chunks chunk,
    length-append c.pending_final_chunks (chunk ∷ []),
  )

  enqueue_preview-IsBounded :
      (c : LiveStreamContext A) (chunk : Chunk) → IsBounded c → IsBounded (enqueue_preview c chunk)
  unfolding enqueue_preview
  enqueue_preview-IsBounded c chunk w = ground arith

  step-IsBounded : (c : LiveStreamContext A) (o : Op A) → IsBounded c → IsBounded (step c o)
  unfolding step
  step-IsBounded c (receives chunk) w =
      enqueue_preview-IsBounded (enqueue_final c chunk) chunk (enqueue_final-IsBounded c chunk w)
  step-IsBounded c (publishes us es) w =
      ground (arith, terminals-append c.output_queue (payload us es ∷ []))
  step-IsBounded c (reports m) w =
      ground (arith, terminals-append c.output_queue (error_result m ∷ []))
  step-IsBounded c ends w = ground (arith, terminals-append c.output_queue (terminal_result ∷ []))
  step-IsBounded c delivers w = ground arith
  step-IsBounded c o w = ground arith

  run-IsBounded : (c : LiveStreamContext A) (os : List (Op A)) → IsBounded c → IsBounded (run c os)
  unfolding run
  run-IsBounded c [] w = w
  run-IsBounded c (o ∷ os) w = run-IsBounded (step c o) os (step-IsBounded c o w)

  -- A new stream whose bound is at least one, after any calls in any order: at most that many final
  -- chunks are pending, at most one terminal result waits in the output, and none before one was
  -- published, and no preview chunk is pending once the input is closed.
  pub run-new_context :
      (context_id session_id : String) (source : Option String) (kind : String) (previews : Bool)
      (max_pending : ℕ) (ops : List (Op A))
      → 1 ≤ max_pending
      → IsBounded (run (new_context context_id session_id source kind previews max_pending) ops)
  unfolding new_context
  run-new_context context_id session_id source kind previews max_pending ops h =
      run-IsBounded (new_context context_id session_id source kind previews max_pending) ops
        (ground arith)
