-- ===== src/Live/Delivery.antt =====
-- The audio of a stream: every final byte that is received is taken once, in the order received.
use meeting_overlay_assistan.Base.{
  String, ◌≡◌, refl, false, List, [], ◌∷◌, ◌++◌, ◌==◌, string_eq, arith, sym, subst,
}
use meeting_overlay_assistan.Base.Outcome.{Result, ok, err}
use meeting_overlay_assistan.Live.Chunks.{Chunk, merge_chunks, coalesce_final_tail_chunk}
use meeting_overlay_assistan.Live.Context.{
  LiveStreamContext, preview, final, enqueue_final, enqueue_preview, pop_job_chunk_nowait,
}
use meeting_overlay_assistan.Live.History.{Op, receives, takes, step, run}

-- The bytes of a queue of chunks.
abbrev pub bytes : List Chunk → Chunk
bytes [] = []
bytes (c ∷ cs) = c ++ bytes cs

append_assoc : (xs ys zs : Chunk) → (xs ++ ys) ++ zs ≡ xs ++ (ys ++ zs)
append_assoc [] ys zs = refl
append_assoc (x ∷ xs) ys zs = cc (append_assoc xs ys zs)

append_nil : (xs : Chunk) → xs ++ [] ≡ xs
append_nil [] = refl
append_nil (x ∷ xs) = cc (append_nil xs)

bytes-snoc : (cs : List Chunk) (chunk : Chunk) → bytes (cs ++ chunk ∷ []) ≡ bytes cs ++ chunk
bytes-snoc [] chunk = append_nil chunk
bytes-snoc (c ∷ cs) chunk = cc (bytes-snoc cs chunk, append_assoc c (bytes cs) chunk)

bytes-coalesce :
    (k : String) (cs : List Chunk) (chunk : Chunk)
    → (k == "text") ≡ false
    → bytes (coalesce_final_tail_chunk k cs chunk).0 ≡ bytes cs ++ chunk
unfolding coalesce_final_tail_chunk merge_chunks
bytes-coalesce k [] chunk h = append_nil chunk
bytes-coalesce k (c ∷ []) chunk h = ground (arith, append_nil (c ++ chunk), append_nil c)
bytes-coalesce k (c ∷ d ∷ cs) chunk h =
    cc (bytes-coalesce k (d ∷ cs) chunk h, append_assoc c (bytes (d ∷ cs)) chunk)

module _ {A : Type 0} where
  abbrev popped : Result (Chunk × LiveStreamContext A) → Chunk
  popped (ok r) = r.0
  popped (err e) = []

  -- The bytes that an operation brings, and the final bytes that it takes to a worker.
  abbrev pub received_by : Op A → Chunk
  received_by (receives chunk) = chunk
  received_by _ = []

  abbrev pub taken_by : LiveStreamContext A → Op A → Chunk
  taken_by c (takes final) = popped (pop_job_chunk_nowait c final)
  taken_by c _ = []

  abbrev pub received : List (Op A) → Chunk
  received [] = []
  received (o ∷ os) = received_by o ++ received os

  abbrev pub taken : LiveStreamContext A → List (Op A) → Chunk
  taken c [] = []
  taken c (o ∷ os) = taken_by c o ++ taken (step c o) os

  abbrev pub waiting : LiveStreamContext A → Chunk
  waiting c = bytes c.pending_final_chunks

  waiting-enqueue_preview :
      (c : LiveStreamContext A) (chunk : Chunk)
      → (enqueue_preview c chunk).pending_final_chunks ≡ c.pending_final_chunks
  unfolding enqueue_preview
  waiting-enqueue_preview c chunk = ground arith

  waiting-enqueue_final :
      (c : LiveStreamContext A) (chunk : Chunk)
      → (c.stream_kind == "text") ≡ false
      → waiting (enqueue_final c chunk) ≡ waiting c ++ chunk
  unfolding enqueue_final
  waiting-enqueue_final c chunk h = ground (
    arith,
    bytes-coalesce c.stream_kind c.pending_final_chunks chunk h,
    bytes-snoc c.pending_final_chunks chunk,
  )

  step-waiting :
      (c : LiveStreamContext A) (o : Op A)
      → (c.stream_kind == "text") ≡ false
      → taken_by c o ++ waiting (step c o) ≡ waiting c ++ received_by o
  unfolding step
  step-waiting c (receives chunk) h =
      cc (waiting-enqueue_preview (enqueue_final c chunk) chunk, waiting-enqueue_final c chunk h)
  step-waiting c (takes preview) h = ground (arith, append_nil (waiting c))
  step-waiting c (takes final) h = ground (arith, append_nil (waiting c))
  step-waiting c o h = ground (arith, append_nil (waiting c))

  step-stream_kind : (c : LiveStreamContext A) (o : Op A) → (step c o).stream_kind ≡ c.stream_kind
  unfolding step enqueue_final enqueue_preview
  step-stream_kind c o = ground arith

  -- For a stream that is not text, whatever the calls and their order: the final bytes taken,
  -- followed by those that still wait, are those that waited at first followed by all received. So
  -- no byte is lost, repeated or moved, also where the full queue merges chunks.
  pub taken-waiting :
      (c : LiveStreamContext A) (ops : List (Op A))
      → (c.stream_kind == "text") ≡ false
      → taken c ops ++ waiting (run c ops) ≡ waiting c ++ received ops
  unfolding run
  taken-waiting c [] h = sym (append_nil (waiting c))
  taken-waiting c (o ∷ os) h =
      let next = step c o in
      cc (
        taken-waiting next os (subst (λ k. (k == "text") ≡ false) (sym (step-stream_kind c o)) h),
        step-waiting c o h,
        append_assoc (taken_by c o) (taken next os) (waiting (run next os)),
        append_assoc (taken_by c o) (waiting next) (received os),
        append_assoc (waiting c) (received_by o) (received os),
      )
