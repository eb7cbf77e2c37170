-- ===== src/Live/Chunks.antt =====
-- runtime/contexts/helpers/chunk_queue.py. A chunk is a list of bytes, a deque a list whose head is
-- its left end.
use Prim.Native.Nat.{ℕ}
use meeting_overlay_assistan.Base.{String, List, [], ◌∷◌, ◌++◌, ◌==◌, if◌then◌else◌, string_eq}

abbrev pub Chunk : Type 0
Chunk = List ℕ

-- `b" "`
abbrev space : Chunk
space = b' ' ∷ []

unfoldable pub merge_chunks : String → Chunk → Chunk → Chunk
merge_chunks stream_kind existing_chunk new_chunk =
    if stream_kind == "text"
    then existing_chunk ++ (space ++ new_chunk)
    else existing_chunk ++ new_chunk

-- Merges the chunk into the last one; the number is how many chunks were merged away.
unfoldable pub coalesce_final_tail_chunk : String → List Chunk → Chunk → List Chunk × ℕ
coalesce_final_tail_chunk stream_kind [] chunk = (chunk ∷ [], 0)
coalesce_final_tail_chunk stream_kind (c ∷ []) chunk = (merge_chunks stream_kind c chunk ∷ [], 1)
coalesce_final_tail_chunk stream_kind (c ∷ d ∷ rest) chunk =
    let (merged, coalesced) = coalesce_final_tail_chunk stream_kind (d ∷ rest) chunk in
    (c ∷ merged, coalesced)
