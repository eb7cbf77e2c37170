-- ===== src/Chunker.antt =====
-- server/app/contexts/knowledge/application/retrieval/chunking/markdown_chunker.py: the windows into
-- which a section is cut. A window is a pair of positions; the text is what `len`, `rfind` and slices
-- read of it. `int(target_chars * 0.6)` is the platform's.
pub mod Windows
pub mod Sections
use Prim.Native.Nat.{max, min}
use Prim.Native.Char.{Char, code}
use meeting_overlay_assistan.Base.{
  ℕ, zero, suc, ◌+◌, ◌-◌, String, Bool, true, false, Option, none, some, List, [], ◌∷◌, ◌==◌,
  if◌then◌else◌, nat_eq, ltb, leb,
}
use meeting_overlay_assistan.Base.Text.{strip, is_empty}

pub record MarkdownChunker : Type 0 where
  pub target_chars : ℕ
  pub overlap_chars : ℕ

abbrev pub half : ℕ → ℕ
half zero = 0
half (suc zero) = 0
half (suc (suc n)) = suc (half n)

-- The constructor's limits.
unfoldable pub new_chunker : ℕ → ℕ → MarkdownChunker
new_chunker target_chars overlap_chars =
    let target = max target_chars 200 in
    record { target_chars = target; overlap_chars = min overlap_chars (half target) }

pub record ChunkDraft : Type 0 where
  pub heading : Option String
  pub text : String

-- `len(text)`
unfoldable pub text_length : String → ℕ
text_length String.[] = 0
text_length (String.◌∷◌ c s) = suc (text_length s)

abbrev pub text_take : ℕ → String → String
text_take zero s = String.[]
text_take (suc n) String.[] = String.[]
text_take (suc n) (String.◌∷◌ c s) = String.◌∷◌ c (text_take n s)

abbrev pub text_drop : ℕ → String → String
text_drop zero s = s
text_drop (suc n) String.[] = String.[]
text_drop (suc n) (String.◌∷◌ c s) = text_drop n s

-- `text[start:end]`
unfoldable pub slice : String → ℕ → ℕ → String
slice text start end = text_take (end - start) (text_drop start text)

abbrev pub later : Option ℕ → Option ℕ → Option ℕ
later none here = here
later (some n) here = some (suc n)

-- The last newline, from the start of the text.
unfoldable pub last_newline : String → Option ℕ
last_newline String.[] = none
last_newline (String.◌∷◌ c s) = later (last_newline s) (if code c == 10 then some 0 else none)

-- `text.rfind("\n", start, end)`
unfoldable pub rfind_newline : String → ℕ → ℕ → Option ℕ
unfolding last_newline slice
rfind_newline text start end = elim (last_newline (slice text start end)) [
  | none ↦ none
  | some n ↦ some (start + n)
]

module _ (six_tenths : ℕ → ℕ) (chunker : MarkdownChunker) (find : ℕ → ℕ → Option ℕ) where
  abbrev pub broken_end : ℕ → ℕ → Option ℕ → ℕ
  broken_end start end none = end
  broken_end start end (some preferred) =
      if leb (start + six_tenths chunker.target_chars) preferred then preferred else end

  -- Where the window that starts there ends.
  unfoldable pub window_end : ℕ → ℕ → ℕ
  window_end total start =
      let end = min (start + chunker.target_chars) total in
      if ltb end total then broken_end start end (find start end) else end

  -- The loop; `none` says that the fuel ran out.
  unfoldable pub windows_from : ℕ → ℕ → ℕ → Option (List (ℕ × ℕ))
  unfolding window_end
  windows_from zero total start = if ltb start total then none else some []
  windows_from (suc fuel) total start =
      let end = window_end total start in
      let rest = windows_from fuel total (max (end - chunker.overlap_chars) (start + 1)) in
      if ltb start total
      then (if leb total end
          then some ((start, end) ∷ [])
          else elim rest [ none ↦ none | some windows ↦ some ((start, end) ∷ windows) ])
      else some []

-- The drafts of the windows whose text is not blank.
unfoldable pub drafts_of : Option String → String → List (ℕ × ℕ) → List ChunkDraft
unfolding slice
drafts_of heading text [] = []
drafts_of heading text ((start, end) ∷ windows) =
    let rest = drafts_of heading text windows in
    let chunk_text = strip (slice text start end) in
    if is_empty chunk_text then rest else (record { heading = heading; text = chunk_text }) ∷ rest

unfoldable pub slice_section :
    (ℕ → ℕ) → MarkdownChunker → Option String → String → Option (List ChunkDraft)
unfolding windows_from rfind_newline drafts_of text_length
slice_section six_tenths chunker heading text =
    let total = text_length text in
    if leb total chunker.target_chars
    then some ((record { heading = heading; text = strip text }) ∷ [])
    else elim (windows_from six_tenths chunker (rfind_newline text) total total 0) [
      | none ↦ none
      | some windows ↦ some (drafts_of heading text windows)
    ]
