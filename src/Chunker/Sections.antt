-- ===== src/Chunker/Sections.antt =====
-- A section's drafts come from windows that cover it.
use meeting_overlay_assistan.Base.{
  ℕ, zero, suc, ◌-◌, ◌≤◌, ◌<◌, String, false, Option, some, List, nat_eq, leb, ◌≡◌, refl, arith,
  Option-cases, inl, inr,
}
use meeting_overlay_assistan.Chunker.{
  MarkdownChunker, text_length, text_take, text_drop, slice, last_newline, rfind_newline, drafts_of,
  slice_section,
}
use meeting_overlay_assistan.Chunker.Windows.{IsCover, IsFind, windows_from-IsCover}

text_length-text_take : (n : ℕ) (s : String) → text_length (text_take n s) ≤ n
unfolding text_length
text_length-text_take zero s = omega arith
text_length-text_take (suc n) String.[] = omega arith
text_length-text_take (suc n) (String.◌∷◌ c s) = omega (arith, text_length-text_take n s)

last_newline-within : (s : String) (n : ℕ) → last_newline s ≡ some n → n < text_length s
unfolding last_newline text_length
last_newline-within String.[] n h = absurd (ground arith)
last_newline-within (String.◌∷◌ c s) n h = elim (Option-cases (last_newline s)) [
  | inl nothing ↦ ground arith
  | inr (k, at) ↦ let within = last_newline-within s k at in ground arith
]

rfind_newline-IsFind :
    (six_tenths : ℕ → ℕ) (chunker : MarkdownChunker) (text : String)
    → IsFind six_tenths chunker (rfind_newline text)
unfolding rfind_newline slice
rfind_newline-IsFind six_tenths chunker text start end n h =
    elim (Option-cases (last_newline (slice text start end))) [
      | inl nothing ↦ absurd (ground arith)
      | inr (k, at) ↦
          let within = last_newline-within (slice text start end) k at in
          let short = text_length-text_take (end - start) (text_drop start text) in ground arith
    ]

-- The section is cut into the drafts of windows that cover it.
abbrev pub IsCut : (ℕ → ℕ) → MarkdownChunker → Option String → String → Type 0
IsCut six_tenths chunker heading text =
    (windows : List (ℕ × ℕ)) × ((slice_section six_tenths chunker heading text
        ≡ some (drafts_of heading text windows))
      × IsCover six_tenths chunker (rfind_newline text) (text_length text) 0 windows)

-- Cutting a section that is longer than the target ends, whatever the overlap is: its drafts are
-- those of windows that are not empty, no longer than the target, and leave nothing of the text out,
-- if the target and the least share of a break are at least one.
pub slice_section-IsCover :
    (six_tenths : ℕ → ℕ) (chunker : MarkdownChunker) (heading : Option String) (text : String)
    → 1 ≤ six_tenths chunker.target_chars
    → 1 ≤ chunker.target_chars
    → chunker.target_chars < text_length text
    → IsCut six_tenths chunker heading text
unfolding slice_section
slice_section-IsCover six_tenths chunker heading text sixths target long =
    let find = rfind_newline text in
    let (windows, cover) =
      windows_from-IsCover six_tenths chunker find sixths target
        (rfind_newline-IsFind six_tenths chunker text) (text_length text) in
    let longer : leb (text_length text) chunker.target_chars ≡ false = ground arith in
    (windows, (rw (longer, cover.0) refl, cover.1))
