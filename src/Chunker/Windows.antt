-- ===== src/Chunker/Windows.antt =====
-- The windows: the loop ends, and they leave no part of the text out.
use Prim.Native.Nat.{max, min}
use meeting_overlay_assistan.Base.{
  ℕ, zero, suc, ◌+◌, ◌-◌, ◌≤◌, ◌<◌, false, Option, some, List, [], ◌∷◌, ltb, leb, ◌≡◌, refl, arith,
  Bool-cases, Option-cases, inl, inr,
}
use meeting_overlay_assistan.Chunker.{MarkdownChunker, window_end, windows_from}

module _ (six_tenths : ℕ → ℕ) (chunker : MarkdownChunker) (find : ℕ → ℕ → Option ℕ) where
  -- The windows have no more than the target's length, and leave nothing out between the start and
  -- the end of the text.
  abbrev pub IsCover : ℕ → ℕ → List (ℕ × ℕ) → Type 0
  IsCover total start [] = total ≤ start
  IsCover total start ((a, b) ∷ windows) =
      (a ≤ start)
      × ((a < b) × ((b ≤ a + chunker.target_chars) × ((b ≤ total) × IsCover total b windows)))

  -- What `rfind` documents: the position lies in the range.
  abbrev pub IsFind : Type 0
  IsFind = (start end n : ℕ) → find start end ≡ some n → (start ≤ n) × (n < end)

  module _ (sixths : 1 ≤ six_tenths chunker.target_chars) (target : 1 ≤ chunker.target_chars)
      (found : IsFind) where
    window_end-bounds :
        (total start : ℕ)
        → start < total
        → (start < window_end six_tenths chunker find total start)
          × ((window_end six_tenths chunker find total start ≤ start + chunker.target_chars)
              × (window_end six_tenths chunker find total start ≤ total))
    unfolding window_end
    window_end-bounds total start inside =
        let end = min (start + chunker.target_chars) total in
        elim (Option-cases (find start end)) [
          | inl nothing ↦ rw nothing (ground arith)
          | inr (n, at) ↦ let range = found start end n at in rw at (ground arith)
        ]

    -- What the loop answers from a start that does not lie behind what is covered.
    abbrev pub Covers : ℕ → ℕ → ℕ → ℕ → Type 0
    Covers fuel total start reached =
        (windows : List (ℕ × ℕ)) × ((windows_from six_tenths chunker find fuel total start
            ≡ some windows)
          × IsCover total reached windows)

    windows_from-Covers :
        (fuel total start reached : ℕ)
        → total ≤ start + fuel
        → start ≤ reached
        → Covers fuel total start reached
    unfolding windows_from
    windows_from-Covers zero total start reached enough behind =
        let over : ltb start total ≡ false = ground arith in ([], (rw over refl, omega arith))
    windows_from-Covers (suc fuel) total start reached enough behind =
        elim (Bool-cases (ltb start total)) [
          | inr over ↦ ([], (rw over refl, ground arith))
          | inl inside ↦
              let end = window_end six_tenths chunker find total start in
              let next = max (end - chunker.overlap_chars) (start + 1) in
              let (after, bounds) = window_end-bounds total start (ground arith) in
              elim (Bool-cases (leb total end)) [
                | inl last ↦ (
                  (start, end) ∷ [],
                  (rw (inside, last) refl, (behind, (after, (bounds.0, (bounds.1, ground arith))))),
                )
                | inr more ↦
                    let enough' : total ≤ next + fuel = ground arith in
                    let behind' : next ≤ end = ground arith in
                    let (windows, rest) = windows_from-Covers fuel total next end enough' behind' in
                    (
                      (start, end) ∷ windows,
                      (
                        rw (inside, more, rest.0) refl,
                        (behind, (after, (bounds.0, (bounds.1, rest.1)))),
                      ),
                    )
              ]
        ]

    -- With as many steps as the text has characters the loop ends, whatever the overlap is; its
    -- windows are not empty, no longer than the target, and leave nothing of the text out, if the
    -- least share of a break and the target are at least one and `rfind` answers within its range.
    pub windows_from-IsCover : (total : ℕ) → Covers total total 0 0
    windows_from-IsCover total = windows_from-Covers total total 0 0 (omega arith) (omega arith)
