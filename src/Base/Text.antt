-- ===== src/Base/Text.antt =====
-- `str.strip()` over the code points of a text.
use Prim.Native.Nat.{ℕ}
use Prim.Native.Char.{Char, code}
use Prim.Native.String.{String}
use mathlib.Core.Path.{◌≡◌, refl}
use mathlib.Core.Bool.{Bool, true, false, not, ◌||◌, ◌&&◌}
use native.Mathlib.Omega.{arith}
use mathlib.Core.Logic.{inl, inr}
use meeting_overlay_assistan.Base.Equality.{if◌then◌else◌, Bool-cases}
use meeting_overlay_assistan.Base.Numbers.{leb}

abbrev between : ℕ → ℕ → ℕ → Bool
between lo hi c = leb lo c && leb c hi

-- `str.isspace()` of one character.
unfoldable pub is_space : ℕ → Bool
is_space c =
    between 9 13 c
    || between 28 32 c
    || between 133 133 c
    || between 160 160 c
    || between 5760 5760 c
    || between 8192 8202 c
    || between 8232 8233 c
    || between 8239 8239 c
    || between 8287 8287 c
    || between 12288 12288 c

unfoldable pub lstrip : String → String
lstrip String.[] = String.[]
lstrip (String.◌∷◌ c s) = let rest = lstrip s in if is_space (code c) then rest else String.◌∷◌ c s

-- A character stays if something stays behind it, or it is no space.
abbrev keep_end : Char → String → String
keep_end c String.[] = if is_space (code c) then String.[] else String.◌∷◌ c String.[]
keep_end c (String.◌∷◌ d s) = String.◌∷◌ c (String.◌∷◌ d s)

unfoldable pub rstrip : String → String
rstrip String.[] = String.[]
rstrip (String.◌∷◌ c s) = keep_end c (rstrip s)

unfoldable pub strip : String → String
unfolding lstrip rstrip
strip s = rstrip (lstrip s)

-- `not s`
abbrev pub is_empty : String → Bool
is_empty String.[] = true
is_empty (String.◌∷◌ c s) = false

rstrip-keep_end : (c : Char) (t : String) → rstrip t ≡ t → rstrip (keep_end c t) ≡ keep_end c t
unfolding rstrip
rstrip-keep_end c String.[] h = elim (Bool-cases (is_space (code c))) [
  | inl e ↦ rw e
  | inr e ↦ rw e (rw e)
]
rstrip-keep_end c (String.◌∷◌ d s) h = rw h

pub rstrip_idem : (s : String) → rstrip (rstrip s) ≡ rstrip s
unfolding rstrip
rstrip_idem String.[] = refl
rstrip_idem (String.◌∷◌ c s) = rstrip-keep_end c (rstrip s) (rstrip_idem s)

-- The text is empty or begins with a character that is no space.
abbrev is_flush : String → Bool
is_flush String.[] = true
is_flush (String.◌∷◌ c s) = not (is_space (code c))

lstrip-flush : (s : String) → is_flush (lstrip s) ≡ true
unfolding lstrip
lstrip-flush String.[] = refl
lstrip-flush (String.◌∷◌ c s) = ground (arith, lstrip-flush s)

lstrip_of_flush : (s : String) → is_flush s ≡ true → lstrip s ≡ s
unfolding lstrip
lstrip_of_flush String.[] h = refl
lstrip_of_flush (String.◌∷◌ c s) h = ground arith

keep_end-flush :
    (c : Char) (t : String) → not (is_space (code c)) ≡ true → is_flush (keep_end c t) ≡ true
keep_end-flush c String.[] h = ground arith
keep_end-flush c (String.◌∷◌ d s) h = h

rstrip-flush : (s : String) → is_flush s ≡ true → is_flush (rstrip s) ≡ true
unfolding rstrip
rstrip-flush String.[] h = refl
rstrip-flush (String.◌∷◌ c s) h = keep_end-flush c (rstrip s) h

-- Stripping a stripped text changes nothing.
pub strip_idem : (s : String) → strip (strip s) ≡ strip s
unfolding strip
strip_idem s =
    rw (lstrip_of_flush (rstrip (lstrip s)) (rstrip-flush (lstrip s) (lstrip-flush s)))
      (rstrip_idem (lstrip s))

strip_word : strip "  ada lovelace \t" ≡ "ada lovelace"
unfolding strip is_space
strip_word = refl
