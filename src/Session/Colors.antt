-- ===== src/Session/Colors.antt =====
-- internal/model/model.go: the color of a session.
use Prim.Native.Nat.{bit_xor}
use ccdash.Prelude.{
  ℕ, suc, ◌+◌, ◌*◌, ◌%◌, ◌^◌, ◌<◌, ◌≡◌, ◌≢◌, refl, sym, ap, ◌∙◌, zero, inl, inr, Bool-cases, ==_iff,
  and_first, and_second, lt→ltb, Bool, true, false, ◌&&◌, ◌||◌, not, List, [], ◌∷◌, Option, none,
  some, Text, codes, text_eq, is_empty, all, ltb, leb, ◌==◌, length, get_elem?, if◌then◌else◌,
  arith,
}

-- SessionPalette
abbrev pub session_palette : List Text
session_palette =
    codes "#ef4444"
    ∷ codes "#f97316"
    ∷ codes "#f59e0b"
    ∷ codes "#facc15"
    ∷ codes "#84cc16"
    ∷ codes "#22c55e"
    ∷ codes "#10b981"
    ∷ codes "#14b8a6"
    ∷ codes "#06b6d4"
    ∷ codes "#0ea5e9"
    ∷ codes "#3b82f6"
    ∷ codes "#6366f1"
    ∷ codes "#8b5cf6"
    ∷ codes "#a855f7"
    ∷ codes "#d946ef"
    ∷ codes "#ec4899"
    ∷ codes "#f43f5e"
    ∷ codes "#b45309"
    ∷ codes "#94a3b8"
    ∷ codes "#fca5a5"
    ∷ codes "#fde68a"
    ∷ codes "#86efac"
    ∷ codes "#93c5fd"
    ∷ codes "#c4b5fd"
    ∷ []

abbrev is_hex : ℕ → Bool
is_hex r = (leb b'0' r && leb r b'9') || (leb b'a' r && leb r b'f') || (leb b'A' r && leb r b'F')

-- ValidColor: seven bytes, which with a rune of more than one byte are not hex digits.
unfoldable pub valid_color : Text → Bool
valid_color [] = false
valid_color (c ∷ s) = (length s == 6) && (c == b'#') && all is_hex s

abbrev pub color_stride : ℕ
color_stride = 7

-- The place in the palette of a session's number, an int64 turned into a uint32.
unfoldable pub palette_index : ℕ → ℕ
palette_index num = ((num * color_stride) % 2 ^ 32) % 24

abbrev color_at : Option Text → Text
color_at none = []
color_at (some c) = c

-- FNV-1a over the bytes of an ID, which is ASCII.
unfoldable pub fnv_hash : ℕ → Text → ℕ
fnv_hash h [] = h
fnv_hash h (c ∷ s) = fnv_hash ((bit_xor h c * 16_777_619) % 2 ^ 32) s

abbrev pub fnv_offset : ℕ
fnv_offset = 2_166_136_261

abbrev hash_color : Text → Text
hash_color s = color_at (get_elem? session_palette (fnv_hash fnv_offset s % 24))

-- Session.Color
unfoldable pub color : Text → ℕ → Text → Text
unfolding palette_index fnv_hash
color override num session_id =
    if not (is_empty override)
    then override
    else if ltb 0 num
    then color_at (get_elem? session_palette (palette_index num))
    else if is_empty session_id
    then []
    else hash_color session_id

-- ProjectColorOf
unfoldable pub project_color_of : Text → Text → Text
unfolding fnv_hash
project_color_of name stored =
    if not (is_empty stored) then stored else if is_empty name then [] else hash_color name

palette_index-apart :
    (m n : ℕ) → m < n → n < m + 24 → n * color_stride < 2 ^ 32 → palette_index m ≢ palette_index n
unfolding palette_index
palette_index-apart m n less near small same = omega arith

-- The first place of a color.
index_of : Text → List Text → ℕ
index_of c [] = 0
index_of c (d ∷ ds) = let rest = index_of c ds in if text_eq c d then 0 else suc rest

all_below : (ℕ → Bool) → ℕ → Bool
all_below p zero = true
all_below p (suc n) = p n && all_below p n

all_below-lt : (p : ℕ → Bool) (n i : ℕ) → all_below p n ≡ true → i < n → p i ≡ true
unfolding all_below
all_below-lt p zero i h less = absurd (omega arith)
all_below-lt p (suc n) i h less = elim (Bool-cases (i == n)) [
  | inl last ↦ rw ((==_iff i n).0 last) (and_first (p n) (all_below p n) h)
  | inr other ↦ all_below-lt p n i (and_second (p n) (all_below p n) h) (ground arith)
]

abbrev stands : ℕ → Bool
stands i = index_of (color_at (get_elem? session_palette i)) session_palette == i

-- Every color of the palette stands once.
palette_apart : all_below stands 24 ≡ true
unfolding all_below index_of text_eq
palette_apart = refl

palette-injective :
    (i j : ℕ)
    → i < 24
    → j < 24
    → color_at (get_elem? session_palette i) ≡ color_at (get_elem? session_palette j)
    → i ≡ j
palette-injective i j small_i small_j same =
    sym ((==_iff _ i).0 (all_below-lt stands 24 i palette_apart small_i))
    ∙ ap (λ (c : Text). index_of c session_palette) same
    ∙ (==_iff _ j).0 (all_below-lt stands 24 j palette_apart small_j)

palette_index-lt : (n : ℕ) → palette_index n < 24
unfolding palette_index
palette_index-lt n = omega arith

color-palette :
    (n : ℕ) (id : Text)
    → 0 < n
    → color [] n id ≡ color_at (get_elem? session_palette (palette_index n))
unfolding color
color-palette n id some_num = rw (lt→ltb 0 n some_num) refl

-- Of two sessions with no color of their own, whose numbers differ by less than 24 and of which 7
-- times the greater one is below 2^32, no color is the same: 24 sessions in a row have 24 colors,
-- as long as the conversion to uint32 does not wrap around.
pub color_apart :
    (m n : ℕ) (a b : Text)
    → 0 < m
    → m < n
    → n < m + 24
    → n * color_stride < 2 ^ 32
    → color [] m a ≢ color [] n b
color_apart m n a b first less near small same = palette_index-apart m n less near small (
    palette-injective (palette_index m) (palette_index n) (palette_index-lt m) (palette_index-lt n)
      (sym (color-palette m a first) ∙ same ∙ color-palette n b (omega (arith, first, less))))
