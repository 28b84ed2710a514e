-- ===== src/Server/Escapes.antt =====
-- internal/server/strfilter.go: the bytes of a child's output without what is not ASCII in the payload of
-- a control string. The state goes on from one write to the next.
pub mod Payload
use ccdash.Prelude.{ℕ, Bool, true, false, ◌||◌, List, [], ◌∷◌, leb, ◌==◌, if◌then◌else◌}

pub data FilterState : Type 0 where
  in_ground esc str str_esc : FilterState

abbrev pub b_esc : ℕ
b_esc = 0x1b

abbrev b_bel : ℕ
b_bel = 0x07

abbrev b_can : ℕ
b_can = 0x18

abbrev b_sub : ℕ
b_sub = 0x1a

-- The state after ESC and a byte.
unfoldable pub esc_next : ℕ → FilterState
esc_next b =
    if (b == b']') || (b == b'P') || (b == b'_') || (b == b'^') || (b == b'X')
    then str
    else if b == b_esc
    then esc
    else in_ground

-- One round of the loop: the next state, and whether the byte is written.
unfoldable pub filter_byte : FilterState → ℕ → FilterState × Bool
filter_byte in_ground b = (if b == b_esc then esc else in_ground, true)
filter_byte esc b = (esc_next b, true)
filter_byte str b =
    if b == b_esc
    then (str_esc, true)
    else if (b == b_bel) || (b == b_can) || (b == b_sub)
    then (in_ground, true)
    else (str, if leb 0x80 b then false else true)
filter_byte str_esc b = (if b == b'\\' then in_ground else esc_next b, true)

-- A write: the state after it, and the bytes that go on.
unfoldable pub filter : FilterState → List ℕ → FilterState × List ℕ
filter s [] = (s, [])
filter s (b ∷ p) =
    let (s', kept) = filter_byte s b in
    let (end, out) = filter s' p in (end, if kept then b ∷ out else out)
