-- ===== src/Server/Escapes/Payload.antt =====
-- What the filter lets through.
use ccdash.Prelude.{
  ℕ, ◌≤◌, ◌<◌, ◌≡◌, refl, ap, All, ◌++◌, inl, inr, Bool, true, false, ◌&&◌, ◌||◌, not, List, [],
  ◌∷◌, arith, leb, ◌==◌, if◌then◌else◌, Bool-cases,
}
use ccdash.Server.Escapes.{FilterState, in_ground, esc, str, str_esc, esc_next, filter_byte, filter}

-- A write that is cut in two at any place is filtered as the whole is.
pub filter-append :
    (s : FilterState) (p q : List ℕ)
    → filter s (p ++ q)
      ≡ ((filter (filter s p).0 q).0, (filter s p).1 ++ (filter (filter s p).0 q).1)
unfolding filter
filter-append s [] q = refl
filter-append s (b ∷ p) q = elim (Bool-cases (filter_byte s b).1) [
  | inl kept ↦ rw (filter-append (filter_byte s b).0 p q, kept)
  | inr dropped ↦ rw (filter-append (filter_byte s b).0 p q, dropped)
]

-- A dropped byte is not ASCII, stands in a payload and leaves the state as it is.
filter_byte_dropped :
    (s : FilterState) (b : ℕ)
    → (filter_byte s b).1 ≡ false
    → (s ≡ str) × ((filter_byte s b).0 ≡ s) × (128 ≤ b)
unfolding filter_byte
filter_byte_dropped in_ground b h = cc
filter_byte_dropped esc b h = cc
filter_byte_dropped str b h = ground arith
filter_byte_dropped str_esc b h = cc

-- To filter the output again, from the same state, changes nothing and ends in the same state.
pub filter_idem : (s : FilterState) (p : List ℕ) → filter s (filter s p).1 ≡ filter s p
unfolding filter
filter_idem s [] = refl
filter_idem s (b ∷ p) = elim (Bool-cases (filter_byte s b).1) [
  | inl kept ↦ rw (kept, filter, kept, filter_idem (filter_byte s b).0 p)
  | inr dropped ↦
      let (_, same, _) = filter_byte_dropped s b dropped in rw (dropped, same) (filter_idem s p)
]

-- Bytes below 0x80 are let through as they are, from any state.
pub filter_ascii : (s : FilterState) (p : List ℕ) → All (λ b. b < 128) p → (filter s p).1 ≡ p
unfolding filter
filter_ascii s [] h = refl
filter_ascii s (b ∷ p) h = elim (Bool-cases (filter_byte s b).1) [
  | inl kept ↦ rw kept (ap (λ r. b ∷ r) (filter_ascii (filter_byte s b).0 p h.1))
  | inr dropped ↦ let (_, _, high) = filter_byte_dropped s b dropped in absurd (omega (arith, h.0))
]

-- ECMA-48: ESC and one of these bytes begin an operating system command (]), a device control string
-- (P), an application program command (_), a privacy message (^) or a start of string (X).
abbrev is_introducer : ℕ → Bool
is_introducer b = (b == 93) || (b == 80) || (b == 95) || (b == 94) || (b == 88)

-- BEL, CAN, SUB and ESC end the payload of a control string.
abbrev is_ender : ℕ → Bool
is_ender b = (b == 7) || (b == 24) || (b == 26) || (b == 27)

-- Whether the next byte stands in the payload of a control string, read off the bytes before it, the
-- last one first: an introducer is found before anything that ends a payload.
unfoldable pub in_payload : List ℕ → Bool
in_payload [] = false
in_payload (b ∷ []) = false
in_payload (b ∷ c ∷ past) =
    let rest = in_payload (c ∷ past) in
    if (c == 27) && is_introducer b then true else not (is_ender b) && rest

-- The text without the bytes of 0x80 or more that stand in a payload.
unfoldable pub ascii_payloads : List ℕ → List ℕ → List ℕ
unfolding in_payload
ascii_payloads past [] = []
ascii_payloads past (b ∷ p) =
    let rest = ascii_payloads (b ∷ past) p in
    if leb 0x80 b && in_payload past then rest else b ∷ rest

abbrev ends_esc : List ℕ → Bool
ends_esc [] = false
ends_esc (b ∷ past) = b == 27

abbrev is_payload : FilterState → Bool
is_payload str = true
is_payload _ = false

abbrev is_pending : FilterState → Bool
is_pending in_ground = false
is_pending esc = true
is_pending str = false
is_pending str_esc = true

-- The state says of the bytes before whether they end in a payload, and whether in an ESC.
abbrev Follows : FilterState → List ℕ → Type 0
Follows s past = (in_payload past ≡ is_payload s) × (ends_esc past ≡ is_pending s)

esc_next-Follows :
    (b c : ℕ) (past : List ℕ)
    → (c == 27) ≡ true
    → in_payload (c ∷ past) ≡ false
    → Follows (esc_next b) (b ∷ c ∷ past)
unfolding esc_next in_payload
esc_next-Follows b c past e h = rw (e, h) (ground arith, ground arith)

filter_byte-Follows :
    (s : FilterState) (b : ℕ) (past : List ℕ)
    → Follows s past
    → Follows (filter_byte s b).0 (b ∷ past)
unfolding filter_byte in_payload
filter_byte-Follows in_ground b [] h = (ground arith, ground arith)
filter_byte-Follows in_ground b (c ∷ past) h = rw (h.1, h.0) (ground arith, ground arith)
filter_byte-Follows esc b [] h = cc
filter_byte-Follows esc b (c ∷ past) h = esc_next-Follows b c past h.1 h.0
filter_byte-Follows str b [] h = cc
filter_byte-Follows str b (c ∷ past) h = rw (h.1, h.0) (ground arith, ground arith)
filter_byte-Follows str_esc b [] h = cc
filter_byte-Follows str_esc b (c ∷ past) h = elim (Bool-cases (b == 92)) [
  | inl ends ↦ rw (ends, h.1, h.0) (ground (arith, ends), ground (arith, ends))
  | inr more ↦ rw more (esc_next-Follows b c past h.1 h.0)
]

filter_byte_kept :
    (s : FilterState) (b : ℕ) (past : List ℕ)
    → Follows s past
    → (leb 0x80 b && in_payload past) ≡ not (filter_byte s b).1
unfolding filter_byte
filter_byte_kept in_ground b past h = rw h.0 (ground arith)
filter_byte_kept esc b past h = rw h.0 (ground arith)
filter_byte_kept str b past h = rw h.0 (ground arith)
filter_byte_kept str_esc b past h = rw h.0 (ground arith)

filter-Follows :
    (s : FilterState) (past p : List ℕ) → Follows s past → (filter s p).1 ≡ ascii_payloads past p
unfolding filter ascii_payloads
filter-Follows s past [] h = refl
filter-Follows s past (b ∷ p) h =
    let rest = filter-Follows (filter_byte s b).0 (b ∷ past) p (filter_byte-Follows s b past h) in
    elim (Bool-cases (filter_byte s b).1) [
      | inl kept ↦ rw (kept, filter_byte_kept s b past h, kept) (ap (λ r. b ∷ r) rest)
      | inr dropped ↦ rw (dropped, filter_byte_kept s b past h, dropped) rest
    ]

-- What the filter lets through of an output is the output without the bytes of 0x80 or more that
-- stand in the payload of a control string: after an ESC with one of the five bytes that begin such
-- a string, and before the next BEL, CAN, SUB or ESC.
pub filter-ascii_payloads : (p : List ℕ) → (filter in_ground p).1 ≡ ascii_payloads [] p
filter-ascii_payloads p = filter-Follows in_ground [] p (unfold in_payload in (refl, refl))
