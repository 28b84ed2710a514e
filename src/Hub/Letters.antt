-- ===== src/Hub/Letters.antt =====
-- internal/hub/store.go: the letters that name the devices, from A to Z and from AA to ZZ.
use ccdash.Prelude.{
  ℕ, zero, suc, ◌+◌, ◌≤◌, ◌<◌, ◌≡◌, refl, sym, ◌⊎◌, Bool, true, false, ◌&&◌, ◌||◌, is_empty, List,
  [], ◌∷◌, ◌++◌, Option, none, some, Text, length, all, All, leb, ◌==◌, ==_iff, Bool-cases,
  Option-cases, inl, inr, if◌then◌else◌, arith,
}
use mathlib.Core.Option.{some-injective, some-ne-none}

unfoldable pub is_capital : ℕ → Bool
is_capital c = leb b'A' c && leb c b'Z'

-- One or two capital letters.
unfoldable pub valid_letter : Text → Bool
unfolding is_capital
valid_letter l = leb 1 (length l) && leb (length l) 2 && all is_capital l

-- for a := from; a < from + left; a++
unfoldable pub capitals : ℕ → ℕ → List ℕ
capitals from zero = []
capitals from (suc left) = from ∷ capitals (suc from) left

unfoldable pub singles : List ℕ → List Text
singles [] = []
singles (a ∷ rest) = (a ∷ []) ∷ singles rest

unfoldable pub pairs_of : ℕ → List ℕ → List Text
pairs_of a [] = []
pairs_of a (b ∷ bs) = (a ∷ b ∷ []) ∷ pairs_of a bs

unfoldable pub pairs : List ℕ → List ℕ → List Text
unfolding pairs_of
pairs [] bs = []
pairs (a ∷ rest) bs = pairs_of a bs ++ pairs rest bs

unfoldable pub unused : (Text → Bool) → List Text → Option Text
unused used [] = none
unused used (l ∷ ls) = if used l then unused used ls else some l

-- The first that is not used, and the empty text when all are.
unfoldable pub next_letter : (Text → Bool) → Text
unfolding capitals singles pairs unused
next_letter used = elim (unused used (singles (capitals b'A' 26))) [
  | some l ↦ l
  | none ↦ elim (unused used (pairs (capitals b'A' 26) (capitals b'A' 26))) [
    | some l ↦ l
    | none ↦ []
  ]
]

module _ (used : Text → Bool) where
  unused-some :
      (ls : List Text) (l : Text) (P : Text → Type 0)
      → All P ls
      → unused used ls ≡ some l
      → (used l ≡ false) × P l
  unfolding unused
  unused-some [] l P ps h = cc
  unused-some (x ∷ ls) l P ps h = elim (Bool-cases (used x)) [
    | inl taken ↦ unused-some ls l P ps.1 (rw taken at h)
    | inr free ↦
        let same : x ≡ l = some-injective x l (rw free at h) in
        (rw (sym same) free, rw (sym same) ps.0)
  ]

  unused-none : (ls : List Text) → unused used ls ≡ none → All (λ l. used l ≡ true) ls
  unfolding unused
  unused-none [] h = tt
  unused-none (x ∷ ls) h = elim (Bool-cases (used x)) [
    | inl taken ↦ (taken, unused-none ls (rw taken at h))
    | inr free ↦ absurd (some-ne-none x (rw free at h))
  ]

module _ (P : Text → Type 0) where
  All-singles :
      (from left c : ℕ)
      → All P (singles (capitals from left))
      → from ≤ c
      → c < from + left
      → P (c ∷ [])
  unfolding capitals singles
  All-singles from zero c ps lo hi = absurd (omega arith)
  All-singles from (suc left) c ps lo hi = elim (Bool-cases (from == c)) [
    | inl same ↦ rw (sym ((==_iff from c).0 same)) ps.0
    | inr other ↦ All-singles (suc from) left c ps.1 (ground arith) (ground arith)
  ]

  All-pairs_of :
      (a from left c : ℕ)
      → All P (pairs_of a (capitals from left))
      → from ≤ c
      → c < from + left
      → P (a ∷ c ∷ [])
  unfolding capitals pairs_of
  All-pairs_of a from zero c ps lo hi = absurd (omega arith)
  All-pairs_of a from (suc left) c ps lo hi = elim (Bool-cases (from == c)) [
    | inl same ↦ rw (sym ((==_iff from c).0 same)) ps.0
    | inr other ↦ All-pairs_of a (suc from) left c ps.1 (ground arith) (ground arith)
  ]

  All-append_left : (xs ys : List Text) → All P (xs ++ ys) → All P xs × All P ys
  All-append_left [] ys ps = (tt, ps)
  All-append_left (x ∷ xs) ys ps = let r = All-append_left xs ys ps.1 in ((ps.0, r.0), r.1)

  All-pairs :
      (from left c : ℕ) (bs : List ℕ)
      → All P (pairs (capitals from left) bs)
      → from ≤ c
      → c < from + left
      → All P (pairs_of c bs)
  unfolding capitals pairs
  All-pairs from zero c bs ps lo hi = absurd (omega arith)
  All-pairs from (suc left) c bs ps lo hi =
      let r = All-append_left (pairs_of from bs) (pairs (capitals (suc from) left) bs) ps in
      elim (Bool-cases (from == c)) [
        | inl same ↦ rw (sym ((==_iff from c).0 same)) r.0
        | inr other ↦ All-pairs (suc from) left c bs r.1 (ground arith) (ground arith)
      ]

  -- What holds of every candidate holds of every valid letter.
  All-valid_letter :
      All P (singles (capitals b'A' 26))
      → All P (pairs (capitals b'A' 26) (capitals b'A' 26))
      → (l : Text) → valid_letter l ≡ true
      → P l
  unfolding valid_letter is_capital
  All-valid_letter one two [] h = cc
  All-valid_letter one two (a ∷ []) h = All-singles b'A' 26 a one (ground arith) (ground arith)
  All-valid_letter one two (a ∷ b ∷ []) h =
      All-pairs_of a b'A' 26 b
        (All-pairs b'A' 26 a (capitals b'A' 26) two (ground arith) (ground arith)) (ground arith)
        (ground arith)
  All-valid_letter one two (a ∷ b ∷ c ∷ l) h = absurd (ground arith)

All-all : (p : Text → Bool) (ls : List Text) → all p ls ≡ true → All (λ l. p l ≡ true) ls
All-all p [] h = tt
All-all p (l ∷ ls) h = (ground arith, All-all p ls (ground arith))

singles_valid : All (λ l. valid_letter l ≡ true) (singles (capitals b'A' 26))
unfolding valid_letter is_capital capitals singles
singles_valid = All-all valid_letter (singles (capitals b'A' 26)) refl

pairs_valid : All (λ l. valid_letter l ≡ true) (pairs (capitals b'A' 26) (capitals b'A' 26))
unfolding valid_letter is_capital capitals pairs pairs_of
pairs_valid = All-all valid_letter (pairs (capitals b'A' 26) (capitals b'A' 26)) refl

abbrev ones : List Text
ones = singles (capitals b'A' 26)

abbrev twos : List Text
twos = pairs (capitals b'A' 26) (capitals b'A' 26)

abbrev Valid : Text → Type 0
Valid l = valid_letter l ≡ true

-- The next letter is a valid one that is not used; or it is empty, and then every valid letter is
-- used.
pub next_letter_first :
    (used : Text → Bool)
    → ((valid_letter (next_letter used) ≡ true) × (used (next_letter used) ≡ false))
      ⊎ ((next_letter used ≡ []) × ((l : Text) → valid_letter l ≡ true → used l ≡ true))
unfolding next_letter
next_letter_first used = elim (Option-cases (unused used ones)) [
  | inr (l, one) ↦
      rw (one, next_letter)
        (let r = unused-some used ones l Valid singles_valid one in inl (r.1, r.0))
  | inl none_one ↦ elim (Option-cases (unused used twos)) [
    | inr (l, two) ↦
        rw (none_one, two, next_letter)
          (let r = unused-some used twos l Valid pairs_valid two in inl (r.1, r.0))
    | inl none_two ↦
        rw (none_one, none_two, next_letter)
          (inr (
            refl,
            All-valid_letter (λ l. used l ≡ true) (unused-none used ones none_one)
                (unused-none used twos none_two),
          ))
  ]
]

pub next_letter_valid :
    (used : Text → Bool) → (is_empty (next_letter used) || valid_letter (next_letter used)) ≡ true
next_letter_valid used = elim (next_letter_first used) [
  | inl good ↦ ground (arith, good)
  | inr (out, all) ↦ rw out refl
]
