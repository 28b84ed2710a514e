-- ===== src/Prelude/Sorting.antt =====
-- A stable sort by a Boolean `less`, as sort.SliceStable and slices.SortStableFunc do it: of the
-- elements that tie, the one that came first stays first.
use mathlib.Core.Path.{◌≡◌}
use mathlib.Core.Bool.{Bool, true, false}
use mathlib.Core.Logic.{inl, inr}
use mathlib.Core.List.{List, [], ◌∷◌, Perm}
use mathlib.Core.List.Perm
use ccdash.Prelude.Tests.{if◌then◌else◌, Bool-cases}
use ccdash.Prelude.Lists.{All}

module _ {ℓ} {A : Type ℓ} (less : A → A → Bool) where
  -- Before the first element that is not below it.
  unfoldable pub insert_stable : A → List A → List A
  insert_stable a [] = a ∷ []
  insert_stable a (x ∷ xs) = if less x a then x ∷ insert_stable a xs else a ∷ x ∷ xs

  unfoldable pub sort_stable : List A → List A
  unfolding insert_stable
  sort_stable [] = []
  sort_stable (x ∷ xs) = insert_stable x (sort_stable xs)

  insert_stable-perm : (a : A) (xs : List A) → Perm (insert_stable a xs) (a ∷ xs)
  unfolding insert_stable
  insert_stable-perm a [] = Perm.refl _
  insert_stable-perm a (x ∷ xs) = elim (Bool-cases (less x a)) [
    | inl below ↦ rw below (Perm.trans (Perm.cons x (insert_stable-perm a xs)) (Perm.swap a x xs))
    | inr above ↦ rw above (Perm.refl _)
  ]

  -- Sorting loses nothing and makes nothing up.
  pub sort_stable-perm : (xs : List A) → Perm (sort_stable xs) xs
  unfolding sort_stable
  sort_stable-perm [] = Perm.refl _
  sort_stable-perm (x ∷ xs) =
      Perm.trans (insert_stable-perm x (sort_stable xs)) (Perm.cons x (sort_stable-perm xs))

  -- No later element is below an earlier one.
  abbrev pub IsSorted : List A → Type 0
  IsSorted [] = Unit
  IsSorted (x ∷ xs) = All (λ y. less y x ≡ false) xs × IsSorted xs

  -- `less` is a strict weak order on the elements that `P` holds of.
  module _ (P : A → Type 0) (asym : (a b : A) → P a → P b → less a b ≡ true → less b a ≡ false)
      (chain : (a b c : A)
        → P a
        → P b
        → P c
        → less b a ≡ false
        → less c b ≡ false
        → less c a ≡ false) where
    All-chain :
        (a b : A) (xs : List A)
        → P a
        → P b
        → All P xs
        → less b a ≡ false
        → All (λ y. less y b ≡ false) xs
        → All (λ y. less y a ≡ false) xs
    All-chain a b [] pa pb ps h k = tt
    All-chain a b (x ∷ xs) pa pb ps h k =
        (chain a b x pa pb ps.0 h k.0, All-chain a b xs pa pb ps.1 h k.1)

    All-insert_stable :
        (Q : A → Type 0) (a : A) (xs : List A) → Q a → All Q xs → All Q (insert_stable a xs)
    unfolding insert_stable
    All-insert_stable Q a [] qa h = (qa, tt)
    All-insert_stable Q a (x ∷ xs) qa h = elim (Bool-cases (less x a)) [
      | inl below ↦ rw below (h.0, All-insert_stable Q a xs qa h.1)
      | inr above ↦ rw above (qa, h)
    ]

    insert_stable-IsSorted :
        (a : A) (xs : List A) → P a → All P xs → IsSorted xs → IsSorted (insert_stable a xs)
    unfolding insert_stable
    insert_stable-IsSorted a [] pa ps h = (tt, tt)
    insert_stable-IsSorted a (x ∷ xs) pa ps h = elim (Bool-cases (less x a)) [
      | inl below ↦ rw below (
        All-insert_stable (λ y. less y x ≡ false) a xs (asym x a ps.0 pa below) h.0,
        insert_stable-IsSorted a xs pa ps.1 h.1,
      )
      | inr above ↦ rw above ((above, All-chain a x xs pa ps.0 ps.1 above h.0), h)
    ]

    All-sort_stable : (xs : List A) → All P xs → All P (sort_stable xs)
    unfolding sort_stable
    All-sort_stable [] ps = tt
    All-sort_stable (x ∷ xs) ps =
        All-insert_stable P x (sort_stable xs) ps.0 (All-sort_stable xs ps.1)

    pub sort_stable-IsSorted : (xs : List A) → All P xs → IsSorted (sort_stable xs)
    unfolding sort_stable
    sort_stable-IsSorted [] ps = tt
    sort_stable-IsSorted (x ∷ xs) ps =
        insert_stable-IsSorted x (sort_stable xs) ps.0 (All-sort_stable xs ps.1)
          (sort_stable-IsSorted xs ps.1)
