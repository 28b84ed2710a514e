-- ===== src/Hub/State/Lettered.antt =====
-- internal/hub/k8sstore.go: the letters that backfillLetters gives are free ones.
use ccdash.Prelude.{
  text_eq_sym, ℕ, zero, suc, ◌≡◌, refl, sym, ◌∙◌, subst, inl, inr, Bool, true, false, ◌&&◌, ◌||◌,
  not, List, [], ◌∷◌, Text, text_eq, text_eq_iff, text_eq_refl, is_empty, All, Bool-cases, ok,
  ok-injective, ok-ne-err, arith, sort_stable,
}
use ccdash.Hub.Letters.{next_letter, next_letter_first, next_letter_valid}
use ccdash.Hub.State.{DocDevice, StateDoc, used_letters}
use ccdash.Hub.State.Backfill.{
  without_letter, registered_before, letter_at, give_letters, backfill_letters,
}
use ccdash.Hub.State.SubsSound.{IsSound}
use ccdash.Hub.State.Sound.{
  AreDevices, HasId, HasLetter, same_id, same_name, same_letter, same_letter_sym, same_name_sym,
  All-imp, All-and, Apart,
}

module _ (l : Text) where
  All-letter_at :
      (P : DocDevice → Type 0) (i : ℕ) (ds : List DocDevice)
      → ((x : DocDevice) → P x → P (record x { letter = l }))
      → All P ds
      → All P (letter_at i l ds)
  unfolding letter_at
  All-letter_at P i [] h ps = tt
  All-letter_at P zero (x ∷ xs) h ps = (h x ps.0, ps.1)
  All-letter_at P (suc i) (x ∷ xs) h ps = (ps.0, All-letter_at P i xs h ps.1)

  Apart-letter_at :
      (clash : DocDevice → DocDevice → Bool)
      → ((a b : DocDevice) → clash a b ≡ clash b a)
      → (Q : DocDevice → Type 0)
      → ((x y : DocDevice) → Q y → clash x y ≡ false → clash (record x { letter = l }) y ≡ false)
      → (i : ℕ) (ds : List DocDevice) → All Q ds
      → Apart clash ds
      → Apart clash (letter_at i l ds)
  unfolding letter_at
  Apart-letter_at clash swapped Q h i [] qs a = tt
  Apart-letter_at clash swapped Q h zero (x ∷ xs) qs a =
      (All-imp _ _ xs (λ y p. h x y p.0 p.1) (All-and Q (λ y. clash x y ≡ false) xs qs.1 a.0), a.1)
  Apart-letter_at clash swapped Q h (suc i) (x ∷ xs) qs a = (
    All-letter_at (λ y. clash x y ≡ false) i xs (λ y p. swapped x _ ∙ h y x qs.0 (swapped y x ∙ p))
        a.0,
    Apart-letter_at clash swapped Q h i xs qs.1 a.1,
  )

-- Every letter in use is among the used ones.
abbrev Covered : (Text → Bool) → DocDevice → Type 0
Covered used y = (is_empty y.letter || used y.letter) ≡ true

letter_at-AreDevices :
    (used : Text → Bool) (i : ℕ) (ds : List DocDevice)
    → All (Covered used) ds
    → AreDevices ds
    → AreDevices (letter_at i (next_letter used) ds)
letter_at-AreDevices used i ds covered s = record {
  ids =
      Apart-letter_at l same_id (λ a b. text_eq_sym a.id b.id) HasId (λ x y q p. p) i ds s.present
        s.ids;
  names = Apart-letter_at l same_name same_name_sym HasId (λ x y q p. p) i ds s.present s.names;
  letters =
      Apart-letter_at l same_letter same_letter_sym (Covered used) (λ x y q p. free y q) i ds
        covered s.letters;
  valid = All-letter_at l HasLetter i ds (λ x p. next_letter_valid used) s.valid;
  present = All-letter_at l HasId i ds (λ x p. p) s.present;
}
  where
    l : Text
    l = next_letter used

    free :
        (y : DocDevice)
        → Covered used y
        → (not (is_empty (next_letter used))
            && not (is_empty y.letter)
            && text_eq (next_letter used) y.letter)
          ≡ false
    free y q = elim (next_letter_first used) [
      | inr (out, all) ↦ rw out refl
      | inl good ↦ elim (Bool-cases (text_eq (next_letter used) y.letter)) [
        | inr other ↦ ground (arith, other)
        | inl same ↦
            let e = (text_eq_iff (next_letter used) y.letter).0 same in
            let taken = subst (λ t. (is_empty t || used t) ≡ true) (sym e) q in
            ground (arith, good, taken)
      ]
    ]

give_letters-AreDevices :
    (idx : List (ℕ × DocDevice)) (used : Text → Bool) (ds : List DocDevice)
    → All (Covered used) ds
    → AreDevices ds
    → AreDevices (give_letters idx used ds)
unfolding give_letters
give_letters-AreDevices [] used ds covered s = s
give_letters-AreDevices (p ∷ idx) used ds covered s =
    let l = next_letter used in
    let used' = λ (k : Text). text_eq l k || used k in
    give_letters-AreDevices idx used' (letter_at p.0 l ds)
      (All-letter_at l (Covered used') p.0 ds
        (λ x q. ground (arith, text_eq_refl (next_letter used)))
        (All-imp (Covered used) (Covered used') ds (λ x q. ground arith) covered))
      (letter_at-AreDevices used p.0 ds covered s)

All-Covered : (ds : List DocDevice) → All (Covered (used_letters ds)) ds
unfolding used_letters
All-Covered [] = tt
All-Covered (x ∷ xs) = (
  ground (arith, text_eq_refl x.letter),
  All-imp (Covered (used_letters xs)) (Covered (used_letters (x ∷ xs))) xs
      (λ y q. ground (arith, q)) (All-Covered xs),
)

pub backfill_letters-IsSound :
    (d d' : StateDoc) → IsSound d → backfill_letters d ≡ ok d' → IsSound d'
unfolding backfill_letters
backfill_letters-IsSound d d' s h = go (without_letter 0 d.devices) refl
  where
    go : (idx : List (ℕ × DocDevice)) → without_letter 0 d.devices ≡ idx → IsSound d'
    go [] e = absurd (ok-ne-err (sym (rw (e, backfill_letters) at h)))
    go (p ∷ idx) e = subst IsSound (ok-injective (rw (e, backfill_letters) at h)) (record {
      subs = s.subs;
      devices =
          give_letters-AreDevices (sort_stable registered_before (p ∷ idx)) (used_letters d.devices)
            d.devices (All-Covered d.devices) s.devices;
    })
