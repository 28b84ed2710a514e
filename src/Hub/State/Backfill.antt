-- ===== src/Hub/State/Backfill.antt =====
-- internal/hub/k8sstore.go: letters for the devices from before letters, in the order in which they were
-- registered, when the store is opened.
use ccdash.Prelude.{
  ℕ, zero, suc, ◌+◌, Bool, ◌&&◌, ◌||◌, not, List, [], ◌∷◌, Text, text_eq, text_lt, is_empty, ltb,
  ◌==◌, if◌then◌else◌, Result, ok, err, sort_stable, insert_stable,
}
use ccdash.Hub.Letters.{next_letter}
use ccdash.Hub.State.{DocDevice, StateDoc, Fault, no_change, local_device_id, used_letters}

unfoldable pub needs_letter : DocDevice → Bool
needs_letter x = is_empty x.letter && not (text_eq x.id local_device_id)

-- The indices of the devices that need a letter, each with its device.
unfoldable pub without_letter : ℕ → List DocDevice → List (ℕ × DocDevice)
unfolding needs_letter
without_letter i [] = []
without_letter i (x ∷ xs) =
    if needs_letter x then (i, x) ∷ without_letter (i + 1) xs else without_letter (i + 1) xs

unfoldable pub registered_before : ℕ × DocDevice → ℕ × DocDevice → Bool
registered_before a b =
    if not (a.1.created_at == b.1.created_at)
    then ltb a.1.created_at b.1.created_at
    else text_lt a.1.id b.1.id

unfoldable pub letter_at : ℕ → Text → List DocDevice → List DocDevice
letter_at i l [] = []
letter_at zero l (x ∷ xs) = record x { letter = l } ∷ xs
letter_at (suc i) l (x ∷ xs) = x ∷ letter_at i l xs

unfoldable pub give_letters : List (ℕ × DocDevice) → (Text → Bool) → List DocDevice → List DocDevice
unfolding letter_at
give_letters [] used ds = ds
give_letters (p ∷ idx) used ds =
    let l = next_letter used in give_letters idx (λ k. text_eq l k || used k) (letter_at p.0 l ds)

unfoldable pub backfill_letters : StateDoc → Result Fault StateDoc
unfolding without_letter registered_before give_letters used_letters sort_stable insert_stable
backfill_letters d = elim (without_letter 0 d.devices) [
  | [] ↦ err no_change
  | p ∷ idx ↦ ok (record d {
    devices =
        give_letters (sort_stable registered_before (p ∷ idx)) (used_letters d.devices) d.devices;
  })
]
