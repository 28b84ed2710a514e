-- ===== src/Hub/State/Devices.antt =====
-- internal/hub/k8sstore.go: each change of a device keeps what every change keeps.
use ccdash.Prelude.{
  text_eq_sym, ℕ, ◌≡◌, refl, sym, subst, inl, inr, Bool, true, false, ◌&&◌, not, List, [], ◌∷◌,
  ◌++◌, none, some, Text, text_eq, text_eq_refl, is_empty, All, if◌then◌else◌, Bool-cases,
  Option-cases, Result, ok, err, ok-injective, ok-ne-err, arith,
}
use mathlib.Core.Option.{some-ne-none}
use ccdash.Hub.Letters.{valid_letter, next_letter, next_letter_first, next_letter_valid}
use ccdash.Hub.State.{
  DocDevice, StateDoc, Fault, local_device_id, device, write_device, name_taken, used_letters,
  letter_taken, on_device, create_device, rotate_token, delete_device, rename_device, touch_device,
  set_peer_access, set_letter, ensure_local_device,
}
use ccdash.Hub.State.SubsSound.{IsSound}
use ccdash.Hub.State.Sound.{
  AreDevices, HasId, HasLetter, same_name, same_letter, write_device-AreDevices,
  remove_device-AreDevices, All-snoc, Apart-snoc, All-any, All-imp, All-and,
}

pub unguarded :
    (b : Bool) (e : Fault) (x y : StateDoc)
    → (if b then err e else ok x) ≡ ok y
    → (b ≡ false) × (x ≡ y)
unguarded true e x y h = absurd (ok-ne-err (sym h))
unguarded false e x y h = (refl, ok-injective h)

on_device_found :
    (id : Text) (missing : Fault) (body : DocDevice → Result Fault StateDoc) (d d' : StateDoc)
    → on_device id missing body d ≡ ok d'
    → (x : DocDevice) × (device id d.devices ≡ some x) × (body x ≡ ok d')
unfolding on_device
on_device_found id missing body d d' h = elim (Option-cases (device id d.devices)) [
  | inl gone ↦ absurd (ok-ne-err (sym (rw (gone, on_device) at h)))
  | inr (x, found) ↦ (x, found, rw (found, on_device) at h)
]

device-none :
    (id : Text) (ds : List DocDevice) → device id ds ≡ none → All (λ y. text_eq y.id id ≡ false) ds
unfolding device
device-none id [] h = tt
device-none id (x ∷ xs) h = elim (Bool-cases (text_eq x.id id)) [
  | inl here ↦ absurd (some-ne-none x (rw here at h))
  | inr other ↦ (other, device-none id xs (rw other at h))
]

-- A write that leaves the id, the name and the letter as they are.
plain-AreDevices :
    (id : Text) (f : DocDevice → DocDevice) (ds : List DocDevice)
    → ((x : DocDevice) → (f x).id ≡ x.id)
    → ((x : DocDevice) → (f x).name ≡ x.name)
    → ((x : DocDevice) → (f x).letter ≡ x.letter)
    → AreDevices ds
    → AreDevices (write_device id f ds)
plain-AreDevices id f ds ids names letters s =
    write_device-AreDevices id f HasId HasId ds ids (λ x y m u q p. rw (ids x, names x) p)
      (λ x y m u q p. rw (letters x) p) (λ x p. rw (letters x) p) s.present s.present s

module _ (d d' : StateDoc) (s : IsSound d) where
  written-IsSound :
      (ds : List DocDevice) → record d { devices = ds } ≡ d' → AreDevices ds → IsSound d'
  written-IsSound ds e a = subst IsSound e (record { devices = a; subs = s.subs })

  pub rotate_token-IsSound :
      (id token_hash : Text) → rotate_token id token_hash d ≡ ok d' → IsSound d'
  unfolding rotate_token
  rotate_token-IsSound id token_hash h =
      written-IsSound _ (ok-injective (on_device_found id _ _ d d' h).2)
        (plain-AreDevices id _ d.devices (λ x. refl) (λ x. refl) (λ x. refl) s.devices)

  pub set_peer_access-IsSound :
      (id access : Text) → set_peer_access id access d ≡ ok d' → IsSound d'
  unfolding set_peer_access
  set_peer_access-IsSound id access h =
      written-IsSound _ (ok-injective (on_device_found id _ _ d d' h).2)
        (plain-AreDevices id _ d.devices (λ x. refl) (λ x. refl) (λ x. refl) s.devices)

  pub delete_device-IsSound : (id : Text) → delete_device id d ≡ ok d' → IsSound d'
  unfolding delete_device
  delete_device-IsSound id h =
      written-IsSound _ (ok-injective (on_device_found id _ _ d d' h).2)
        (remove_device-AreDevices id d.devices s.devices)

  pub touch_device-IsSound :
      (id hostname version : Text) (now : ℕ)
      → touch_device id hostname version now d ≡ ok d'
      → IsSound d'
  unfolding touch_device
  touch_device-IsSound id hostname version now h =
      written-IsSound _ (unguarded _ _ _ d' (on_device_found id _ _ d d' h).2).1
        (plain-AreDevices id _ d.devices (λ x. refl) (λ x. refl) (λ x. refl) s.devices)

  pub rename_device-IsSound : (id name : Text) → rename_device id name d ≡ ok d' → IsSound d'
  unfolding rename_device name_taken
  rename_device-IsSound id name h =
      let free = unguarded _ _ _ d' (on_device_found id _ _ d d' h).2 in
      written-IsSound _ free.1 (
        write_device-AreDevices id (λ y. record y { name = name })
          (λ y. (text_eq y.name name && not (text_eq y.id id)) ≡ false) HasId d.devices (λ x. refl)
          (λ x y m u q p. ground (arith, text_eq_sym name y.name)) (λ x y m u q p. p) (λ x p. p)
          (All-any _ d.devices free.0) s.devices.present s.devices)

  pub set_letter-IsSound :
      (id letter : Text) → valid_letter letter ≡ true → set_letter id letter d ≡ ok d' → IsSound d'
  unfolding set_letter letter_taken
  set_letter-IsSound id letter valid h =
      let free = unguarded _ _ _ d' (on_device_found id _ _ d d' h).2 in
      written-IsSound _ free.1 (
        write_device-AreDevices id (λ y. record y { letter = letter }) HasId
          (λ y. (not (text_eq y.id id) && text_eq y.letter letter) ≡ false) d.devices (λ x. refl)
          (λ x y m u q p. p) (λ x y m u q p. ground (arith, text_eq_sym letter y.letter))
          (λ x p. ground (arith, valid)) s.devices.present (All-any _ d.devices free.0) s.devices)

  -- A device at the end whose id is new, whose name is no other's, and whose letter is.
  append-AreDevices :
      (nd : DocDevice)
      → device nd.id d.devices ≡ none
      → HasId nd
      → HasLetter nd
      → All (λ y. same_name y nd ≡ false) d.devices
      → All (λ y. same_letter y nd ≡ false) d.devices
      → AreDevices (d.devices ++ nd ∷ [])
  append-AreDevices nd fresh present valid names letters = record {
    ids = Apart-snoc _ d.devices nd s.devices.ids (device-none nd.id d.devices fresh);
    names = Apart-snoc _ d.devices nd s.devices.names names;
    letters = Apart-snoc _ d.devices nd s.devices.letters letters;
    valid = All-snoc HasLetter d.devices nd s.devices.valid valid;
    present = All-snoc HasId d.devices nd s.devices.present present;
  }

  text_eq_nil : (t : Text) → text_eq t [] ≡ is_empty t
  unfolding text_eq
  text_eq_nil [] = refl
  text_eq_nil (c ∷ t) = refl

  -- No device has the letter that is chosen, or it is empty.
  next_letter_unused :
      All
        (λ y.
          (not (is_empty y.letter)
            && not (is_empty (next_letter (used_letters d.devices)))
            && text_eq y.letter (next_letter (used_letters d.devices)))
          ≡ false)
        d.devices
  unfolding used_letters
  next_letter_unused = elim (next_letter_first (used_letters d.devices)) [
    | inl good ↦ All-imp _ _ d.devices (λ y p. ground (arith, p)) (All-any _ d.devices good.1)
    | inr (out, all) ↦ All-imp HasId _ d.devices (λ y p. rw out ground arith) s.devices.present
  ]

  pub create_device-IsSound :
      (id name token_hash : Text) (now : ℕ)
      → device id d.devices ≡ none
      → is_empty id ≡ false
      → (create_device id name token_hash now d).1 ≡ ok d'
      → IsSound d'
  unfolding create_device name_taken
  create_device-IsSound id name token_hash now fresh present h =
      elim (Bool-cases (name_taken name [] d.devices)) [
        | inl taken ↦ absurd (ok-ne-err (sym (rw (taken, create_device) at h)))
        | inr free ↦ written-IsSound _ (ok-injective (rw (free, create_device) at h)) (
            append-AreDevices _ fresh present (next_letter_valid (used_letters d.devices))
              (All-imp _ _ d.devices (λ y p. ground (arith, p.1, p.0, text_eq_nil y.id))
                (All-and HasId _ d.devices s.devices.present (All-any _ d.devices free)))
              next_letter_unused)
      ]

  pub ensure_local_device-IsSound :
      (given token_hash : Text) (now : ℕ)
      → (ensure_local_device given token_hash now d).1 ≡ ok d'
      → IsSound d'
  unfolding ensure_local_device
  ensure_local_device-IsSound given token_hash now h =
      elim (Option-cases (device local_device_id d.devices)) [
        | inl gone ↦ written-IsSound _ (ok-injective (rw (gone, ensure_local_device) at h)) (
            append-AreDevices _ gone refl refl
              (All-imp HasId _ d.devices (λ y p. ground (arith, text_eq_refl local_device_id))
                s.devices.present)
              (All-imp HasId _ d.devices (λ y p. ground arith) s.devices.present))
        | inr (x, found) ↦ written-IsSound _ (ok-injective (rw (found, ensure_local_device) at h)) (
            write_device-AreDevices local_device_id _ HasId HasId d.devices (λ x. refl)
              (λ x y m u q p. ground (arith, m)) (λ x y m u q p. p) (λ x p. p) s.devices.present
              s.devices.present s.devices)
      ]
