-- ===== src/Hub/State/Sound.antt =====
-- internal/hub/k8sstore.go: what every change keeps of the devices and the subscriptions.
use ccdash.Prelude.{
  ◌≡◌, sym, ◌∙◌, inl, inr, Bool, true, false, ◌&&◌, ◌||◌, not, List, [], ◌∷◌, ◌++◌, Text, text_eq,
  text_eq_sym, text_eq_iff, is_empty, any, All, Bool-cases, arith,
}
use ccdash.Hub.Letters.{valid_letter}
use ccdash.Hub.State.{DocDevice, local_device_id, write_device, remove_device}

-- No element clashes with a later one.
abbrev pub Apart : {A : Type 0} → (A → A → Bool) → List A → Type 0
Apart clash [] = Unit
Apart clash (x ∷ xs) = All (λ y. clash x y ≡ false) xs × Apart clash xs

abbrev pub same_id : DocDevice → DocDevice → Bool
same_id a b = text_eq a.id b.id

abbrev pub is_local : DocDevice → Bool
is_local a = text_eq a.id local_device_id

-- The machine's own device is named without regard to the others.
abbrev pub same_name : DocDevice → DocDevice → Bool
same_name a b = not (is_local a) && not (is_local b) && text_eq a.name b.name

abbrev pub same_letter : DocDevice → DocDevice → Bool
same_letter a b = not (is_empty a.letter) && not (is_empty b.letter) && text_eq a.letter b.letter

abbrev pub HasLetter : DocDevice → Type 0
HasLetter x = (is_empty x.letter || valid_letter x.letter) ≡ true

abbrev pub HasId : DocDevice → Type 0
HasId x = is_empty x.id ≡ false

pub record AreDevices (ds : List DocDevice) : Type 0 where
  pub ids : Apart same_id ds
  pub names : Apart same_name ds
  pub letters : Apart same_letter ds
  pub valid : All HasLetter ds
  pub present : All HasId ds

pub same_name_sym : (a b : DocDevice) → same_name a b ≡ same_name b a
same_name_sym a b = ground (arith, text_eq_sym a.name b.name)

pub same_letter_sym : (a b : DocDevice) → same_letter a b ≡ same_letter b a
same_letter_sym a b = ground (arith, text_eq_sym a.letter b.letter)

module _ {A : Type 0} where
  pub All-imp : (P Q : A → Type 0) (xs : List A) → ((x : A) → P x → Q x) → All P xs → All Q xs
  All-imp P Q [] h ps = tt
  All-imp P Q (x ∷ xs) h ps = (h x ps.0, All-imp P Q xs h ps.1)

  pub All-and : (P Q : A → Type 0) (xs : List A) → All P xs → All Q xs → All (λ x. P x × Q x) xs
  All-and P Q [] ps qs = tt
  All-and P Q (x ∷ xs) ps qs = ((ps.0, qs.0), All-and P Q xs ps.1 qs.1)

  pub All-snoc : (P : A → Type 0) (xs : List A) (a : A) → All P xs → P a → All P (xs ++ a ∷ [])
  All-snoc P [] a ps pa = (pa, tt)
  All-snoc P (x ∷ xs) a ps pa = (ps.0, All-snoc P xs a ps.1 pa)

  pub Apart-snoc :
      (clash : A → A → Bool) (xs : List A) (a : A)
      → Apart clash xs
      → All (λ y. clash y a ≡ false) xs
      → Apart clash (xs ++ a ∷ [])
  Apart-snoc clash [] a apart fresh = (tt, tt)
  Apart-snoc clash (x ∷ xs) a apart fresh =
      (All-snoc _ xs a apart.0 fresh.0, Apart-snoc clash xs a apart.1 fresh.1)

  pub All-any : (p : A → Bool) (xs : List A) → any p xs ≡ false → All (λ x. p x ≡ false) xs
  All-any p [] h = tt
  All-any p (x ∷ xs) h = (ground arith, All-any p xs (ground arith))

module _ (id : Text) where
  All-remove_device :
      (P : DocDevice → Type 0) (ds : List DocDevice) → All P ds → All P (remove_device id ds)
  unfolding remove_device
  All-remove_device P [] ps = tt
  All-remove_device P (d ∷ ds) ps = elim (Bool-cases (text_eq d.id id)) [
    | inl here ↦ rw here ps.1
    | inr other ↦ rw other (ps.0, All-remove_device P ds ps.1)
  ]

  Apart-remove_device :
      (clash : DocDevice → DocDevice → Bool) (ds : List DocDevice)
      → Apart clash ds
      → Apart clash (remove_device id ds)
  unfolding remove_device
  Apart-remove_device clash [] a = tt
  Apart-remove_device clash (d ∷ ds) a = elim (Bool-cases (text_eq d.id id)) [
    | inl here ↦ rw here a.1
    | inr other ↦ rw other (All-remove_device _ ds a.0, Apart-remove_device clash ds a.1)
  ]

  pub remove_device-AreDevices :
      (ds : List DocDevice) → AreDevices ds → AreDevices (remove_device id ds)
  remove_device-AreDevices ds s = record {
    ids = Apart-remove_device same_id ds s.ids;
    names = Apart-remove_device same_name ds s.names;
    letters = Apart-remove_device same_letter ds s.letters;
    valid = All-remove_device HasLetter ds s.valid;
    present = All-remove_device HasId ds s.present;
  }

module _ (id : Text) (f : DocDevice → DocDevice) where
  All-write_device :
      (P : DocDevice → Type 0) (ds : List DocDevice)
      → ((x : DocDevice) → text_eq x.id id ≡ true → P x → P (f x))
      → All P ds
      → All P (write_device id f ds)
  unfolding write_device
  All-write_device P [] h ps = tt
  All-write_device P (d ∷ ds) h ps = elim (Bool-cases (text_eq d.id id)) [
    | inl here ↦ rw here (h d here ps.0, ps.1)
    | inr other ↦ rw other (ps.0, All-write_device P ds h ps.1)
  ]

  -- The written device may clash with none of the others.
  Apart-write_device :
      (clash : DocDevice → DocDevice → Bool)
      → ((a b : DocDevice) → clash a b ≡ clash b a)
      → (Q : DocDevice → Type 0) (ds : List DocDevice)
      → ((x y : DocDevice)
          → text_eq x.id id ≡ true
          → text_eq y.id id ≡ false
          → Q y
          → clash x y ≡ false
          → clash (f x) y ≡ false)
      → Apart same_id ds
      → All Q ds
      → Apart clash ds
      → Apart clash (write_device id f ds)
  unfolding write_device
  Apart-write_device clash swapped Q [] h ids qs a = tt
  Apart-write_device clash swapped Q (d ∷ ds) h ids qs a = elim (Bool-cases (text_eq d.id id)) [
    | inl here ↦ rw here (
      All-imp _ _ ds (λ y p. h d y here (elsewhere d.id id y.id here p.1.0) p.0 p.1.1)
          (All-and Q (λ y. (same_id d y ≡ false) × (clash d y ≡ false)) ds qs.1
            (All-and (λ y. same_id d y ≡ false) (λ y. clash d y ≡ false) ds ids.0 a.0)),
      a.1,
    )
    | inr other ↦ rw other (
      All-write_device (λ y. clash d y ≡ false) ds
          (λ y there p. swapped d (f y) ∙ h y d there other qs.0 (swapped y d ∙ p)) a.0,
      Apart-write_device clash swapped Q ds h ids.1 qs.1 a.1,
    )
  ]
    where
      elsewhere : (s t u : Text) → text_eq s t ≡ true → text_eq s u ≡ false → text_eq u t ≡ false
      elsewhere s t u h k = rw (sym ((text_eq_iff s t).0 h)) (text_eq_sym u s ∙ k)

  -- A write that keeps the id, and brings in no name and no letter of another device.
  pub write_device-AreDevices :
      (N L : DocDevice → Type 0) (ds : List DocDevice)
      → ((x : DocDevice) → (f x).id ≡ x.id)
      → ((x y : DocDevice)
          → text_eq x.id id ≡ true
          → text_eq y.id id ≡ false
          → N y
          → same_name x y ≡ false
          → same_name (f x) y ≡ false)
      → ((x y : DocDevice)
          → text_eq x.id id ≡ true
          → text_eq y.id id ≡ false
          → L y
          → same_letter x y ≡ false
          → same_letter (f x) y ≡ false)
      → ((x : DocDevice) → HasLetter x → HasLetter (f x))
      → All N ds
      → All L ds
      → AreDevices ds
      → AreDevices (write_device id f ds)
  write_device-AreDevices N L ds same_key names letters lettered ns ls s = record {
    ids =
        Apart-write_device same_id (λ a b. text_eq_sym a.id b.id) HasId ds
          (λ x y m u q p. rw (same_key x) p) s.ids s.present s.ids;
    names = Apart-write_device same_name same_name_sym N ds names s.ids ns s.names;
    letters = Apart-write_device same_letter same_letter_sym L ds letters s.ids ls s.letters;
    valid = All-write_device HasLetter ds (λ x m. lettered x) s.valid;
    present = All-write_device HasId ds (λ x m p. rw (same_key x) p) s.present;
  }
