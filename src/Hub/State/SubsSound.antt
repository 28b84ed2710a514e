-- ===== src/Hub/State/SubsSound.antt =====
-- internal/hub/k8sstore.go: each change of a subscription keeps the endpoints and the ids apart.
use ccdash.Prelude.{
  ℕ, ◌+◌, ◌≤◌, ◌≡◌, refl, sym, subst, inl, inr, Bool, false, List, [], ◌∷◌, none, Text, text_eq,
  All, ◌==◌, Bool-cases, Option-cases, ok, ok-injective, ok-ne-err, arith,
}
use mathlib.Core.Option.{some-ne-none}
use ccdash.Hub.State.{DocSub, StateDoc}
use ccdash.Hub.State.Subs.{PushSub, find_sub, write_sub, drop_sub, add_sub, remove_sub}
use ccdash.Hub.State.Sound.{AreDevices, Apart, All-imp, All-snoc, Apart-snoc}

abbrev pub same_endpoint : DocSub → DocSub → Bool
same_endpoint a b = text_eq a.endpoint b.endpoint

abbrev pub same_sub_id : DocSub → DocSub → Bool
same_sub_id a b = a.id == b.id

pub record AreSubs (ss : List DocSub) (next : ℕ) : Type 0 where
  pub endpoints : Apart same_endpoint ss
  pub ids : Apart same_sub_id ss
  pub below : All (λ s. s.id ≤ next) ss

-- The ids, the names and the letters of the devices are apart, as are the subscriptions.
pub record IsSound (d : StateDoc) : Type 0 where
  pub devices : AreDevices d.devices
  pub subs : AreSubs d.subs d.next_sub_id

find_sub-none :
    (endpoint : Text) (ss : List DocSub)
    → find_sub endpoint ss ≡ none
    → All (λ s. text_eq s.endpoint endpoint ≡ false) ss
unfolding find_sub
find_sub-none endpoint [] h = tt
find_sub-none endpoint (s ∷ ss) h = elim (Bool-cases (text_eq s.endpoint endpoint)) [
  | inl here ↦ absurd (some-ne-none s (rw here at h))
  | inr other ↦ (other, find_sub-none endpoint ss (rw other at h))
]

module _ (endpoint : Text) (f : DocSub → DocSub) where
  All-write_sub :
      (P : DocSub → Type 0) (ss : List DocSub)
      → ((s : DocSub) → P s → P (f s))
      → All P ss
      → All P (write_sub endpoint f ss)
  unfolding write_sub
  All-write_sub P [] h ps = tt
  All-write_sub P (s ∷ ss) h ps = elim (Bool-cases (text_eq s.endpoint endpoint)) [
    | inl here ↦ rw here (h s ps.0, ps.1)
    | inr other ↦ rw other (ps.0, All-write_sub P ss h ps.1)
  ]

  Apart-write_sub :
      (clash : DocSub → DocSub → Bool) (ss : List DocSub)
      → ((a b : DocSub) → clash (f a) b ≡ clash a b)
      → ((a b : DocSub) → clash b (f a) ≡ clash b a)
      → Apart clash ss
      → Apart clash (write_sub endpoint f ss)
  unfolding write_sub
  Apart-write_sub clash [] left right a = tt
  Apart-write_sub clash (s ∷ ss) left right a = elim (Bool-cases (text_eq s.endpoint endpoint)) [
    | inl here ↦ rw here (All-imp _ _ ss (λ y p. rw (left s y) p) a.0, a.1)
    | inr other ↦ rw other (
      All-write_sub (λ y. clash s y ≡ false) ss (λ y p. rw (right y s) p) a.0,
      Apart-write_sub clash ss left right a.1,
    )
  ]

module _ (endpoint : Text) where
  All-drop_sub : (P : DocSub → Type 0) (ss : List DocSub) → All P ss → All P (drop_sub endpoint ss)
  unfolding drop_sub
  All-drop_sub P [] ps = tt
  All-drop_sub P (s ∷ ss) ps = elim (Bool-cases (text_eq s.endpoint endpoint)) [
    | inl here ↦ rw here ps.1
    | inr other ↦ rw other (ps.0, All-drop_sub P ss ps.1)
  ]

  Apart-drop_sub :
      (clash : DocSub → DocSub → Bool) (ss : List DocSub)
      → Apart clash ss
      → Apart clash (drop_sub endpoint ss)
  unfolding drop_sub
  Apart-drop_sub clash [] a = tt
  Apart-drop_sub clash (s ∷ ss) a = elim (Bool-cases (text_eq s.endpoint endpoint)) [
    | inl here ↦ rw here a.1
    | inr other ↦ rw other (All-drop_sub _ ss a.0, Apart-drop_sub clash ss a.1)
  ]

module _ (d d' : StateDoc) (s : IsSound d) where
  pub add_sub-IsSound :
      (email : Text) (new : PushSub) (now : ℕ) → add_sub email new now d ≡ ok d' → IsSound d'
  unfolding add_sub
  add_sub-IsSound email new now h = elim (Option-cases (find_sub new.endpoint d.subs)) [
    | inr (x, found) ↦ subst IsSound (ok-injective (rw (found, add_sub) at h)) (record {
      devices = s.devices;
      subs = record {
        endpoints =
            Apart-write_sub new.endpoint _ same_endpoint d.subs (λ a b. refl) (λ a b. refl)
              s.subs.endpoints;
        ids =
            Apart-write_sub new.endpoint _ same_sub_id d.subs (λ a b. refl) (λ a b. refl)
              s.subs.ids;
        below =
            All-write_sub new.endpoint _ (λ x. x.id ≤ d.next_sub_id) d.subs (λ x p. p) s.subs.below;
      };
    })
    | inl gone ↦ subst IsSound (ok-injective (rw (gone, add_sub) at h)) (record {
      devices = s.devices;
      subs = record {
        endpoints =
            Apart-snoc same_endpoint d.subs _ s.subs.endpoints
              (find_sub-none new.endpoint d.subs gone);
        ids =
            Apart-snoc same_sub_id d.subs _ s.subs.ids
              (All-imp (λ x. x.id ≤ d.next_sub_id) _ d.subs (λ x p. ground arith) s.subs.below);
        below =
            All-snoc (λ x. x.id ≤ d.next_sub_id + 1) d.subs _
              (All-imp (λ x. x.id ≤ d.next_sub_id) _ d.subs (λ x p. omega arith) s.subs.below)
              (omega arith);
      };
    })
  ]

  pub remove_sub-IsSound : (endpoint : Text) → remove_sub endpoint d ≡ ok d' → IsSound d'
  unfolding remove_sub
  remove_sub-IsSound endpoint h = elim (Option-cases (find_sub endpoint d.subs)) [
    | inl gone ↦ absurd (ok-ne-err (sym (rw (gone, remove_sub) at h)))
    | inr (x, found) ↦ subst IsSound (ok-injective (rw (found, remove_sub) at h)) (record {
      devices = s.devices;
      subs = record {
        endpoints = Apart-drop_sub endpoint same_endpoint d.subs s.subs.endpoints;
        ids = Apart-drop_sub endpoint same_sub_id d.subs s.subs.ids;
        below = All-drop_sub endpoint (λ x. x.id ≤ d.next_sub_id) d.subs s.subs.below;
      };
    })
  ]
