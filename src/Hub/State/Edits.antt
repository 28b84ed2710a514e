-- ===== src/Hub/State/Edits.antt =====
-- internal/hub/k8sstore.go: all the changes of the document together, and what a run of them keeps.
use ccdash.Prelude.{
  ℕ, ◌≡◌, sym, subst, ap, inl, inr, false, true, none, Text, is_empty, ok, ok-injective, ok-ne-err,
  Option-cases,
}
use ccdash.Hub.Letters.{valid_letter}
use ccdash.Hub.State.{
  StateDoc, device, lookup, put_kv, secret, create_device, rotate_token, delete_device,
  rename_device, touch_device, set_peer_access, set_letter, ensure_local_device,
}
use ccdash.Hub.State.Subs.{PushSub, add_sub, remove_sub}
use ccdash.Hub.State.Backfill.{backfill_letters}
use ccdash.Hub.State.SubsSound.{IsSound, add_sub-IsSound, remove_sub-IsSound}
use ccdash.Hub.State.Lettered.{backfill_letters-IsSound}
use ccdash.Hub.State.Devices.{
  unguarded, create_device-IsSound, rotate_token-IsSound, delete_device-IsSound,
  rename_device-IsSound, touch_device-IsSound, set_peer_access-IsSound, set_letter-IsSound,
  ensure_local_device-IsSound,
}

-- One change: a new device has a new id, and a letter from the operator is a valid one, as the handler
-- of the route sees to.
pub data Edit (d d' : StateDoc) : Type 0 where
  created :
      (id name token_hash : Text) (now : ℕ)
      → device id d.devices ≡ none
      → is_empty id ≡ false
      → (create_device id name token_hash now d).1 ≡ ok d'
      → Edit d d'
  rotated : (id token_hash : Text) → rotate_token id token_hash d ≡ ok d' → Edit d d'
  deleted : (id : Text) → delete_device id d ≡ ok d' → Edit d d'
  renamed : (id name : Text) → rename_device id name d ≡ ok d' → Edit d d'
  touched :
      (id hostname version : Text) (now : ℕ)
      → touch_device id hostname version now d ≡ ok d'
      → Edit d d'
  access_set : (id access : Text) → set_peer_access id access d ≡ ok d' → Edit d d'
  lettered :
      (id letter : Text) → valid_letter letter ≡ true → set_letter id letter d ≡ ok d' → Edit d d'
  local_ensured :
      (given token_hash : Text) (now : ℕ)
      → (ensure_local_device given token_hash now d).1 ≡ ok d'
      → Edit d d'
  sub_added : (email : Text) (new : PushSub) (now : ℕ) → add_sub email new now d ≡ ok d' → Edit d d'
  sub_removed : (endpoint : Text) → remove_sub endpoint d ≡ ok d' → Edit d d'
  backfilled : backfill_letters d ≡ ok d' → Edit d d'
  value_put : (k v : Text) → put_kv k v d ≡ ok d' → Edit d d'
  secret_made : (k v x : Text) → secret k v d ≡ (x, ok d') → Edit d d'

pub data Edits (d : StateDoc) : StateDoc → Type 0 where
  here : Edits d d
  next : {d1 d2 : StateDoc} → Edits d d1 → Edit d1 d2 → Edits d d2

put_kv-IsSound : (d d' : StateDoc) (k v : Text) → IsSound d → put_kv k v d ≡ ok d' → IsSound d'
unfolding put_kv
put_kv-IsSound d d' k v s h =
    subst IsSound (unguarded _ _ _ d' h).1 (record { devices = s.devices; subs = s.subs })

secret-IsSound :
    (d d' : StateDoc) (k v x : Text) → IsSound d → secret k v d ≡ (x, ok d') → IsSound d'
unfolding secret
secret-IsSound d d' k v x s h = elim (Option-cases (lookup k d.kv)) [
  | inr (cur, found) ↦ absurd (ok-ne-err (sym (ap (λ r. r.1) (rw (found, secret) at h))))
  | inl missing ↦
      subst IsSound (ok-injective (ap (λ r. r.1) (rw (missing, secret) at h)))
        (record { devices = s.devices; subs = s.subs })
]

pub Edit-IsSound : (d d' : StateDoc) → IsSound d → Edit d d' → IsSound d'
Edit-IsSound d d' s (created id name token_hash now fresh present h) =
    create_device-IsSound d d' s id name token_hash now fresh present h
Edit-IsSound d d' s (rotated id token_hash h) = rotate_token-IsSound d d' s id token_hash h
Edit-IsSound d d' s (deleted id h) = delete_device-IsSound d d' s id h
Edit-IsSound d d' s (renamed id name h) = rename_device-IsSound d d' s id name h
Edit-IsSound d d' s (touched id hostname version now h) =
    touch_device-IsSound d d' s id hostname version now h
Edit-IsSound d d' s (access_set id access h) = set_peer_access-IsSound d d' s id access h
Edit-IsSound d d' s (lettered id letter valid h) = set_letter-IsSound d d' s id letter valid h
Edit-IsSound d d' s (local_ensured given token_hash now h) =
    ensure_local_device-IsSound d d' s given token_hash now h
Edit-IsSound d d' s (sub_added email new now h) = add_sub-IsSound d d' s email new now h
Edit-IsSound d d' s (sub_removed endpoint h) = remove_sub-IsSound d d' s endpoint h
Edit-IsSound d d' s (backfilled h) = backfill_letters-IsSound d d' s h
Edit-IsSound d d' s (value_put k v h) = put_kv-IsSound d d' k v s h
Edit-IsSound d d' s (secret_made k v x h) = secret-IsSound d d' k v x s h

-- From a document in which no two devices have one id or one letter, no two but the machine's own
-- have one name, every letter is valid, and the subscriptions have different endpoints and ids, any
-- run of the store's changes leads to such a document again, if new devices come with new ids that
-- are not empty and a letter that is set is valid.
pub Edits-IsSound : {d d' : StateDoc} → IsSound d → Edits d d' → IsSound d'
Edits-IsSound s here = s
Edits-IsSound s (next r e) = Edit-IsSound _ _ (Edits-IsSound s r) e
