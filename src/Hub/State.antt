-- ===== src/Hub/State.antt =====
-- internal/hub/k8sstore.go: the hub's state as one document, and every change of it as a function of
-- the document. Times are milliseconds from the zero time of Go, so that the zero time is 0.
pub mod Subs
pub mod Backfill
pub mod Sound
pub mod Devices
pub mod SubsSound
pub mod Lettered
pub mod Edits
pub mod Mutate
pub mod Atomic
use ccdash.Prelude.{
  ℕ, zero, suc, ◌+◌, ◌-◌, Bool, true, false, ◌&&◌, ◌||◌, not, List, [], ◌∷◌, ◌++◌, Option, none,
  some, Text, codes, text_eq, text_lt, is_empty, any, leb, ltb, ◌==◌, if◌then◌else◌, is_some,
  Result, ok, err, sort_stable, select,
}
use ccdash.Hub.Letters.{next_letter}

pub record DocDevice : Type 0 where
  pub id : Text
  pub name : Text
  pub token_hash : Text
  pub created_at : ℕ
  pub last_seen : ℕ
  pub hostname : Text
  pub version : Text
  pub peer_access : Text
  pub letter : Text

pub record DocSub : Type 0 where
  pub id : ℕ
  pub email : Text
  pub endpoint : Text
  pub p256dh : Text
  pub auth : Text
  pub created_at : ℕ

pub record StateDoc : Type 0 where
  pub devices : List DocDevice
  pub kv : List (Text × Text)
  pub subs : List DocSub
  pub next_sub_id : ℕ

-- What a change or a call of the API server may report in place of a document.
pub data Fault : Type 0 where
  no_change duplicate_name duplicate_letter no_rows conflict : Fault
  server : Text → Fault

abbrev pub local_device_id : Text
local_device_id = codes "local"

-- Five minutes.
abbrev pub touch_every : ℕ
touch_every = 300000

-- The map of the document, the latest binding first.
unfoldable pub lookup : Text → List (Text × Text) → Option Text
lookup k [] = none
lookup k (b ∷ kv) = if text_eq b.0 k then some b.1 else lookup k kv

unfoldable pub device : Text → List DocDevice → Option DocDevice
device id [] = none
device id (d ∷ ds) = if text_eq d.id id then some d else device id ds

-- A write through the pointer that `device` returns: to the first device of that id.
unfoldable pub write_device : Text → (DocDevice → DocDevice) → List DocDevice → List DocDevice
write_device id f [] = []
write_device id f (d ∷ ds) = if text_eq d.id id then f d ∷ ds else d ∷ write_device id f ds

unfoldable pub remove_device : Text → List DocDevice → List DocDevice
remove_device id [] = []
remove_device id (d ∷ ds) = if text_eq d.id id then ds else d ∷ remove_device id ds

unfoldable pub name_taken : Text → Text → List DocDevice → Bool
name_taken name except ds = any (λ x. text_eq x.name name && not (text_eq x.id except)) ds

-- No device has the empty letter in the source's map of used letters.
unfoldable pub used_letters : List DocDevice → Text → Bool
used_letters ds l = any (λ x. not (is_empty x.letter) && text_eq x.letter l) ds

unfoldable pub letter_taken : Text → Text → List DocDevice → Bool
letter_taken id letter ds = any (λ o. not (text_eq o.id id) && text_eq o.letter letter) ds

unfoldable pub put_kv : Text → Text → StateDoc → Result Fault StateDoc
unfolding lookup
put_kv k v d =
    if elim (lookup k d.kv) [ none ↦ false | some cur ↦ text_eq cur v ]
    then err no_change
    else ok (record d { kv = (k, v) ∷ d.kv })

-- The value that `secret` returns, with the change.
unfoldable pub secret : Text → Text → StateDoc → Text × Result Fault StateDoc
unfolding lookup
secret k generated d = elim (lookup k d.kv) [
  | some cur ↦ (cur, err no_change)
  | none ↦ (generated, ok (record d { kv = (k, generated) ∷ d.kv }))
]

-- `id`, the hash of the token and the time are made before the change.
abbrev pub new_doc_device : Text → Text → Text → ℕ → Text → DocDevice
new_doc_device id name token_hash now letter = record {
  id = id;
  name = name;
  token_hash = token_hash;
  created_at = now;
  last_seen = 0;
  hostname = [];
  version = [];
  peer_access = [];
  letter = letter;
}

unfoldable pub create_device : Text → Text → Text → ℕ → StateDoc → DocDevice × Result Fault StateDoc
unfolding name_taken used_letters
create_device id name token_hash now d =
    if name_taken name [] d.devices
    then (new_doc_device id name token_hash now [], err duplicate_name)
    else (let nd = new_doc_device id name token_hash now (next_letter (used_letters d.devices)) in
        (nd, ok (record d { devices = d.devices ++ nd ∷ [] })))

-- `x := d.device(id); if x == nil { return missing }`, and what follows.
unfoldable pub on_device :
    Text → Fault → (DocDevice → Result Fault StateDoc) → StateDoc → Result Fault StateDoc
unfolding device
on_device id missing body d = elim (device id d.devices) [ none ↦ err missing | some x ↦ body x ]

abbrev pub written : Text → (DocDevice → DocDevice) → StateDoc → Result Fault StateDoc
written id f d = ok (record d { devices = write_device id f d.devices })

unfoldable pub rotate_token : Text → Text → StateDoc → Result Fault StateDoc
unfolding on_device write_device
rotate_token id token_hash d =
    on_device id no_rows (λ x. written id (λ y. record y { token_hash = token_hash }) d) d

unfoldable pub delete_device : Text → StateDoc → Result Fault StateDoc
unfolding on_device remove_device
delete_device id d =
    on_device id no_rows (λ x. ok (record d { devices = remove_device id d.devices })) d

unfoldable pub rename_device : Text → Text → StateDoc → Result Fault StateDoc
unfolding on_device write_device name_taken
rename_device id name d =
    on_device id no_rows
      (λ x.
        if name_taken name id d.devices
        then err duplicate_name
        else written id (λ y. record y { name = name }) d)
      d

unfoldable pub touch_device : Text → Text → Text → ℕ → StateDoc → Result Fault StateDoc
unfolding on_device write_device
touch_device id hostname version now d =
    on_device id no_change
      (λ x.
        if text_eq x.hostname hostname
          && text_eq x.version version
          && ltb (now - x.last_seen) touch_every
        then err no_change
        else written id (λ y. record y { last_seen = now; hostname = hostname; version = version })
            d)
      d

unfoldable pub set_peer_access : Text → Text → StateDoc → Result Fault StateDoc
unfolding on_device write_device
set_peer_access id access d =
    on_device id no_rows (λ x. written id (λ y. record y { peer_access = access }) d) d

unfoldable pub set_letter : Text → Text → StateDoc → Result Fault StateDoc
unfolding on_device write_device letter_taken
set_letter id letter d =
    on_device id no_rows
      (λ x.
        if letter_taken id letter d.devices
        then err duplicate_letter
        else written id (λ y. record y { letter = letter }) d)
      d

-- The length of a rune in bytes.
unfoldable pub rune_len : ℕ → ℕ
rune_len c = if ltb c 0x80 then 1 else if ltb c 0x800 then 2 else if ltb c 0x10000 then 3 else 4

unfoldable pub byte_length : Text → ℕ
unfolding rune_len
byte_length [] = 0
byte_length (c ∷ s) = rune_len c + byte_length s

unfoldable pub valid_name : Text → Bool
unfolding byte_length
valid_name name =
    not (is_empty name)
    && leb (byte_length name) 64
    && not (any (λ c. (c == 0) || (c == 13) || (c == 10)) name)

-- The device that is returned, with the change.
unfoldable pub ensure_local_device : Text → Text → ℕ → StateDoc → DocDevice × Result Fault StateDoc
unfolding device write_device valid_name
ensure_local_device given token_hash now d =
    let name = if valid_name given then given else codes "this machine" in
    elim (device local_device_id d.devices) [
      | some x ↦
          (record x { name = name }, written local_device_id (λ y. record y { name = name }) d)
      | none ↦
          (let nd = new_doc_device local_device_id name token_hash now [] in
            (nd, ok (record d { devices = d.devices ++ nd ∷ [] })))
    ]
