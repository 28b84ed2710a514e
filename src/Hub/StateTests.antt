-- ===== src/Hub/StateTests.antt =====
-- Runs of the hub's state document, on a server that keeps every version it has had.
use ccdash.Prelude.{
  ℕ, suc, ◌≤◌, ◌≡◌, refl, sym, ◌⊎◌, ◌∙◌, ap, subst, inl, inr, Bool, true, List, [], ◌∷◌, ◌++◌,
  Option, none, some, Text, codes, text_eq, text_eq_iff, text_eq_refl, is_empty, length, ltb,
  if◌then◌else◌, Bool-cases, Result, ok, err, ok-injective, ok-ne-err, arith,
}
use mathlib.Core.Option.{some-injective, some-ne-none}
use ccdash.Hub.Letters.{next_letter, capitals, singles, unused, valid_letter, is_capital}
use ccdash.Hub.State.{
  StateDoc, Fault, conflict, duplicate_name, duplicate_letter, device, set_letter, letter_taken,
  on_device, new_doc_device, secret, lookup, create_device, name_taken, used_letters,
}
use ccdash.Hub.State.Mutate.{
  SecretApi, Replica, Run, mutate, mutate_from, mutate_from_total, refresh, shared_secret,
}
use ccdash.Hub.State.SubsSound.{IsSound}
use ccdash.Hub.State.Edits.{Edits-IsSound, here, next, created}
use ccdash.Hub.State.Atomic.{Guarded, IsStep, mutate_refines, shared_secret_stored}

abbrev empty_doc : StateDoc
empty_doc = record { devices = []; kv = []; subs = []; next_sub_id = 0 }

-- What another replica has written.
abbrev busy_doc : StateDoc
busy_doc = record {
  devices = new_doc_device (codes "aa") (codes "mac") (codes "h1") 5 (codes "A") ∷ [];
  kv = (codes "cookie_key", codes "k1") ∷ [];
  subs = [];
  next_sub_id = 0;
}

abbrev Versions : Type 0
Versions = List StateDoc

abbrev latest : Versions → StateDoc
latest [] = empty_doc
latest (d ∷ w) = d

abbrev version : Versions → Text
version [] = []
version (d ∷ w) = b'v' ∷ version w

abbrev doc_at : Versions → Text → Option StateDoc
doc_at [] v = if is_empty v then some empty_doc else none
doc_at (d ∷ w) v = if text_eq v (version (d ∷ w)) then some d else doc_at w v

abbrev server_api : SecretApi Versions
server_api = record {
  get_state = λ w. ok (latest w, version w);
  put_state =
      λ d v w. if text_eq v (version w) then (d ∷ w, ok (version (d ∷ w))) else (w, err conflict);
  others = λ w. if ltb (length w) 2 then busy_doc ∷ w else w;
  clock = λ w. 1000;
}

doc_at_version : (w : Versions) → doc_at w (version w) ≡ some (latest w)
doc_at_version [] = refl
doc_at_version (d ∷ w) = rw text_eq_refl refl

length-version : (w : Versions) → length (version w) ≡ length w
length-version [] = refl
length-version (d ∷ w) = ap suc (length-version w)

known_short : (w : Versions) (v : Text) (d : StateDoc) → doc_at w v ≡ some d → length v ≤ length w
known_short [] [] d h = omega arith
known_short [] (c ∷ v) d h = absurd (some-ne-none d (sym h))
known_short (x ∷ w) v d h = elim (Bool-cases (text_eq v (version (x ∷ w)))) [
  | inl same ↦ rw ((text_eq_iff v (version (x ∷ w))).0 same) (omega (arith, length-version w))
  | inr other ↦ omega (arith, known_short w v d (rw other at h))
]

doc_at_more :
    (w : Versions) (x : StateDoc) (v : Text) (d : StateDoc)
    → doc_at w v ≡ some d
    → doc_at (x ∷ w) v ≡ some d
doc_at_more w x v d h = elim (Bool-cases (text_eq v (version (x ∷ w)))) [
  | inl same ↦ absurd (
      omega (
        arith,
        known_short w v d h,
        ap length ((text_eq_iff v (version (x ∷ w))).0 same),
        length-version w,
      ))
  | inr other ↦ rw other h
]

put_cases :
    (d : StateDoc) (v v' : Text) (w : Versions)
    → (server_api.put_state d v w).1 ≡ ok v'
    → (text_eq v (version w) ≡ true) × (v' ≡ version (d ∷ w))
put_cases d v v' w h = elim (Bool-cases (text_eq v (version w))) [
  | inl same ↦ (same, sym (ok-injective (rw same at h)))
  | inr other ↦ absurd (ok-ne-err (sym (rw other at h)))
]

abbrev server_guarded : Guarded server_api
server_guarded = record {
  Names = λ w v d. doc_at w v ≡ some d;
  stored = latest;
  unique = λ w v d d' h k. some-injective d d' (sym h ∙ k);
  get_named = λ w d v h.
      subst (λ (x : StateDoc × Text). doc_at w x.1 ≡ some x.0) (ok-injective h) (doc_at_version w);
  put_current =
      λ d v v' w h. rw ((text_eq_iff v (version w)).0 (put_cases d v v' w h).0) (doc_at_version w);
  put_stored = λ d v v' w h. rw (put_cases d v v' w h).0 refl;
  put_named = λ d v v' w h. let r = put_cases d v v' w h in rw (r.0, r.1) (doc_at_version (d ∷ w));
  put_keeps = λ d d' v v' w h. elim (Bool-cases (text_eq v (version w))) [
    | inl same ↦ rw same (doc_at_more w d v' d' h)
    | inr other ↦ rw other h
  ];
  others_keep = λ w v d h. elim (Bool-cases (ltb (length w) 2)) [
    | inl few ↦ rw few (doc_at_more w busy_doc v d h)
    | inr many ↦ rw many h
  ];
}

-- A replica that has read nothing yet.
abbrev fresh_replica : Replica
fresh_replica = record { doc = empty_doc; rv = []; loaded_at = 0 }

abbrev make_key : ℕ → StateDoc → Text × Result Fault StateDoc
make_key n d = secret (codes "cookie_key") (codes "k2") d

mutate_refines_example :
    (r : Run Versions Text) × (mutate server_api make_key fresh_replica [] ≡ some r)
    × (((e : Fault) × (r.failed ≡ some e)) ⊎ IsStep server_api server_guarded make_key r)
mutate_refines_example = mutate_refines server_api server_guarded make_key fresh_replica [] refl

-- The other replica's key wins: its write comes first.
abbrev key_run : Run Versions Text
key_run = record {
  world = busy_doc ∷ busy_doc ∷ [];
  replica = record { doc = busy_doc; rv = codes "vv"; loaded_at = 1000 };
  value = codes "k1";
  failed = none;
}

key_runs :
    shared_secret server_api (codes "cookie_key") (λ n. codes "k2") fresh_replica [] ≡ some key_run
unfolding shared_secret mutate mutate_from refresh secret lookup text_eq
key_runs = refl

shared_secret_stored_example :
    (lookup (codes "cookie_key") busy_doc.kv ≡ some (codes "k1"))
    × (doc_at (busy_doc ∷ busy_doc ∷ []) (codes "vv") ≡ some busy_doc)
shared_secret_stored_example =
    shared_secret_stored server_api server_guarded (codes "cookie_key") (λ n. codes "k2")
      fresh_replica [] key_run refl key_runs refl

mutate_from_total_example :
    (r : Run Versions Text) × (mutate_from server_api make_key 6 3 fresh_replica [] ≡ some r)
mutate_from_total_example =
    mutate_from_total server_api make_key 6 3 fresh_replica [] (omega arith) (omega arith)

abbrev used_here : Text → Bool
used_here = used_letters busy_doc.devices

second_letter : next_letter used_here ≡ codes "B"
unfolding next_letter unused singles capitals used_letters text_eq
second_letter = refl

abbrev with_linux : StateDoc
with_linux = record busy_doc {
  devices =
      busy_doc.devices
      ++ new_doc_device (codes "bb") (codes "linux") (codes "h2") 7 (codes "B") ∷ [];
}

joined : (create_device (codes "bb") (codes "linux") (codes "h2") 7 busy_doc).1 ≡ ok with_linux
unfolding create_device name_taken next_letter unused singles capitals used_letters text_eq
joined = refl

-- A second device of the name is refused, and so is its letter.
refused_name :
    (create_device (codes "cc") (codes "mac") (codes "h3") 8 with_linux).1 ≡ err duplicate_name
unfolding create_device name_taken text_eq
refused_name = refl

refused_letter : set_letter (codes "bb") (codes "A") with_linux ≡ err duplicate_letter
unfolding set_letter letter_taken on_device device text_eq
refused_letter = refl

busy_IsSound : IsSound busy_doc
unfolding valid_letter is_capital
busy_IsSound = record {
  devices = record {
    ids = (tt, tt);
    names = (tt, tt);
    letters = (tt, tt);
    valid = (refl, tt);
    present = (refl, tt);
  };
  subs = record { endpoints = tt; ids = tt; below = tt };
}

new_id : device (codes "bb") busy_doc.devices ≡ none
unfolding device text_eq
new_id = refl

Edits-IsSound_example : IsSound with_linux
Edits-IsSound_example =
    Edits-IsSound busy_IsSound
      (next here (created (codes "bb") (codes "linux") (codes "h2") 7 new_id refl joined))
