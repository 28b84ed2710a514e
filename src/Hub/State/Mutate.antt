-- ===== src/Hub/State/Mutate.antt =====
-- internal/hub/k8sstore.go: how a replica of the hub keeps its copy of the document and writes a change
-- back. The API server is a parameter: its two calls, and what else happens to it until the next call.
use ccdash.Prelude.{
  ℕ, zero, suc, ◌+◌, ◌-◌, ◌≤◌, ◌≡◌, refl, inl, inr, Bool, true, false, ◌||◌, not, List, [], ◌∷◌,
  Option, none, some, Text, text_eq, leb, ltb, if◌then◌else◌, Bool-cases, Result, ok, err,
  Result-cases, arith,
}
use ccdash.Hub.State.{DocDevice, StateDoc, Fault, no_change, conflict, no_rows, lookup, secret}

pub record SecretApi (W : Type 0) : Type 0 where
  pub get_state : W → Result Fault (StateDoc × Text)
  pub put_state : StateDoc → Text → W → W × Result Fault Text
  -- The writes of the other replicas, and the time that passes.
  pub others : W → W
  pub clock : W → ℕ

-- A replica's copy, the version that the server gave it, and when it was read.
pub record Replica : Type 0 where
  pub doc : StateDoc
  pub rv : Text
  pub loaded_at : ℕ

abbrev pub is_no_change : Fault → Bool
is_no_change no_change = true
is_no_change _ = false

abbrev pub is_conflict : Fault → Bool
is_conflict conflict = true
is_conflict _ = false

-- What a change leaves: the world, the copy, what its function last gave, the error.
pub record Run (W A : Type 0) : Type 0 where
  pub world : W
  pub replica : Replica
  pub value : A
  pub failed : Option Fault

module _ {W : Type 0} (api : SecretApi W) where
  -- The copy afterwards, and whether another replica's write came in.
  unfoldable pub refresh : Replica → W → Result Fault (Replica × Bool)
  refresh s w = elim (api.get_state w) [
    | err e ↦ err e
    | ok got ↦
        if text_eq got.1 s.rv
        then ok (record s { loaded_at = api.clock w }, false)
        else ok (record { doc = got.0; rv = got.1; loaded_at = api.clock w }, true)
  ]

  -- The attempts from number `attempt` on; `none` where the fuel is used up.
  unfoldable pub mutate_from :
      {A : Type 0}
      → (ℕ → StateDoc → A × Result Fault StateDoc)
      → ℕ
      → ℕ
      → Replica
      → W
      → Option (Run W A)
  unfolding refresh
  mutate_from fn zero attempt s w = none
  mutate_from fn (suc fuel) attempt s w =
      let a = (fn attempt s.doc).0 in
      elim (fn attempt s.doc).1 [
        | err e ↦ some (record {
          world = w;
          replica = s;
          value = a;
          failed = if is_no_change e then none else some e;
        })
        | ok doc ↦
            let w1 = (api.put_state doc s.rv (api.others w)).0 in
            elim (api.put_state doc s.rv (api.others w)).1 [
              | ok rv ↦ some (record {
                world = w1;
                replica = record { doc = doc; rv = rv; loaded_at = api.clock w1 };
                value = a;
                failed = none;
              })
              | err e ↦ elim (not (is_conflict e) || leb 8 attempt) [
                | true ↦ some (record { world = w1; replica = s; value = a; failed = some e })
                | false ↦ elim (refresh s (api.others w1)) [
                  | err e' ↦
                      some
                        (record { world = api.others w1; replica = s; value = a; failed = some e' })
                  | ok r ↦ mutate_from fn fuel (suc attempt) r.0 (api.others w1)
                ]
              ]
            ]
      ]

  unfoldable pub mutate :
      {A : Type 0} → (ℕ → StateDoc → A × Result Fault StateDoc) → Replica → W → Option (Run W A)
  unfolding mutate_from
  mutate fn s w = mutate_from fn 9 0 s w

  -- A change that gives nothing but the document.
  abbrev pub only :
      (StateDoc → Result Fault StateDoc) → ℕ → StateDoc → Unit {0} × Result Fault StateDoc
  only fn attempt d = (tt, fn d)

  -- The value under a key, made by `gen` at an attempt that finds none.
  unfoldable pub shared_secret : Text → (ℕ → Text) → Replica → W → Option (Run W Text)
  unfolding mutate lookup secret
  shared_secret k gen s w = elim (lookup k s.doc.kv) [
    | some v ↦ some (record { world = w; replica = s; value = v; failed = none })
    | none ↦ mutate (λ attempt d. secret k (gen attempt) d) s w
  ]

  unfoldable pub find_token : Text → List DocDevice → Option DocDevice
  find_token h [] = none
  find_token h (x ∷ xs) = if text_eq x.token_hash h then some x else find_token h xs

  -- The device of a token's hash, after a refresh where the copy has none and is over half a second
  -- old.
  unfoldable pub device_by_token : Text → Replica → W → Replica × Result Fault DocDevice
  unfolding refresh find_token
  device_by_token h s w = elim (find_token h s.doc.devices) [
    | some d ↦ (s, ok d)
    | none ↦ elim (ltb 500 (api.clock w - s.loaded_at)) [
      | false ↦ (s, err no_rows)
      | true ↦ elim (refresh s w) [
        | err e ↦ (s, err no_rows)
        | ok r ↦ elim (find_token h r.0.doc.devices) [
          | some d ↦ (r.0, ok d)
          | none ↦ (r.0, err no_rows)
        ]
      ]
    ]
  ]

  -- Whatever the server does, the attempts of a change from number 0 to 8 on come to an end with as
  -- many rounds as are left of nine.
  pub mutate_from_total :
      {A : Type 0} (fn : ℕ → StateDoc → A × Result Fault StateDoc) (fuel attempt : ℕ) (s : Replica)
      (w : W)
      → 9 ≤ attempt + fuel
      → attempt ≤ 8
      → (r : Run W A) × (mutate_from fn fuel attempt s w ≡ some r)
  unfolding mutate_from
  mutate_from_total fn zero attempt s w h k = absurd (omega arith)
  mutate_from_total fn (suc fuel) attempt s w h k = elim (Result-cases (fn attempt s.doc).1) [
    | inr (e, bad) ↦ rw (bad, mutate_from) (_, refl)
    | inl (doc, good) ↦ elim (Result-cases (api.put_state doc s.rv (api.others w)).1) [
      | inl (rv, put) ↦ rw (good, put, mutate_from) (_, refl)
      | inr (e, bad) ↦ elim (Bool-cases (not (is_conflict e) || leb 8 attempt)) [
        | inl last ↦ rw (good, bad, last, mutate_from) (_, refl)
        | inr again ↦
            let w2 = api.others (api.put_state doc s.rv (api.others w)).0 in
            elim (Result-cases (refresh s w2)) [
              | inr (e', lost) ↦ rw (good, bad, again, lost, mutate_from) (_, refl)
              | inl (r, read) ↦
                  rw (good, bad, again, read, mutate_from)
                    (mutate_from_total fn fuel (suc attempt) r.0 w2 (omega arith) (ground arith))
            ]
      ]
    ]
  ]
