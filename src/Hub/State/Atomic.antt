-- ===== src/Hub/State/Atomic.antt =====
-- internal/hub/k8sstore.go: against an API server that guards a write by the version, a change is one
-- step on the shared document.
use ccdash.Prelude.{
  ℕ, zero, suc, ◌≡◌, refl, sym, ◌∙◌, ap, subst, ◌⊎◌, inl, inr, ◌||◌, not, none, some, Text, leb,
  Option-cases, arith, Bool-cases, text_eq, text_eq_refl, if◌then◌else◌, Result, ok, err,
  ok-injective, ok-ne-err, Result-cases, Bool,
}
use mathlib.Core.Option.{some-injective, some-ne-none}
use ccdash.Hub.State.{
  StateDoc, lookup, secret, Fault, no_change, duplicate_name, duplicate_letter, no_rows, conflict,
  server,
}
use ccdash.Hub.State.Mutate.{
  SecretApi, Replica, Run, is_no_change, is_conflict, refresh, mutate_from, mutate,
  mutate_from_total, shared_secret,
}

-- What the API server documents: a version names one document for ever, a read gives the document that
-- its version names, and a write succeeds only on the version that is stored, and is stored then.
pub record Guarded {W : Type 0} (api : SecretApi W) : Type 1 where
  pub Names : W → Text → StateDoc → Type 0
  pub stored : W → StateDoc
  pub unique : (w : W) (v : Text) (d d' : StateDoc) → Names w v d → Names w v d' → d ≡ d'
  pub get_named : (w : W) (d : StateDoc) (v : Text) → api.get_state w ≡ ok (d, v) → Names w v d
  pub put_current :
      (d : StateDoc) (v v' : Text) (w : W) → (api.put_state d v w).1 ≡ ok v' → Names w v (stored w)
  pub put_stored :
      (d : StateDoc) (v v' : Text) (w : W)
      → (api.put_state d v w).1 ≡ ok v'
      → stored (api.put_state d v w).0 ≡ d
  pub put_named :
      (d : StateDoc) (v v' : Text) (w : W)
      → (api.put_state d v w).1 ≡ ok v'
      → Names (api.put_state d v w).0 v' d
  pub put_keeps :
      (d d' : StateDoc) (v v' : Text) (w : W) → Names w v' d' → Names (api.put_state d v w).0 v' d'
  pub others_keep : (w : W) (v : Text) (d : StateDoc) → Names w v d → Names (api.others w) v d

failed_some : (e : Fault) → some e ≡ none → ⊥
failed_some e h = some-ne-none e h

silent : (e : Fault) → (if is_no_change e then none else some e) ≡ none → e ≡ no_change
silent no_change h = refl
silent duplicate_name h = absurd (some-ne-none _ h)
silent duplicate_letter h = absurd (some-ne-none _ h)
silent no_rows h = absurd (some-ne-none _ h)
silent conflict h = absurd (some-ne-none _ h)
silent (server m) h = absurd (some-ne-none _ h)

secret_kept :
    (k v : Text) (d : StateDoc) (x : Text)
    → secret k v d ≡ (x, err no_change)
    → lookup k d.kv ≡ some x
unfolding secret
secret_kept k v d x h = elim (Option-cases (lookup k d.kv)) [
  | inr (cur, found) ↦ found ∙ ap (λ r. some r.0) (rw (found, secret) at h)
  | inl missing ↦ absurd (ok-ne-err (ap (λ r. r.1) (rw (missing, secret) at h)))
]

secret_made :
    (k v : Text) (d d' : StateDoc) (x : Text) → secret k v d ≡ (x, ok d') → lookup k d'.kv ≡ some x
unfolding secret lookup
secret_made k v d d' x h = elim (Option-cases (lookup k d.kv)) [
  | inr (cur, found) ↦ absurd (ok-ne-err (sym (ap (λ r. r.1) (rw (found, secret) at h))))
  | inl missing ↦
      let same = rw (missing, secret) at h in
      rw (sym (ok-injective (ap (λ r. r.1) same)), lookup, text_eq_refl k) (ap (λ r. some r.0) same)
]

module _ {W : Type 0} (api : SecretApi W) (g : Guarded api) where
  -- The change asked for none on the replica's copy, or was one write: of what its function makes of
  -- the document that is stored at that moment.
  abbrev pub IsAtomic : {A : Type 0} → (ℕ → StateDoc → A × Result Fault StateDoc) → Run W A → Type 0
  IsAtomic fn r =
      ((k : ℕ) × (fn k r.replica.doc ≡ (r.value, err no_change)))
      ⊎ ((k : ℕ) × (w : W) × (fn k (g.stored w) ≡ (r.value, ok (g.stored r.world)))
          × (r.replica.doc ≡ g.stored r.world))

  -- With it, the copy is still what its version names.
  abbrev pub IsStep : {A : Type 0} → (ℕ → StateDoc → A × Result Fault StateDoc) → Run W A → Type 0
  IsStep fn r = IsAtomic fn r × g.Names r.world r.replica.rv r.replica.doc

  refresh_named :
      (s : Replica) (w : W) (r : Replica × Bool)
      → g.Names w s.rv s.doc
      → refresh api s w ≡ ok r
      → g.Names w r.0.rv r.0.doc
  unfolding refresh
  refresh_named s w r named h = elim (Result-cases (api.get_state w)) [
    | inr (e, bad) ↦ absurd (ok-ne-err (sym (rw (bad, refresh) at h)))
    | inl (got, good) ↦ elim (Bool-cases (text_eq got.1 s.rv)) [
      | inl same ↦
          subst (λ x. g.Names w x.0.rv x.0.doc) (ok-injective (rw (good, same, refresh) at h)) named
      | inr other ↦
          subst (λ x. g.Names w x.0.rv x.0.doc) (ok-injective (rw (good, other, refresh) at h))
            (g.get_named w got.0 got.1 good)
    ]
  ]

  mutate_from_atomic :
      {A : Type 0} (fn : ℕ → StateDoc → A × Result Fault StateDoc) (fuel attempt : ℕ) (s : Replica)
      (w : W) (r : Run W A)
      → g.Names w s.rv s.doc
      → mutate_from api fn fuel attempt s w ≡ some r
      → r.failed ≡ none
      → IsStep fn r
  unfolding mutate_from
  mutate_from_atomic fn zero attempt s w r named h clean = absurd (some-ne-none r (sym h))
  mutate_from_atomic fn (suc fuel) attempt s w r named h clean =
      let w0 = api.others w in
      elim (Result-cases (fn attempt s.doc).1) [
        | inr (e, bad) ↦
            let same = some-injective _ r (rw (bad, mutate_from) at h) in
            let quiet = silent e (ap (λ x. x.failed) same ∙ clean) in
            subst (IsStep fn) same
              (inl (attempt, ap (λ x. ((fn attempt s.doc).0, x)) (bad ∙ ap err quiet)), named)
        | inl (doc, good) ↦ elim (Result-cases (api.put_state doc s.rv w0).1) [
          | inl (rv, put) ↦
              let current =
                g.unique w0 s.rv s.doc (g.stored w0) (g.others_keep w s.rv s.doc named)
                  (g.put_current doc s.rv rv w0 put) in
              let stored = g.put_stored doc s.rv rv w0 put in
              subst (IsStep fn) (some-injective _ r (rw (good, put, mutate_from) at h)) (
                inr (
                  attempt,
                  w0,
                  ap (fn attempt) (sym current)
                      ∙ ap (λ x. ((fn attempt s.doc).0, x)) (good ∙ ap ok (sym stored)),
                  sym stored,
                ),
                g.put_named doc s.rv rv w0 put,
              )
          | inr (e, bad) ↦ elim (Bool-cases (not (is_conflict e) || leb 8 attempt)) [
            | inl last ↦ absurd (
                failed_some e (
                  ap (λ x. x.failed) (some-injective _ r (rw (good, bad, last, mutate_from) at h))
                  ∙ clean))
            | inr again ↦
                let w2 = api.others (api.put_state doc s.rv w0).0 in
                elim (Result-cases (refresh api s w2)) [
                  | inr (e', lost) ↦ absurd (
                      failed_some e' (
                        ap (λ x. x.failed)
                          (some-injective _ r (rw (good, bad, again, lost, mutate_from) at h))
                        ∙ clean))
                  | inl (s', read) ↦
                      mutate_from_atomic fn fuel (suc attempt) s'.0 w2 r
                        (refresh_named s w2 s'
                          (g.others_keep _ _ _
                            (g.put_keeps doc s.doc s.rv s.rv w0 (g.others_keep w s.rv s.doc named)))
                          read)
                        (rw (good, bad, again, read, mutate_from) at h) clean
                ]
          ]
        ]
      ]

  -- Against an API server that guards a write by its version, a replica whose copy is what its
  -- version names always ends a change: with an error; or with its function asking for no change on
  -- the copy; or as one step of the shared document, in which the function was given the document
  -- that was stored at that moment and what it made of it is stored and is the copy now. Without an
  -- error the copy is again what its version names, whatever the other replicas write in between.
  pub mutate_refines :
      {A : Type 0} (fn : ℕ → StateDoc → A × Result Fault StateDoc) (s : Replica) (w : W)
      → g.Names w s.rv s.doc
      → (r : Run W A) × (mutate api fn s w ≡ some r)
        × (((e : Fault) × (r.failed ≡ some e)) ⊎ IsStep fn r)
  unfolding mutate
  mutate_refines fn s w named =
      let done = mutate_from_total api fn 9 0 s w (omega arith) (omega arith) in
      elim (Option-cases done.0.failed) [
        | inl clean ↦
            (done.0, done.1, inr (mutate_from_atomic fn 9 0 s w done.0 named done.1 clean))
        | inr failed ↦ (done.0, done.1, inl failed)
      ]

  -- Against an API server that guards a write by its version, a replica that is given a shared
  -- secret without an error, made by it or by another replica, has a copy of the document that is
  -- what its version names, and that holds this value under the key.
  pub shared_secret_stored :
      (k : Text) (gen : ℕ → Text) (s : Replica) (w : W) (r : Run W Text)
      → g.Names w s.rv s.doc
      → shared_secret api k gen s w ≡ some r
      → r.failed ≡ none
      → (lookup k r.replica.doc.kv ≡ some r.value) × g.Names r.world r.replica.rv r.replica.doc
  unfolding shared_secret mutate
  shared_secret_stored k gen s w r named h clean = elim (Option-cases (lookup k s.doc.kv)) [
    | inr (v, found) ↦
        let same = some-injective _ r (rw (found, shared_secret) at h) in
        subst
          (λ x.
            (lookup k x.replica.doc.kv ≡ some x.value) × g.Names x.world x.replica.rv x.replica.doc)
          same (found, named)
    | inl missing ↦
        let fn = λ (attempt : ℕ) (d : StateDoc). secret k (gen attempt) d in
        let step =
          mutate_from_atomic fn 9 0 s w r named (rw (missing, shared_secret, mutate) at h) clean in
        (
          elim step.0 [
            | inl (n, kept) ↦ secret_kept k (gen n) r.replica.doc r.value kept
            | inr (n, w', made, here) ↦
                rw here (secret_made k (gen n) (g.stored w') (g.stored r.world) r.value made)
          ],
          step.1,
        )
  ]
