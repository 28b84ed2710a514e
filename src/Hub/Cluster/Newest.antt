-- ===== src/Hub/Cluster/Newest.antt =====
-- internal/hub/cluster.go and hub.go: a device that connects to one replica after another, and the drops
-- that the replicas send one another, in any order. A replica is a number.
use ccdash.Prelude.{
  ℕ, ◌≤◌, ◌<◌, ◌≡◌, sym, ◌∙◌, ap, subst, ◌⊎◌, inl, inr, Bool, true, false, ◌&&◌, not, Option, none,
  some, ltb, ◌==◌, ==_iff, if◌then◌else◌, Bool-cases, lt→ltb, and_first, and_second, arith,
  true-ne-false,
}
use mathlib.Core.Option.{some-injective, some-ne-none}
use ccdash.Hub.Cluster.{handle_drop}

-- Since when each replica holds the device's tunnel, the newest of all connections so far, and the drops on
-- their way: to which replica, for which connection.
pub record Replicas : Type 0 where
  pub held : ℕ → Option ℕ
  pub newest : ℕ
  pub drops : ℕ → ℕ → Bool

unfoldable pub hold : ℕ → Option ℕ → (ℕ → Option ℕ) → ℕ → Option ℕ
hold i v held j = if j == i then v else held j

-- serveDevice: the new tunnel takes the place of the old one here, and a drop goes to every other of the
-- `n` replicas.
unfoldable pub serve_device : ℕ → ℕ → ℕ → Replicas → Replicas
unfolding hold
serve_device n i t r = record {
  held = hold i (some t) r.held;
  newest = t;
  drops = λ j u. if ltb j n && not (j == i) && (u == t) then true else r.drops j u;
}

-- handleDrop: a drop that arrives at a replica.
unfoldable pub receive : ℕ → ℕ → Replicas → Replicas
unfolding hold handle_drop
receive j t r = record r {
  held = hold j (handle_drop (some t) (r.held j)) r.held;
  drops = λ k u. if (k == j) && (u == t) then false else r.drops k u;
}

unfoldable pub lose : ℕ → Replicas → Replicas
unfolding hold
lose i r = record r { held = hold i none r.held }

-- A device connects after all its connections before, a drop on its way arrives, or a tunnel closes.
pub data Step (n : ℕ) (r : Replicas) : Replicas → Type 0 where
  connect : (i t : ℕ) → i < n → r.newest < t → Step n r (serve_device n i t r)
  arrive : (j t : ℕ) → r.drops j t ≡ true → Step n r (receive j t r)
  close : (i : ℕ) → Step n r (lose i r)

pub data Run (n : ℕ) (r : Replicas) : Replicas → Type 0 where
  here : Run n r r
  next : {s u : Replicas} → Run n r s → Step n s u → Run n r u

-- Every tunnel but the newest has a drop on its way.
pub record IsDropping (n : ℕ) (r : Replicas) : Type 0 where
  pub inside : (j s : ℕ) → r.held j ≡ some s → j < n
  pub old :
      (j s : ℕ) → r.held j ≡ some s → (s ≡ r.newest) ⊎ ((t : ℕ) × (r.drops j t ≡ true) × (s < t))
  pub bound : (j s : ℕ) → r.held j ≡ some s → s ≤ r.newest
  pub one : (j k : ℕ) → r.held j ≡ some r.newest → r.held k ≡ some r.newest → j ≡ k

hold-some :
    (i : ℕ) (v : Option ℕ) (held : ℕ → Option ℕ) (j s : ℕ)
    → hold i v held j ≡ some s
    → ((j ≡ i) × (v ≡ some s)) ⊎ (((j == i) ≡ false) × (held j ≡ some s))
unfolding hold
hold-some i v held j s h = elim (Bool-cases (j == i)) [
  | inl same ↦ inl ((==_iff j i).0 same, rw (same, hold) at h)
  | inr other ↦ inr (other, rw (other, hold) at h)
]

serve_device-IsDropping :
    (n i t : ℕ) (r : Replicas)
    → i < n
    → r.newest < t
    → IsDropping n r
    → IsDropping n (serve_device n i t r)
unfolding serve_device
serve_device-IsDropping n i t r known newer p = record {
  inside = λ j s h. elim (hold-some i (some t) r.held j s h) [
    | inl (same, v) ↦ subst (λ x. x < n) (sym same) known
    | inr (other, had) ↦ p.inside j s had
  ];
  old = λ j s h. elim (hold-some i (some t) r.held j s h) [
    | inl (same, v) ↦ inl (sym (some-injective t s v))
    | inr (other, had) ↦ inr (t, sent j (p.inside j s had) other, below s (p.bound j s had))
  ];
  bound = λ j s h. elim (hold-some i (some t) r.held j s h) [
    | inl (same, v) ↦ at_most s (some-injective t s v)
    | inr (other, had) ↦ lower s (p.bound j s had)
  ];
  one = λ j k h h'. elim (hold-some i (some t) r.held j t h) [
    | inr (other, had) ↦ absurd (no_later (p.bound j t had))
    | inl (same, v) ↦ elim (hold-some i (some t) r.held k t h') [
      | inr (other, had) ↦ absurd (no_later (p.bound k t had))
      | inl (same', v') ↦ same ∙ sym same'
    ]
  ];
}
  where
    sent :
        (j : ℕ)
        → j < n
        → (j == i) ≡ false
        → (if ltb j n && not (j == i) && (t == t) then true else r.drops j t) ≡ true
    sent j one other = ground (arith, one, other)

    below : (s : ℕ) → s ≤ r.newest → s < t
    below s h = omega arith

    lower : (s : ℕ) → s ≤ r.newest → s ≤ t
    lower s h = omega arith

    at_most : (s : ℕ) → t ≡ s → s ≤ t
    at_most s e = omega arith

    no_later : t ≤ r.newest → ⊥
    no_later h = omega arith

handle_drop-some :
    (t s : ℕ) (o : Option ℕ) → handle_drop (some t) o ≡ some s → (o ≡ some s) × (ltb s t ≡ false)
unfolding handle_drop
handle_drop-some t s none h = absurd (some-ne-none s (sym h))
handle_drop-some t s (some own) h = elim (Bool-cases (ltb own t)) [
  | inl older ↦ absurd (some-ne-none s (sym (rw older at h)))
  | inr newer ↦
      let same = some-injective own s (rw newer at h) in
      (ap some same, subst (λ x. ltb x t ≡ false) same newer)
]

-- What a replica holds after a drop, it held before, and the drop was not for it if it is older.
receive-some :
    (j t : ℕ) (r : Replicas) (k s : ℕ)
    → (receive j t r).held k ≡ some s
    → (r.held k ≡ some s) × ((k ≡ j) → ltb s t ≡ false)
unfolding receive
receive-some j t r k s h = elim (hold-some j (handle_drop (some t) (r.held j)) r.held k s h) [
  | inl (same, v) ↦
      let kept = handle_drop-some t s (r.held j) v in (ap r.held same ∙ kept.0, λ _. kept.1)
  | inr (other, had) ↦ (had, λ same. absurd (true-ne-false (sym ((==_iff k j).1 same) ∙ other)))
]

receive-IsDropping : (n j t : ℕ) (r : Replicas) → IsDropping n r → IsDropping n (receive j t r)
unfolding receive
receive-IsDropping n j t r p = record {
  inside = λ k s h. p.inside k s (receive-some j t r k s h).0;
  old = λ k s h.
      let before = receive-some j t r k s h in
      elim (p.old k s before.0) [
        | inl newest ↦ inl newest
        | inr (u, sent, lt) ↦ elim (Bool-cases ((k == j) && (u == t))) [
          | inr other ↦ inr (u, rw other sent, lt)
          | inl this ↦ absurd (not_older k u s this lt before.1)
        ]
      ];
  bound = λ k s h. p.bound k s (receive-some j t r k s h).0;
  one = λ k k' h h'. p.one k k' (receive-some j t r k _ h).0 (receive-some j t r k' _ h').0;
}
  where
    not_older : (k u s : ℕ) → (k == j) && (u == t) ≡ true → s < u → ((k ≡ j) → ltb s t ≡ false) → ⊥
    not_older k u s this lt kept = true-ne-false (
        sym
          (lt→ltb s t (subst (λ x. s < x) ((==_iff u t).0 (and_second (k == j) (u == t) this)) lt))
        ∙ kept ((==_iff k j).0 (and_first (k == j) (u == t) this)))

lose-some : (i : ℕ) (r : Replicas) (k s : ℕ) → (lose i r).held k ≡ some s → r.held k ≡ some s
unfolding lose
lose-some i r k s h = elim (hold-some i none r.held k s h) [
  | inl (same, v) ↦ absurd (some-ne-none s (sym v))
  | inr (other, had) ↦ had
]

lose-IsDropping : (n i : ℕ) (r : Replicas) → IsDropping n r → IsDropping n (lose i r)
unfolding lose
lose-IsDropping n i r p = record {
  inside = λ k s h. p.inside k s (lose-some i r k s h);
  old = λ k s h. p.old k s (lose-some i r k s h);
  bound = λ k s h. p.bound k s (lose-some i r k s h);
  one = λ k k' h h'. p.one k k' (lose-some i r k _ h) (lose-some i r k' _ h');
}

Run-IsDropping : {n : ℕ} {r s : Replicas} → IsDropping n r → Run n r s → IsDropping n s
Run-IsDropping p here = p
Run-IsDropping p (next run (connect i t known newer)) =
    serve_device-IsDropping _ i t _ known newer (Run-IsDropping p run)
Run-IsDropping p (next run (arrive j t sent)) = receive-IsDropping _ j t _ (Run-IsDropping p run)
Run-IsDropping p (next run (close i)) = lose-IsDropping _ i _ (Run-IsDropping p run)

-- No replica has the device yet.
abbrev pub start : Replicas
start = record { held = λ j. none; newest = 0; drops = λ j t. false }

start-IsDropping : (n : ℕ) → IsDropping n start
start-IsDropping n = record {
  inside = λ j s h. absurd (some-ne-none s (sym h));
  old = λ j s h. absurd (some-ne-none s (sym h));
  bound = λ j s h. absurd (some-ne-none s (sym h));
  one = λ j k h h'. absurd (some-ne-none 0 (sym h));
}

-- If a device connects to any of the replicas, each time later than before, tunnels close at any
-- time, and the drops that the replicas send one another arrive in any order, then whenever no drop
-- is on its way, at most one replica holds the device's tunnel, and it is that of the newest
-- connection.
pub Run-one :
    (n : ℕ) (r : Replicas) (j k s s' : ℕ)
    → Run n start r
    → ((i t : ℕ) → r.drops i t ≡ false)
    → r.held j ≡ some s
    → r.held k ≡ some s'
    → (j ≡ k) × (s ≡ r.newest)
Run-one n r j k s s' run quiet h h' =
    let p = Run-IsDropping (start-IsDropping n) run in
    (p.one j k (h ∙ ap some (newest p j s h)) (h' ∙ ap some (newest p k s' h')), newest p j s h)
  where
    newest : IsDropping n r → (i u : ℕ) → r.held i ≡ some u → u ≡ r.newest
    newest p i u held = elim (p.old i u held) [
      | inl e ↦ e
      | inr (t, sent, lt) ↦ absurd (true-ne-false (sym sent ∙ quiet i t))
    ]
