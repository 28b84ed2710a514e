-- ===== src/Collector/Machine/Acts.antt =====
-- internal/db/db.go: what the statements do to the row that a query finds.
use ccdash.Prelude.{
  ℕ, ◌≡◌, refl, ap, ◌∙◌, inl, inr, true, false, List, [], ◌∷◌, ◌++◌, none, some, Text, text_eq,
  text_eq_iff, is_empty, if◌then◌else◌, Bool-cases, arith, true-ne-false, sym, some-value, Option,
}
use ccdash.Collector.Rows.{
  Row, Found, LastSeenMode, merge_row, upsert, update_row, find_row, has_row, clear_attention,
  clear_attention_row, set_wait, wait_row, turn_wait, end_turn,
}
use ccdash.Collector.Marks.{auto_archive, archive_row, is_stale}
use ccdash.Collector.Hooks.{or_same}
use ccdash.Collector.Machine.{only, turn_row, turn_kind, turn_note}

abbrev pub KeepsId : (Row → Row) → Type 0
KeepsId f = (q : Row) → (f q).session_id ≡ q.session_id

pub find_row-session_id :
    (id : Text) (rows : List Row) (r : Row) → find_row id rows ≡ some r → r.session_id ≡ id
unfolding find_row
find_row-session_id id [] r h = ground arith
find_row-session_id id (q ∷ rows) r h = elim (Bool-cases (text_eq q.session_id id)) [
  | inl same ↦
      ap (λ (x : Row). x.session_id) (sym (some-value (rw (same) at h))) ∙ (text_eq_iff _ _).0 same
  | inr other ↦ find_row-session_id id rows r (rw (other) at h)
]

abbrev pub touched : Text → (Row → Row) → Row → Row
touched other f q = if text_eq q.session_id other then f q else q

pub touched-session_id :
    (other : Text) (f : Row → Row) (q : Row)
    → KeepsId f
    → (touched other f q).session_id ≡ q.session_id
touched-session_id other f q keeps = elim (Bool-cases (text_eq q.session_id other)) [
  | inl mine ↦ rw mine (keeps q)
  | inr not_mine ↦ rw not_mine refl
]

pub find_row-update_row :
    (id other : Text) (f : Row → Row) (rows : List Row) (r : Row)
    → KeepsId f
    → find_row id rows ≡ some r
    → find_row id (update_row other f rows) ≡ some (only id other f r)
unfolding find_row update_row
find_row-update_row id other f [] r keeps h = ground arith
find_row-update_row id other f (q ∷ rows) r keeps h = elim (Bool-cases (text_eq q.session_id id)) [
  | inl same ↦
      let q_r : q ≡ r = some-value (rw (same) at h) in
      let q_id : q.session_id ≡ id = (text_eq_iff _ _).0 same in
      rw (touched-session_id other f q keeps, same)
        (ap (λ (x : Text). some (if text_eq x other then f q else q)) q_id
          ∙ ap (λ (x : Row). some (only id other f x)) q_r)
  | inr away ↦
      rw (touched-session_id other f q keeps, away)
        (find_row-update_row id other f rows r keeps (rw (away) at h))
]

find_row-has_row :
    (id : Text) (rows : List Row) (r : Row) → find_row id rows ≡ some r → has_row id rows ≡ true
unfolding find_row
find_row-has_row id [] r h = ground arith
find_row-has_row id (q ∷ rows) r h = ground (arith, find_row-has_row id rows r)

find_row-append :
    (id : Text) (rows more : List Row) (r : Row)
    → find_row id rows ≡ some r
    → find_row id (rows ++ more) ≡ some r
unfolding find_row
find_row-append id [] more r h = ground arith
find_row-append id (q ∷ rows) more r h = elim (Bool-cases (text_eq q.session_id id)) [
  | inl same ↦ rw (same) (rw (same) at h)
  | inr away ↦ rw (away) (find_row-append id rows more r (rw (away) at h))
]

pub find_row-upsert :
    (mode : LastSeenMode) (now : ℕ) (s : Found) (id : Text) (rows : List Row) (r : Row)
    → find_row id rows ≡ some r
    → find_row id (upsert mode now s rows) ≡ some (only id s.session_id (merge_row mode now s) r)
unfolding upsert
find_row-upsert mode now s id rows r h = elim (Bool-cases (has_row s.session_id rows)) [
  | inl known ↦
      rw known (find_row-update_row id s.session_id _ rows r (λ q. unfold merge_row in refl) h)
  | inr fresh ↦ elim (Bool-cases (text_eq id s.session_id)) [
    | inl same ↦
        let e : id ≡ s.session_id = (text_eq_iff _ _).0 same in
        absurd (
          true-ne-false
            (sym (find_row-has_row id rows r h) ∙ ap (λ (x : Text). has_row x rows) e ∙ fresh))
    | inr away ↦ rw (fresh, away) (find_row-append id rows _ r h)
  ]
]

clear_attention_row-session_id :
    (only_kind : Text) (q : Row) → (clear_attention_row only_kind q).session_id ≡ q.session_id
unfolding clear_attention_row
clear_attention_row-session_id only_kind q = ground arith

pub find_row-clear_attention :
    (only_kind id other : Text) (rows : List Row) (r : Row)
    → find_row id rows ≡ some r
    → find_row id (clear_attention other only_kind rows)
      ≡ some (only id other (clear_attention_row only_kind) r)
unfolding clear_attention
find_row-clear_attention only_kind id other rows r h =
    find_row-update_row id other _ rows r (λ q. clear_attention_row-session_id only_kind q) h

pub wait_row-session_id :
    (now : ℕ) (kind note : Text) (q : Row) → (wait_row now kind note q).session_id ≡ q.session_id
unfolding wait_row
wait_row-session_id now kind note q = refl

-- A kind for a session without a row is an error, and nothing else.
pub find_row-set_wait :
    (now : ℕ) (kind note id other : Text) (rows : List Row) (r : Row)
    → find_row id rows ≡ some r
    → find_row id (or_same rows (set_wait now other kind note rows))
      ≡ some (only id other (wait_row now kind note) r)
unfolding set_wait
find_row-set_wait now kind note id other rows r h = elim (Bool-cases (has_row other rows)) [
  | inl known ↦
      rw known (find_row-update_row id other _ rows r (wait_row-session_id now kind note) h)
  | inr fresh ↦ elim (Bool-cases (text_eq id other)) [
    | inl same ↦
        let e : id ≡ other = (text_eq_iff _ _).0 same in
        absurd (
          true-ne-false
            (sym (find_row-has_row id rows r h) ∙ ap (λ (x : Text). has_row x rows) e ∙ fresh))
    | inr away ↦ rw (fresh, away) h
  ]
]

abbrev stop_declared : Row → Row
stop_declared x = record x { wait_stopped = true }

-- Each of its three ends is one change of the rows of that name.
end_turn-only :
    (now : ℕ) (id other : Text) (rows : List Row) (r q : Row)
    → find_row id rows ≡ some r
    → find_row id (end_turn now other rows (some q)).0 ≡ (
        if is_empty q.wait
        then some r
        else if q.wait_stopped
        then some (only id other (wait_row now [] []) r)
        else some (only id other stop_declared r))
unfolding end_turn
end_turn-only now id other rows r q h = elim (Bool-cases (is_empty q.wait)) [
  | inl none_declared ↦ rw none_declared h
  | inr declared ↦ elim (Bool-cases q.wait_stopped) [
    | inl old ↦
        rw (declared, old) (find_row-update_row id other _ rows r (wait_row-session_id now [] []) h)
    | inr new ↦ rw (declared, new) (find_row-update_row id other stop_declared rows r (λ x. refl) h)
  ]
]

end_turn-away :
    (now : ℕ) (id other : Text) (rows : List Row) (r : Row) (o : Option Row)
    → text_eq id other ≡ false
    → find_row id rows ≡ some r
    → find_row id (end_turn now other rows o).0 ≡ some r
end_turn-away now id other rows r none away h = unfold end_turn in h
end_turn-away now id other rows r (some q) away h =
    end_turn-only now id other rows r q h ∙ rw away (ground arith)

end_turn-mine :
    (now : ℕ) (id other : Text) (rows : List Row) (r : Row)
    → text_eq id other ≡ true
    → find_row id rows ≡ some r
    → find_row id (end_turn now other rows (some r)).0 ≡ some (turn_row now r)
unfolding turn_row
end_turn-mine now id other rows r mine h =
    end_turn-only now id other rows r r h ∙ rw mine (ground arith)

-- The other name of the row that is found.
pub find_row-other :
    (id other : Text) (rows : List Row) (r : Row)
    → text_eq id other ≡ true
    → find_row id rows ≡ some r
    → find_row other rows ≡ some r
find_row-other id other rows r mine h =
    ap (λ (x : Text). find_row x rows) (sym ((text_eq_iff id other).0 mine)) ∙ h

pub find_row-turn_wait :
    (now : ℕ) (id other : Text) (rows : List Row) (r : Row)
    → find_row id rows ≡ some r
    → find_row id (turn_wait now other rows).0 ≡ some (only id other (turn_row now) r)
unfolding turn_wait
find_row-turn_wait now id other rows r h = elim (Bool-cases (text_eq id other)) [
  | inl mine ↦
      rw (mine, find_row-other id other rows r mine h) (end_turn-mine now id other rows r mine h)
  | inr away ↦ rw away (end_turn-away now id other rows r (find_row other rows) away h)
]

declared_of :
    (now : ℕ) (other : Text) (rows : List Row) (r : Row)
    → ((end_turn now other rows (some r)).1 ≡ turn_kind r)
      × ((end_turn now other rows (some r)).2 ≡ turn_note r)
unfolding end_turn turn_kind turn_note
declared_of now other rows r = elim (Bool-cases (is_empty r.wait)) [
  | inl none_declared ↦ rw none_declared (refl, refl)
  | inr declared ↦ elim (Bool-cases r.wait_stopped) [
    | inl old ↦ rw (declared, old) (refl, refl)
    | inr new ↦ rw (declared, new) (refl, refl)
  ]
]

-- What TurnWait gives is what the row of that session says.
pub turn_wait-declared :
    (now : ℕ) (id other : Text) (rows : List Row) (r : Row)
    → text_eq id other ≡ true
    → find_row id rows ≡ some r
    → ((turn_wait now other rows).1 ≡ turn_kind r) × ((turn_wait now other rows).2 ≡ turn_note r)
unfolding turn_wait
turn_wait-declared now id other rows r mine h =
    rw (find_row-other id other rows r mine h) (declared_of now other rows r)

archive_row-session_id : (before : ℕ) (q : Row) → (archive_row before q).session_id ≡ q.session_id
unfolding archive_row
archive_row-session_id before q = elim (Bool-cases (is_stale before q)) [
  | inl stale ↦ rw stale refl
  | inr fresh ↦ rw fresh refl
]

pub find_row-auto_archive :
    (before : ℕ) (id : Text) (rows : List Row) (r : Row)
    → find_row id rows ≡ some r
    → find_row id (auto_archive before rows).0 ≡ some (archive_row before r)
unfolding auto_archive find_row
find_row-auto_archive before id [] r h = ground arith
find_row-auto_archive before id (q ∷ rows) r h = elim (Bool-cases (text_eq q.session_id id)) [
  | inl same ↦
      rw (archive_row-session_id before q, same)
        (ap (λ (x : Row). some (archive_row before x)) (some-value (rw (same) at h)))
  | inr away ↦
      rw (archive_row-session_id before q, away)
        (find_row-auto_archive before id rows r (rw (away) at h))
]
