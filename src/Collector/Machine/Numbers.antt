-- ===== src/Collector/Machine/Numbers.antt =====
-- internal/db/db.go: each session has one row and one number.
use ccdash.Prelude.{
  ℕ, ◌≤◌, ◌≡◌, ◌==◌, ◌+◌, All, refl, sym, ap, subst, ◌∙◌, inl, inr, Bool, false, List, [], ◌∷◌,
  Text, text_eq, Bool-cases, arith,
}
use ccdash.Collector.Rows.{
  Row, Found, update_row, upsert, has_row, max_num, new_row, merge_row, LastSeenMode,
}
use ccdash.Collector.Machine.Acts.{touched, touched-session_id}
use ccdash.Hub.State.Sound.{Apart, Apart-snoc, All-any}

abbrev same_session : Row → Row → Bool
same_session a b = text_eq a.session_id b.session_id

abbrev same_num : Row → Row → Bool
same_num a b = a.num == b.num

pub record IsNumbered (rows : List Row) : Type 0 where
  pub sessions : Apart same_session rows
  pub nums : Apart same_num rows

-- A change of rows that leaves their names and numbers.
pub record KeepsKey (f : Row → Row) : Type 0 where
  pub id : (q : Row) → (f q).session_id ≡ q.session_id
  pub num : (q : Row) → (f q).num ≡ q.num

-- It is one of the row, where it is one or none.
touched-KeepsKey : (other : Text) (f : Row → Row) → KeepsKey f → KeepsKey (touched other f)
touched-KeepsKey other f k = record {
  id = λ q. touched-session_id other f q k.id;
  num = λ q. elim (Bool-cases (text_eq q.session_id other)) [
    | inl mine ↦ rw mine (k.num q)
    | inr away ↦ rw away refl
  ];
}

module _ (f : Row → Row) (k : KeepsKey f) where
  abbrev pub each : List Row → List Row
  each [] = []
  each (r ∷ rows) = f r ∷ each rows

  All-each :
      (clash : Row → Row → Bool)
      → ((a b : Row) → clash (f a) (f b) ≡ clash a b)
      → (a : Row) (rows : List Row) → All (λ y. clash a y ≡ false) rows
      → All (λ y. clash (f a) y ≡ false) (each rows)
  All-each clash same a [] h = tt
  All-each clash same a (b ∷ rows) h = (same a b ∙ h.0, All-each clash same a rows h.1)

  Apart-each :
      (clash : Row → Row → Bool)
      → ((a b : Row) → clash (f a) (f b) ≡ clash a b)
      → (rows : List Row) → Apart clash rows
      → Apart clash (each rows)
  Apart-each clash same [] h = tt
  Apart-each clash same (r ∷ rows) h =
      (All-each clash same r rows h.0, Apart-each clash same rows h.1)

  pub each-IsNumbered : (rows : List Row) → IsNumbered rows → IsNumbered (each rows)
  each-IsNumbered rows n = record {
    sessions = Apart-each same_session (λ a b. rw (k.id a, k.id b) refl) rows n.sessions;
    nums = Apart-each same_num (λ a b. rw (k.num a, k.num b) refl) rows n.nums;
  }

update_row-each :
    (id : Text) (f : Row → Row) (rows : List Row) (k : KeepsKey (touched id f))
    → update_row id f rows ≡ each (touched id f) k rows
unfolding update_row
update_row-each id f [] k = refl
update_row-each id f (r ∷ rows) k = ap (λ x. touched id f r ∷ x) (update_row-each id f rows k)

pub update_row-IsNumbered :
    (id : Text) (f : Row → Row) (rows : List Row)
    → KeepsKey f
    → IsNumbered rows
    → IsNumbered (update_row id f rows)
update_row-IsNumbered id f rows k n =
    let k' = touched-KeepsKey id f k in
    subst IsNumbered (sym (update_row-each id f rows k')) (each-IsNumbered (touched id f) k' rows n)

max_num-bound :
    (rows : List Row) (m : ℕ) → max_num rows ≤ m → All (λ (y : Row). (y.num == m + 1) ≡ false) rows
unfolding max_num
max_num-bound [] m h = tt
max_num-bound (r ∷ rows) m h = (ground arith, max_num-bound rows m (omega (arith, h)))

pub upsert-IsNumbered :
    (mode : LastSeenMode) (now : ℕ) (s : Found) (rows : List Row)
    → IsNumbered rows
    → IsNumbered (upsert mode now s rows)
unfolding upsert
upsert-IsNumbered mode now s rows n = elim (Bool-cases (has_row s.session_id rows)) [
  | inl known ↦ rw known (
      update_row-IsNumbered s.session_id (merge_row mode now s) rows
        (record { id = λ q. unfold merge_row in refl; num = λ q. unfold merge_row in refl }) n)
  | inr fresh ↦ rw fresh (
      let row = new_row (max_num rows + 1) now s in
      record {
        sessions =
            Apart-snoc same_session rows row n.sessions (
              unfold new_row in
              All-any (λ (y : Row). text_eq y.session_id s.session_id) rows fresh);
        nums =
            Apart-snoc same_num rows row n.nums
              (unfold new_row in max_num-bound rows (max_num rows) (omega arith));
      })
]
