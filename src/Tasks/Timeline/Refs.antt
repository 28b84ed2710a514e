-- ===== src/Tasks/Timeline/Refs.antt =====
-- The timeline of a task: an entry's ref is there once, and the entries are in the order of their times.
use mathlib.Core.List.Perm
use mathlib.Core.List.{Perm}
use ccdash.Prelude.{
  ◌≡◌, refl, ◌∙◌, inl, inr, true, false, ◌||◌, List, [], ◌∷◌, ◌++◌, arith, Text, text_eq,
  text_eq_iff, text_eq_refl, text_lt-asym, text_lt-chain, All, insert_stable, sort_stable,
  sort_stable-IsSorted, sort_stable-perm, IsSorted, Bool-cases, if◌then◌else◌, is_empty,
}
use ccdash.Tasks.Task.{Task, TaskNote}
use ccdash.Tasks.Timeline.{filled_in, has_ref, earlier, add_note, add_notes}

-- No two entries have one ref.
abbrev pub DistinctRefs : List TaskNote → Type 0
DistinctRefs [] = Unit
DistinctRefs (e ∷ es) = (has_ref e.ref es ≡ false) × DistinctRefs es

pub record IsTimeline (es : List TaskNote) : Type 0 where
  pub refs : DistinctRefs es
  pub times : IsSorted earlier es

has_ref-insert :
    (r : Text) (a : TaskNote) (es : List TaskNote)
    → has_ref r (insert_stable earlier a es) ≡ text_eq a.ref r || has_ref r es
unfolding insert_stable
has_ref-insert r a [] = refl
has_ref-insert r a (e ∷ es) = ground (arith, has_ref-insert r a es)

has_ref-sort : (r : Text) (es : List TaskNote) → has_ref r (sort_stable earlier es) ≡ has_ref r es
unfolding sort_stable
has_ref-sort r [] = refl
has_ref-sort r (e ∷ es) = rw has_ref-insert (ground (arith, has_ref-sort r es))

has_ref-append :
    (r : Text) (es : List TaskNote) (n : TaskNote)
    → has_ref r (es ++ n ∷ []) ≡ has_ref r es || text_eq n.ref r
has_ref-append r [] n = ground arith
has_ref-append r (e ∷ es) n = ground (arith, has_ref-append r es n)

insert-DistinctRefs :
    (a : TaskNote) (es : List TaskNote)
    → has_ref a.ref es ≡ false
    → DistinctRefs es
    → DistinctRefs (insert_stable earlier a es)
unfolding insert_stable
insert-DistinctRefs a [] h d = (h, tt)
insert-DistinctRefs a (e ∷ es) h d = ground (
  arith,
  has_ref-insert e.ref a es,
  insert-DistinctRefs a es,
  text_eq_iff e.ref a.ref,
  text_eq_iff a.ref e.ref,
)

sort-DistinctRefs : (es : List TaskNote) → DistinctRefs es → DistinctRefs (sort_stable earlier es)
unfolding sort_stable
sort-DistinctRefs [] d = tt
sort-DistinctRefs (e ∷ es) d =
    insert-DistinctRefs e (sort_stable earlier es) (has_ref-sort e.ref es ∙ d.0)
      (sort-DistinctRefs es d.1)

append-DistinctRefs :
    (es : List TaskNote) (n : TaskNote)
    → has_ref n.ref es ≡ false
    → DistinctRefs es
    → DistinctRefs (es ++ n ∷ [])
append-DistinctRefs [] n h d = (refl, tt)
append-DistinctRefs (e ∷ es) n h d = ground (
  arith,
  has_ref-append e.ref es n,
  append-DistinctRefs es n,
  text_eq_iff e.ref n.ref,
  text_eq_iff n.ref e.ref,
)

IsSorted-by_time : (es : List TaskNote) → IsSorted earlier (sort_stable earlier es)
IsSorted-by_time es =
    sort_stable-IsSorted earlier (λ e. Unit {0}) (λ a b _ _. text_lt-asym a.at b.at)
      (λ a b c _ _ _. text_lt-chain a.at b.at c.at) es (anything es)
  where
    anything : (es : List TaskNote) → All (λ e. Unit {0}) es
    anything [] = tt
    anything (e ∷ es) = (tt, anything es)

-- If a timeline is in order of time and has no ref twice, it is so after an entry is given to it,
-- be the entry added or not.
pub add_note-IsTimeline :
    (t : Task) (n : TaskNote) → IsTimeline t.timeline → IsTimeline (add_note t n).0.timeline
unfolding add_note
add_note-IsTimeline t n v =
    elim (Bool-cases (is_empty (filled_in n).text || is_empty (filled_in n).at)) [
      | inl void ↦ rw void v
      | inr full ↦ rw full (elim (Bool-cases (has_ref (filled_in n).ref t.timeline)) [
        | inl old ↦ rw old v
        | inr new ↦ rw new (record {
          refs =
              sort-DistinctRefs (t.timeline ++ filled_in n ∷ [])
                (append-DistinctRefs t.timeline (filled_in n) new v.refs);
          times = IsSorted-by_time (t.timeline ++ filled_in n ∷ []);
        })
      ])
    ]

pub add_notes-IsTimeline :
    (t : Task) (ns : List TaskNote) → IsTimeline t.timeline → IsTimeline (add_notes t ns).0.timeline
unfolding add_notes
add_notes-IsTimeline t [] v = v
add_notes-IsTimeline t (n ∷ ns) v =
    add_notes-IsTimeline (add_note t n).0 ns (add_note-IsTimeline t n v)

-- The ref of an entry that was tried is there.
has_ref-add_note :
    (t : Task) (n : TaskNote)
    → is_empty (filled_in n).text || is_empty (filled_in n).at ≡ false
    → has_ref (filled_in n).ref (add_note t n).0.timeline ≡ true
unfolding add_note
has_ref-add_note t n full = rw full (elim (Bool-cases (has_ref (filled_in n).ref t.timeline)) [
  | inl old ↦ rw old old
  | inr new ↦ rw new (
      has_ref-sort (filled_in n).ref (t.timeline ++ filled_in n ∷ [])
      ∙ has_ref-append (filled_in n).ref t.timeline (filled_in n)
      ∙ ground (arith, text_eq_refl (filled_in n).ref))
])

add_note_nothing :
    (t : Task) (n : TaskNote)
    → (is_empty (filled_in n).text || is_empty (filled_in n).at)
        || has_ref (filled_in n).ref t.timeline
      ≡ true
    → add_note t n ≡ (t, false)
unfolding add_note
add_note_nothing t n h = ground arith

-- An entry that is given a second time changes nothing, and is reported as not added.
pub add_note_twice :
    (t : Task) (n : TaskNote) → add_note (add_note t n).0 n ≡ ((add_note t n).0, false)
add_note_twice t n = add_note_nothing (add_note t n).0 n (ground (arith, has_ref-add_note t n))

-- The timeline afterwards is a permutation of the one before, with the filled-in entry at its end
-- exactly if it is reported as added.
pub add_note-perm :
    (t : Task) (n : TaskNote)
    → Perm
        (add_note t n).0.timeline
        (if (add_note t n).1 then t.timeline ++ filled_in n ∷ [] else t.timeline)
unfolding add_note
add_note-perm t n = elim (Bool-cases (is_empty (filled_in n).text || is_empty (filled_in n).at)) [
  | inl void ↦ rw void (Perm.refl _)
  | inr full ↦ rw full (elim (Bool-cases (has_ref (filled_in n).ref t.timeline)) [
    | inl old ↦ rw old (Perm.refl _)
    | inr new ↦ rw new (sort_stable-perm earlier _)
  ])
]
