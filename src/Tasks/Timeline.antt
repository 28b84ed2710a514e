-- ===== src/Tasks/Timeline.antt =====
-- AddNote of internal/tasks/edit.go: the entries of a task's timeline.
pub mod Refs
use ccdash.Prelude.{
  ℕ, zero, suc, Bool, true, false, ◌||◌, List, [], ◌∷◌, ◌++◌, Text, codes, text_eq, text_lt,
  trim_space, is_empty, any, length, leb, sort_stable, if◌then◌else◌,
}
use ccdash.Tasks.Task.{Task, TaskNote, source_claude}

unfoldable pub take : ℕ → Text → Text
take zero s = []
take (suc n) [] = []
take (suc n) (c ∷ s) = c ∷ take n s

unfoldable pub clip : Text → ℕ → Text
unfolding take
clip s n = if leb (length s) n then s else take n s

-- An entry with its text trimmed and its empty source and ref filled in.
unfoldable pub filled_in : TaskNote → TaskNote
filled_in n =
    let text = trim_space n.text in
    let source = if is_empty n.source then source_claude else n.source in
    let ref =
      if is_empty n.ref
      then source ++ (codes ":" ++ (n.at ++ (codes ":" ++ clip text 20)))
      else n.ref in
    record n { text = text; source = source; ref = ref }

abbrev pub has_ref : Text → List TaskNote → Bool
has_ref ref = any (λ e. text_eq e.ref ref)

abbrev pub earlier : TaskNote → TaskNote → Bool
earlier a b = text_lt a.at b.at

-- Whether the entry was added, beside the task.
unfoldable pub add_note : Task → TaskNote → Task × Bool
add_note t n =
    let e = filled_in n in
    if is_empty e.text || is_empty e.at
    then (t, false)
    else if has_ref e.ref t.timeline
    then (t, false)
    else (record t { timeline = sort_stable earlier (t.timeline ++ e ∷ []) }, true)

-- `for _, n := range notes { if AddNote(&t, n) { added++ } }`
unfoldable pub add_notes : Task → List TaskNote → Task × ℕ
add_notes t [] = (t, 0)
add_notes t (n ∷ ns) =
    let first = add_note t n in
    let rest = add_notes first.0 ns in (rest.0, if first.1 then suc rest.1 else rest.1)
