-- ===== src/Collector/Machine/Spent.antt =====
-- internal/db/db.go: a declaration counts for the turn that it was made in.
use ccdash.Prelude.{
  ℕ, ◌≡◌, refl, sym, subst, inl, inr, Bool, true, false, not, List, [], text_eq_iff, some, Text,
  text_eq, is_empty, all, Bool-cases, or_right, ◌||◌, true-ne-false,
}
use ccdash.Session.{attention_needs_you, attention_done, wait_needs_you}
use ccdash.Collector.Words.{header_val}
use ccdash.Collector.Rows.{
  Row, find_row, merge_row, clear_attention_row, wait_row, SessionStatus, idle, headless,
}
use ccdash.Collector.Approvals.{stop}
use ccdash.Collector.Hooks.{Db, Hook, stop_attention}
use ccdash.Collector.Marks.{archive_row, is_stale}
use ccdash.Collector.Machine.{
  run_ops, Op, hook, declare, hook_row, step_row, ensure_row, stop_row, turn_row, seen_row,
  seen_at_row, turn_kind, run_op,
}
use ccdash.Collector.Machine.Refines.{run_op_refines}
use ccdash.Collector.Machine.Keeps.{Keeps, run_ops-keeps, hook_row-keeps}
use ccdash.Collector.Machine.Waits.{ensure_row-wait}

-- A declaration that went through a stop, or none.
abbrev IsSpent : Row → Type 0
IsSpent r = (is_empty r.wait || r.wait_stopped) ≡ true

-- The operations that declare nothing for this session.
abbrev pub leaves_declaration : Text → Op → Bool
leaves_declaration id (declare now o kind note) = not (text_eq id o)
leaves_declaration id _ = true

ensure_row-IsSpent :
    (p : Hook) (status : SessionStatus) (bump activity : Bool) (r : Row)
    → IsSpent r
    → IsSpent (ensure_row p status bump activity r)
ensure_row-IsSpent p status bump activity r h =
    let (kind, note, once) = ensure_row-wait p status bump activity r in
    subst (λ (t : Text × Bool). is_empty t.0 || t.1 ≡ true) (λ i. (sym kind i, sym once i)) h

clear_attention_row-IsSpent :
    (kind : Text) (r : Row) → IsSpent r → IsSpent (clear_attention_row kind r)
unfolding clear_attention_row
clear_attention_row-IsSpent kind r h =
    elim (Bool-cases (is_empty kind || text_eq r.attention kind)) [
      | inl it ↦ rw it h
      | inr other ↦ rw other h
    ]

archive_row-IsSpent : (before : ℕ) (r : Row) → IsSpent r → IsSpent (archive_row before r)
unfolding archive_row
archive_row-IsSpent before r h = elim (Bool-cases (is_stale before r)) [
  | inl stale ↦ rw stale h
  | inr fresh ↦ rw fresh h
]

Keeps-IsSpent : (id : Text) → Keeps (leaves_declaration id) id IsSpent
Keeps-IsSpent id = record {
  hooked = λ kind p r mine c h.
      hook_row-keeps IsSpent (λ q now k reason x. x) (λ q k x. clear_attention_row-IsSpent k q x)
        (λ q now x. unfold wait_row in refl) (λ q x. or_right (is_empty q.wait) true refl)
        (λ p' status bump activity q x. ensure_row-IsSpent p' status bump activity q x) kind p r h;
  discovered = λ now s r mine c h. unfold merge_row in h;
  looked_at = λ now o r c h.
      unfold seen_row in clear_attention_row-IsSpent attention_done (seen_at_row now r) h;
  declared = λ now o kind note r mine c h. absurd (true-ne-false (sym (rw mine at c)));
  raised = λ now o reason r mine c h. h;
  lowered = λ o r mine c h. clear_attention_row-IsSpent attention_needs_you r h;
  put_away = λ o v r mine c h. h;
  filed = λ before r h. archive_row-IsSpent before r h;
  pinned = λ r v t h. h;
  kept_for_later = λ r t h. h;
  placed = λ r t h. h;
  originated = λ r o h. h;
  entitled = λ r t h. h;
  painted = λ r c h. h;
}

turn_row-IsSpent : (now : ℕ) (r : Row) → IsSpent (turn_row now r)
unfolding turn_row
turn_row-IsSpent now r = elim (Bool-cases (is_empty r.wait)) [
  | inl nothing ↦ rw (nothing) (rw nothing refl)
  | inr declared ↦ elim (Bool-cases r.wait_stopped) [
    | inl old ↦ rw (declared, old) (unfold wait_row in refl)
    | inr new ↦ rw (declared, new) (or_right (is_empty r.wait) true refl)
  ]
]

stop_row-IsSpent : (p : Hook) (r : Row) → IsSpent (stop_row p r)
unfolding stop_row
stop_row-IsSpent p r = elim (Bool-cases (headless (header_val p.entrypoint))) [
  | inl quiet ↦ rw quiet (turn_row-IsSpent p.now r)
  | inr told ↦ rw told (turn_row-IsSpent p.now r)
]

turn_kind-IsSpent : (r : Row) → IsSpent r → turn_kind r ≡ []
unfolding turn_kind
turn_kind-IsSpent r h = elim (Bool-cases (is_empty r.wait)) [
  | inl nothing ↦ rw nothing refl
  | inr declared ↦ let old : r.wait_stopped ≡ true = rw declared at h in rw (declared, old) refl
]

abbrev pub IsDone : Row → Type 0
IsDone r = (r.attention ≡ attention_done) × (r.attention_reason ≡ [])

stop_row-IsDone :
    (p : Hook) (r : Row)
    → headless (header_val p.entrypoint) ≡ false
    → IsSpent r
    → IsDone (stop_row p r)
unfolding stop_row stop_attention wait_needs_you text_eq
stop_row-IsDone p r told h = rw (told, turn_kind-IsSpent r h) (refl, refl)

-- After two stops of a session between which nothing is declared for it, whatever else happens
-- between them, the session is done with no reason, if the second stop is not headless: a
-- declaration counts for one turn.
pub second_stop-IsDone :
    (id : Text) (p q : Hook) (ops : List Op) (d : Db) (r : Row)
    → find_row id d.sessions ≡ some r
    → p.session_id ≡ id
    → q.session_id ≡ id
    → headless (header_val q.entrypoint) ≡ false
    → all (leaves_declaration id) ops ≡ true
    → (r' : Row) × (find_row id
          (run_op (hook stop q) (run_ops ops (run_op (hook stop p) d))).sessions
        ≡ some r')
      × IsDone r'
second_stop-IsDone id p q ops d r e pid qid told calm =
    let mine : text_eq id p.session_id ≡ true = (text_eq_iff id p.session_id).1 (sym pid) in
    let again : text_eq id q.session_id ≡ true = (text_eq_iff id q.session_id).1 (sym qid) in
    let first = run_op_refines (hook stop p) d id r e in
    let (r1, found, spent) =
      run_ops-keeps (Keeps-IsSpent id) ops _ (step_row (hook stop p) id r) calm first (
        unfold step_row hook_row in
        rw mine (stop_row-IsSpent p (ensure_row p idle false true r))) in
    (
      step_row (hook stop q) id r1,
      run_op_refines (hook stop q) _ id r1 found,
      unfold step_row hook_row in
          rw again (
            stop_row-IsDone q (ensure_row q idle false true r1) told
              (ensure_row-IsSpent q idle false true r1 spent)),
    )
