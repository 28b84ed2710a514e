-- ===== src/Collector/Machine/Seen.antt =====
-- internal/db/db.go: what makes a session new, what moves it in the list, and what never changes of it.
use ccdash.Prelude.{
  ℕ, ◌≤◌, ◌≡◌, text_eq_refl, sym, inl, inr, Bool, true, false, not, List, ◌∷◌, some, Text, text_eq,
  is_empty, all, Bool-cases, ◌||◌, arith, codes, true-ne-false,
}
use ccdash.Session.{attention_needs_you, attention_done}
use ccdash.Collector.Rows.{
  Row, find_row, merge_row, clear_attention_row, wait_row, SessionStatus, active, stopped,
}
use ccdash.Collector.Approvals.{
  EventType, session_start, session_end, user_prompt, pre_tool, post_tool, post_tool_failure,
  permission_request, stop, notification, subagent_stop,
}
use ccdash.Collector.Hooks.{Db, Hook, asks_permission, found_of}
use ccdash.Collector.Marks.{archive_row, is_stale}
use ccdash.Collector.Machine.{
  run_ops, Op, hook, discover, see, hook_row, step_row, ensure_row, notification_row, attention_row,
  seen_row, seen_at_row, run_op,
}
use ccdash.Collector.Machine.Refines.{run_op_refines}
use ccdash.Collector.Machine.Keeps.{Keeps, run_ops-keeps}
use ccdash.Collector.Listing.{finish_seen}

-- Opening a session again, closing it, and what a subagent or a notification reports is no activity.
abbrev is_idle_hook : EventType → Hook → Bool
is_idle_hook session_start p = text_eq p.source (codes "resume")
is_idle_hook session_end p = true
is_idle_hook subagent_stop p = true
is_idle_hook notification p = true
is_idle_hook user_prompt p = false
is_idle_hook pre_tool p = false
is_idle_hook post_tool p = false
is_idle_hook post_tool_failure p = false
is_idle_hook permission_request p = false
is_idle_hook stop p = false

abbrev pub leaves_activity : Text → Op → Bool
leaves_activity id (hook kind p) = not (text_eq id p.session_id) || is_idle_hook kind p
leaves_activity id (discover now s) = not (text_eq id s.session_id)
leaves_activity id _ = true

abbrev IsSeen : Row → Type 0
IsSeen r = r.last_activity ≤ r.seen_at

ensure_row-IsSeen :
    (p : Hook) (status : SessionStatus) (bump : Bool) (r : Row)
    → IsSeen r
    → IsSeen (ensure_row p status bump false r)
unfolding ensure_row merge_row found_of
ensure_row-IsSeen p status bump r h = elim (Bool-cases (is_empty p.session_id)) [
  | inl nameless ↦ rw nameless h
  | inr named ↦ rw named (omega (arith, h))
]

module _ (P : Row → Type 0)
    (marked : (r : Row) (now : ℕ) (kind reason : Text)
      → P r
      → P (attention_row now kind reason r)) where
  told-keeps : (p : Hook) (r : Row) → P r → P (notification_row p r)
  unfolding notification_row
  told-keeps p r h = elim (Bool-cases (asks_permission p.message)) [
    | inl asks ↦ rw asks (marked r p.now attention_needs_you _ h)
    | inr other ↦ rw other h
  ]

hook_row-IsSeen :
    (kind : EventType) (p : Hook) (r : Row)
    → is_idle_hook kind p ≡ true
    → IsSeen r
    → IsSeen (hook_row kind p r)
unfolding hook_row
hook_row-IsSeen session_start p r c h = rw c (ensure_row-IsSeen p active false r h)
hook_row-IsSeen session_end p r c h = ensure_row-IsSeen p stopped false r h
hook_row-IsSeen subagent_stop p r c h = h
hook_row-IsSeen notification p r c h = told-keeps IsSeen (λ q now kind reason x. x) p r h
hook_row-IsSeen user_prompt p r c h = absurd (true-ne-false (sym c))
hook_row-IsSeen pre_tool p r c h = absurd (true-ne-false (sym c))
hook_row-IsSeen post_tool p r c h = absurd (true-ne-false (sym c))
hook_row-IsSeen post_tool_failure p r c h = absurd (true-ne-false (sym c))
hook_row-IsSeen permission_request p r c h = absurd (true-ne-false (sym c))
hook_row-IsSeen stop p r c h = absurd (true-ne-false (sym c))

clear_attention_row-IsSeen :
    (kind : Text) (r : Row) → IsSeen r → IsSeen (clear_attention_row kind r)
unfolding clear_attention_row
clear_attention_row-IsSeen kind r h =
    elim (Bool-cases (is_empty kind || text_eq r.attention kind)) [
      | inl it ↦ rw it h
      | inr other ↦ rw other h
    ]

archive_row-IsSeen : (before : ℕ) (r : Row) → IsSeen r → IsSeen (archive_row before r)
unfolding archive_row
archive_row-IsSeen before r h = elim (Bool-cases (is_stale before r)) [
  | inl stale ↦ rw stale h
  | inr fresh ↦ rw fresh h
]

seen_row-IsSeen : (now : ℕ) (r : Row) → IsSeen (seen_row now r)
unfolding seen_row
seen_row-IsSeen now r = clear_attention_row-IsSeen attention_done (seen_at_row now r) (omega arith)

Keeps-IsSeen : (id : Text) → Keeps (leaves_activity id) id IsSeen
Keeps-IsSeen id = record {
  hooked = λ kind p r mine c h. hook_row-IsSeen kind p r (rw mine at c) h;
  discovered = λ now s r mine c h. absurd (true-ne-false (sym (rw mine at c)));
  looked_at = λ now o r c h. seen_row-IsSeen now r;
  declared = λ now o kind note r mine c h. unfold wait_row in h;
  raised = λ now o reason r mine c h. h;
  lowered = λ o r mine c h. clear_attention_row-IsSeen attention_needs_you r h;
  put_away = λ o v r mine c h. h;
  filed = λ before r h. archive_row-IsSeen before r h;
  pinned = λ r v t h. h;
  kept_for_later = λ r t h. h;
  placed = λ r t h. h;
  originated = λ r o h. h;
  entitled = λ r t h. h;
  painted = λ r c h. h;
}

finish_seen-IsSeen : (r : Row) → IsSeen r → finish_seen r ≡ false
unfolding finish_seen
finish_seen-IsSeen r h = ground (arith, h)

-- After the operator has looked at a session it is not new, and it does not become new by any
-- sequence of operations in which its own hooks are resumptions, ends, subagents' stops and
-- notifications, and no discovery finds it.
pub seen_stays :
    (id : Text) (now : ℕ) (ops : List Op) (d : Db) (r : Row)
    → find_row id d.sessions ≡ some r
    → all (leaves_activity id) ops ≡ true
    → (r' : Row) × (find_row id (run_ops (see now id ∷ ops) d).sessions ≡ some r')
      × (finish_seen r' ≡ false)
unfolding run_ops
seen_stays id now ops d r e calm =
    let (r', found, seen) =
      run_ops-keeps (Keeps-IsSeen id) ops (run_op (see now id) d) (step_row (see now id) id r) calm
        (run_op_refines (see now id) d id r e)
        (unfold step_row in rw (text_eq_refl id) (seen_row-IsSeen now r)) in
    (r', found, finish_seen-IsSeen r' seen)
