-- ===== src/Collector/Machine/Waits.antt =====
-- internal/server/attention.go and internal/db/db.go: how long what a session waits for stands.
use ccdash.Prelude.{
  ℕ, ◌≡◌, refl, sym, ap, subst, ◌∙◌, inl, inr, Bool, true, false, not, List, [], ◌∷◌, ◌++◌,
  text_eq_iff, some, Text, text_eq, is_empty, all, if◌then◌else◌, Bool-cases, is_some, ◌||◌,
  Option-cases, arith, codes, true-ne-false,
}
use ccdash.Session.{attention_needs_you, attention_done, wait_label, wait_needs_you}
use ccdash.Collector.Words.{truncate, header_val}
use ccdash.Collector.Rows.{
  Row, find_row, merge_row, clear_attention_row, wait_row, SessionStatus, active, idle, stopped,
  headless,
}
use ccdash.Collector.Approvals.{
  EventType, session_start, session_end, user_prompt, pre_tool, post_tool, post_tool_failure,
  permission_request, stop, notification, subagent_stop,
}
use ccdash.Collector.Hooks.{Db, Hook, attention_tool, asks_permission, stop_attention}
use ccdash.Collector.Marks.{archive_row, is_stale}
use ccdash.Collector.Machine.{
  run_ops, Op, hook, raise, lower, hook_row, step_row, ensure_row, pre_tool_row, post_tool_row,
  stop_row, notification_row, seen_row, turn_kind, turn_note, run_op,
}
use ccdash.Collector.Machine.Refines.{run_op_refines}
use ccdash.Collector.Machine.Keeps.{Keeps, run_ops-keeps}

-- The hooks that leave what the session wants as it is.
abbrev quiet_hook : EventType → Hook → Bool
quiet_hook session_start p = true
quiet_hook session_end p = true
quiet_hook user_prompt p = false
quiet_hook pre_tool p = not (is_some (attention_tool p.tool_name))
quiet_hook post_tool p = not (is_some (attention_tool p.tool_name))
quiet_hook post_tool_failure p = not (is_some (attention_tool p.tool_name))
quiet_hook permission_request p = true
quiet_hook stop p = false
quiet_hook subagent_stop p = true
quiet_hook notification p = not (asks_permission p.message)

-- The operations that do: those on other sessions, and of this one all but a prompt, a stop, a tool that
-- asks, a permission prompt and a dialog on the screen.
abbrev pub leaves_wish : Text → Op → Bool
leaves_wish id (hook kind p) = not (text_eq id p.session_id) || quiet_hook kind p
leaves_wish id (raise now o reason) = not (text_eq id o)
leaves_wish id (lower o) = not (text_eq id o)
leaves_wish id _ = true

abbrev pub Wants : Text → Row → Type 0
Wants reason r = (r.attention ≡ attention_needs_you) × (r.attention_reason ≡ reason)

module _ (reason : Text) where
  ensure_row-Wants :
      (p : Hook) (status : SessionStatus) (bump activity : Bool) (r : Row)
      → Wants reason r
      → Wants reason (ensure_row p status bump activity r)
  unfolding ensure_row merge_row
  ensure_row-Wants p status bump activity r h = elim (Bool-cases (is_empty p.session_id)) [
    | inl nameless ↦ rw nameless h
    | inr named ↦ rw named h
  ]

  pre_tool_row-Wants :
      (p : Hook) (r : Row)
      → not (is_some (attention_tool p.tool_name)) ≡ true
      → Wants reason r
      → Wants reason (pre_tool_row p r)
  pre_tool_row-Wants p r q h = elim (Option-cases (attention_tool p.tool_name)) [
    | inl other_tool ↦ unfold pre_tool_row in rw (other_tool, pre_tool_row) h
    | inr (label, asks) ↦ absurd (true-ne-false (sym (rw asks at q)))
  ]

  post_tool_row-Wants :
      (p : Hook) (r : Row)
      → not (is_some (attention_tool p.tool_name)) ≡ true
      → Wants reason r
      → Wants reason (post_tool_row p r)
  post_tool_row-Wants p r q h = elim (Option-cases (attention_tool p.tool_name)) [
    | inl other_tool ↦ unfold post_tool_row in rw (other_tool, post_tool_row) h
    | inr (label, asks) ↦ absurd (true-ne-false (sym (rw asks at q)))
  ]

  notification_row-Wants :
      (p : Hook) (r : Row)
      → not (asks_permission p.message) ≡ true
      → Wants reason r
      → Wants reason (notification_row p r)
  unfolding notification_row
  notification_row-Wants p r q h = elim (Bool-cases (asks_permission p.message)) [
    | inl asks ↦ absurd (true-ne-false (sym (rw asks at q)))
    | inr other ↦ rw other h
  ]

  hook_row-Wants :
      (kind : EventType) (p : Hook) (r : Row)
      → quiet_hook kind p ≡ true
      → Wants reason r
      → Wants reason (hook_row kind p r)
  unfolding hook_row
  hook_row-Wants session_start p r q h =
      let fresh = not (text_eq p.source (codes "resume")) in
      ensure_row-Wants p active fresh fresh r h
  hook_row-Wants session_end p r q h = ensure_row-Wants p stopped false false r h
  hook_row-Wants user_prompt p r q h = absurd (true-ne-false (sym q))
  hook_row-Wants pre_tool p r q h =
      pre_tool_row-Wants p (ensure_row p active false true r) q
        (ensure_row-Wants p active false true r h)
  hook_row-Wants post_tool p r q h =
      post_tool_row-Wants p (ensure_row p active false true r) q
        (ensure_row-Wants p active false true r h)
  hook_row-Wants post_tool_failure p r q h =
      post_tool_row-Wants p (ensure_row p active false true r) q
        (ensure_row-Wants p active false true r h)
  hook_row-Wants permission_request p r q h = ensure_row-Wants p active false true r h
  hook_row-Wants stop p r q h = absurd (true-ne-false (sym q))
  hook_row-Wants subagent_stop p r q h = h
  hook_row-Wants notification p r q h = notification_row-Wants p r q h

  seen_row-Wants : (now : ℕ) (r : Row) → Wants reason r → Wants reason (seen_row now r)
  unfolding seen_row clear_attention_row text_eq
  seen_row-Wants now r h =
      let other : text_eq r.attention attention_done ≡ false =
        ap (λ (x : Text). text_eq x attention_done) h.0 in
      rw other h

  archive_row-Wants : (before : ℕ) (r : Row) → Wants reason r → Wants reason (archive_row before r)
  unfolding archive_row
  archive_row-Wants before r h = elim (Bool-cases (is_stale before r)) [
    | inl stale ↦ rw stale h
    | inr fresh ↦ rw fresh h
  ]

  Keeps-Wants : (id : Text) → Keeps (leaves_wish id) id (Wants reason)
  Keeps-Wants id = record {
    hooked = λ kind p r mine c h. hook_row-Wants kind p r (rw mine at c) h;
    discovered = λ now s r mine c h. unfold merge_row in h;
    looked_at = λ now o r c h. seen_row-Wants now r h;
    declared = λ now o kind note r mine c h. unfold wait_row in h;
    raised = λ now o why r mine c h. absurd (true-ne-false (sym (rw mine at c)));
    lowered = λ o r mine c h. absurd (true-ne-false (sym (rw mine at c)));
    put_away = λ o v r mine c h. h;
    filed = λ before r h. archive_row-Wants before r h;
    pinned = λ r v t h. h;
    kept_for_later = λ r t h. h;
    placed = λ r t h. h;
    originated = λ r o h. h;
    entitled = λ r t h. h;
    painted = λ r c h. h;
  }

-- The reason that a declaration leaves.
abbrev pub declared_reason : Text → Text → Text
declared_reason wait note =
    if is_empty note then wait_label wait else wait_label wait ++ (codes ": " ++ truncate note 120)

-- A turn that ends after a declaration of this turn.
wait_needs_you-present : (wait : Text) → wait_needs_you wait ≡ true → is_empty wait ≡ false
unfolding wait_needs_you text_eq
wait_needs_you-present [] h = ground arith
wait_needs_you-present (c ∷ s) h = refl

stop_row-Wants :
    (p : Hook) (r : Row)
    → headless (header_val p.entrypoint) ≡ false
    → wait_needs_you r.wait ≡ true
    → r.wait_stopped ≡ false
    → Wants (declared_reason r.wait r.wait_note) (stop_row p r)
unfolding stop_row turn_kind turn_note stop_attention
stop_row-Wants p r told asks fresh =
    rw (told, wait_needs_you-present r.wait asks, fresh, asks)
      (elim (Bool-cases (is_empty r.wait_note)) [
        | inl bare ↦ rw bare (refl, refl)
        | inr noted ↦ rw noted (refl, refl)
      ])

pub ensure_row-wait :
    (p : Hook) (status : SessionStatus) (bump activity : Bool) (r : Row)
    → (let r' = ensure_row p status bump activity r in
        (r'.wait ≡ r.wait) × (r'.wait_note ≡ r.wait_note) × (r'.wait_stopped ≡ r.wait_stopped))
unfolding ensure_row merge_row
ensure_row-wait p status bump activity r = elim (Bool-cases (is_empty p.session_id)) [
  | inl nameless ↦ rw nameless (refl, refl, refl)
  | inr named ↦ rw named (refl, refl, refl)
]

stopped-Wants :
    (p : Hook) (r : Row)
    → headless (header_val p.entrypoint) ≡ false
    → wait_needs_you r.wait ≡ true
    → r.wait_stopped ≡ false
    → Wants (declared_reason r.wait r.wait_note) (stop_row p (ensure_row p idle false true r))
stopped-Wants p r told asks fresh =
    let r' = ensure_row p idle false true r in
    let (kind, note, once) = ensure_row-wait p idle false true r in
    subst (λ (t : Text × Text). Wants (declared_reason t.0 t.1) (stop_row p r'))
      (λ i. (kind i, note i))
      (stop_row-Wants p r' told (ap wait_needs_you kind ∙ asks) (once ∙ fresh))

-- If a session has declared that it waits for an answer or an action, and its turn then ends with a
-- stop that is not headless, the session needs the operator, with the declared kind and note as its
-- reason; and so it stays through any sequence of operations without a prompt, a stop, a tool that
-- asks, a permission prompt or a dialog on the screen of this session, also when the operator looks
-- at it.
pub declared_stays :
    (id : Text) (p : Hook) (ops : List Op) (d : Db) (r : Row)
    → find_row id d.sessions ≡ some r
    → p.session_id ≡ id
    → headless (header_val p.entrypoint) ≡ false
    → wait_needs_you r.wait ≡ true
    → r.wait_stopped ≡ false
    → all (leaves_wish id) ops ≡ true
    → (r' : Row) × (find_row id (run_ops (hook stop p ∷ ops) d).sessions ≡ some r')
      × Wants (declared_reason r.wait r.wait_note) r'
unfolding run_ops
declared_stays id p ops d r e mine told asks fresh calm =
    let mine' : text_eq id p.session_id ≡ true = (text_eq_iff id p.session_id).1 (sym mine) in
    run_ops-keeps (Keeps-Wants (declared_reason r.wait r.wait_note) id) ops (run_op (hook stop p) d)
      (step_row (hook stop p) id r) calm (run_op_refines (hook stop p) d id r e)
      (unfold step_row hook_row in rw mine' (stopped-Wants p r told asks fresh))
