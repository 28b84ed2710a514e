-- ===== src/Collector/Machine/Refines.antt =====
-- internal/server and internal/db: every operation does to each session's row what the rows' machine says.
use ccdash.Prelude.{
  ℕ, ◌≡◌, refl, sym, ap, ◌∙◌, inl, inr, Bool, true, false, List, [], ◌∷◌, some, Text, text_eq,
  is_empty, if◌then◌else◌, Bool-cases, Option-cases, not, codes,
}
use ccdash.Session.{attention_needs_you, attention_done}
use ccdash.Collector.Words.{header_val, summarize_tool_input}
use ccdash.Collector.Rows.{
  Row, find_row, last_seen_set, active, idle, stopped, SessionStatus, clear_attention_row, wait_row,
  headless, set_attention, turn_wait, mark_seen,
}
use ccdash.Collector.Approvals.{
  resolved, failed, EventType, session_start, session_end, user_prompt, pre_tool, post_tool,
  post_tool_failure, permission_request, stop, notification, subagent_stop,
}
use ccdash.Collector.Marks.{
  set_archived, set_favorite, set_later, set_grid, set_origin, set_custom_title, set_color,
}
use ccdash.Collector.Hooks
use ccdash.Collector.Hooks.{Db, Hook}
use ccdash.Collector.Machine.{
  handle, run_op, run_ops, Op, hook, discover, see, declare, raise, lower, archive, archive_stale,
  pin, watch_later, place, originate, entitle, paint, only, hook_row, step_row, step_rows,
  ensure_row, pre_tool_row, post_tool_row, stop_row, notification_row, attention_row, turn_row,
  turn_kind, turn_note, seen_row, seen_at_row,
}
use ccdash.Collector.Machine.Acts.{
  find_row-update_row, find_row-upsert, find_row-clear_attention, find_row-set_wait,
  find_row-turn_wait, turn_wait-declared, find_row-auto_archive,
}

-- What `h` does to the row of the session `sid`, and to no other row, is `f`.
abbrev ActsBy : (Db → Db) → Text → (Row → Row) → Type 0
ActsBy h sid f =
    (d : Db) (id : Text) (r : Row)
    → find_row id d.sessions ≡ some r
    → find_row id (h d).sessions ≡ some (only id sid f r)

only-only :
    (id sid : Text) (f g : Row → Row) (r : Row)
    → only id sid g (only id sid f r) ≡ only id sid (λ x. g (f x)) r
only-only id sid f g r = elim (Bool-cases (text_eq id sid)) [
  | inl mine ↦ rw mine refl
  | inr away ↦ rw away refl
]

ActsBy-then :
    (h k : Db → Db) (sid : Text) (f g : Row → Row)
    → ActsBy h sid f
    → ActsBy k sid g
    → ActsBy (λ d. k (h d)) sid (λ r. g (f r))
ActsBy-then h k sid f g p q d id r e =
    q (h d) id (only id sid f r) (p d id r e) ∙ ap some (only-only id sid f g r)

same-only : (id sid : Text) (r : Row) → only id sid (λ x. x) r ≡ r
same-only id sid r = elim (Bool-cases (text_eq id sid)) [
  | inl mine ↦ rw mine refl
  | inr away ↦ rw away refl
]

ensure-ActsBy :
    (p : Hook) (status : SessionStatus) (bump activity : Bool)
    → ActsBy
        (Hooks.ensure_session_at p status bump activity)
        p.session_id
        (ensure_row p status bump activity)
unfolding Hooks.ensure_session_at ensure_row
ensure-ActsBy p status bump activity d id r e = elim (Bool-cases (is_empty p.session_id)) [
  | inl nameless ↦ rw nameless (e ∙ ap some (sym (same-only id p.session_id r)))
  | inr named ↦
      rw named (find_row-upsert _ p.now (Hooks.found_of p status activity) id d.sessions r e)
]

set_attention-ActsBy :
    (now : ℕ) (sid kind reason : Text) (rows : List Row) (id : Text) (r : Row)
    → find_row id rows ≡ some r
    → find_row id (set_attention now sid kind reason rows)
      ≡ some (only id sid (attention_row now kind reason) r)
unfolding set_attention
set_attention-ActsBy now sid kind reason rows id r e =
    find_row-update_row id sid (attention_row now kind reason) rows r (λ q. refl) e

pre_tool-ActsBy :
    (p : Hook) → ActsBy (Hooks.attention_from_pre_tool p) p.session_id (pre_tool_row p)
unfolding Hooks.attention_from_pre_tool pre_tool_row
pre_tool-ActsBy p d id r e = elim (Option-cases (Hooks.attention_tool p.tool_name)) [
  | inl other_tool ↦
      rw (other_tool, Hooks.attention_from_pre_tool, pre_tool_row)
        (e ∙ ap some (sym (same-only id p.session_id r)))
  | inr (label, asks) ↦
      rw (asks, Hooks.attention_from_pre_tool, pre_tool_row)
        (set_attention-ActsBy p.now p.session_id _ _ d.sessions id r e)
]

post_tool-ActsBy :
    (p : Hook) → ActsBy (Hooks.attention_from_post_tool p) p.session_id (post_tool_row p)
unfolding Hooks.attention_from_post_tool post_tool_row
post_tool-ActsBy p d id r e = elim (Option-cases (Hooks.attention_tool p.tool_name)) [
  | inl other_tool ↦
      rw (other_tool, Hooks.attention_from_post_tool, post_tool_row)
        (e ∙ ap some (sym (same-only id p.session_id r)))
  | inr (label, asks) ↦
      rw (asks, Hooks.attention_from_post_tool, post_tool_row)
        (find_row-clear_attention attention_needs_you id p.session_id d.sessions r e)
]

notification-ActsBy :
    (p : Hook) → ActsBy (Hooks.attention_from_notification p) p.session_id (notification_row p)
unfolding Hooks.attention_from_notification notification_row
notification-ActsBy p d id r e = elim (Bool-cases (Hooks.asks_permission p.message)) [
  | inl asks ↦ rw asks (set_attention-ActsBy p.now p.session_id _ _ d.sessions id r e)
  | inr other ↦ rw other (e ∙ ap some (sym (same-only id p.session_id r)))
]

answered-ActsBy :
    (p : Hook) (rows : List Row) (id : Text) (r : Row)
    → find_row id rows ≡ some r
    → find_row id (Hooks.answered p rows)
      ≡ some (only id p.session_id (λ q. wait_row p.now [] [] (clear_attention_row [] q)) r)
unfolding Hooks.answered
answered-ActsBy p rows id r e =
    find_row-set_wait p.now [] [] id p.session_id _ _
      (find_row-clear_attention [] id p.session_id rows r e)
    ∙ ap some (only-only id p.session_id (clear_attention_row []) (wait_row p.now [] []) r)

user_prompt-ActsBy :
    (p : Hook) → ActsBy (Hooks.handle_user_prompt p) p.session_id (hook_row user_prompt p)
unfolding Hooks.handle_user_prompt Hooks.log_event hook_row
user_prompt-ActsBy p d id r e =
    answered-ActsBy p (Hooks.ensure_session_at p active true true d).sessions id _
      (ensure-ActsBy p active true true d id r e)
    ∙ ap some (
        only-only id p.session_id (ensure_row p active true true)
          (λ q. wait_row p.now [] [] (clear_attention_row [] q)) r)

module _ (p : Hook) where
  marks : Text → Text → Row → Row
  unfolding Hooks.stop_attention
  marks wait note = let mark = Hooks.stop_attention wait note in attention_row p.now mark.0 mark.1

  -- The mark of a stop goes by what the row of that session declares.
  stop_mark :
      (rows : List Row) (id : Text) (r : Row)
      → find_row id rows ≡ some r
      → (let tw = turn_wait p.now p.session_id rows in
          find_row id (
            let mark = Hooks.stop_attention tw.1 tw.2 in
            set_attention p.now p.session_id mark.0 mark.1 tw.0))
        ≡ some (only id p.session_id (λ q. marks (turn_kind q) (turn_note q) (turn_row p.now q)) r)
  unfolding marks
  stop_mark rows id r e =
      let turned = find_row-turn_wait p.now id p.session_id rows r e in
      set_attention-ActsBy p.now p.session_id _ _ _ id _ turned
      ∙ elim (Bool-cases (text_eq id p.session_id)) [
        | inl mine ↦
            let said = turn_wait-declared p.now id p.session_id rows r mine e in
            rw (mine, said.0, said.1) refl
        | inr away ↦ rw away refl
      ]

pub open_permission_request-sessions :
    (p : Hook) (d : Db)
    → (Hooks.open_permission_request p d).0.sessions
      ≡ (Hooks.ensure_session_at p active false true d).sessions
unfolding Hooks.open_permission_request Hooks.ensure_session Hooks.log_event
open_permission_request-sessions p d = elim (Bool-cases (Hooks.is_dialog_tool p.tool_name)) [
  | inl dialog ↦ rw dialog refl
  | inr other ↦ rw other refl
]

module _ (p : Hook) (d : Db) where
  abbrev pub turned : List Row × Text × Text
  turned = turn_wait p.now p.session_id (Hooks.ensure_session_at p idle false true d).sessions

  pub handle_stop-quiet :
      headless (header_val p.entrypoint) ≡ true → (Hooks.handle_stop p d).sessions ≡ turned.0
  unfolding Hooks.handle_stop Hooks.ensure_session Hooks.log_event
  handle_stop-quiet quiet = rw quiet refl

  pub handle_stop-told :
      headless (header_val p.entrypoint) ≡ false
      → (Hooks.handle_stop p d).sessions ≡ (
          let mark = Hooks.stop_attention turned.1 turned.2 in
          set_attention p.now p.session_id mark.0 mark.1 turned.0)
  unfolding Hooks.handle_stop Hooks.ensure_session Hooks.log_event
  handle_stop-told told = rw told refl

module _ (p : Hook) (r : Row) where
  stop_row-quiet : headless (header_val p.entrypoint) ≡ true → stop_row p r ≡ turn_row p.now r
  unfolding stop_row
  stop_row-quiet quiet = rw quiet refl

  stop_row-told :
      headless (header_val p.entrypoint) ≡ false
      → stop_row p r ≡ marks p (turn_kind r) (turn_note r) (turn_row p.now r)
  unfolding stop_row marks
  stop_row-told told = rw told refl

stop-ActsBy : (p : Hook) → ActsBy (Hooks.handle_stop p) p.session_id (hook_row stop p)
unfolding hook_row
stop-ActsBy p d id r e =
    let ensured = ensure-ActsBy p idle false true d id r e in
    let here : Row → Row = λ q. if text_eq id p.session_id then q else r in
    let r' = ensure_row p idle false true r in
    elim (Bool-cases (headless (header_val p.entrypoint))) [
      | inl quiet ↦
          ap (find_row id) (handle_stop-quiet p d quiet)
          ∙ find_row-turn_wait p.now id p.session_id _ _ ensured
          ∙ ap some (
              only-only id p.session_id (ensure_row p idle false true) (turn_row p.now) r
              ∙ ap here (sym (stop_row-quiet p r' quiet)))
      | inr told ↦
          ap (find_row id) (handle_stop-told p d told)
          ∙ stop_mark p _ id _ ensured
          ∙ ap some (
              only-only id p.session_id (ensure_row p idle false true)
                (λ q. marks p (turn_kind q) (turn_note q) (turn_row p.now q)) r
              ∙ ap here (sym (stop_row-told p r' told)))
    ]

-- A hook of a tool does what it does to the session's row after the row was made sure of.
tool-ActsBy :
    (p : Hook) (h : Db → Db) (f : Row → Row)
    → ActsBy h p.session_id f
    → (before : Db → Db)
    → ((d : Db) → (before d).sessions ≡ (Hooks.ensure_session_at p active false true d).sessions)
    → ActsBy (λ d. h (before d)) p.session_id (λ r. f (ensure_row p active false true r))
tool-ActsBy p h f acts before same d id r e =
    acts (before d) id _ (ap (find_row id) (same d) ∙ ensure-ActsBy p active false true d id r e)
    ∙ ap some (only-only id p.session_id (ensure_row p active false true) f r)

hook-ActsBy : (kind : EventType) (p : Hook) → ActsBy (handle kind p) p.session_id (hook_row kind p)
unfolding handle hook_row Hooks.log_event Hooks.resolve_approvals Hooks.ensure_session
hook-ActsBy session_start p =
    let fresh = not (text_eq p.source (codes "resume")) in
    unfold Hooks.handle_session_start in ensure-ActsBy p active fresh fresh
hook-ActsBy session_end p = unfold Hooks.handle_session_end in ensure-ActsBy p stopped false false
hook-ActsBy user_prompt p = user_prompt-ActsBy p
hook-ActsBy pre_tool p =
    unfold Hooks.handle_pre_tool in
    tool-ActsBy p (Hooks.attention_from_pre_tool p) (pre_tool_row p) (pre_tool-ActsBy p)
      (λ d.
        Hooks.log_event p pre_tool p.tool_name (summarize_tool_input p.tool_name p.tool_input)
          (Hooks.ensure_session_at p active false true d))
      (λ d. refl)
hook-ActsBy post_tool p =
    unfold Hooks.handle_post_tool in
    tool-ActsBy p (Hooks.attention_from_post_tool p) (post_tool_row p) (post_tool-ActsBy p)
      (λ d. Hooks.resolve_approvals p resolved (
        Hooks.log_event p post_tool p.tool_name (Hooks.post_tool_summary p)
          (Hooks.ensure_session_at p active false true d)))
      (λ d. refl)
hook-ActsBy post_tool_failure p =
    unfold Hooks.handle_post_tool_failure in
    tool-ActsBy p (Hooks.attention_from_post_tool p) (post_tool_row p) (post_tool-ActsBy p)
      (λ d. Hooks.resolve_approvals p failed (
        Hooks.log_event p post_tool_failure p.tool_name (Hooks.failure_summary p)
          (Hooks.ensure_session_at p active false true d)))
      (λ d. refl)
hook-ActsBy permission_request p = λ d id r e.
    ap (find_row id) (open_permission_request-sessions p d)
    ∙ ensure-ActsBy p active false true d id r e
hook-ActsBy stop p = stop-ActsBy p
hook-ActsBy subagent_stop p = λ d id r e.
    unfold Hooks.handle_subagent_stop Hooks.log_event in
    e ∙ ap some (sym (same-only id p.session_id r))
hook-ActsBy notification p =
    unfold Hooks.handle_notification Hooks.log_event in
    λ d id r e.
      notification-ActsBy p (Hooks.log_event p notification [] (codes "notification") d) id r e

origin-KeepsId :
    (origin : Text) (q : Row)
    → (if is_empty q.origin then record q { origin = origin } else q).session_id ≡ q.session_id
origin-KeepsId origin q = elim (Bool-cases (is_empty q.origin)) [
  | inl nobody ↦ rw nobody refl
  | inr somebody ↦ rw somebody refl
]

seen-ActsBy :
    (now : ℕ) (sid : Text) (rows : List Row) (id : Text) (r : Row)
    → find_row id rows ≡ some r
    → find_row id (mark_seen now sid rows) ≡ some (only id sid (seen_row now) r)
unfolding mark_seen seen_row
seen-ActsBy now sid rows id r e =
    find_row-clear_attention attention_done id sid _ _
      (find_row-update_row id sid (seen_at_row now) rows r (λ q. refl) e)
    ∙ ap some (only-only id sid (seen_at_row now) (clear_attention_row attention_done) r)

-- Whatever changes the rows changes the row of each session as the machine on one row says.
pub run_op_refines :
    (op : Op) (d : Db) (id : Text) (r : Row)
    → find_row id d.sessions ≡ some r
    → find_row id (run_op op d).sessions ≡ some (step_row op id r)
unfolding run_op step_row
run_op_refines (hook kind p) d id r e = hook-ActsBy kind p d id r e
run_op_refines (discover now s) d id r e = find_row-upsert last_seen_set now s id d.sessions r e
run_op_refines (see now other) d id r e = seen-ActsBy now other d.sessions id r e
run_op_refines (declare now other kind note) d id r e =
    find_row-set_wait now kind note id other d.sessions r e
run_op_refines (raise now other reason) d id r e =
    set_attention-ActsBy now other attention_needs_you reason d.sessions id r e
run_op_refines (lower other) d id r e =
    find_row-clear_attention attention_needs_you id other d.sessions r e
run_op_refines (archive other v) d id r e =
    unfold set_archived in find_row-update_row id other _ d.sessions r (λ q. refl) e
run_op_refines (archive_stale before) d id r e = find_row-auto_archive before id d.sessions r e
run_op_refines (pin now other v) d id r e =
    unfold set_favorite in find_row-update_row id other _ d.sessions r (λ q. refl) e
run_op_refines (watch_later now other v) d id r e =
    unfold set_later in find_row-update_row id other _ d.sessions r (λ q. refl) e
run_op_refines (place now other v) d id r e =
    unfold set_grid in find_row-update_row id other _ d.sessions r (λ q. refl) e
run_op_refines (originate other origin) d id r e =
    unfold set_origin in find_row-update_row id other _ d.sessions r (origin-KeepsId origin) e
run_op_refines (entitle other title) d id r e =
    unfold set_custom_title in find_row-update_row id other _ d.sessions r (λ q. refl) e
run_op_refines (paint other color) d id r e =
    unfold set_color in find_row-update_row id other _ d.sessions r (λ q. refl) e

-- Whatever sequence of hooks, discoveries and marks the collector runs, in its tables, the row that
-- a query finds for a session is in the end what the machine on one row makes of the row it found
-- at first: an operation on another session leaves it as it is.
pub run_ops_refines :
    (ops : List Op) (d : Db) (id : Text) (r : Row)
    → find_row id d.sessions ≡ some r
    → find_row id (run_ops ops d).sessions ≡ some (step_rows ops id r)
unfolding run_ops step_rows
run_ops_refines [] d id r e = e
run_ops_refines (op ∷ ops) d id r e =
    run_ops_refines ops (run_op op d) id (step_row op id r) (run_op_refines op d id r e)
