-- ===== src/Collector/Machine/Numbered.antt =====
-- internal/server and internal/db: every operation leaves each session one row and one number.
use ccdash.Prelude.{
  ℕ, ◌≡◌, refl, sym, ap, subst, inl, inr, Bool, true, false, not, List, [], ◌∷◌, some, none, Option,
  Text, text_eq, is_empty, if◌then◌else◌, Bool-cases, Option-cases, arith, codes,
}
use ccdash.Session.{attention_needs_you, attention_done}
use ccdash.Collector.Words.{summarize_tool_input, header_val}
use ccdash.Collector.Rows.{
  Row, find_row, update_row, set_attention, clear_attention, set_wait, end_turn, turn_wait,
  mark_seen, has_row, clear_attention_row, wait_row, last_seen_max, last_seen_set, last_seen_keep,
  SessionStatus, active, idle, stopped, headless,
}
use ccdash.Collector.Approvals.{
  resolved, failed, EventType, session_start, session_end, user_prompt, pre_tool, post_tool,
  post_tool_failure, permission_request, stop, notification, subagent_stop,
}
use ccdash.Collector.Hooks
use ccdash.Collector.Hooks.{Db, Hook}
use ccdash.Collector.Marks.{
  archive_row, auto_archive, set_archived, set_favorite, set_later, set_grid, set_origin,
  set_custom_title, set_color,
}
use ccdash.Collector.Machine.{
  run_ops, handle, Op, hook, discover, see, declare, raise, lower, archive, archive_stale, pin,
  watch_later, place, originate, entitle, paint, seen_at_row, run_op,
}
use ccdash.Collector.Machine.Refines.{
  open_permission_request-sessions, handle_stop-quiet, handle_stop-told,
}
use ccdash.Collector.Machine.Numbers.{
  IsNumbered, KeepsKey, update_row-IsNumbered, upsert-IsNumbered, each, each-IsNumbered,
}

auto_archive-each :
    (before : ℕ) (rows : List Row) (k : KeepsKey (archive_row before))
    → (auto_archive before rows).0 ≡ each (archive_row before) k rows
unfolding auto_archive
auto_archive-each before [] k = refl
auto_archive-each before (r ∷ more) k =
    ap (λ x. archive_row before r ∷ x) (auto_archive-each before more k)

module _ (rows : List Row) (n : IsNumbered rows) where
  set_attention-IsNumbered :
      (now : ℕ) (id kind reason : Text) → IsNumbered (set_attention now id kind reason rows)
  unfolding set_attention
  set_attention-IsNumbered now id kind reason =
      update_row-IsNumbered id _ rows (record { id = λ q. refl; num = λ q. refl }) n

  clear_attention-IsNumbered : (id kind : Text) → IsNumbered (clear_attention id kind rows)
  unfolding clear_attention
  clear_attention-IsNumbered id kind =
      update_row-IsNumbered id (clear_attention_row kind) rows
        (record {
          id = λ q. unfold clear_attention_row in ground arith;
          num = λ q. unfold clear_attention_row in ground arith;
        })
        n

  cleared_wait-IsNumbered :
      (now : ℕ) (id kind note : Text) → IsNumbered (update_row id (wait_row now kind note) rows)
  cleared_wait-IsNumbered now id kind note =
      update_row-IsNumbered id (wait_row now kind note) rows
        (record { id = λ q. unfold wait_row in refl; num = λ q. unfold wait_row in refl }) n

  set_wait-IsNumbered :
      (now : ℕ) (id kind note : Text)
      → IsNumbered (Hooks.or_same rows (set_wait now id kind note rows))
  unfolding set_wait
  set_wait-IsNumbered now id kind note = elim (Bool-cases (has_row id rows)) [
    | inl known ↦ rw known (cleared_wait-IsNumbered now id kind note)
    | inr fresh ↦ rw fresh n
  ]

  end_turn-IsNumbered :
      (now : ℕ) (id : Text) (o : Option Row) → IsNumbered (end_turn now id rows o).0
  end_turn-IsNumbered now id none = unfold end_turn in n
  end_turn-IsNumbered now id (some q) = elim (Bool-cases (is_empty q.wait)) [
    | inl nothing ↦ unfold end_turn in rw nothing n
    | inr declared ↦ elim (Bool-cases q.wait_stopped) [
      | inl old ↦ unfold end_turn in rw (declared, old) (cleared_wait-IsNumbered now id [] [])
      | inr new ↦
          unfold end_turn in
          rw (declared, new)
            (update_row-IsNumbered id _ rows (record { id = λ x. refl; num = λ x. refl }) n)
    ]
  ]

  turn_wait-IsNumbered : (now : ℕ) (id : Text) → IsNumbered (turn_wait now id rows).0
  unfolding turn_wait
  turn_wait-IsNumbered now id = end_turn-IsNumbered now id (find_row id rows)

  auto_archive-IsNumbered : (before : ℕ) → IsNumbered (auto_archive before rows).0
  auto_archive-IsNumbered before =
      let k : KeepsKey (archive_row before) = record {
        id = λ q. unfold archive_row in ground arith;
        num = λ q. unfold archive_row in ground arith;
      } in
      subst IsNumbered (sym (auto_archive-each before rows k))
        (each-IsNumbered (archive_row before) k rows n)

abbrev AreNumbered : Db → Type 0
AreNumbered d = IsNumbered d.sessions

module _ (p : Hook) (d : Db) (n : AreNumbered d) where
  ensure-AreNumbered :
      (status : SessionStatus) (bump activity : Bool)
      → AreNumbered (Hooks.ensure_session_at p status bump activity d)
  unfolding Hooks.ensure_session_at
  ensure-AreNumbered status bump activity = elim (Bool-cases (is_empty p.session_id)) [
    | inl nameless ↦ rw nameless n
    | inr named ↦ rw named (
        upsert-IsNumbered (if bump then last_seen_max else last_seen_keep) p.now
          (Hooks.found_of p status activity) d.sessions n)
  ]

  pre_tool-AreNumbered : AreNumbered (Hooks.attention_from_pre_tool p d)
  unfolding Hooks.attention_from_pre_tool
  pre_tool-AreNumbered = elim (Option-cases (Hooks.attention_tool p.tool_name)) [
    | inl other_tool ↦ rw (other_tool, Hooks.attention_from_pre_tool) n
    | inr (label, asks) ↦
        rw (asks, Hooks.attention_from_pre_tool)
          (set_attention-IsNumbered d.sessions n p.now p.session_id _ _)
  ]

  post_tool-AreNumbered : AreNumbered (Hooks.attention_from_post_tool p d)
  unfolding Hooks.attention_from_post_tool
  post_tool-AreNumbered = elim (Option-cases (Hooks.attention_tool p.tool_name)) [
    | inl other_tool ↦ rw (other_tool, Hooks.attention_from_post_tool) n
    | inr (label, asks) ↦
        rw (asks, Hooks.attention_from_post_tool)
          (clear_attention-IsNumbered d.sessions n p.session_id attention_needs_you)
  ]

  notification-AreNumbered : AreNumbered (Hooks.attention_from_notification p d)
  unfolding Hooks.attention_from_notification
  notification-AreNumbered = elim (Bool-cases (Hooks.asks_permission p.message)) [
    | inl asks ↦ rw asks (set_attention-IsNumbered d.sessions n p.now p.session_id _ _)
    | inr other ↦ rw other n
  ]

  permission-AreNumbered : AreNumbered (Hooks.open_permission_request p d).0
  permission-AreNumbered =
      subst IsNumbered (sym (open_permission_request-sessions p d))
        (ensure-AreNumbered active false true)

  stop-AreNumbered : AreNumbered (Hooks.handle_stop p d)
  stop-AreNumbered =
      let turned-n =
        turn_wait-IsNumbered _ (ensure-AreNumbered idle false true) p.now p.session_id in
      elim (Bool-cases (headless (header_val p.entrypoint))) [
        | inl quiet ↦ subst IsNumbered (sym (handle_stop-quiet p d quiet)) turned-n
        | inr told ↦
            subst IsNumbered (sym (handle_stop-told p d told))
              (set_attention-IsNumbered _ turned-n p.now p.session_id _ _)
      ]

hook-AreNumbered :
    (kind : EventType) (p : Hook) (d : Db) → AreNumbered d → AreNumbered (handle kind p d)
unfolding handle Hooks.log_event Hooks.resolve_approvals Hooks.ensure_session
hook-AreNumbered session_start p d n =
    let fresh = not (text_eq p.source (codes "resume")) in
    unfold Hooks.handle_session_start in ensure-AreNumbered p d n active fresh fresh
hook-AreNumbered session_end p d n =
    unfold Hooks.handle_session_end in ensure-AreNumbered p d n stopped false false
hook-AreNumbered user_prompt p d n =
    unfold Hooks.handle_user_prompt Hooks.answered in
    set_wait-IsNumbered _
      (clear_attention-IsNumbered _ (ensure-AreNumbered p d n active true true) p.session_id [])
      p.now p.session_id [] []
hook-AreNumbered pre_tool p d n =
    unfold Hooks.handle_pre_tool in
    pre_tool-AreNumbered p
      (Hooks.log_event p pre_tool p.tool_name (summarize_tool_input p.tool_name p.tool_input)
        (Hooks.ensure_session_at p active false true d))
      (ensure-AreNumbered p d n active false true)
hook-AreNumbered post_tool p d n =
    unfold Hooks.handle_post_tool in
    post_tool-AreNumbered p
      (Hooks.resolve_approvals p resolved (
        Hooks.log_event p post_tool p.tool_name (Hooks.post_tool_summary p)
          (Hooks.ensure_session_at p active false true d)))
      (ensure-AreNumbered p d n active false true)
hook-AreNumbered post_tool_failure p d n =
    unfold Hooks.handle_post_tool_failure in
    post_tool-AreNumbered p
      (Hooks.resolve_approvals p failed (
        Hooks.log_event p post_tool_failure p.tool_name (Hooks.failure_summary p)
          (Hooks.ensure_session_at p active false true d)))
      (ensure-AreNumbered p d n active false true)
hook-AreNumbered permission_request p d n = permission-AreNumbered p d n
hook-AreNumbered stop p d n = stop-AreNumbered p d n
hook-AreNumbered subagent_stop p d n = unfold Hooks.handle_subagent_stop in n
hook-AreNumbered notification p d n =
    unfold Hooks.handle_notification in
    notification-AreNumbered p (Hooks.log_event p notification [] (codes "notification") d) n

run_op-AreNumbered : (op : Op) (d : Db) → AreNumbered d → AreNumbered (run_op op d)
unfolding run_op
run_op-AreNumbered (hook kind p) d n = hook-AreNumbered kind p d n
run_op-AreNumbered (discover now s) d n = upsert-IsNumbered last_seen_set now s d.sessions n
run_op-AreNumbered (see now id) d n =
    unfold mark_seen in
    clear_attention-IsNumbered _
      (update_row-IsNumbered id (seen_at_row now) d.sessions
        (record { id = λ q. refl; num = λ q. refl }) n)
      id attention_done
run_op-AreNumbered (declare now id kind note) d n =
    set_wait-IsNumbered d.sessions n now id kind note
run_op-AreNumbered (raise now id reason) d n =
    set_attention-IsNumbered d.sessions n now id attention_needs_you reason
run_op-AreNumbered (lower id) d n = clear_attention-IsNumbered d.sessions n id attention_needs_you
run_op-AreNumbered (archive id v) d n =
    unfold set_archived in
    update_row-IsNumbered id _ d.sessions (record { id = λ q. refl; num = λ q. refl }) n
run_op-AreNumbered (archive_stale before) d n = auto_archive-IsNumbered d.sessions n before
run_op-AreNumbered (pin now id v) d n =
    unfold set_favorite in
    update_row-IsNumbered id _ d.sessions (record { id = λ q. refl; num = λ q. refl }) n
run_op-AreNumbered (watch_later now id v) d n =
    unfold set_later in
    update_row-IsNumbered id _ d.sessions (record { id = λ q. refl; num = λ q. refl }) n
run_op-AreNumbered (place now id v) d n =
    unfold set_grid in
    update_row-IsNumbered id _ d.sessions (record { id = λ q. refl; num = λ q. refl }) n
run_op-AreNumbered (originate id origin) d n =
    unfold set_origin in
    update_row-IsNumbered id _ d.sessions
      (record { id = λ q. ground arith; num = λ q. ground arith }) n
run_op-AreNumbered (entitle id title) d n =
    unfold set_custom_title in
    update_row-IsNumbered id _ d.sessions (record { id = λ q. refl; num = λ q. refl }) n
run_op-AreNumbered (paint id color) d n =
    unfold set_color in
    update_row-IsNumbered id _ d.sessions (record { id = λ q. refl; num = λ q. refl }) n

-- If no two rows have one session or one number, then after any sequence of hooks, discoveries and
-- marks no two rows have one session or one number.
pub run_ops-IsNumbered :
    (ops : List Op) (d : Db) → IsNumbered d.sessions → IsNumbered (run_ops ops d).sessions
unfolding run_ops
run_ops-IsNumbered [] d n = n
run_ops-IsNumbered (op ∷ ops) d n = run_ops-IsNumbered ops (run_op op d) (run_op-AreNumbered op d n)
