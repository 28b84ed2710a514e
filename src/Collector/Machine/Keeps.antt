-- ===== src/Collector/Machine/Keeps.antt =====
-- internal/server and internal/db: how to show that sequences of operations keep what holds of a row.
use ccdash.Prelude.{
  ℕ, ◌≡◌, inl, inr, Bool, true, false, not, List, [], ◌∷◌, some, Option, Text, text_eq, is_empty,
  all, if◌then◌else◌, Bool-cases, Option-cases, codes, and_first, and_second,
}
use ccdash.Session.{attention_needs_you}
use ccdash.Collector.Words.{header_val}
use ccdash.Collector.Rows.{
  Row, Found, find_row, merge_row, clear_attention_row, wait_row, last_seen_set, SessionStatus,
  active, idle, stopped, headless,
}
use ccdash.Collector.Approvals.{
  EventType, session_start, session_end, user_prompt, pre_tool, post_tool, post_tool_failure,
  permission_request, stop, notification, subagent_stop,
}
use ccdash.Collector.Hooks.{Db, Hook, attention_tool, asks_permission}
use ccdash.Collector.Marks.{archive_row, grid_time}
use ccdash.Collector.Machine.{
  run_ops, Op, hook, discover, see, declare, raise, lower, archive, archive_stale, pin, watch_later,
  place, originate, entitle, paint, hook_row, step_row, step_rows, ensure_row, pre_tool_row,
  post_tool_row, stop_row, notification_row, attention_row, turn_row, seen_row,
}
use ccdash.Collector.Machine.Refines.{run_ops_refines}

-- An operation on one session's row keeps what its change of that row keeps.
only-keeps :
    (P : Row → Type 0) (id other : Text) (x r : Row)
    → (text_eq id other ≡ true → P r → P x)
    → P r
    → P (if text_eq id other then x else r)
only-keeps P id other x r keeps p = elim (Bool-cases (text_eq id other)) [
  | inl mine ↦ rw mine (keeps mine p)
  | inr away ↦ rw away p
]

-- A function that leaves the parts of a row alone that a predicate is about.
module _ (P : Row → Type 0)
    (marked : (r : Row) (now : ℕ) (kind reason : Text) → P r → P (attention_row now kind reason r))
    (cleared : (r : Row) (kind : Text) → P r → P (clear_attention_row kind r))
    (waited : (r : Row) (now : ℕ) → P r → P (wait_row now [] [] r))
    (stopped_once : (r : Row) → P r → P (record r { wait_stopped = true }))
    (ensured : (p : Hook) (status : SessionStatus) (bump activity : Bool) (r : Row)
      → P r
      → P (ensure_row p status bump activity r)) where
  turn_row-keeps : (now : ℕ) (r : Row) → P r → P (turn_row now r)
  unfolding turn_row
  turn_row-keeps now r h = elim (Bool-cases (is_empty r.wait)) [
    | inl nothing ↦ rw nothing h
    | inr declared ↦ elim (Bool-cases r.wait_stopped) [
      | inl old ↦ rw (declared, old) (waited r now h)
      | inr new ↦ rw (declared, new) (stopped_once r h)
    ]
  ]

  pre_tool_row-keeps : (p : Hook) (r : Row) → P r → P (pre_tool_row p r)
  unfolding pre_tool_row
  pre_tool_row-keeps p r h = elim (Option-cases (attention_tool p.tool_name)) [
    | inl other_tool ↦ rw (other_tool, pre_tool_row) h
    | inr (label, asks) ↦ rw (asks, pre_tool_row) (marked r p.now attention_needs_you _ h)
  ]

  post_tool_row-keeps : (p : Hook) (r : Row) → P r → P (post_tool_row p r)
  unfolding post_tool_row
  post_tool_row-keeps p r h = elim (Option-cases (attention_tool p.tool_name)) [
    | inl other_tool ↦ rw (other_tool, post_tool_row) h
    | inr (label, asks) ↦ rw (asks, post_tool_row) (cleared r attention_needs_you h)
  ]

  notification_row-keeps : (p : Hook) (r : Row) → P r → P (notification_row p r)
  unfolding notification_row
  notification_row-keeps p r h = elim (Bool-cases (asks_permission p.message)) [
    | inl asks ↦ rw asks (marked r p.now attention_needs_you _ h)
    | inr other ↦ rw other h
  ]

  stop_row-keeps : (p : Hook) (r : Row) → P r → P (stop_row p r)
  unfolding stop_row
  stop_row-keeps p r h = elim (Bool-cases (headless (header_val p.entrypoint))) [
    | inl quiet ↦ rw quiet (turn_row-keeps p.now r h)
    | inr told ↦ rw told (marked (turn_row p.now r) p.now _ _ (turn_row-keeps p.now r h))
  ]

  pub hook_row-keeps : (kind : EventType) (p : Hook) (r : Row) → P r → P (hook_row kind p r)
  unfolding hook_row
  hook_row-keeps session_start p r h =
      let fresh = not (text_eq p.source (codes "resume")) in ensured p active fresh fresh r h
  hook_row-keeps session_end p r h = ensured p stopped false false r h
  hook_row-keeps user_prompt p r h =
      let r' = ensure_row p active true true r in
      waited (clear_attention_row [] r') p.now (cleared r' [] (ensured p active true true r h))
  hook_row-keeps pre_tool p r h =
      pre_tool_row-keeps p (ensure_row p active false true r) (ensured p active false true r h)
  hook_row-keeps post_tool p r h =
      post_tool_row-keeps p (ensure_row p active false true r) (ensured p active false true r h)
  hook_row-keeps post_tool_failure p r h =
      post_tool_row-keeps p (ensure_row p active false true r) (ensured p active false true r h)
  hook_row-keeps permission_request p r h = ensured p active false true r h
  hook_row-keeps stop p r h =
      stop_row-keeps p (ensure_row p idle false true r) (ensured p idle false true r h)
  hook_row-keeps subagent_stop p r h = h
  hook_row-keeps notification p r h = notification_row-keeps p r h

-- Each operation that passes a test keeps what holds of the session's row.
pub record Keeps (calm : Op → Bool) (id : Text) (P : Row → Type 0) : Type 0 where
  pub hooked :
      (kind : EventType) (p : Hook) (r : Row)
      → text_eq id p.session_id ≡ true
      → calm (hook kind p) ≡ true
      → P r
      → P (hook_row kind p r)
  pub discovered :
      (now : ℕ) (s : Found) (r : Row)
      → text_eq id s.session_id ≡ true
      → calm (discover now s) ≡ true
      → P r
      → P (merge_row last_seen_set now s r)
  pub looked_at :
      (now : ℕ) (other : Text) (r : Row) → calm (see now other) ≡ true → P r → P (seen_row now r)
  pub declared :
      (now : ℕ) (other kind note : Text) (r : Row)
      → text_eq id other ≡ true
      → calm (declare now other kind note) ≡ true
      → P r
      → P (wait_row now kind note r)
  pub raised :
      (now : ℕ) (other reason : Text) (r : Row)
      → text_eq id other ≡ true
      → calm (raise now other reason) ≡ true
      → P r
      → P (attention_row now attention_needs_you reason r)
  pub lowered :
      (other : Text) (r : Row)
      → text_eq id other ≡ true
      → calm (lower other) ≡ true
      → P r
      → P (clear_attention_row attention_needs_you r)
  pub put_away :
      (other : Text) (v : Bool) (r : Row)
      → text_eq id other ≡ true
      → calm (archive other v) ≡ true
      → P r
      → P (record r { archived = v; auto_archived = false })
  pub filed : (before : ℕ) (r : Row) → P r → P (archive_row before r)
  pub pinned : (r : Row) (v : Bool) (t : ℕ) → P r → P (record r { favorite = v; favorite_at = t })
  pub kept_for_later : (r : Row) (t : ℕ) → P r → P (record r { later_at = t })
  pub placed : (r : Row) (t : Option ℕ) → P r → P (record r { grid_at = t })
  pub originated : (r : Row) (o : Text) → P r → P (record r { origin = o })
  pub entitled : (r : Row) (t : Text) → P r → P (record r { custom_title = t })
  pub painted : (r : Row) (c : Text) → P r → P (record r { color = c })

module _ {calm : Op → Bool} {id : Text} {P : Row → Type 0} (k : Keeps calm id P) where
  originate-keeps :
      (origin : Text) (r : Row)
      → P r
      → P (if is_empty r.origin then record r { origin = origin } else r)
  originate-keeps origin r h = elim (Bool-cases (is_empty r.origin)) [
    | inl nobody ↦ rw nobody (k.originated r origin h)
    | inr somebody ↦ rw somebody h
  ]

  step_row-keeps : (op : Op) (r : Row) → calm op ≡ true → P r → P (step_row op id r)
  unfolding step_row
  step_row-keeps (hook kind p) r c =
      only-keeps P id p.session_id (hook_row kind p r) r (λ mine. k.hooked kind p r mine c)
  step_row-keeps (discover now s) r c =
      only-keeps P id s.session_id (merge_row last_seen_set now s r) r
        (λ mine. k.discovered now s r mine c)
  step_row-keeps (see now o) r c =
      only-keeps P id o (seen_row now r) r (λ mine. k.looked_at now o r c)
  step_row-keeps (declare now o kind note) r c =
      only-keeps P id o (wait_row now kind note r) r (λ mine. k.declared now o kind note r mine c)
  step_row-keeps (raise now o reason) r c =
      only-keeps P id o (attention_row now attention_needs_you reason r) r
        (λ mine. k.raised now o reason r mine c)
  step_row-keeps (lower o) r c =
      only-keeps P id o (clear_attention_row attention_needs_you r) r (λ mine. k.lowered o r mine c)
  step_row-keeps (archive o v) r c =
      only-keeps P id o (record r { archived = v; auto_archived = false }) r
        (λ mine. k.put_away o v r mine c)
  step_row-keeps (archive_stale before) r c = k.filed before r
  step_row-keeps (pin now o v) r c =
      let t = if v then now else 0 in
      only-keeps P id o (record r { favorite = v; favorite_at = t }) r (λ mine. k.pinned r v t)
  step_row-keeps (watch_later now o v) r c =
      let t = if v then now else 0 in
      only-keeps P id o (record r { later_at = t }) r (λ mine. k.kept_for_later r t)
  step_row-keeps (place now o v) r c =
      let t = grid_time now v r.grid_at in
      only-keeps P id o (record r { grid_at = t }) r (λ mine. k.placed r t)
  step_row-keeps (originate o origin) r c =
      only-keeps P id o (if is_empty r.origin then record r { origin = origin } else r) r
        (λ mine. originate-keeps origin r)
  step_row-keeps (entitle o title) r c =
      only-keeps P id o (record r { custom_title = title }) r (λ mine. k.entitled r title)
  step_row-keeps (paint o color) r c =
      only-keeps P id o (record r { color = color }) r (λ mine. k.painted r color)

  step_rows-keeps : (ops : List Op) (r : Row) → all calm ops ≡ true → P r → P (step_rows ops id r)
  unfolding step_rows
  step_rows-keeps [] r h p = p
  step_rows-keeps (op ∷ ops) r h p =
      step_rows-keeps ops (step_row op id r) (and_second (calm op) (all calm ops) h)
        (step_row-keeps op r (and_first (calm op) (all calm ops) h) p)

  -- So does a sequence of them, in the database.
  pub run_ops-keeps :
      (ops : List Op) (d : Db) (r : Row)
      → all calm ops ≡ true
      → find_row id d.sessions ≡ some r
      → P r
      → (r' : Row) × (find_row id (run_ops ops d).sessions ≡ some r') × P r'
  run_ops-keeps ops d r h e p =
      (step_rows ops id r, run_ops_refines ops d id r e, step_rows-keeps ops r h p)
