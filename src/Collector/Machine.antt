-- ===== src/Collector/Machine.antt =====
-- internal/server and internal/db: the hooks, the discovery and the marks that change the rows of the
-- sessions, as one sequence of operations, and what each of them does to the row of one session.
pub mod Acts
pub mod Refines
pub mod Keeps
pub mod Archived
pub mod Waits
pub mod Numbered
pub mod Numbers
pub mod Seen
pub mod Spent
use ccdash.Prelude.{
  ℕ, codes, Bool, true, false, not, List, [], ◌∷◌, Option, none, some, Text, text_eq, is_empty,
  trim_space, if◌then◌else◌, Result, ok, err,
}
use ccdash.Session.{attention_needs_you}
use ccdash.Collector.Words.{truncate, header_val}
use ccdash.Collector.Rows.{
  SessionStatus, active, idle, stopped, Row, Found, last_seen_max, last_seen_set, last_seen_keep,
  LastSeenMode, headless, merge_row, upsert, set_attention, clear_attention, clear_attention_row,
  set_wait, wait_row, mark_seen, unix,
}
use ccdash.Collector.Approvals.{
  EventType, session_start, session_end, user_prompt, pre_tool, post_tool, post_tool_failure,
  permission_request, stop, notification, subagent_stop,
}
use ccdash.Collector.Hooks.{
  Db, Hook, or_same, found_of, attention_tool, pre_tool_reason, asks_permission, stop_attention,
  handle_session_start, handle_session_end, handle_user_prompt, handle_pre_tool, handle_post_tool,
  handle_post_tool_failure, open_permission_request, handle_stop, handle_subagent_stop,
  handle_notification,
}
use ccdash.Collector.Marks.{
  set_archived, set_favorite, set_later, set_grid, set_origin, set_custom_title, set_color,
  auto_archive, archive_row, grid_time,
}
use ccdash.Prelude.{max}
use ccdash.Session.{attention_done}

-- The routes /hooks/…
unfoldable pub handle : EventType → Hook → Db → Db
unfolding handle_session_start handle_session_end handle_user_prompt handle_pre_tool
    handle_post_tool handle_post_tool_failure open_permission_request handle_stop
    handle_subagent_stop handle_notification
handle session_start p d = handle_session_start p d
handle session_end p d = handle_session_end p d
handle user_prompt p d = handle_user_prompt p d
handle pre_tool p d = handle_pre_tool p d
handle post_tool p d = handle_post_tool p d
handle post_tool_failure p d = handle_post_tool_failure p d
handle permission_request p d = (open_permission_request p d).0
handle stop p d = handle_stop p d
handle subagent_stop p d = handle_subagent_stop p d
handle notification p d = handle_notification p d

pub data Op : Type 0 where
  hook : EventType → Hook → Op
  -- A session that the discovery found.
  discover : ℕ → Found → Op
  -- The operator looked at it.
  see : ℕ → Text → Op
  -- The session says what it waits for: the time, the session, the kind and the note.
  declare : ℕ → Text → Text → Text → Op
  -- A dialog came up on its screen, for that reason, or went.
  raise : ℕ → Text → Text → Op
  lower : Text → Op
  archive : Text → Bool → Op
  archive_stale : ℕ → Op
  pin : ℕ → Text → Bool → Op
  watch_later : ℕ → Text → Bool → Op
  place : ℕ → Text → Bool → Op
  originate : Text → Text → Op
  entitle : Text → Text → Op
  paint : Text → Text → Op

unfoldable pub run_op : Op → Db → Db
unfolding handle upsert mark_seen set_wait set_attention clear_attention set_archived auto_archive
    set_favorite set_later set_grid set_origin set_custom_title set_color
run_op (hook kind p) d = handle kind p d
run_op (discover now s) d = record d { sessions = upsert last_seen_set now s d.sessions }
run_op (see now id) d = record d { sessions = mark_seen now id d.sessions }
run_op (declare now id kind note) d = record d {
  sessions = or_same d.sessions (set_wait now id kind note d.sessions);
}
run_op (raise now id reason) d = record d {
  sessions = set_attention now id attention_needs_you reason d.sessions;
}
run_op (lower id) d = record d { sessions = clear_attention id attention_needs_you d.sessions }
run_op (archive id v) d = record d { sessions = set_archived id v d.sessions }
run_op (archive_stale before) d = record d { sessions = (auto_archive before d.sessions).0 }
run_op (pin now id v) d = record d { sessions = set_favorite now id v d.sessions }
run_op (watch_later now id v) d = record d { sessions = set_later now id v d.sessions }
run_op (place now id v) d = record d { sessions = set_grid now id v d.sessions }
run_op (originate id origin) d = record d { sessions = set_origin id origin d.sessions }
run_op (entitle id title) d = record d { sessions = set_custom_title id title d.sessions }
run_op (paint id color) d = record d { sessions = set_color id color d.sessions }

unfoldable pub run_ops : List Op → Db → Db
unfolding run_op
run_ops [] d = d
run_ops (op ∷ ops) d = run_ops ops (run_op op d)

-- The same on one row, without the tables.
unfoldable pub ensure_row : Hook → SessionStatus → Bool → Bool → Row → Row
unfolding merge_row found_of
ensure_row p status bump activity r =
    if is_empty p.session_id
    then r
    else merge_row (if bump then last_seen_max else last_seen_keep) p.now
        (found_of p status activity) r

abbrev pub attention_row : ℕ → Text → Text → Row → Row
attention_row now kind reason r = record r {
  attention = kind;
  attention_reason = reason;
  attention_at = unix now;
}

unfoldable pub pre_tool_row : Hook → Row → Row
unfolding attention_tool pre_tool_reason
pre_tool_row p r = elim (attention_tool p.tool_name) [
  | none ↦ r
  | some label ↦ attention_row p.now attention_needs_you (pre_tool_reason p label) r
]

unfoldable pub post_tool_row : Hook → Row → Row
unfolding attention_tool clear_attention_row
post_tool_row p r = elim (attention_tool p.tool_name) [
  | none ↦ r
  | some label ↦ clear_attention_row attention_needs_you r
]

unfoldable pub turn_row : ℕ → Row → Row
unfolding wait_row
turn_row now r =
    if is_empty r.wait
    then r
    else if r.wait_stopped
    then wait_row now [] [] r
    else record r { wait_stopped = true }

-- What was declared in the turn that ends.
unfoldable pub turn_kind : Row → Text
turn_kind r = if is_empty r.wait then [] else if r.wait_stopped then [] else r.wait

unfoldable pub turn_note : Row → Text
turn_note r = if is_empty r.wait then [] else if r.wait_stopped then [] else r.wait_note

unfoldable pub stop_row : Hook → Row → Row
unfolding turn_row turn_kind turn_note stop_attention headless header_val
stop_row p r =
    if headless (header_val p.entrypoint)
    then turn_row p.now r
    else (let mark = stop_attention (turn_kind r) (turn_note r) in
        attention_row p.now mark.0 mark.1 (turn_row p.now r))

unfoldable pub notification_row : Hook → Row → Row
unfolding asks_permission truncate
notification_row p r =
    if asks_permission p.message
    then attention_row p.now attention_needs_you (truncate (trim_space p.message) 120) r
    else r

unfoldable pub hook_row : EventType → Hook → Row → Row
unfolding ensure_row wait_row clear_attention_row pre_tool_row post_tool_row stop_row
    notification_row
hook_row session_start p r =
    let fresh = not (text_eq p.source (codes "resume")) in ensure_row p active fresh fresh r
hook_row session_end p r = ensure_row p stopped false false r
hook_row user_prompt p r =
    wait_row p.now [] [] (clear_attention_row [] (ensure_row p active true true r))
hook_row pre_tool p r = pre_tool_row p (ensure_row p active false true r)
hook_row post_tool p r = post_tool_row p (ensure_row p active false true r)
hook_row post_tool_failure p r = post_tool_row p (ensure_row p active false true r)
hook_row permission_request p r = ensure_row p active false true r
hook_row stop p r = stop_row p (ensure_row p idle false true r)
hook_row subagent_stop p r = r
hook_row notification p r = notification_row p r

abbrev pub seen_at_row : ℕ → Row → Row
seen_at_row now r = record r { seen_at = max (unix now) r.last_activity }

unfoldable pub seen_row : ℕ → Row → Row
unfolding clear_attention_row
seen_row now r = clear_attention_row attention_done (seen_at_row now r)

abbrev pub only : Text → Text → (Row → Row) → Row → Row
only id other f r = if text_eq id other then f r else r

-- What an operation does to the row of the session `id`.
unfoldable pub step_row : Op → Text → Row → Row
unfolding hook_row merge_row seen_row wait_row clear_attention_row archive_row grid_time
step_row (hook kind p) id = only id p.session_id (hook_row kind p)
step_row (discover now s) id = only id s.session_id (merge_row last_seen_set now s)
step_row (see now other) id = only id other (seen_row now)
step_row (declare now other kind note) id = only id other (wait_row now kind note)
step_row (raise now other reason) id = only id other (attention_row now attention_needs_you reason)
step_row (lower other) id = only id other (clear_attention_row attention_needs_you)
step_row (archive other v) id =
    only id other (λ r. record r { archived = v; auto_archived = false })
step_row (archive_stale before) id = archive_row before
step_row (pin now other v) id =
    only id other (λ r. record r { favorite = v; favorite_at = if v then now else 0 })
step_row (watch_later now other v) id =
    only id other (λ r. record r { later_at = if v then now else 0 })
step_row (place now other v) id =
    only id other (λ r. record r { grid_at = grid_time now v r.grid_at })
step_row (originate other origin) id =
    only id other (λ r. if is_empty r.origin then record r { origin = origin } else r)
step_row (entitle other title) id = only id other (λ r. record r { custom_title = title })
step_row (paint other color) id = only id other (λ r. record r { color = color })

unfoldable pub step_rows : List Op → Text → Row → Row
unfolding step_row
step_rows [] id r = r
step_rows (op ∷ ops) id r = step_rows ops id (step_row op id r)
