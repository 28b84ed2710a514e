-- ===== src/Collector/Hooks.antt =====
-- internal/server/server.go and attention.go: the handlers of the hooks. A hook is what readPayload leaves
-- of the request, already masked, with what strconv.Atoi, gitinfo.Lookup and the settings answer at that
-- time. A body that does not decode changes nothing; what a handler does to the pseudo-terminals is left
-- out, and so is the raw payload of an event.
use ccdash.Prelude.{
  ℕ, Bool, true, false, ◌&&◌, ◌||◌, not, List, [], ◌++◌, Option, none, some, Text, codes, text_eq,
  is_empty, trim_space, to_lower, map, ltb, if◌then◌else◌, Result, ok, err,
}
use ccdash.Session.{attention_needs_you, attention_done, wait_label, wait_needs_you, decimal}
use ccdash.Hub.Peer.{has_infix}
use ccdash.Collector.Words.{Input, truncate, header_val, summarize_tool_input}
use ccdash.Collector.Rows.{
  SessionStatus, active, idle, stopped, Row, Found, last_seen_max, last_seen_keep, headless, upsert,
  set_attention, clear_attention, set_wait, turn_wait,
}
use ccdash.Collector.Approvals.{
  ApprovalStatus, resolved, failed, ApprovalRow, insert_approval, resolve_pending_by_tool_use_id,
  resolve_oldest_pending_for_tool, EventType, session_start, session_end, user_prompt, pre_tool,
  post_tool, post_tool_failure, permission_request, stop, notification, subagent_stop, Event,
  append_event,
}

pub record Db : Type 0 where
  pub sessions : List Row
  pub approvals : List ApprovalRow
  pub events : List Event

pub record Git : Type 0 where
  pub repo : Text
  pub branch : Text
  pub commit : Text

pub record Hook : Type 0 where
  pub now : ℕ
  pub session_id : Text
  pub cwd : Text
  pub transcript_path : Text
  pub model : Text
  pub source : Text
  pub prompt : Text
  pub tool_name : Text
  pub tool_input : Input
  -- The text of the first question of AskUserQuestion's input, empty where it has none.
  pub question : Text
  pub tool_use_id : Text
  pub error : Text
  pub duration_ms : ℕ
  pub message : Text
  -- The headers X-Ccdash-…
  pub wrapper_pid : ℕ
  pub git : Git
  pub tmux_pane : Text
  pub tmux_session : Text
  pub entrypoint : Text
  -- gitinfo.Lookup of the directory, and the setting hide_headless.
  pub looked_up : Git
  pub hide_headless : Bool

unfoldable pub git_of : Hook → Git
unfolding header_val
git_of p =
    let g : Git = record {
      repo = header_val p.git.repo;
      branch = header_val p.git.branch;
      commit = header_val p.git.commit;
    } in
    if is_empty g.repo && is_empty g.branch && is_empty g.commit && not (is_empty p.cwd)
    then p.looked_up
    else g

unfoldable pub found_of : Hook → SessionStatus → Bool → Found
unfolding git_of headless header_val
found_of p status activity =
    let g = git_of p in
    let entrypoint = header_val p.entrypoint in
    record {
      session_id = p.session_id;
      meta = record {
        cwd = p.cwd;
        repo = g.repo;
        branch = g.branch;
        commit_hash = g.commit;
        wrapper_pid = p.wrapper_pid;
        proc_pid = 0;
        pane = [];
        tmux_pane = header_val p.tmux_pane;
        tmux_session = header_val p.tmux_session;
        transcript_path = p.transcript_path;
        model = p.model;
        title = [];
        account = [];
      };
      last_seen = 0;
      last_activity = if activity then p.now else 0;
      status = status;
      entrypoint = entrypoint;
      hide_headless = headless entrypoint && p.hide_headless;
    }

unfoldable pub ensure_session_at : Hook → SessionStatus → Bool → Bool → Db → Db
unfolding found_of upsert
ensure_session_at p status bump activity d = if is_empty p.session_id then d else record d {
  sessions =
      upsert (if bump then last_seen_max else last_seen_keep) p.now (found_of p status activity)
        d.sessions;
}

unfoldable pub ensure_session : Hook → SessionStatus → Db → Db
unfolding ensure_session_at
ensure_session p status = ensure_session_at p status false true

unfoldable pub log_event : Hook → EventType → Text → Text → Db → Db
unfolding append_event
log_event p kind tool summary d = record d {
  events = append_event p.now p.session_id kind tool summary d.events;
}

-- The label of a tool call that waits on the operator, none for another tool.
unfoldable pub attention_tool : Text → Option Text
attention_tool tool =
    if text_eq tool (codes "AskUserQuestion")
    then some (codes "質問")
    else if text_eq tool (codes "ExitPlanMode")
    then some (codes "プランの承認")
    else none

unfoldable pub pre_tool_reason : Hook → Text → Text
unfolding truncate
pre_tool_reason p label =
    if text_eq p.tool_name (codes "AskUserQuestion") && not (is_empty p.question)
    then label ++ (codes ": " ++ truncate p.question 120)
    else label

unfoldable pub attention_from_pre_tool : Hook → Db → Db
unfolding attention_tool pre_tool_reason set_attention
attention_from_pre_tool p d = elim (attention_tool p.tool_name) [
  | none ↦ d
  | some label ↦ record d {
    sessions =
        set_attention p.now p.session_id attention_needs_you (pre_tool_reason p label) d.sessions;
  }
]

unfoldable pub attention_from_post_tool : Hook → Db → Db
unfolding attention_tool clear_attention
attention_from_post_tool p d = elim (attention_tool p.tool_name) [
  | none ↦ d
  | some label ↦ record d { sessions = clear_attention p.session_id attention_needs_you d.sessions }
]

unfoldable pub asks_permission : Text → Bool
unfolding trim_space has_infix
asks_permission message =
    let msg = trim_space message in
    not (is_empty msg) && has_infix (map to_lower msg) (codes "permission")

unfoldable pub attention_from_notification : Hook → Db → Db
unfolding asks_permission set_attention truncate
attention_from_notification p d =
    if asks_permission p.message
    then record d {
      sessions =
          set_attention p.now p.session_id attention_needs_you (truncate (trim_space p.message) 120)
            d.sessions;
    }
    else d

-- stopAttention: the kind and the reason.
unfoldable pub stop_attention : Text → Text → Text × Text
unfolding wait_label wait_needs_you truncate
stop_attention wait note =
    if not (wait_needs_you wait)
    then (attention_done, [])
    else if is_empty note
    then (attention_needs_you, wait_label wait)
    else (attention_needs_you, wait_label wait ++ (codes ": " ++ truncate note 120))

-- A setter's error is ignored; it has then changed nothing.
abbrev pub or_same {ℓ} : {E A : Type ℓ} → A → Result E A → A
or_same old (ok new) = new
or_same old (err e) = old

unfoldable pub handle_session_start : Hook → Db → Db
unfolding ensure_session_at log_event
handle_session_start p d =
    let fresh = not (text_eq p.source (codes "resume")) in
    log_event p session_start [] (codes "session started (" ++ (p.source ++ codes ")"))
      (ensure_session_at p active fresh fresh d)

unfoldable pub handle_session_end : Hook → Db → Db
unfolding ensure_session_at log_event
handle_session_end p d =
    log_event p session_end [] (codes "session ended") (ensure_session_at p stopped false false d)

-- ClearAttention(sid, ""), then SetWait(sid, "", "").
unfoldable pub answered : Hook → List Row → List Row
unfolding clear_attention set_wait
answered p rows =
    let cleared = clear_attention p.session_id [] rows in
    or_same cleared (set_wait p.now p.session_id [] [] cleared)

unfoldable pub handle_user_prompt : Hook → Db → Db
unfolding ensure_session_at answered log_event truncate
handle_user_prompt p d =
    let d' = ensure_session_at p active true true d in
    log_event p user_prompt [] (truncate (trim_space p.prompt) 200)
      (record d' { sessions = answered p d'.sessions })

unfoldable pub handle_pre_tool : Hook → Db → Db
unfolding ensure_session log_event attention_from_pre_tool summarize_tool_input
handle_pre_tool p d = attention_from_pre_tool p (
    log_event p pre_tool p.tool_name (summarize_tool_input p.tool_name p.tool_input)
      (ensure_session p active d))

unfoldable pub resolve_approvals : Hook → ApprovalStatus → Db → Db
unfolding resolve_pending_by_tool_use_id resolve_oldest_pending_for_tool
resolve_approvals p status d = record d {
  approvals =
      resolve_oldest_pending_for_tool p.now p.session_id p.tool_name status
        (resolve_pending_by_tool_use_id p.now p.session_id p.tool_use_id status d.approvals);
}

unfoldable pub post_tool_summary : Hook → Text
unfolding summarize_tool_input decimal
post_tool_summary p =
    let summary = summarize_tool_input p.tool_name p.tool_input in
    if ltb 0 p.duration_ms
    then summary ++ (codes " (" ++ (decimal p.duration_ms ++ codes "ms)"))
    else summary

unfoldable pub handle_post_tool : Hook → Db → Db
unfolding ensure_session log_event resolve_approvals attention_from_post_tool post_tool_summary
handle_post_tool p d = attention_from_post_tool p (
    resolve_approvals p resolved
      (log_event p post_tool p.tool_name (post_tool_summary p) (ensure_session p active d)))

unfoldable pub failure_summary : Hook → Text
unfolding truncate
failure_summary p =
    if is_empty p.error then p.tool_name else p.tool_name ++ (codes ": " ++ truncate p.error 200)

unfoldable pub handle_post_tool_failure : Hook → Db → Db
unfolding ensure_session log_event resolve_approvals attention_from_post_tool failure_summary
handle_post_tool_failure p d = attention_from_post_tool p (
    resolve_approvals p failed
      (log_event p post_tool_failure p.tool_name (failure_summary p) (ensure_session p active d)))

unfoldable pub is_dialog_tool : Text → Bool
is_dialog_tool tool = text_eq tool (codes "AskUserQuestion") || text_eq tool (codes "ExitPlanMode")

-- handlePermissionRequest up to the wait: the approval's id, none for a tool with a dialog of its own.
unfoldable pub open_permission_request : Hook → Db → Db × Option ℕ
unfolding ensure_session log_event is_dialog_tool insert_approval summarize_tool_input
open_permission_request p d =
    let d' =
      log_event p permission_request p.tool_name (summarize_tool_input p.tool_name p.tool_input)
        (ensure_session p active d) in
    if is_dialog_tool p.tool_name
    then (d', none)
    else (let made = insert_approval p.now p.session_id p.tool_name p.tool_use_id d'.approvals in
        (record d' { approvals = made.0 }, some made.1))

unfoldable pub handle_stop : Hook → Db → Db
unfolding ensure_session turn_wait log_event headless header_val stop_attention set_attention
handle_stop p d =
    let d' = ensure_session p idle d in
    let (rows, wait, note) = turn_wait p.now p.session_id d'.sessions in
    let logged = log_event p stop [] (codes "stop") (record d' { sessions = rows }) in
    if headless (header_val p.entrypoint)
    then logged
    else (let mark = stop_attention wait note in
        record logged { sessions = set_attention p.now p.session_id mark.0 mark.1 logged.sessions })

unfoldable pub handle_subagent_stop : Hook → Db → Db
unfolding log_event
handle_subagent_stop p d = log_event p subagent_stop [] (codes "subagent stop") d

unfoldable pub handle_notification : Hook → Db → Db
unfolding log_event attention_from_notification
handle_notification p d =
    attention_from_notification p (log_event p notification [] (codes "notification") d)
