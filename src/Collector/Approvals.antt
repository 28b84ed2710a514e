-- ===== src/Collector/Approvals.antt =====
-- internal/db/db.go: the approvals and the events. Approvals are kept in the order of their ids; of two
-- pending ones that came in one second, the query may take either: here it takes the first.
pub mod Oldest
use ccdash.Prelude.{
  ℕ, ◌+◌, ◌-◌, Bool, true, false, ◌&&◌, List, [], ◌∷◌, ◌++◌, Option, none, some, Text, codes,
  text_eq, is_empty, ltb, leb, ◌==◌, if◌then◌else◌, max,
}
use ccdash.Collector.Rows.{unix}

pub data ApprovalStatus : Type 0 where
  pending approved denied timeout resolved failed : ApprovalStatus

pub record ApprovalRow : Type 0 where
  pub id : ℕ
  pub session_id : Text
  pub ts : ℕ
  pub tool : Text
  pub tool_use_id : Text
  pub status : ApprovalStatus
  pub reason : Text
  pub decided_at : ℕ

abbrev pub is_pending : ApprovalStatus → Bool
is_pending pending = true
is_pending approved = false
is_pending denied = false
is_pending timeout = false
is_pending resolved = false
is_pending failed = false

-- AUTOINCREMENT: no row is ever deleted.
unfoldable pub max_id : List ApprovalRow → ℕ
max_id [] = 0
max_id (a ∷ more) = max a.id (max_id more)

-- InsertApproval with the status pending: the row and its id.
unfoldable pub insert_approval : ℕ → Text → Text → Text → List ApprovalRow → List ApprovalRow × ℕ
unfolding max_id
insert_approval now session tool tool_use_id table =
    let id = max_id table + 1 in
    (
      table
          ++ (record {
            id = id;
            session_id = session;
            ts = unix now;
            tool = tool;
            tool_use_id = tool_use_id;
            status = pending;
            reason = [];
            decided_at = 0;
          })
            ∷ [],
      id,
    )

-- UPDATE approvals SET status = ?, decided_at = ? WHERE …
unfoldable pub close_where :
    (ApprovalRow → Bool) → ApprovalStatus → ℕ → List ApprovalRow → List ApprovalRow
close_where test status now [] = []
close_where test status now (a ∷ more) =
    (if test a then record a { status = status; decided_at = unix now } else a)
    ∷ close_where test status now more

-- An operator's decision, or that there was none in time.
unfoldable pub update_approval_status :
    ℕ → ℕ → ApprovalStatus → Text → List ApprovalRow → List ApprovalRow
update_approval_status now id status reason [] = []
update_approval_status now id status reason (a ∷ more) =
    (if a.id == id then record a { status = status; reason = reason; decided_at = unix now } else a)
    ∷ update_approval_status now id status reason more

unfoldable pub resolve_pending_by_tool_use_id :
    ℕ → Text → Text → ApprovalStatus → List ApprovalRow → List ApprovalRow
unfolding close_where
resolve_pending_by_tool_use_id now session tool_use_id status table =
    if is_empty tool_use_id
    then table
    else close_where
        (λ a.
          text_eq a.session_id session && text_eq a.tool_use_id tool_use_id && is_pending a.status)
        status now table

abbrev pub waits_for : Text → Text → ApprovalRow → Bool
waits_for session tool a =
    text_eq a.session_id session && text_eq a.tool tool && is_pending a.status

-- The earlier of an approval and what was found among the later ones.
abbrev pub earlier : ApprovalRow → Option ApprovalRow → Option ApprovalRow
earlier a none = some a
earlier a (some b) = if ltb b.ts a.ts then some b else some a

-- WHERE session_id = ? AND tool = ? AND status = 'pending' ORDER BY ts ASC LIMIT 1
unfoldable pub oldest_pending : Text → Text → List ApprovalRow → Option ApprovalRow
oldest_pending session tool [] = none
oldest_pending session tool (a ∷ more) =
    let rest = oldest_pending session tool more in
    if waits_for session tool a then earlier a rest else rest

unfoldable pub resolve_oldest_pending_for_tool :
    ℕ → Text → Text → ApprovalStatus → List ApprovalRow → List ApprovalRow
unfolding oldest_pending close_where
resolve_oldest_pending_for_tool now session tool status table =
    if is_empty session
    then table
    else if is_empty tool
    then table
    else elim (oldest_pending session tool table) [
      | none ↦ table
      | some b ↦ close_where (λ a. a.id == b.id) status now table
    ]

-- What has been pending for longer than `age`.
unfoldable pub mark_stale_pending_timeout : ℕ → ℕ → List ApprovalRow → List ApprovalRow
unfolding close_where
mark_stale_pending_timeout now age table =
    close_where (λ a. is_pending a.status && ltb a.ts (unix (now - age))) timeout now table

-- SELECT COUNT(*) FROM approvals WHERE session_id = ? AND status = 'pending'
unfoldable pub pending_count : Text → List ApprovalRow → ℕ
pending_count session [] = 0
pending_count session (a ∷ more) =
    (if text_eq a.session_id session && is_pending a.status then 1 else 0)
    + pending_count session more

pub data EventType : Type 0 where
  session_start session_end user_prompt pre_tool post_tool post_tool_failure : EventType
  permission_request stop notification subagent_stop : EventType

-- A row of the events; its id is its place.
pub record Event : Type 0 where
  pub session_id : Text
  pub ts : ℕ
  pub event_type : EventType
  pub tool : Text
  pub summary : Text

unfoldable pub append_event : ℕ → Text → EventType → Text → Text → List Event → List Event
append_event now session kind tool summary events =
    events
    ++ (record {
      session_id = session;
      ts = unix now;
      event_type = kind;
      tool = tool;
      summary = summary;
    })
      ∷ []
