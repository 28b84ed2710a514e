-- ===== src/Collector/Listing.antt =====
-- internal/db/db.go: what a reader is told of a session, the order of the sessions and the tool in flight.
-- SQLite leaves open which of two rows comes first that the order ties; here it is the earlier one.
pub mod InFlight
use ccdash.Prelude.{
  ℕ, max, Bool, true, false, ◌&&◌, ◌||◌, not, List, [], ◌∷◌, Option, none, some, Text, codes,
  text_eq, select, ltb, leb, ◌==◌, if◌then◌else◌, sort_stable,
}
use ccdash.Session.{attention_needs_you}
use ccdash.Collector.Rows.{SessionStatus, active, idle, recent, stopped, Row, find_row}
use ccdash.Collector.Approvals.{
  pending_count, EventType, session_start, session_end, user_prompt, pre_tool, post_tool,
  post_tool_failure, permission_request, stop, notification, subagent_stop, Event,
}
use ccdash.Collector.Hooks.{Db}

abbrev pub is_active : SessionStatus → Bool
is_active active = true
is_active idle = false
is_active recent = false
is_active stopped = false

-- What fillWork finds: when the turn's prompt came in, and the tool in flight with its summary and time.
pub record Work : Type 0 where
  pub turn_started_at : ℕ
  pub tool : Text
  pub tool_summary : Text
  pub tool_at : ℕ

-- A row as it is read.
pub record Shown : Type 0 where
  pub row : Row
  pub pending : ℕ
  pub attention : Text
  pub attention_reason : Text
  pub unseen : Bool
  pub work : Work

-- finishSeen
unfoldable pub finish_seen : Row → Bool
finish_seen r = ltb r.seen_at r.last_activity && not (is_active r.status)

-- finishAttention: the kind and the reason.
unfoldable pub finish_attention : ℕ → Row → Text × Text
finish_attention pending r =
    if ltb 0 pending && not (text_eq r.attention attention_needs_you)
    then (attention_needs_you, codes "承認待ち")
    else (r.attention, r.attention_reason)

abbrev pub is_prompt : EventType → Bool
is_prompt user_prompt = true
is_prompt _ = false

abbrev pub is_pre_tool : EventType → Bool
is_pre_tool pre_tool = true
is_pre_tool _ = false

-- The events that begin or end a tool.
abbrev pub is_work : EventType → Bool
is_work pre_tool = true
is_work post_tool = true
is_work post_tool_failure = true
is_work stop = true
is_work session_start = false
is_work session_end = false
is_work user_prompt = false
is_work permission_request = false
is_work notification = false
is_work subagent_stop = false

-- SELECT MAX(ts) … event_type = 'user_prompt', 0 where there is none
unfoldable pub turn_started : Text → List Event → ℕ
turn_started id [] = 0
turn_started id (e ∷ more) =
    let rest = turn_started id more in
    if text_eq e.session_id id && is_prompt e.event_type then max e.ts rest else rest

-- ORDER BY ts DESC, id DESC LIMIT 1: what comes later has the greater id.
abbrev pub later : Event → Option Event → Option Event
later e none = some e
later e (some f) = if leb e.ts f.ts then some f else some e

unfoldable pub last_work : Text → ℕ → List Event → Option Event
last_work id since [] = none
last_work id since (e ∷ more) =
    let rest = last_work id since more in
    if text_eq e.session_id id && leb since e.ts && is_work e.event_type then later e rest else rest

abbrev idle_work : ℕ → Work
idle_work turn = record { turn_started_at = turn; tool = []; tool_summary = []; tool_at = 0 }

abbrev work_after : ℕ → Option Event → Work
work_after turn none = idle_work turn
work_after turn (some e) =
    if is_pre_tool e.event_type
    then record { turn_started_at = turn; tool = e.tool; tool_summary = e.summary; tool_at = e.ts }
    else idle_work turn

unfoldable pub fill_work : List Event → Row → Work
unfolding turn_started last_work
fill_work events r =
    if is_active r.status
    then (let turn = turn_started r.session_id events in
        work_after turn (last_work r.session_id turn events))
    else idle_work 0

unfoldable pub read_row : Db → Row → Shown
unfolding finish_seen finish_attention fill_work pending_count
read_row d r =
    let pending = pending_count r.session_id d.approvals in
    let mark = finish_attention pending r in
    record {
      row = r;
      pending = pending;
      attention = mark.0;
      attention_reason = mark.1;
      unseen = finish_seen r;
      work = fill_work d.events r;
    }

-- GetSession
unfoldable pub get_session : Text → Db → Option Shown
unfolding find_row read_row
get_session id d = elim (find_row id d.sessions) [ none ↦ none | some r ↦ some (read_row d r) ]

-- ORDER BY favorite DESC, CASE WHEN favorite = 1 THEN favorite_at END DESC, last_seen DESC
unfoldable pub listed_before : Row → Row → Bool
listed_before a b =
    if a.favorite
    then not b.favorite
      || ltb b.favorite_at a.favorite_at
      || ((b.favorite_at == a.favorite_at) && ltb b.last_seen a.last_seen)
    else not b.favorite && ltb b.last_seen a.last_seen

abbrev same_bool : Bool → Bool → Bool
same_bool true b = b
same_bool false b = not b

abbrev read_rows : Db → List Row → List Shown
read_rows d [] = []
read_rows d (r ∷ rows) = read_row d r ∷ read_rows d rows

unfoldable pub list_rows : Bool → List Row → List Row
unfolding listed_before
list_rows archived rows =
    sort_stable listed_before (select (λ (r : Row). same_bool r.archived archived) rows)

-- ListSessions
unfoldable pub list_sessions : Bool → Db → List Shown
unfolding list_rows read_row
list_sessions archived d = read_rows d (list_rows archived d.sessions)
