-- ===== src/Collector/Holds.antt =====
-- internal/server/server.go: the wait of handlePermissionRequest for the operator's decision, and
-- handleApprovalDecide. A channel holds one decision. What strconv.ParseInt makes of a text and what the
-- body decodes to are arguments.
pub mod Decided
pub mod First
use ccdash.Prelude.{
  ℕ, Bool, true, false, ◌&&◌, ◌||◌, not, List, [], ◌∷◌, ◌++◌, Option, none, some, Text, codes,
  text_eq, ◌==◌, if◌then◌else◌, has_prefix, drop_length, segments,
}
use ccdash.Collector.Words.{Input, rule_for}
use ccdash.Collector.Approvals.{
  ApprovalStatus, approved, denied, timeout, ApprovalRow, update_approval_status,
}

pub record ApprovalDecision : Type 0 where
  pub behavior : Text
  pub reason : Text
  pub keep : Bool

-- The handlers that wait, each with the decision in its channel.
abbrev pub Holds : Type 0
Holds = List (ℕ × Option ApprovalDecision)

-- s.pending[id] = make(chan approvalDecision, 1)
unfoldable pub open_hold : ℕ → Holds → Holds
open_hold id holds = (id, none) ∷ holds

unfoldable pub find_hold : ℕ → Holds → Option (Option ApprovalDecision)
find_hold id [] = none
find_hold id (h ∷ holds) = if h.0 == id then some h.1 else find_hold id holds

unfoldable pub send : ℕ → ApprovalDecision → Holds → Holds
send id d [] = []
send id d (h ∷ holds) = if h.0 == id then (h.0, some d) ∷ holds else h ∷ send id d holds

-- d := <-ch, where the channel is not empty: the hold is open until the deferred delete.
unfoldable pub drain : ℕ → Holds → Holds
drain id [] = []
drain id (h ∷ holds) = if h.0 == id then (h.0, none) ∷ holds else h ∷ drain id holds

unfoldable pub take_decision : ℕ → Holds → Option ApprovalDecision × Holds
unfolding find_hold drain
take_decision id holds = elim (find_hold id holds) [
  | none ↦ (none, holds)
  | some none ↦ (none, holds)
  | some (some d) ↦ (some d, drain id holds)
]

-- The deferred delete(s.pending, id), a step of its own: a request may come before it.
unfoldable pub close_hold : ℕ → Holds → Holds
close_hold id [] = []
close_hold id (h ∷ holds) = let rest = close_hold id holds in if h.0 == id then rest else h ∷ rest

pub data Answer : Type 0 where
  method_not_allowed not_found bad_id bad_body bad_behavior gone accepted conflict : Answer

-- The id in /approvals/<id>/decide
unfoldable pub decide_id : Text → Option Text
decide_id path =
    elim (segments (
      if has_prefix path (codes "/approvals/")
      then drop_length path (codes "/approvals/")
      else path)) [
        | [] ↦ none
        | id ∷ [] ↦ none
        | id ∷ verb ∷ more ↦ if text_eq verb (codes "decide") then some id else none
      ]

abbrev pub is_behavior : Text → Bool
is_behavior b = text_eq b (codes "allow") || text_eq b (codes "deny")

-- The channel of that id takes the decision if it is empty.
unfoldable pub offer : ℕ → ApprovalDecision → Holds → Answer × Holds
unfolding find_hold send
offer id d holds = elim (find_hold id holds) [
  | none ↦ (gone, holds)
  | some none ↦ (accepted, send id d holds)
  | some (some before) ↦ (conflict, holds)
]

-- What follows once the id is a number.
unfoldable pub decide_at : ℕ → Option ApprovalDecision → Holds → Answer × Holds
unfolding offer
decide_at id none holds = (bad_body, holds)
decide_at id (some d) holds =
    if not (is_behavior d.behavior) then (bad_behavior, holds) else offer id d holds

unfoldable pub decide_path :
    (Text → Option ℕ) → Option Text → Option ApprovalDecision → Holds → Answer × Holds
unfolding decide_at
decide_path parse_int none body holds = (not_found, holds)
decide_path parse_int (some id) body holds = elim (parse_int id) [
  | none ↦ (bad_id, holds)
  | some n ↦ decide_at n body holds
]

unfoldable pub handle_approval_decide :
    (Text → Option ℕ) → Bool → Text → Option ApprovalDecision → Holds → Answer × Holds
unfolding decide_id decide_path
handle_approval_decide parse_int is_post path body holds =
    if not is_post
    then (method_not_allowed, holds)
    else decide_path parse_int (decide_id path) body holds

-- What Claude is answered: a decision with the rule that it adds, or nothing.
pub record Decision : Type 0 where
  pub behavior : Text
  pub message : Text
  pub rule : Option Text

-- The ends of the wait: a decision is taken, none came in time, or Claude gave up.
pub data WaitEnd : Type 0 where
  took : ApprovalDecision → WaitEnd
  expired : WaitEnd
  left : WaitEnd

unfoldable pub decision_of : Text → Input → ApprovalDecision → Decision
unfolding rule_for
decision_of tool input d = record {
  behavior = d.behavior;
  message = d.reason;
  rule = if d.keep && text_eq d.behavior (codes "allow") then some (rule_for tool input) else none;
}

-- What handlePermissionRequest does after its select: the approvals and the answer. The hold is closed
-- after it, by close_hold.
unfoldable pub end_wait :
    ℕ → Text → Input → ℕ → WaitEnd → List ApprovalRow → List ApprovalRow × Option Decision
unfolding update_approval_status decision_of
end_wait now tool input id (took d) table =
    let status = if text_eq d.behavior (codes "deny") then denied else approved in
    (update_approval_status now id status d.reason table, some (decision_of tool input d))
end_wait now tool input id expired table =
    (update_approval_status now id timeout (codes "ccdash: no decision within 25s") table, none)
end_wait now tool input id left table = (table, none)
