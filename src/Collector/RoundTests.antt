-- ===== src/Collector/RoundTests.antt =====
-- Rounds over two screens, and the decisions that a waiting handler gets.
use ccdash.Prelude.{
  ℕ, String, ok, contains, text_lt, insert_stable, sort_stable, ◌≡◌, refl, true, false, List, [],
  ◌∷◌, Option, none, some, Text, codes, text_eq, segments, arith, onto_first, has_prefix,
  drop_length,
}
use ccdash.Collector.Projects.{
  ProjectRow, Projects, set_project_order, project_names, project_before, asked_order, others,
  renumber, set_ord, rename_project, delete_project, move_sessions, move_tasks,
}
use ccdash.Collector.Projects.Renamed.{IsRenamed, rename_project-IsRenamed}
use ccdash.Hub.Watch.{read_text}
use ccdash.Collector.Words.{truncate, byte_length}
use ccdash.Collector.Approvals.{Event, user_prompt, pre_tool, append_event}
use ccdash.Collector.Listing.{fill_work, turn_started}
use ccdash.Collector.Listing.InFlight.{fill_work-append_event}
use ccdash.Collector.Screens.{attention_round, screen_reason}
use ccdash.Collector.Screens.Rounds.{attention_round-shown, attention_round_again}
use ccdash.Collector.Holds.{
  ApprovalDecision, Holds, handle_approval_decide, decide_path, decide_at, offer, find_hold, send,
  decide_id, take_decision, drain, close_hold, accepted,
}
use ccdash.Collector.Holds.Decided.{handle_approval_decide-Outcome, Outcome}
use ccdash.Collector.Holds.First.{
  Request, decision_in, first_decision, decide_all, take_decision-first_decision,
}
use ccdash.Collector.Tests.{asking}

abbrev entries : List (Text × Text)
entries = (codes "s1", codes "確認: Sure?") ∷ (codes "s2", []) ∷ []

abbrev shown : List (Text × Text)
shown = (codes "s2", codes "質問") ∷ (codes "s3", codes "確認") ∷ []

screen_reason-test : screen_reason (codes "question") (codes "Blue?") ≡ codes "質問: Blue?"
unfolding screen_reason truncate byte_length text_eq
screen_reason-test = refl

attention_round-shown_example :
    read_text (attention_round 1_000 entries shown).0 (codes "s1") ≡ read_text entries (codes "s1")
unfolding text_eq
attention_round-shown_example =
    attention_round-shown 1_000 entries shown (codes "s1") ((refl, tt), (tt, tt))

attention_round_again_example :
    attention_round 2_000 entries (attention_round 1_000 entries shown).0
    ≡ ((attention_round 1_000 entries shown).0, [])
unfolding text_eq
attention_round_again_example =
    attention_round_again 1_000 2_000 entries shown ((refl, tt), (tt, tt))

abbrev one_digit : Text → Option ℕ
one_digit [] = none
one_digit (c ∷ s) = some 7

abbrev allowing : ApprovalDecision
allowing = record { behavior = codes "allow"; reason = []; keep = true }

abbrev path : Text
path = codes "/approvals/7/decide"

abbrev waiting_for : Holds
waiting_for = (7, none) ∷ []

abbrev deny : ApprovalDecision
deny = record { behavior = codes "deny"; reason = codes "no"; keep = false }

abbrev post_of : Option ApprovalDecision → Request
post_of body = record { is_post = true; path = path; body = body }

abbrev posts : List Request
posts = post_of none ∷ post_of (some deny) ∷ post_of (some allowing) ∷ []

take_decision-first_decision_example :
    (take_decision 7 (decide_all one_digit 7 posts waiting_for)).0
    ≡ first_decision one_digit 7 posts
unfolding find_hold
take_decision-first_decision_example =
    take_decision-first_decision one_digit 7 posts waiting_for refl

first_is_deny : first_decision one_digit 7 posts ≡ some deny
unfolding first_decision decision_in decide_id segments onto_first has_prefix drop_length text_eq
first_is_deny = refl

-- Between the receive and the deferred delete a second decision is accepted, and the channel that
-- takes it is closed with it.
accepted_and_lost :
    let (got, drained) =
      take_decision 7 (decide_all one_digit 7 (post_of (some deny) ∷ []) waiting_for) in
    let late = handle_approval_decide one_digit true path (some allowing) drained in
    (got ≡ some deny) × (late.0 ≡ accepted) × (find_hold 7 (close_hold 7 late.1) ≡ none)
unfolding decide_all decide_id segments onto_first has_prefix drop_length text_eq
    handle_approval_decide decide_path decide_at offer find_hold send take_decision drain close_hold
accepted_and_lost = (refl, refl, refl)

handle_approval_decide-Outcome_example : Outcome one_digit true path (some allowing) waiting_for
handle_approval_decide-Outcome_example =
    handle_approval_decide-Outcome one_digit true path (some allowing) waiting_for

abbrev prompted : List Event
prompted =
    record { session_id = codes "s1"; ts = 200; event_type = user_prompt; tool = []; summary = [] }
    ∷ []

fill_work-append_event_example :
    ((fill_work
        (append_event 300_000 (codes "s1") pre_tool (codes "Bash") (codes "ls") prompted)
        asking).turn_started_at
      ≡ turn_started (codes "s1") prompted)
    × ((fill_work
          (append_event 300_000 (codes "s1") pre_tool (codes "Bash") (codes "ls") prompted)
          asking).tool
        ≡ codes "Bash")
    × ((fill_work
          (append_event 300_000 (codes "s1") pre_tool (codes "Bash") (codes "ls") prompted)
          asking).tool_summary
        ≡ codes "ls")
fill_work-append_event_example =
    fill_work-append_event 300_000 asking pre_tool (codes "Bash") (codes "ls") prompted
      (omega arith) refl refl

abbrev project : String → ℕ → ProjectRow
project name ord = record { name = codes name; color = []; above = ord; below = 0 }

abbrev projects : Projects
projects = record {
  projects = project "a" 1 ∷ project "b" 0 ∷ [];
  sessions = record asking { project = codes "a" } ∷ record asking { project = codes "b" } ∷ [];
  task_projects = codes "a" ∷ [];
  tasks_rev = 4;
}

abbrev merged : Projects
merged = record {
  projects = project "b" 0 ∷ [];
  sessions = record asking { project = codes "b" } ∷ record asking { project = codes "b" } ∷ [];
  task_projects = codes "b" ∷ [];
  tasks_rev = 5;
}

set_project_order-test :
    set_project_order (codes "a" ∷ []) projects.projects ≡ ok (project "a" 0 ∷ project "b" 1 ∷ [])
unfolding set_project_order project_names project_before asked_order others renumber set_ord
    contains text_eq text_lt insert_stable sort_stable
set_project_order-test = refl

rename_project-IsRenamed_example : IsRenamed (codes "a") (codes "b") projects merged
unfolding text_eq rename_project delete_project move_sessions move_tasks
rename_project-IsRenamed_example =
    rename_project-IsRenamed (codes "a") (codes "b") projects merged refl ((refl, tt), (tt, tt))
      refl
