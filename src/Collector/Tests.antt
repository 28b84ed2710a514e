-- ===== src/Collector/Tests.antt =====
-- A collector with two sessions: one has said that it waits for an answer.
use ccdash.Prelude.{
  ℕ, ◌≡◌, ◌-◌, refl, true, false, List, [], ◌∷◌, Text, codes, text_eq, some, none, trim_space,
  has_prefix, All, ◌⊎◌, ◌++◌,
}
use ccdash.Session.{wait_needs_you}
use ccdash.Collector.Rows.{unix, Meta, Row, active, stopped, find_row, headless}
use ccdash.Collector.Words.{
  header_val, truncate, cut_bytes, byte_length, field_of, rule_for, bash_rule, first_word, ends_in,
}
use ccdash.Collector.Approvals.{
  ApprovalRow, pending, resolved, session_start, session_end, user_prompt, pre_tool, stop,
  resolve_oldest_pending_for_tool,
}
use ccdash.Collector.Approvals.Oldest.{IsWaiting, IsOldest, resolve_oldest_pending_for_tool_lem}
use ccdash.Collector.Hooks.{Db, Hook, Git, attention_tool}
use ccdash.Collector.Marks.{Archive, maybe_auto_archive}
use ccdash.Collector.Marks.Daily.{archive_once}
use ccdash.Collector.Listing.{finish_seen}
use ccdash.Collector.Machine.{Op, hook, see, archive_stale, run_op, run_ops, step_rows}
use ccdash.Collector.Machine.Refines.{run_ops_refines}
use ccdash.Collector.Machine.Archived.{IsPutAway, archived_stays}
use ccdash.Collector.Machine.Waits.{Wants, declared_reason, declared_stays}
use ccdash.Collector.Machine.Spent.{IsDone, second_stop-IsDone}
use ccdash.Collector.Machine.Seen.{seen_stays}
use ccdash.Collector.Machine.Numbers.{IsNumbered}
use ccdash.Collector.Machine.Numbered.{run_ops-IsNumbered}

abbrev pub no_meta : Meta
no_meta = record {
  cwd = [];
  repo = [];
  branch = [];
  commit_hash = [];
  wrapper_pid = 0;
  proc_pid = 0;
  pane = [];
  tmux_pane = [];
  tmux_session = [];
  transcript_path = [];
  model = [];
  title = [];
  account = [];
}

abbrev pub asking : Row
asking = record {
  session_id = codes "s1";
  meta = no_meta;
  num = 1;
  first_seen = 100;
  last_seen = 200;
  status = active;
  last_activity = 210;
  seen_at = 150;
  entrypoint = codes "cli";
  archived = false;
  auto_archived = false;
  attention = [];
  attention_reason = [];
  attention_at = 0;
  wait = codes "answer";
  wait_note = codes "which one?";
  wait_at = 205_000;
  wait_stopped = false;
  favorite = false;
  favorite_at = 0;
  later_at = 0;
  grid_at = none;
  project = [];
  color = [];
  origin = [];
  custom_title = [];
  gen_title = [];
  title_status = [];
}

abbrev put_by : Row
put_by = record asking {
  session_id = codes "s2";
  num = 2;
  status = stopped;
  archived = true;
  favorite = true;
}

abbrev pub asked : ℕ → ApprovalRow
asked id = record {
  id = id;
  session_id = codes "s1";
  ts = 300 - id;
  tool = codes "Bash";
  tool_use_id = [];
  status = pending;
  reason = [];
  decided_at = 0;
}

abbrev pub approvals : List ApprovalRow
approvals = asked 1 ∷ asked 2 ∷ []

abbrev two : Db
two = record { sessions = asking ∷ put_by ∷ []; approvals = approvals; events = [] }

abbrev no_git : Git
no_git = record { repo = []; branch = []; commit = [] }

abbrev hook_of : Text → Text → Hook
hook_of id tool = record {
  now = 250_000;
  session_id = id;
  cwd = [];
  transcript_path = [];
  model = [];
  source = codes "resume";
  prompt = [];
  tool_name = tool;
  tool_input = none;
  question = codes "Blue?";
  tool_use_id = [];
  error = [];
  duration_ms = 0;
  message = [];
  wrapper_pid = 0;
  git = no_git;
  tmux_pane = [];
  tmux_session = [];
  entrypoint = codes "cli";
  looked_up = no_git;
  hide_headless = false;
}

abbrev s1 : Text
s1 = codes "s1"

abbrev s2 : Text
s2 = codes "s2"

abbrev calm : List Op
calm =
    see 260_000 s1
    ∷ hook pre_tool (hook_of s1 (codes "Read"))
    ∷ hook user_prompt (hook_of s2 [])
    ∷ hook session_end (hook_of s1 [])
    ∷ archive_stale 1_000
    ∷ []

truncate-test : truncate (codes "日本語") 7 ≡ codes "日本..."
unfolding truncate byte_length cut_bytes
truncate-test = refl

rule_for-test :
    rule_for (codes "Bash") (some ((codes "command", codes " git status ") ∷ []))
    ≡ codes "Bash(git *)"
unfolding rule_for bash_rule first_word field_of trim_space text_eq
rule_for-test = refl

header_val-test : header_val (codes "${CCDASH_REPO}") ≡ []
unfolding header_val ends_in trim_space has_prefix
header_val-test = refl

run_ops_refines_example :
    find_row s1 (run_ops (hook stop (hook_of s1 []) ∷ calm) two).sessions
    ≡ some (step_rows (hook stop (hook_of s1 []) ∷ calm) s1 asking)
unfolding find_row text_eq
run_ops_refines_example = run_ops_refines (hook stop (hook_of s1 []) ∷ calm) two s1 asking refl

declared_stays_example :
    (r' : Row) × (find_row s1 (run_ops (hook stop (hook_of s1 []) ∷ calm) two).sessions ≡ some r')
    × Wants (declared_reason (codes "answer") (codes "which one?")) r'
unfolding find_row text_eq headless header_val trim_space wait_needs_you has_prefix attention_tool
declared_stays_example =
    declared_stays s1 (hook_of s1 []) calm two asking refl refl refl refl refl refl

second_stop-IsDone_example :
    (r' : Row) × (find_row s1
        (run_op
          (hook stop (hook_of s1 []))
          (run_ops calm (run_op (hook stop (hook_of s1 [])) two))).sessions
      ≡ some r')
    × IsDone r'
unfolding find_row text_eq headless header_val trim_space has_prefix
second_stop-IsDone_example =
    second_stop-IsDone s1 (hook_of s1 []) (hook_of s1 []) calm two asking refl refl refl refl refl

abbrev shut : List Op
shut = hook session_end (hook_of s1 []) ∷ hook session_start (hook_of s1 []) ∷ []

seen_stays_example :
    (r' : Row) × (find_row s1 (run_ops (see 220_000 s1 ∷ shut) two).sessions ≡ some r')
    × (finish_seen r' ≡ false)
unfolding find_row text_eq
seen_stays_example = seen_stays s1 220_000 shut two asking refl refl

archived_stays_example :
    (r' : Row) × (find_row s2 (run_ops (hook user_prompt (hook_of s2 []) ∷ calm) two).sessions
      ≡ some r')
    × IsPutAway r'
unfolding find_row text_eq
archived_stays_example =
    archived_stays s2 (hook user_prompt (hook_of s2 []) ∷ calm) two put_by refl refl (refl, refl)

run_ops-IsNumbered_example : IsNumbered (run_ops calm two).sessions
unfolding text_eq
run_ops-IsNumbered_example =
    run_ops-IsNumbered calm two
      (record { sessions = ((refl, tt), (tt, tt)); nums = ((refl, tt), (tt, tt)) })

abbrev daily : Archive
daily = record { days = some 7; last_day = codes "2026-10-01"; sessions = two.sessions }

abbrev days_ago : ℕ → ℕ
days_ago n = 1_000 - n

archive_once_example :
    maybe_auto_archive
      (codes "2026-10-02")
      days_ago
      (maybe_auto_archive (codes "2026-10-02") days_ago daily)
    ≡ maybe_auto_archive (codes "2026-10-02") days_ago daily
archive_once_example = archive_once (codes "2026-10-02") days_ago days_ago daily

resolve_oldest_pending_for_tool_lem_example :
    let table = resolve_oldest_pending_for_tool 400_000 s1 (codes "Bash") resolved approvals in
    (All (λ c. IsWaiting s1 (codes "Bash") c → ⊥) approvals × (table ≡ approvals))
    ⊎ ((before : List ApprovalRow) × (b : ApprovalRow) × (after : List ApprovalRow) × IsOldest s1
          (codes "Bash")
          approvals
          before
          b
          after
        × (table ≡ before ++ (record b { status = resolved; decided_at = unix 400_000 }) ∷ after))
resolve_oldest_pending_for_tool_lem_example =
    resolve_oldest_pending_for_tool_lem s1 (codes "Bash") resolved 400_000 approvals
      ((refl, tt), (tt, tt)) refl refl
