-- ===== src/Collector/Rows.antt =====
-- internal/db/db.go and internal/model/model.go: the tables of the collector's database and the statements
-- on a session's row. A column that is NULL is its zero value, as the queries read it by COALESCE; times are
-- milliseconds, stored as seconds where the column holds Unix(). A statement is taken to succeed.
use ccdash.Prelude.{
  ℕ, ◌+◌, ◌-◌, ◌/◌, max, Bool, true, false, ◌&&◌, ◌||◌, not, List, [], ◌∷◌, ◌++◌, Option, none,
  some, Text, codes, text_eq, is_empty, any, ltb, leb, ◌==◌, if◌then◌else◌, has_prefix, Result, ok,
  err,
}
use ccdash.Session.{attention_done}

pub data SessionStatus : Type 0 where
  active idle recent stopped : SessionStatus

-- The columns that an upsert merges and nothing here looks into.
pub record Meta : Type 0 where
  pub cwd : Text
  pub repo : Text
  pub branch : Text
  pub commit_hash : Text
  pub wrapper_pid : ℕ
  pub proc_pid : ℕ
  pub pane : Text
  pub tmux_pane : Text
  pub tmux_session : Text
  pub transcript_path : Text
  pub model : Text
  pub title : Text
  pub account : Text

pub record Row : Type 0 where
  pub session_id : Text
  pub meta : Meta
  pub num : ℕ
  pub first_seen : ℕ
  pub last_seen : ℕ
  pub status : SessionStatus
  pub last_activity : ℕ
  pub seen_at : ℕ
  pub entrypoint : Text
  pub archived : Bool
  pub auto_archived : Bool
  pub attention : Text
  pub attention_reason : Text
  pub attention_at : ℕ
  pub wait : Text
  pub wait_note : Text
  pub wait_at : ℕ
  pub wait_stopped : Bool
  pub favorite : Bool
  pub favorite_at : ℕ
  pub later_at : ℕ
  pub grid_at : Option ℕ
  pub project : Text
  pub color : Text
  pub origin : Text
  pub custom_title : Text
  pub gen_title : Text
  pub title_status : Text

-- model.Session as an upsert is given it; a time that is not set is 0.
pub record Found : Type 0 where
  pub session_id : Text
  pub meta : Meta
  pub last_seen : ℕ
  pub last_activity : ℕ
  pub status : SessionStatus
  pub entrypoint : Text
  pub hide_headless : Bool

-- What an upsert does with an existing row's last_seen.
pub data LastSeenMode : Type 0 where
  last_seen_max last_seen_set last_seen_keep : LastSeenMode

abbrev pub unix : ℕ → ℕ
unix now = now / 1000

abbrev pub headless_classify_window : ℕ
headless_classify_window = 3_600_000

-- COALESCE(NULLIF(a, ''), b)
abbrev pub filled : Text → Text → Text
filled [] b = b
filled (c ∷ s) b = c ∷ s

abbrev filled_number : ℕ → ℕ → ℕ
filled_number a b = if a == 0 then b else a

unfoldable pub headless : Text → Bool
headless entrypoint = has_prefix entrypoint (codes "sdk-")

abbrev ascii_lower : ℕ → ℕ
ascii_lower c = if leb b'A' c && leb c b'Z' then c + 32 else c

-- LIKE 'sdk-%', which takes ASCII letters of either case.
unfoldable pub like_headless : Text → Bool
like_headless (a ∷ b ∷ c ∷ d ∷ s) =
    (ascii_lower a == b's') && (ascii_lower b == b'd') && (ascii_lower c == b'k') && (d == b'-')
like_headless _ = false

unfoldable pub merge_meta : Meta → Meta → Meta
merge_meta new old = record {
  cwd = filled new.cwd old.cwd;
  repo = filled new.repo old.repo;
  branch = filled new.branch old.branch;
  commit_hash = filled new.commit_hash old.commit_hash;
  wrapper_pid = filled_number new.wrapper_pid old.wrapper_pid;
  proc_pid = new.proc_pid;
  pane = new.pane;
  tmux_pane = filled new.tmux_pane old.tmux_pane;
  tmux_session = filled new.tmux_session old.tmux_session;
  transcript_path = filled new.transcript_path old.transcript_path;
  model = filled new.model old.model;
  title = filled new.title old.title;
  account = filled new.account old.account;
}

abbrev pub is_running : SessionStatus → Bool
is_running active = true
is_running idle = true
is_running recent = false
is_running stopped = false

-- The last_seen of a session that has none is now.
unfoldable pub last_seen_of : ℕ → Found → ℕ
last_seen_of now s = if s.last_seen == 0 then unix now else unix s.last_seen

unfoldable pub is_hidden : Found → Bool
unfolding headless
is_hidden s = s.hide_headless && headless s.entrypoint

-- The first case of archived and auto_archived: a recent row whose entrypoint was not known files away.
unfoldable pub files_away : ℕ → Found → Row → Bool
unfolding is_hidden
files_away now s r =
    is_hidden s
    && is_empty r.entrypoint
    && not r.archived
    && leb (unix (now - headless_classify_window)) r.first_seen

-- The second case: a row that was archived by itself comes back.
unfoldable pub comes_back : ℕ → Found → Row → Bool
unfolding last_seen_of like_headless
comes_back now s r =
    r.auto_archived
    && not (like_headless (filled s.entrypoint r.entrypoint))
    && (is_running s.status || ltb r.last_seen (last_seen_of now s))

unfoldable pub archive_case : ℕ → Found → Row → Bool → Bool
unfolding files_away comes_back
archive_case now s r old =
    if files_away now s r then true else if comes_back now s r then false else old

unfoldable pub merge_last_seen : LastSeenMode → ℕ → ℕ → ℕ
merge_last_seen last_seen_max new old = max new old
merge_last_seen last_seen_set new old = new
merge_last_seen last_seen_keep new old = old

-- ON CONFLICT(session_id) DO UPDATE SET
unfoldable pub merge_row : LastSeenMode → ℕ → Found → Row → Row
unfolding merge_meta merge_last_seen last_seen_of archive_case
merge_row mode now s r = record r {
  meta = merge_meta s.meta r.meta;
  last_seen = merge_last_seen mode (last_seen_of now s) r.last_seen;
  status = s.status;
  last_activity = max (unix s.last_activity) r.last_activity;
  entrypoint = filled s.entrypoint r.entrypoint;
  archived = archive_case now s r r.archived;
  auto_archived = archive_case now s r r.auto_archived;
}

-- COALESCE(MAX(num), 0)
unfoldable pub max_num : List Row → ℕ
max_num [] = 0
max_num (r ∷ rows) = max r.num (max_num rows)

-- INSERT INTO sessions
unfoldable pub new_row : ℕ → ℕ → Found → Row
unfolding last_seen_of is_hidden
new_row num now s = record {
  session_id = s.session_id;
  meta = s.meta;
  num = num;
  first_seen = unix now;
  last_seen = last_seen_of now s;
  status = s.status;
  last_activity = unix s.last_activity;
  seen_at = unix now;
  entrypoint = s.entrypoint;
  archived = is_hidden s;
  auto_archived = is_hidden s;
  attention = [];
  attention_reason = [];
  attention_at = 0;
  wait = [];
  wait_note = [];
  wait_at = 0;
  wait_stopped = false;
  favorite = false;
  favorite_at = 0;
  later_at = 0;
  grid_at = none;
  project = [];
  color = [];
  origin = [];
  custom_title = [];
  gen_title = [];
  title_status = [];
}

-- UPDATE sessions SET … WHERE session_id = ?
unfoldable pub update_row : Text → (Row → Row) → List Row → List Row
update_row id f [] = []
update_row id f (r ∷ rows) = (if text_eq r.session_id id then f r else r) ∷ update_row id f rows

abbrev pub has_row : Text → List Row → Bool
has_row id = any (λ (r : Row). text_eq r.session_id id)

-- upsertSession
unfoldable pub upsert : LastSeenMode → ℕ → Found → List Row → List Row
unfolding update_row merge_row new_row max_num
upsert mode now s rows =
    if has_row s.session_id rows
    then update_row s.session_id (merge_row mode now s) rows
    else rows ++ new_row (max_num rows + 1) now s ∷ []

-- SELECT … WHERE session_id = ?
unfoldable pub find_row : Text → List Row → Option Row
find_row id [] = none
find_row id (r ∷ rows) = if text_eq r.session_id id then some r else find_row id rows

unfoldable pub set_attention : ℕ → Text → Text → Text → List Row → List Row
unfolding update_row
set_attention now id kind reason =
    update_row id
      (λ r. record r { attention = kind; attention_reason = reason; attention_at = unix now })

unfoldable pub clear_attention_row : Text → Row → Row
clear_attention_row only r =
    if is_empty only || text_eq r.attention only
    then record r { attention = []; attention_reason = [] }
    else r

unfoldable pub clear_attention : Text → Text → List Row → List Row
unfolding update_row clear_attention_row
clear_attention id only = update_row id (clear_attention_row only)

-- The row of SetWait: no kind, no note and no time.
unfoldable pub wait_row : ℕ → Text → Text → Row → Row
wait_row now kind note r = record r {
  wait = kind;
  wait_note = if is_empty kind then [] else note;
  wait_at = if is_empty kind then 0 else now;
  wait_stopped = false;
}

pub data SetWaitError : Type 0 where
  no_session : SetWaitError

unfoldable pub set_wait : ℕ → Text → Text → Text → List Row → Result SetWaitError (List Row)
unfolding update_row wait_row
set_wait now id kind note rows =
    if has_row id rows then ok (update_row id (wait_row now kind note) rows) else err no_session

-- TurnWait on the row it has read: the rows, and the kind and the note of the turn that ends.
unfoldable pub end_turn : ℕ → Text → List Row → Option Row → List Row × Text × Text
unfolding update_row wait_row
end_turn now id rows none = (rows, [], [])
end_turn now id rows (some r) =
    if is_empty r.wait
    then (rows, [], [])
    else if r.wait_stopped
    then (update_row id (wait_row now [] []) rows, [], [])
    else (update_row id (λ q. record q { wait_stopped = true }) rows, r.wait, r.wait_note)

unfoldable pub turn_wait : ℕ → Text → List Row → List Row × Text × Text
unfolding find_row end_turn
turn_wait now id rows = end_turn now id rows (find_row id rows)

unfoldable pub mark_seen : ℕ → Text → List Row → List Row
unfolding update_row clear_attention
mark_seen now id rows =
    clear_attention id attention_done
      (update_row id (λ r. record r { seen_at = max (unix now) r.last_activity }) rows)
