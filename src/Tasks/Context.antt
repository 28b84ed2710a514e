-- ===== src/Tasks/Context.antt =====
-- internal/tasks/context.go: what an automated run starts from. What the regular expressions and package
-- net/url find in a text, and the stamp of a day ago, are parameters.
pub mod Fixed
use ccdash.Prelude.{
  ℕ, zero, suc, ◌+◌, ◌-◌, ◌/◌, ◌%◌, Bool, true, false, ◌&&◌, ◌||◌, not, List, [], ◌∷◌, ◌++◌, map,
  Option, none, some, Text, codes, text_eq, text_lt, is_empty, contains, length, any, ltb, select,
  sort_stable, if◌then◌else◌, ℤ,
}
use ccdash.Calendar.{Time, date_string, stamp}
use ccdash.Tasks.Task.{Task, TaskNote, Status, is_finished, by_manual}
use ccdash.Tasks.Timeline.{clip, take}

pub record SlackThread : Type 0 where
  pub channel : Text
  pub thread_ts : Text

pub record ContextTask : Type 0 where
  pub id : ℕ
  pub created_on : Text
  pub key : Text
  pub title : Text
  pub status : Status
  pub priority : ℤ
  pub plan : Text
  pub due : Text
  pub project : Text
  pub plan_fixed_today : Bool
  pub last_activity : Text
  pub slack_threads : List SlackThread
  pub jira : List Text
  pub prs : List Text
  pub known_refs : List Text

pub record Context : Type 0 where
  pub since : Text
  pub now : Text
  pub today : Text
  pub tasks : List ContextTask

unfoldable pub drop : ℕ → List Text → List Text
drop zero xs = xs
drop (suc n) [] = []
drop (suc n) (x ∷ xs) = drop n xs

-- The last entries of a list, at most 20 of them.
unfoldable pub last_20 : List Text → List Text
unfolding drop
last_20 refs = drop (length refs - 20) refs

unfoldable pub last_at : List TaskNote → Text
last_at [] = []
last_at (e ∷ []) = clip e.at 10
last_at (e ∷ e' ∷ es) = last_at (e' ∷ es)

abbrev same_thread : SlackThread → SlackThread → Bool
same_thread a b = text_eq a.channel b.channel && text_eq a.thread_ts b.thread_ts

-- The loop over the links, with the threads that it has seen.
unfoldable pub threads_of :
    (Text → Option SlackThread) → List SlackThread → List Text → List SlackThread
threads_of slack seen [] = []
threads_of slack seen (l ∷ links) = elim (slack l) [
  | none ↦ threads_of slack seen links
  | some th ↦
      let rest = threads_of slack seen links in
      let rest' = threads_of slack (th ∷ seen) links in
      if any (λ s. same_thread s th) seen then rest else th ∷ rest'
]

-- The first of equal texts, in order.
unfoldable pub uniq : List Text → List Text → List Text
uniq seen [] = []
uniq seen (s ∷ ss) =
    let rest = uniq seen ss in
    let rest' = uniq (s ∷ seen) ss in if contains seen s then rest else s ∷ rest'

unfoldable pub uniq_sorted : List Text → List Text
unfolding uniq
uniq_sorted ss = sort_stable text_lt (uniq [] ss)

-- strings.Join with a space
unfoldable pub join_space : List Text → Text
join_space [] = []
join_space (s ∷ []) = s
join_space (s ∷ s' ∷ ss) = s ++ (codes " " ++ join_space (s' ∷ ss))

-- What package regexp, package net/url and package fmt do for this file.
pub record Finders : Type 0 where
  pub slack_thread : Text → Option SlackThread
  pub jira_in : Text → List Text
  pub prs_in : Text → List Text
  pub decimal : ℕ → Text

unfoldable pub context_task : Finders → Time → Task → ContextTask
context_task find now t = record {
  id = t.id;
  created_on = t.created_on;
  key = if is_empty t.key then codes "id:" ++ find.decimal t.id else t.key;
  title = t.title;
  status = t.status;
  priority = t.priority;
  plan = t.plan;
  due = t.due;
  project = t.project;
  plan_fixed_today = text_eq t.plan_by by_manual && text_eq t.plan_on (date_string now.date);
  last_activity = last_at t.timeline;
  slack_threads = threads_of find.slack_thread [] t.links;
  jira = uniq_sorted (find.jira_in (join_space (t.key ∷ t.title ∷ t.project ∷ t.links)));
  prs = uniq_sorted (find.prs_in (join_space t.links));
  known_refs = last_20 (map (λ e. e.ref) t.timeline);
}

unfoldable pub listed : Task → Bool
listed t = not (is_finished t.status || t.archived)

unfoldable pub build_context : Finders → Text → List Task → Text → Time → Context
build_context find day_ago all last_sync now = record {
  since = if is_empty last_sync then day_ago else last_sync;
  now = stamp now;
  today = date_string now.date;
  tasks = map (context_task find now) (select listed all);
}
