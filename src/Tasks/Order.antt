-- ===== src/Tasks/Order.antt =====
-- internal/tasks/rules.go: Less and Sort, the order in which the list shows the tasks.
pub mod Sorted
use ccdash.Prelude.{
  ℕ, ◌^◌, Bool, true, false, ◌&&◌, not, List, [], ◌∷◌, map, Option, none, some, Text, codes,
  text_eq, text_lt, is_empty, ltb, ◌==◌, if◌then◌else◌, ℤ, pos, negsuc, leb, sort_stable,
}
use ccdash.Calendar.{Time}
use ccdash.Tasks.Task.{Task, Bucket, is_finished}
use ccdash.Tasks.Plan.{bucket_of}
use ccdash.Tasks.Plan.Carried.{rank}

unfoldable pub order_key : Task → ℕ
order_key t = elim t.order [ none ↦ 10 ^ 18 | some n ↦ n ]

unfoldable pub date_key : Text → Text
date_key s = if is_empty s then codes "9999-99-99" else s

unfoldable pub priority_key : Task → ℕ
priority_key t = elim t.priority [ pos n ↦ if leb 1 n && leb n 4 then n else 4 | negsuc n ↦ 4 ]

-- The rules of Less, the last one first.
unfoldable pub less_due : Task → Task → Bool
less_due a b =
    if text_eq (date_key a.due) (date_key b.due)
    then ltb a.id b.id
    else text_lt (date_key a.due) (date_key b.due)

unfoldable pub less_priority : Task → Task → Bool
less_priority a b =
    if priority_key a == priority_key b then less_due a b else ltb (priority_key a) (priority_key b)

unfoldable pub less_done : Task → Task → Bool
less_done a b =
    if is_finished a.status && is_finished b.status && not (text_eq a.done_on b.done_on)
    then text_lt b.done_on a.done_on
    else less_priority a b

unfoldable pub less_plan : Task → Task → Bool
less_plan a b =
    if text_eq (date_key a.plan) (date_key b.plan)
    then less_done a b
    else text_lt (date_key a.plan) (date_key b.plan)

unfoldable pub less : Task → Task → Bool
less a b = if order_key a == order_key b then less_plan a b else ltb (order_key a) (order_key b)

unfoldable pub bucket_rank : Option Bucket → ℕ
bucket_rank none = 0
bucket_rank (some b) = rank b

unfoldable pub shown_before : Task → Task → Bool
shown_before a b =
    if bucket_rank a.bucket == bucket_rank b.bucket
    then less a b
    else ltb (bucket_rank a.bucket) (bucket_rank b.bucket)

unfoldable pub with_bucket : Time → Task → Task
with_bucket now t = record t { bucket = some (bucket_of t now) }

unfoldable pub sort : List Task → Time → List Task
sort ts now = sort_stable shown_before (map (with_bucket now) ts)
