-- ===== src/Tasks/Order/Sorted.antt =====
-- The list is in order. Less alone is no order: it looks at the day of finishing only of two tasks that
-- are both finished. Within one bucket it is one, and the buckets are compared first.
use mathlib.Core.List.{Perm}
use ccdash.Prelude.{
  ℕ, ◌≡◌, refl, Bool, true, false, ◌&&◌, not, List, [], ◌∷◌, map, some, arith, Text, text_eq,
  text_eq_iff, text_lt, text_lt-asym, text_lt-chain, text_lt-connex, text_lt_irrefl, ltb, ◌==◌,
  if◌then◌else◌, All, sort_stable-IsSorted, sort_stable-perm, IsSorted,
}
use ccdash.Calendar.{Time, date_string}
use ccdash.Tasks.Task.{Task, is_finished}
use ccdash.Tasks.Plan.{bucket_of, bucket_of_day}
use ccdash.Tasks.Plan.Carried.{rank}
use ccdash.Tasks.Order.{
  order_key, date_key, priority_key, less_due, less_priority, less_done, less_plan, less,
  bucket_rank, shown_before, with_bucket, sort,
}

-- A strict weak order, at three tasks.
record Orders (lt : Task → Task → Bool) (a b c : Task) : Type 0 where
  asym : (lt a b && lt b a) ≡ false
  chain : (not (lt b a) && not (lt c b) && lt c a) ≡ false

-- A comparison by a number first, by `lt` where it ties.
by_number : (Task → ℕ) → (Task → Task → Bool) → Task → Task → Bool
by_number key lt a b = if key a == key b then lt a b else ltb (key a) (key b)

by_text : (Task → Text) → (Task → Task → Bool) → Task → Task → Bool
by_text key lt a b = if text_eq (key a) (key b) then lt a b else text_lt (key a) (key b)

by_number-Orders :
    (key : Task → ℕ) (lt : Task → Task → Bool) (a b c : Task)
    → (key a ≡ key b → (lt a b && lt b a) ≡ false)
    → (key a ≡ key b → key b ≡ key c → (not (lt b a) && not (lt c b) && lt c a) ≡ false)
    → Orders (by_number key lt) a b c
unfolding by_number
by_number-Orders key lt a b c h k = record { asym = ground arith; chain = ground arith }

by_text-Orders :
    (key : Task → Text) (lt : Task → Task → Bool) (a b c : Task)
    → (key a ≡ key b → (lt a b && lt b a) ≡ false)
    → (key a ≡ key b → key b ≡ key c → (not (lt b a) && not (lt c b) && lt c a) ≡ false)
    → Orders (by_text key lt) a b c
unfolding by_text
by_text-Orders key lt a b c h k = record {
  asym = ground (
    arith,
    text_eq_iff (key a) (key b),
    text_eq_iff (key b) (key a),
    text_lt-asym (key a) (key b),
  );
  chain = ground (
    arith,
    text_eq_iff (key a) (key b),
    text_eq_iff (key b) (key a),
    text_eq_iff (key b) (key c),
    text_eq_iff (key c) (key b),
    text_eq_iff (key c) (key a),
    text_lt-chain (key a) (key b) (key c),
    text_lt-asym (key a) (key b),
    text_lt-asym (key b) (key c),
    text_lt-connex (key a) (key b),
    text_lt-connex (key b) (key c),
    text_lt_irrefl (key a),
  );
}

less_due-Orders : (a b c : Task) → Orders less_due a b c
unfolding less_due
less_due-Orders a b c =
    unfold by_text in
    by_text-Orders (λ t. date_key t.due) (λ x y. ltb x.id y.id) a b c (λ _. ground arith)
      (λ _ _. ground arith)

less_priority-Orders : (a b c : Task) → Orders less_priority a b c
unfolding less_priority
less_priority-Orders a b c =
    unfold by_number in
    by_number-Orders priority_key less_due a b c (λ _. (less_due-Orders a b c).asym)
      (λ _ _. (less_due-Orders a b c).chain)

-- The later day of finishing comes first.
all_finished-Orders :
    (a b c : Task)
    → is_finished a.status ≡ true
    → is_finished b.status ≡ true
    → is_finished c.status ≡ true
    → Orders less_done a b c
unfolding less_done
all_finished-Orders a b c h k l = record {
  asym = ground (
    arith,
    text_eq_iff a.done_on b.done_on,
    text_eq_iff b.done_on a.done_on,
    text_lt-asym a.done_on b.done_on,
    (less_priority-Orders a b c).asym,
  );
  chain = ground (
    arith,
    text_eq_iff a.done_on b.done_on,
    text_eq_iff b.done_on a.done_on,
    text_eq_iff b.done_on c.done_on,
    text_eq_iff c.done_on b.done_on,
    text_eq_iff c.done_on a.done_on,
    text_lt-chain c.done_on b.done_on a.done_on,
    text_lt-connex a.done_on b.done_on,
    text_lt-connex b.done_on c.done_on,
    text_lt_irrefl a.done_on,
    (less_priority-Orders a b c).chain,
  );
}

-- Where a finished one was finished on the day `d`, the day of finishing decides nothing.
one_day-Orders :
    (d : Text) (a b c : Task)
    → (is_finished a.status && not (text_eq a.done_on d)) ≡ false
    → (is_finished b.status && not (text_eq b.done_on d)) ≡ false
    → (is_finished c.status && not (text_eq c.done_on d)) ≡ false
    → Orders less_done a b c
unfolding less_done
one_day-Orders d a b c h k l =
    let ab : (is_finished a.status && is_finished b.status && not (text_eq a.done_on b.done_on))
        ≡ false =
      same_day a b h k in
    let ba : (is_finished b.status && is_finished a.status && not (text_eq b.done_on a.done_on))
        ≡ false =
      same_day b a k h in
    let cb : (is_finished c.status && is_finished b.status && not (text_eq c.done_on b.done_on))
        ≡ false =
      same_day c b l k in
    let ca : (is_finished c.status && is_finished a.status && not (text_eq c.done_on a.done_on))
        ≡ false =
      same_day c a l h in
    record {
      asym = rw (ab, ba) (less_priority-Orders a b c).asym;
      chain = rw (ba, cb, ca) (less_priority-Orders a b c).chain;
    }
  where
    same_day :
        (x y : Task)
        → (is_finished x.status && not (text_eq x.done_on d)) ≡ false
        → (is_finished y.status && not (text_eq y.done_on d)) ≡ false
        → (is_finished x.status && is_finished y.status && not (text_eq x.done_on y.done_on))
          ≡ false
    same_day x y p q =
        ground
          (arith, text_eq_iff x.done_on d, text_eq_iff y.done_on d, text_eq_iff x.done_on y.done_on)

-- The task has been put in its bucket.
abbrev pub Placed : Time → Task → Type 0
Placed now t = t.bucket ≡ some (bucket_of t now)

-- A task in the last bucket is finished; elsewhere a finished one was finished today.
bucket_of-finished :
    (t : Task) (now : Time)
    → Placed now t
    → (if bucket_rank t.bucket == 6
        then is_finished t.status ≡ true
        else (is_finished t.status && not (text_eq t.done_on (date_string now.date))) ≡ false)
unfolding bucket_of bucket_rank rank bucket_of_day
bucket_of-finished t now h = rw h (ground arith)

less_done-Orders :
    (now : Time) (a b c : Task)
    → Placed now a
    → Placed now b
    → Placed now c
    → bucket_rank a.bucket ≡ bucket_rank b.bucket
    → bucket_rank b.bucket ≡ bucket_rank c.bucket
    → Orders less_done a b c
less_done-Orders now a b c pa pb pc h k = ground (
  arith,
  bucket_of-finished a now pa,
  bucket_of-finished b now pb,
  bucket_of-finished c now pc,
  all_finished-Orders a b c,
  one_day-Orders (date_string now.date) a b c,
)

less-Orders :
    (now : Time) (a b c : Task)
    → Placed now a
    → Placed now b
    → Placed now c
    → bucket_rank a.bucket ≡ bucket_rank b.bucket
    → bucket_rank b.bucket ≡ bucket_rank c.bucket
    → Orders less a b c
unfolding less less_plan
less-Orders now a b c pa pb pc h k =
    let done = less_done-Orders now a b c pa pb pc h k in
    let plan : Orders less_plan a b c =
      unfold by_text in
      by_text-Orders (λ t. date_key t.plan) less_done a b c (λ _. done.asym) (λ _ _. done.chain) in
    unfold by_number in
    by_number-Orders order_key less_plan a b c (λ _. plan.asym) (λ _ _. plan.chain)

shown_before-Orders :
    (now : Time) (a b c : Task)
    → Placed now a
    → Placed now b
    → Placed now c
    → Orders shown_before a b c
unfolding shown_before
shown_before-Orders now a b c pa pb pc =
    unfold by_number in
    by_number-Orders (λ t. bucket_rank t.bucket) less a b c
      (λ h. (less-Orders now a b b pa pb pb h refl).asym)
      (λ h k. (less-Orders now a b c pa pb pc h k).chain)

shown_before-asym :
    (now : Time) (a b : Task)
    → Placed now a
    → Placed now b
    → shown_before a b ≡ true
    → shown_before b a ≡ false
shown_before-asym now a b pa pb h = ground (arith, (shown_before-Orders now a b b pa pb pb).asym)

shown_before-chain :
    (now : Time) (a b c : Task)
    → Placed now a
    → Placed now b
    → Placed now c
    → shown_before b a ≡ false
    → shown_before c b ≡ false
    → shown_before c a ≡ false
shown_before-chain now a b c pa pb pc h k =
    ground (arith, (shown_before-Orders now a b c pa pb pc).chain)

with_bucket-Placed : (now : Time) (t : Task) → Placed now (with_bucket now t)
unfolding with_bucket bucket_of
with_bucket-Placed now t = refl

All-Placed : (now : Time) (ts : List Task) → All (Placed now) (map (with_bucket now) ts)
All-Placed now [] = tt
All-Placed now (t ∷ ts) = (with_bucket-Placed now t, All-Placed now ts)

-- The sorted list is a permutation of the tasks that were given, each with its bucket filled in,
-- and no task stands behind one that is to be shown after it.
pub sort-IsSorted :
    (ts : List Task) (now : Time)
    → Perm (sort ts now) (map (with_bucket now) ts) × IsSorted shown_before (sort ts now)
unfolding sort
sort-IsSorted ts now = (
  sort_stable-perm shown_before _,
  sort_stable-IsSorted shown_before (Placed now) (shown_before-asym now) (shown_before-chain now) _
      (All-Placed now ts),
)
