-- ===== src/Server/Restart.antt =====
-- internal/server/restartwait.go: a restart that waits until the hosted sessions are idle. Times are in
-- nanoseconds of the monotonic clock; a schedule's identity, its pointer in the program, is a number. The
-- look at the sessions is an argument, and so is what the restart itself does.
pub mod Waits
use ccdash.Prelude.{
  ℕ, suc, ◌+◌, ◌-◌, ◌*◌, ◌%◌, ◌^◌, min, max, Bool, true, false, ◌&&◌, ◌||◌, not, List, [], ◌∷◌,
  Option, none, some, Text, trim_space, ltb, leb, ◌==◌, if◌then◌else◌,
}
use ccdash.Tasks.Timeline.{take}

abbrev pub second : ℕ
second = 1_000_000_000

abbrev pub minute : ℕ
minute = 60 * second

abbrev pub restart_quiet : ℕ
restart_quiet = 4 * second

abbrev pub restart_default_timeout : ℕ
restart_default_timeout = 120 * minute

abbrev pub restart_max_timeout : ℕ
restart_max_timeout = 1440 * minute

abbrev pub restart_last_keep : ℕ
restart_last_keep = 30 * minute

pub record RestartSchedule : Type 0 where
  pub ident : ℕ
  pub since : ℕ
  pub deadline : ℕ
  pub by : Text

-- How the previous schedule ended without a restart.
pub data Ending : Type 0 where
  cancelled expired failed : Ending

-- The fields of Server that the schedule uses; `fresh` is the next identity.
pub record Server : Type 0 where
  pub sched : Option RestartSchedule
  pub last : Option Ending
  pub last_at : ℕ
  pub fresh : ℕ

-- The timeout of a request: an int64 of minutes, as its bit pattern, times a minute in int64.
unfoldable pub timeout_of : ℕ → ℕ
timeout_of minutes =
    let d = (minutes * minute) % 2 ^ 64 in
    if (d == 0) || leb (2 ^ 63) d then restart_default_timeout else min d restart_max_timeout

-- The name of who asked, which is ASCII.
unfoldable pub by_of : Text → Text
by_of by = take 32 (trim_space by)

-- Whether a wait loop was started, beside the server.
unfoldable pub schedule_restart : ℕ → Text → ℕ → Server → Server × Bool
schedule_restart minutes by now s = elim s.sched [
  | some p ↦ (
    record s { sched = some (record p { deadline = max p.deadline (now + timeout_of minutes) }) },
    false,
  )
  | none ↦ (
    record {
      sched = some (record {
        ident = s.fresh;
        since = now;
        deadline = now + timeout_of minutes;
        by = by_of by;
      });
      last = none;
      last_at = 0;
      fresh = suc s.fresh;
    },
    true,
  )
]

-- `none` for a restart that supersedes the schedule.
unfoldable pub cancel_scheduled_restart : Option Ending → ℕ → Server → Server × Bool
cancel_scheduled_restart why now s = elim s.sched [
  | none ↦ (s, false)
  | some p ↦ elim why [
    | none ↦ (record s { sched = none }, true)
    | some w ↦ (record s { sched = none; last = some w; last_at = now }, true)
  ]
]

-- What a round of the wait loop comes to: the loop ends, it goes on with the time since when all has
-- been idle, or it is about to restart for the schedule that it looked at.
pub data Round : Type 0 where
  ends : Round
  waits : Option ℕ → Round
  ready : ℕ → Round

-- The quiet so far, with this idle look.
unfoldable pub idle_since : Option ℕ → ℕ → ℕ
idle_since none now = now
idle_since (some c) now = c

unfoldable pub idle_round : ℕ → Option ℕ → ℕ → Round
idle_round ident clear now =
    if ltb (now - idle_since clear now) restart_quiet
    then waits (some (idle_since clear now))
    else ready ident

-- A round up to the second time that it takes the lock.
unfoldable pub look : Option ℕ → ℕ → Bool → Server → Server × Round
look clear now busy s = elim s.sched [
  | none ↦ (s, ends)
  | some p ↦
      if ltb p.deadline now
      then ((cancel_scheduled_restart (some expired) now s).0, ends)
      else if busy
      then (s, waits none)
      else (s, idle_round p.ident clear now)
]

-- The second time: the restart is made only if the schedule is still the one that was looked at.
unfoldable pub commit : ℕ → Server → Server × Bool
commit ident s = elim s.sched [
  | none ↦ (s, false)
  | some p ↦ if p.ident == ident then (record s { sched = none }, true) else (s, false)
]

unfoldable pub restart_failed : ℕ → Server → Server
restart_failed now s = record s { last = some failed; last_at = now }

-- The ending that GET /api/restart still reports.
unfoldable pub reported_last : ℕ → Server → Option Ending
reported_last now s = if ltb (now - s.last_at) restart_last_keep then s.last else none

-- The looks of one loop, each at a time and with whether a session was busy, while nothing else
-- happens to the schedule.
unfoldable pub looks : Option ℕ → List (ℕ × Bool) → Server → Round
looks clear [] s = waits clear
looks clear ((now, busy) ∷ later) s = elim (look clear now busy s).1 [
  | ends ↦ ends
  | ready ident ↦ ready ident
  | waits clear' ↦ looks clear' later s
]
