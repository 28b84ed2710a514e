-- ===== src/Collector/Marks.antt =====
-- internal/db/db.go and internal/server/autoarchive.go: what the operator, and the collector by itself,
-- marks a session's row with.
pub mod Daily
use ccdash.Prelude.{
  ℕ, ◌+◌, ◌-◌, ◌*◌, max, Bool, true, false, ◌&&◌, ◌||◌, not, List, [], ◌∷◌, Option, none, some,
  Text, codes, text_eq, is_empty, ltb, leb, ◌==◌, if◌then◌else◌, Result, ok, err,
}
use ccdash.Collector.Rows.{SessionStatus, is_running, unix, Row, update_row}

unfoldable pub touch_row : ℕ → SessionStatus → Row → Row
touch_row now status r = record r {
  last_seen = unix now;
  status = status;
  archived = if r.auto_archived then false else r.archived;
  auto_archived = false;
}

unfoldable pub touch_session : ℕ → Text → SessionStatus → List Row → List Row
unfolding update_row touch_row
touch_session now id status = update_row id (touch_row now status)

unfoldable pub set_archived : Text → Bool → List Row → List Row
unfolding update_row
set_archived id v = update_row id (λ r. record r { archived = v; auto_archived = false })

unfoldable pub set_favorite : ℕ → Text → Bool → List Row → List Row
unfolding update_row
set_favorite now id v =
    update_row id (λ r. record r { favorite = v; favorite_at = if v then now else 0 })

unfoldable pub set_later : ℕ → Text → Bool → List Row → List Row
unfolding update_row
set_later now id later = update_row id (λ r. record r { later_at = if later then now else 0 })

-- CASE WHEN ? THEN COALESCE(grid_at, ?) ELSE NULL END
unfoldable pub grid_time : ℕ → Bool → Option ℕ → Option ℕ
grid_time now false old = none
grid_time now true none = some now
grid_time now true (some t) = some t

unfoldable pub set_grid : ℕ → Text → Bool → List Row → List Row
unfolding update_row grid_time
set_grid now id on = update_row id (λ r. record r { grid_at = grid_time now on r.grid_at })

unfoldable pub set_origin : Text → Text → List Row → List Row
unfolding update_row
set_origin id origin =
    update_row id (λ r. if is_empty r.origin then record r { origin = origin } else r)

unfoldable pub set_custom_title : Text → Text → List Row → List Row
unfolding update_row
set_custom_title id title = update_row id (λ r. record r { custom_title = title })

-- A random color is drawn by the caller.
unfoldable pub set_color : Text → Text → List Row → List Row
unfolding update_row
set_color id color = update_row id (λ r. record r { color = color })

unfoldable pub set_title_status : List Text → Text → List Row → List Row
unfolding update_row
set_title_status [] status rows = rows
set_title_status (id ∷ ids) status rows =
    set_title_status ids status (update_row id (λ r. record r { title_status = status }) rows)

unfoldable pub set_gen_title : Text → Text → List Row → List Row
unfolding update_row
set_gen_title id title =
    update_row id (λ r. record r { gen_title = title; title_status = codes "done" })

unfoldable pub sweep_running_titles : List Row → List Row
sweep_running_titles [] = []
sweep_running_titles (r ∷ rows) =
    (if text_eq r.title_status (codes "running")
      then record r { title_status = codes "error" }
      else r)
    ∷ sweep_running_titles rows

-- The rows of AutoArchive: in the working set, neither pinned nor in a project, not running, and idle since
-- before that second.
unfoldable pub is_stale : ℕ → Row → Bool
is_stale before r =
    not r.archived
    && not r.favorite
    && is_empty r.project
    && not (is_running r.status)
    && ltb r.last_seen before

unfoldable pub archive_row : ℕ → Row → Row
unfolding is_stale
archive_row before r =
    if is_stale before r then record r { archived = true; auto_archived = true } else r

-- AutoArchive: the rows, and how many of them it has archived.
unfoldable pub auto_archive : ℕ → List Row → List Row × ℕ
unfolding archive_row is_stale
auto_archive before [] = ([], 0)
auto_archive before (r ∷ rows) =
    let rest = auto_archive before rows in
    (archive_row before r ∷ rest.0, (if is_stale before r then 1 else 0) + rest.1)

-- What maybeAutoArchive reads and writes: the setting auto_archive_days, none where the settings cannot be
-- read; the day it ran last; the rows.
pub record Archive : Type 0 where
  pub days : Option ℕ
  pub last_day : Text
  pub sessions : List Row

-- The caller gives the local day and the second that is so many days ago by AddDate; the days set are no
-- negative number, which counts as none.
unfoldable pub run_daily : Text → (ℕ → ℕ) → Option ℕ → Text → List Row → Text × List Row
unfolding auto_archive
run_daily today days_ago none last rows = (last, rows)
run_daily today days_ago (some days) last rows =
    if days == 0
    then (last, rows)
    else if text_eq last today
    then (last, rows)
    else (today, (auto_archive (days_ago days) rows).0)

unfoldable pub maybe_auto_archive : Text → (ℕ → ℕ) → Archive → Archive
unfolding run_daily
maybe_auto_archive today days_ago a =
    let done = run_daily today days_ago a.days a.last_day a.sessions in
    record a { last_day = done.0; sessions = done.1 }
