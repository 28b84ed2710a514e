-- ===== src/Collector/Marks/Daily.antt =====
-- internal/server/autoarchive.go: what the collector archives by itself, and how often.
use ccdash.Prelude.{
  ℕ, ◌≡◌, refl, sym, ap, subst, ◌∙◌, ◌⊎◌, inl, inr, true, false, Option, none, some, List, Text,
  text_eq, text_eq_refl, is_empty, ◌==◌, Bool-cases, arith,
}
use ccdash.Collector.Rows.{Row, find_row, is_running}
use ccdash.Collector.Marks.{
  is_stale, archive_row, auto_archive, Archive, run_daily, maybe_auto_archive,
}
use ccdash.Collector.Machine.Acts.{find_row-auto_archive}

module _ (today : Text) (days_ago : ℕ → ℕ) (days : ℕ) (last : Text) (rows : List Row) where
  run_daily-never :
      (days == 0) ≡ true → run_daily today days_ago (some days) last rows ≡ (last, rows)
  unfolding run_daily
  run_daily-never never = rw never refl

  run_daily-ran :
      text_eq last today ≡ true → run_daily today days_ago (some days) last rows ≡ (last, rows)
  unfolding run_daily
  run_daily-ran ran = elim (Bool-cases (days == 0)) [
    | inl never ↦ rw never refl
    | inr often ↦ rw (often, ran) refl
  ]

  run_daily-due :
      (days == 0) ≡ false
      → text_eq last today ≡ false
      → run_daily today days_ago (some days) last rows
        ≡ (today, (auto_archive (days_ago days) rows).0)
  unfolding run_daily
  run_daily-due often due = rw (often, due) refl

run_daily_once :
    (today : Text) (first again : ℕ → ℕ) (days : Option ℕ) (last : Text) (rows : List Row)
    → (let done = run_daily today first days last rows in
        run_daily today again days done.0 done.1 ≡ done)
run_daily_once today first again none last rows = unfold run_daily in refl
run_daily_once today first again (some days) last rows =
    let from =
      λ (x : Text × List Row) (e : run_daily today first (some days) last rows ≡ x)
          (k : run_daily today again (some days) x.0 x.1 ≡ x).
        subst (λ (y : Text × List Row). run_daily today again (some days) y.0 y.1 ≡ y) (sym e) k in
    elim (Bool-cases (days == 0)) [
      | inl never ↦
          from (last, rows) (run_daily-never today first days last rows never)
            (run_daily-never today again days last rows never)
      | inr often ↦ elim (Bool-cases (text_eq last today)) [
        | inl ran ↦
            from (last, rows) (run_daily-ran today first days last rows ran)
              (run_daily-ran today again days last rows ran)
        | inr due ↦
            from _ (run_daily-due today first days last rows often due)
              (run_daily-ran today again days today _ (text_eq_refl today))
      ]
    ]

-- A second run of the archiving on a day changes nothing, whatever time it goes by.
pub archive_once :
    (today : Text) (first again : ℕ → ℕ) (a : Archive)
    → maybe_auto_archive today again (maybe_auto_archive today first a)
      ≡ maybe_auto_archive today first a
unfolding maybe_auto_archive
archive_once today first again a =
    let once = run_daily_once today first again a.days a.last_day a.sessions in
    λ i. record a { last_day = (once i).0; sessions = (once i).1 }

-- The marks that keep a session, and that it runs.
abbrev pub IsSpared : Row → Type 0
IsSpared r = (r.favorite ≡ true) ⊎ ((is_empty r.project ≡ false) ⊎ (is_running r.status ≡ true))

is_stale-IsSpared : (before : ℕ) (r : Row) → IsSpared r → is_stale before r ≡ false
unfolding is_stale
is_stale-IsSpared before r h = ground (arith, h)

archive_row-IsSpared : (before : ℕ) (r : Row) → IsSpared r → archive_row before r ≡ r
unfolding archive_row
archive_row-IsSpared before r h = rw (is_stale-IsSpared before r h) refl

run_daily-spares :
    (today id : Text) (days_ago : ℕ → ℕ) (days : Option ℕ) (last : Text) (rows : List Row) (r : Row)
    → find_row id rows ≡ some r
    → IsSpared r
    → find_row id (run_daily today days_ago days last rows).1 ≡ some r
unfolding run_daily
run_daily-spares today id days_ago none last rows r e h = e
run_daily-spares today id days_ago (some days) last rows r e h = elim (Bool-cases (days == 0)) [
  | inl never ↦ rw never e
  | inr often ↦ elim (Bool-cases (text_eq last today)) [
    | inl ran ↦ rw (often, ran) e
    | inr due ↦
        rw (often, due)
          (find_row-auto_archive (days_ago days) id rows r e
            ∙ ap some (archive_row-IsSpared (days_ago days) r h))
  ]
]

-- What is spared stays as it is.
pub archive_spares :
    (today id : Text) (days_ago : ℕ → ℕ) (a : Archive) (r : Row)
    → find_row id a.sessions ≡ some r
    → IsSpared r
    → find_row id (maybe_auto_archive today days_ago a).sessions ≡ some r
unfolding maybe_auto_archive
archive_spares today id days_ago a r e h =
    run_daily-spares today id days_ago a.days a.last_day a.sessions r e h
