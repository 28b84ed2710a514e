-- ===== src/Collector/Machine/Archived.antt =====
-- internal/db/db.go: what sequences of operations leave of a row's place in the archive.
use ccdash.Prelude.{
  ℕ, ◌≡◌, sym, ◌∙◌, inl, inr, Bool, true, false, List, some, Text, is_empty, all, if◌then◌else◌,
  Bool-cases, arith, true-ne-false,
}
use ccdash.Session.{attention_needs_you, attention_done}
use ccdash.Collector.Rows.{
  Row, Found, find_row, merge_row, archive_case, files_away, comes_back, clear_attention_row,
  wait_row, LastSeenMode, last_seen_max, last_seen_set, last_seen_keep, SessionStatus,
}
use ccdash.Collector.Hooks.{Db, Hook, found_of}
use ccdash.Collector.Marks.{archive_row, is_stale}
use ccdash.Collector.Machine.{run_ops, Op, archive, ensure_row, seen_row, seen_at_row}
use ccdash.Collector.Machine.Keeps.{Keeps, run_ops-keeps, hook_row-keeps}

-- Archived by the operator: the row does not come back by itself.
abbrev pub IsPutAway : Row → Type 0
IsPutAway r = (r.archived ≡ true) × (r.auto_archived ≡ false)

archive_case-put_away :
    (now : ℕ) (s : Found) (r : Row) (old : Bool) → IsPutAway r → archive_case now s r old ≡ old
unfolding archive_case files_away comes_back
archive_case-put_away now s r old h = ground (arith, h.0, h.1)

merge_row-IsPutAway :
    (mode : LastSeenMode) (now : ℕ) (s : Found) (r : Row)
    → IsPutAway r
    → IsPutAway (merge_row mode now s r)
unfolding merge_row
merge_row-IsPutAway mode now s r h = (
  archive_case-put_away now s r r.archived h ∙ h.0,
  archive_case-put_away now s r r.auto_archived h ∙ h.1,
)

archive_row-IsPutAway : (before : ℕ) (r : Row) → IsPutAway r → IsPutAway (archive_row before r)
unfolding archive_row is_stale
archive_row-IsPutAway before r h = ground (arith, h.0, h.1)

-- Whatever is not the operator's putting away or taking back.
abbrev pub leaves_archive : Op → Bool
leaves_archive (archive id v) = false
leaves_archive _ = true

ensure_row-IsPutAway :
    (p : Hook) (status : SessionStatus) (bump activity : Bool) (r : Row)
    → IsPutAway r
    → IsPutAway (ensure_row p status bump activity r)
unfolding ensure_row
ensure_row-IsPutAway p status bump activity r h = elim (Bool-cases (is_empty p.session_id)) [
  | inl nameless ↦ rw nameless h
  | inr named ↦ rw named (
      merge_row-IsPutAway (if bump then last_seen_max else last_seen_keep) p.now
        (found_of p status activity) r h)
]

clear_attention_row-IsPutAway :
    (kind : Text) (r : Row) → IsPutAway r → IsPutAway (clear_attention_row kind r)
unfolding clear_attention_row
clear_attention_row-IsPutAway kind r h = ground (arith, h.0, h.1)

Keeps-IsPutAway : (id : Text) → Keeps leaves_archive id IsPutAway
Keeps-IsPutAway id = record {
  hooked = λ kind p r mine c h.
      hook_row-keeps IsPutAway (λ q now k reason x. x)
        (λ q k x. clear_attention_row-IsPutAway k q x) (λ q now x. unfold wait_row in x) (λ q x. x)
        (λ p' status bump activity q x. ensure_row-IsPutAway p' status bump activity q x) kind p r
        h;
  discovered = λ now s r mine c h. merge_row-IsPutAway last_seen_set now s r h;
  looked_at = λ now o r c h.
      unfold seen_row in clear_attention_row-IsPutAway attention_done (seen_at_row now r) h;
  declared = λ now o kind note r mine c h. unfold wait_row in h;
  raised = λ now o reason r mine c h. h;
  lowered = λ o r mine c h. clear_attention_row-IsPutAway attention_needs_you r h;
  put_away = λ o v r mine c h. absurd (true-ne-false (sym c));
  filed = λ before r h. archive_row-IsPutAway before r h;
  pinned = λ r v t h. h;
  kept_for_later = λ r t h. h;
  placed = λ r t h. h;
  originated = λ r o h. h;
  entitled = λ r t h. h;
  painted = λ r c h. h;
}

-- A session that the operator has archived, not the collector by itself, stays so through any
-- sequence of hooks, discoveries and marks in which the operator archives or takes back no session.
pub archived_stays :
    (id : Text) (ops : List Op) (d : Db) (r : Row)
    → all leaves_archive ops ≡ true
    → find_row id d.sessions ≡ some r
    → IsPutAway r
    → (r' : Row) × (find_row id (run_ops ops d).sessions ≡ some r') × IsPutAway r'
archived_stays id ops d r calm e h = run_ops-keeps (Keeps-IsPutAway id) ops d r calm e h
