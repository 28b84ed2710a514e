-- ===== src/Tasks/Task.antt =====
-- internal/model/task.go, and the constants of internal/tasks.
use ccdash.Prelude.{
  ℕ, Bool, true, false, List, Option, ◌≡◌, ◌↔◌, arith, Text, codes, text_eq, text_eq_iff, ℤ,
}

-- The status strings that the program names, the empty one, and any other.
pub data Status : Type 0 where
  unset todo doing waiting done cancelled : Status
  other : Text → Status

-- The keys of StatusLabel.
unfoldable pub valid_status : Status → Bool
valid_status unset = false
valid_status (other s) = false
valid_status _ = true

unfoldable pub status_eq : Status → Status → Bool
status_eq unset unset = true
status_eq todo todo = true
status_eq doing doing = true
status_eq waiting waiting = true
status_eq done done = true
status_eq cancelled cancelled = true
status_eq (other s) (other t) = text_eq s t
status_eq _ _ = false

-- StatusLabel; a missing key gives the empty text.
unfoldable pub status_label : Status → Text
status_label unset = codes ""
status_label todo = codes "未着手"
status_label doing = codes "進行中"
status_label waiting = codes "待ち"
status_label done = codes "完了"
status_label cancelled = codes "中止"
status_label (other s) = codes ""

-- The bucket keys, in display order.
pub data Bucket : Type 0 where
  today tomorrow week nextweek later unplanned finished : Bucket

pub record TaskNote : Type 0 where
  pub at : Text
  pub source : Text
  pub text : Text
  pub link : Text
  pub ref : Text

-- `order` is a place that the person has given by hand; the program writes 1, 2, 3, ….
pub record Task : Type 0 where
  pub id : ℕ
  pub key : Text
  pub title : Text
  pub priority : ℤ
  pub status : Status
  pub plan : Text
  pub plan_by : Text
  pub plan_on : Text
  pub due : Text
  pub project : Text
  pub note : Text
  pub links : List Text
  pub source : Text
  pub created_on : Text
  pub done_on : Text
  pub order : Option ℕ
  pub archived : Bool
  pub updated_at : ℕ
  pub timeline : List TaskNote
  pub sessions : List Text
  pub bucket : Option Bucket

-- Task.Finished, of the status.
unfoldable pub is_finished : Status → Bool
is_finished done = true
is_finished cancelled = true
is_finished _ = false

abbrev pub source_claude : Text
source_claude = codes "claude"

abbrev pub source_auto : Text
source_auto = codes "auto"

abbrev pub by_manual : Text
by_manual = codes "manual"

abbrev pub by_auto : Text
by_auto = codes "auto"

pub status_eq_iff : (s t : Status) → (status_eq s t ≡ true) ↔ (s ≡ t)
unfolding status_eq
status_eq_iff (other s) (other t) = ground (arith, text_eq_iff s t)
status_eq_iff unset _ = ground arith
status_eq_iff todo _ = ground arith
status_eq_iff doing _ = ground arith
status_eq_iff waiting _ = ground arith
status_eq_iff done _ = ground arith
status_eq_iff cancelled _ = ground arith
status_eq_iff _ _ = ground arith
