-- ===== src/Session.antt =====
-- internal/model/model.go: the parts of a session that the hub's watcher reads, and their display.
pub mod Colors
mod Tests
use ccdash.Prelude.{
  ℕ, zero, suc, ◌+◌, ◌/◌, ◌%◌, Bool, ◌||◌, [], ◌∷◌, ◌++◌, Text, codes, text_eq, is_empty, ltb, ◌==◌,
  if◌then◌else◌,
}

pub record Session : Type 0 where
  pub session_id : Text
  pub host_letter : Text
  pub num : ℕ
  pub title : Text
  pub gen_title : Text
  pub custom_title : Text
  pub last_seen : ℕ
  pub status : Text
  pub attention : Text
  pub attention_reason : Text
  pub wait : Text
  pub wait_note : Text
  pub unseen : Bool

abbrev pub attention_needs_you : Text
attention_needs_you = codes "needs_you"

abbrev pub attention_done : Text
attention_done = codes "done"

abbrev pub wait_answer : Text
wait_answer = codes "answer"

abbrev pub wait_action : Text
wait_action = codes "action"

abbrev pub wait_report : Text
wait_report = codes "report"

abbrev pub wait_background : Text
wait_background = codes "background"

unfoldable pub wait_label : Text → Text
wait_label kind =
    if text_eq kind wait_answer
    then codes "回答待ち"
    else if text_eq kind wait_action
    then codes "作業待ち"
    else if text_eq kind wait_report
    then codes "報告"
    else if text_eq kind wait_background
    then codes "自動で続行"
    else []

unfoldable pub wait_needs_you : Text → Bool
wait_needs_you kind = text_eq kind wait_answer || text_eq kind wait_action

unfoldable pub display_title : Session → Text
display_title s =
    if is_empty s.custom_title
    then (if is_empty s.gen_title then s.title else s.gen_title)
    else s.custom_title

-- The digits of %d; a number has no more of them than it counts.
unfoldable pub digits : ℕ → ℕ → Text
digits zero n = []
digits (suc fuel) n =
    let rest = digits fuel (n / 10) in
    if ltb n 10 then (b'0' + n) ∷ [] else rest ++ (b'0' + n % 10) ∷ []

unfoldable pub decimal : ℕ → Text
unfolding digits
decimal n = digits (suc n) n

unfoldable pub ref_of : Text → ℕ → Text
unfolding decimal
ref_of letter num =
    if num == 0
    then []
    else if is_empty letter
    then codes "#" ++ decimal num
    else letter ++ decimal num
