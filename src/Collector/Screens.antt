-- ===== src/Collector/Screens.antt =====
-- internal/server/attention.go: the loop that mirrors the dialogs on the hosted screens into the sessions'
-- attention. What screenprompt.Kind finds on a screen is an argument; the map of the pseudo-terminals is a
-- list of its keys, which differ, and an entry, a pointer in the program, is a number.
pub mod Rounds
use ccdash.Prelude.{
  ℕ, Bool, true, false, ◌&&◌, not, List, [], ◌∷◌, ◌++◌, Text, codes, text_eq, is_empty, any, ◌==◌,
  if◌then◌else◌, has_prefix,
}
use ccdash.Hub.Watch.{read_text}
use ccdash.Collector.Words.{truncate}
use ccdash.Collector.Machine.{Op, raise, lower}

pub record Alias : Type 0 where
  pub key : Text
  pub entry : ℕ

-- The entries: whether the child has exited, and what kind of dialog with what text its screen shows.
pub record Screens : Type 0 where
  pub exited : ℕ → Bool
  pub kind : ℕ → Text
  pub text : ℕ → Text

-- screenReason
unfoldable pub screen_reason : Text → Text → Text
unfolding truncate
screen_reason kind text =
    if is_empty kind
    then []
    else (let reason = if text_eq kind (codes "question") then codes "質問" else codes "確認" in
        if is_empty text then reason else reason ++ (codes ": " ++ truncate text 120))

abbrev pub reason_on : Screens → ℕ → Text
reason_on s e = screen_reason (s.kind e) (s.text e)

abbrev pub is_spawn : Alias → Bool
is_spawn a = has_prefix a.key (codes "pid-")

-- The sessions on a screen, each with the reason that its screen gives.
unfoldable pub on_screen : Screens → List Alias → List (Text × Text)
unfolding screen_reason
on_screen s [] = []
on_screen s (a ∷ more) =
    let rest = on_screen s more in
    if not (is_spawn a) && not (s.exited a.entry) then (a.key, reason_on s a.entry) ∷ rest else rest

unfoldable pub is_named_entry : Screens → List Alias → ℕ → Bool
is_named_entry s aliases e =
    any (λ (a : Alias). not (is_spawn a) && not (s.exited a.entry) && (a.entry == e)) aliases

-- What GET /pty is told of a spawn with no session yet; an entry with a session has no prompt.
unfoldable pub next_prompts : Screens → List Alias → List Alias → (ℕ → Text) → ℕ → Text
unfolding is_named_entry screen_reason
next_prompts s all [] prompts = prompts
next_prompts s all (a ∷ more) prompts =
    let named = is_named_entry s all a.entry in
    next_prompts s all more (
      if is_spawn a && not named && not (s.exited a.entry)
      then (λ e. if e == a.entry then reason_on s e else prompts e)
      else if named
      then (λ e. if e == a.entry then [] else prompts e)
      else prompts)

unfoldable pub drop_key : Text → List (Text × Text) → List (Text × Text)
drop_key k [] = []
drop_key k (b ∷ m) = let rest = drop_key k m in if text_eq b.0 k then rest else b ∷ rest

-- One session on a screen: what is shown of it, and the operations on its row.
unfoldable pub mark_entry : ℕ → Text × Text → List (Text × Text) → List (Text × Text) × List Op
unfolding read_text drop_key
mark_entry now e shown =
    if not (is_empty e.1)
    then (if not (text_eq (read_text shown e.0) e.1)
        then (e ∷ shown, raise now e.0 e.1 ∷ [])
        else (shown, []))
    else if not (is_empty (read_text shown e.0))
    then (drop_key e.0 shown, lower e.0 ∷ [])
    else (shown, [])

unfoldable pub mark_entries :
    ℕ → List (Text × Text) → List (Text × Text) → List (Text × Text) × List Op
unfolding mark_entry
mark_entries now [] shown = (shown, [])
mark_entries now (e ∷ entries) shown =
    let this = mark_entry now e shown in
    let rest = mark_entries now entries this.0 in (rest.0, this.1 ++ rest.1)

abbrev pub has_key : Text → List (Text × Text) → Bool
has_key k = any (λ (b : Text × Text). text_eq b.0 k)

-- A session that is on no screen any more is forgotten.
unfoldable pub forget_gone : List (Text × Text) → List (Text × Text) → List (Text × Text)
forget_gone entries [] = []
forget_gone entries (b ∷ shown) =
    let rest = forget_gone entries shown in if has_key b.0 entries then b ∷ rest else rest

-- A round of attentionLoop.
unfoldable pub attention_round :
    ℕ → List (Text × Text) → List (Text × Text) → List (Text × Text) × List Op
unfolding mark_entries forget_gone
attention_round now entries shown =
    let marked = mark_entries now entries shown in (forget_gone entries marked.0, marked.1)
