-- ===== src/Hub/Watch.antt =====
-- internal/hub/notify.go: one look of the watcher at a connected device, and the notifications that are
-- due. Times are milliseconds, and a look takes place at one time. The English texts of a notification
-- are left out; url.PathEscape and filepath.Base are parameters.
pub mod Seen
pub mod Prompts
pub mod Quiet
pub mod Board
use ccdash.Prelude.{
  ℕ, zero, suc, ◌-◌, Bool, true, false, ◌&&◌, ◌||◌, not, List, [], ◌∷◌, ◌++◌, Option, none, some,
  Text, codes, text_eq, is_empty, any, ltb, ◌==◌, length, if◌then◌else◌, has_prefix, drop_length,
}
use ccdash.Session.{
  Session, attention_needs_you, attention_done, wait_label, wait_needs_you, display_title, ref_of,
}

abbrev pub session_cooldown : ℕ
session_cooldown = 15000

pub record WatchState : Type 0 where
  pub first : Bool
  pub restart : Text
  pub restart_seen : Bool
  -- What was seen of a session or a PTY at the last look.
  pub attention : List (Text × Text)
  pub last_sent : List (Text × ℕ)

pub record Notification : Type 0 where
  pub title : Text
  pub body : Text
  pub url : Text
  pub tag : Text

pub record Approval : Type 0 where
  pub session_id : Text
  pub tool : Text
  pub pending : Bool

pub record Pty : Type 0 where
  pub key : Text
  pub alive : Bool
  pub pid : ℕ
  pub cwd : Text
  pub prompt : Text

pub record Watched : Type 0 where
  pub id : Text
  pub name : Text
  pub letter : Text

unfoldable pub new_watch_state : WatchState
new_watch_state = record {
  first = true;
  restart = [];
  restart_seen = false;
  attention = [];
  last_sent = [];
}

-- A map as a list of pairs, the last assignment first; what is missing is the zero value.
unfoldable pub read_text : List (Text × Text) → Text → Text
read_text [] k = []
read_text (b ∷ m) k = if text_eq b.0 k then b.1 else read_text m k

unfoldable pub read_time : List (Text × ℕ) → Text → ℕ
read_time [] k = 0
read_time (b ∷ m) k = if text_eq b.0 k then b.1 else read_time m k

unfoldable pub take_runes : ℕ → Text → Text
take_runes zero s = []
take_runes (suc n) [] = []
take_runes (suc n) (c ∷ s) = c ∷ take_runes n s

unfoldable pub session_label : Session → Text
unfolding take_runes display_title ref_of
session_label s =
    let t = display_title s in
    let short = if ltb 60 (length t) then take_runes 60 t ++ codes "…" else t in
    let ref = ref_of s.host_letter s.num in
    if is_empty ref then short else ref ++ (codes " " ++ short)

-- An older collector does not stamp its letter.
unfoldable pub stamp_letters : Text → List Session → List Session
stamp_letters letter [] = []
stamp_letters letter (s ∷ ss) =
    (if is_empty s.host_letter then record s { host_letter = letter } else s)
    ∷ stamp_letters letter ss

unfoldable pub tools_of : List Approval → List (Text × Text) → List (Text × Text)
tools_of [] m = m
tools_of (a ∷ more) m = tools_of more (if a.pending then (a.session_id, a.tool) ∷ m else m)

unfoldable pub reason_of : List (Text × Text) → Session → Text
unfolding read_text
reason_of tools s =
    let tool = read_text tools s.session_id in
    if not (is_empty tool) && text_eq s.attention_reason (codes "承認待ち")
    then codes "承認待ち: " ++ tool
    else s.attention_reason

unfoldable pub signature : List (Text × Text) → Session → Text
unfolding reason_of
signature tools s = s.attention ++ (codes "|" ++ reason_of tools s)

unfoldable pub trim_prefix : Text → Text → Text
trim_prefix s prefix = if has_prefix s prefix then drop_length s prefix else s

-- A line of its own, where there is one.
abbrev pub more_line : Text → Text
more_line [] = []
more_line (c ∷ s) = 10 ∷ c ∷ s

-- What a look has come to so far: what it has seen, what was sent and when, what is due.
pub record Look : Type 0 where
  pub seen : List (Text × Text)
  pub last_sent : List (Text × ℕ)
  pub due : List Notification

-- A PTY whose process another entry names is a session's.
unfoldable pub is_named : List Pty → ℕ → Bool
is_named ptys pid = any (λ p. not (has_prefix p.key (codes "pid-")) && (p.pid == pid)) ptys

module _ (escape base : Text → Text) (d : Watched) where
  unfoldable pub needs_you_notice : Session → Text → Notification
  unfolding session_label trim_prefix wait_label wait_needs_you
  needs_you_notice s reason =
      let l = wait_label s.wait in
      let declared = wait_needs_you s.wait && has_prefix reason l in
      let label = if declared then l else codes "要対応" in
      let rest = if declared then trim_prefix (trim_prefix reason l) (codes ": ") else reason in
      record {
        title = d.name ++ (codes " · " ++ label);
        body = session_label s ++ more_line rest;
        url = codes "/#/d/" ++ (d.id ++ (codes "/s/" ++ escape s.session_id));
        tag = d.id ++ (codes ":" ++ s.session_id);
      }

  unfoldable pub done_notice : Session → Notification
  unfolding session_label wait_label
  done_notice s =
      let l = wait_label s.wait in
      let label = if is_empty l then codes "完了" else l in
      record {
        title = d.name ++ (codes " · " ++ label);
        body = session_label s ++ (if is_empty s.wait then [] else more_line s.wait_note);
        url = codes "/#/d/" ++ (d.id ++ (codes "/s/" ++ escape s.session_id));
        tag = d.id ++ (codes ":" ++ s.session_id);
      }

  -- The switch on the attention; nothing for a value that it does not know.
  unfoldable pub session_notices : Session → Text → List Notification
  unfolding needs_you_notice done_notice
  session_notices s reason =
      if text_eq s.attention attention_needs_you
      then needs_you_notice s reason ∷ []
      else if text_eq s.attention attention_done
      then done_notice s ∷ []
      else []

  unfoldable pub look_session : WatchState → List (Text × Text) → ℕ → Session → Look → Look
  unfolding signature session_notices read_text read_time reason_of
  look_session st tools now s l =
      if is_empty s.attention
      then l
      else (let sig = signature tools s in
          let l' = record l { seen = (s.session_id, sig) ∷ l.seen } in
          let key = s.session_id ++ (codes ":" ++ s.attention) in
          if st.first || text_eq (read_text st.attention s.session_id) sig
          then l'
          else if ltb (now - read_time l.last_sent key) session_cooldown
          then l'
          else record l' {
            last_sent = (key, now) ∷ l.last_sent;
            due = l.due ++ session_notices s (reason_of tools s);
          })

  unfoldable pub look_sessions : WatchState → List (Text × Text) → ℕ → List Session → Look → Look
  unfolding look_session
  look_sessions st tools now [] l = l
  look_sessions st tools now (s ∷ ss) l =
      look_sessions st tools now ss (look_session st tools now s l)

  unfoldable pub prompt_notice : Pty → Notification
  prompt_notice p =
      let label =
        if is_empty p.cwd
        then codes "新しいセッション"
        else codes "新しいセッション（" ++ (base p.cwd ++ codes "）") in
      record {
        title = d.name ++ codes " · 要対応";
        body = label ++ (10 ∷ p.prompt);
        url = codes "/#/d/" ++ (d.id ++ (codes "/p/" ++ escape p.key));
        tag = d.id ++ (codes ":" ++ p.key);
      }

  unfoldable pub look_pty : WatchState → List Pty → ℕ → Pty → Look → Look
  unfolding is_named prompt_notice read_text read_time
  look_pty st all now p l =
      if not p.alive
        || is_empty p.prompt
        || is_named all p.pid
        || not (has_prefix p.key (codes "pid-"))
      then l
      else (let sk = codes "pty:" ++ p.key in
          let l' = record l { seen = (sk, p.prompt) ∷ l.seen } in
          if st.first
            || text_eq (read_text st.attention sk) p.prompt
            || ltb (now - read_time l.last_sent sk) session_cooldown
          then l'
          else record l' {
            last_sent = (sk, now) ∷ l.last_sent;
            due = l.due ++ prompt_notice p ∷ [];
          })

  unfoldable pub look_ptys : WatchState → List Pty → ℕ → List Pty → Look → Look
  unfolding look_pty
  look_ptys st all now [] l = l
  look_ptys st all now (p ∷ ps) l = look_ptys st all now ps (look_pty st all now p l)

  -- A look at what the device answers; the list of PTYs is empty where it answers none.
  unfoldable pub watch_once :
      WatchState → List Session → List Approval → List Pty → ℕ → List Notification × WatchState
  unfolding look_sessions look_ptys stamp_letters tools_of
  watch_once st sessions approvals ptys now =
      let none_yet : Look = record { seen = []; last_sent = st.last_sent; due = [] } in
      let l =
        look_sessions st (tools_of approvals []) now (stamp_letters d.letter sessions) none_yet in
      let l' = look_ptys st ptys now ptys l in
      (l'.due, record st { first = false; attention = l'.seen; last_sent = l'.last_sent })
