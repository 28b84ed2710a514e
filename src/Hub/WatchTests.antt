-- ===== src/Hub/WatchTests.antt =====
-- Looks of the watcher at a device with two sessions.
use ccdash.Prelude.{◌≡◌, refl, true, false, List, [], ◌∷◌, Text, codes, text_eq, has_prefix}
use ccdash.Session.{Session, display_title, ref_of, decimal, digits, wait_label}
use ccdash.Hub.Watch.{
  WatchState, Approval, Pty, Watched, new_watch_state, watch_once, look_sessions, look_session,
  look_ptys, look_pty, stamp_letters, tools_of, read_text, read_time, signature, reason_of,
  session_notices, done_notice, session_label, is_named,
}
use ccdash.Hub.State.Sound.{Apart}
use ccdash.Hub.Watch.Seen.{same_session}
use ccdash.Hub.Watch.Quiet.{watch_once_again}
use ccdash.Hub.Watch.Board.{DeviceSnapshot, badge_count, count_badges, board_column}

abbrev same : Text → Text
same s = s

abbrev mac : Watched
mac = record { id = codes "d1"; name = codes "mac"; letter = codes "A" }

abbrev asking : Session
asking = record {
  session_id = codes "s1";
  host_letter = [];
  num = 42;
  title = codes "fix";
  gen_title = [];
  custom_title = [];
  last_seen = 5;
  status = codes "idle";
  attention = codes "needs_you";
  attention_reason = codes "承認待ち";
  wait = [];
  wait_note = [];
  unseen = false;
}

abbrev working : Session
working = record asking {
  session_id = codes "s2";
  attention = [];
  attention_reason = [];
  status = codes "active";
}

abbrev finished : Session
finished = record working { attention = codes "done" }

abbrev waits : List Approval
waits = record { session_id = codes "s1"; tool = codes "Bash"; pending = true } ∷ []

abbrev prompts : List Pty
prompts =
    record {
      key = codes "pid-7";
      alive = true;
      pid = 7;
      cwd = [];
      prompt = codes "Do you trust this folder?";
    }
    ∷ []

-- The state after the first look, at the time 100000.
abbrev seen_once : WatchState
seen_once = record new_watch_state {
  first = false;
  attention =
      (codes "pty:pid-7", codes "Do you trust this folder?")
      ∷ (codes "s1", codes "needs_you|承認待ち: Bash")
      ∷ [];
}

first_look :
    watch_once same same mac new_watch_state (asking ∷ working ∷ []) waits prompts 100000
    ≡ ([], seen_once)
unfolding watch_once look_sessions look_session look_ptys look_pty stamp_letters tools_of read_text
    read_time signature reason_of is_named has_prefix text_eq new_watch_state
first_look = refl

-- The second session comes to its end.
finish_notice :
    (watch_once same same mac seen_once (asking ∷ finished ∷ []) waits prompts 104000).0
    ≡ record {
      title = codes "mac · 完了";
      body = codes "A42 fix";
      url = codes "/#/d/d1/s/s2";
      tag = codes "d1:s2";
    }
      ∷ []
unfolding watch_once look_sessions look_session look_ptys look_pty stamp_letters tools_of read_text
    read_time signature reason_of is_named has_prefix text_eq session_notices done_notice
    session_label display_title ref_of decimal digits wait_label new_watch_state
finish_notice = refl

first_yet : new_watch_state.first ≡ true
unfolding new_watch_state
first_yet = refl

apart : Apart same_session (asking ∷ finished ∷ [])
unfolding text_eq
apart = ((refl, tt), (tt, tt))

named :
    (has_prefix (codes "s1") (codes "pty:") ≡ false)
    × (has_prefix (codes "s2") (codes "pty:") ≡ false)
unfolding has_prefix
named = (refl, refl)

watch_once_again_example :
    (watch_once same same mac
      (watch_once same same mac seen_once (asking ∷ finished ∷ []) waits prompts 104000).1
      (asking ∷ finished ∷ [])
      waits
      prompts
      108000).0
    ≡ []
watch_once_again_example =
    watch_once_again same same mac seen_once (asking ∷ finished ∷ []) waits prompts 104000 108000
      apart (named.0, (named.1, tt)) (tt, tt)

abbrev snaps : List (Text × DeviceSnapshot)
snaps = (codes "d1", record { device = mac; sessions = working ∷ asking ∷ []; at = 3 }) ∷ []

one_badge : badge_count snaps ≡ 1
unfolding badge_count count_badges board_column text_eq
one_badge = refl
