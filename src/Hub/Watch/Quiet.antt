-- ===== src/Hub/Watch/Quiet.antt =====
-- internal/hub/notify.go: when a look has nothing to send.
use ccdash.Prelude.{ℕ, ◌≡◌, refl, ◌∙◌, true, false, List, [], Text, codes, All, has_prefix}
use ccdash.Session.{Session}
use ccdash.Hub.State.Sound.{Apart}
use ccdash.Hub.Watch.{
  WatchState, Approval, Pty, Watched, Look, stamp_letters, tools_of, look_sessions, watch_once,
}
use ccdash.Hub.Watch.Seen.{
  same_session, same_pty, IsSessionId, look_sessions-first, look_sessions-known,
  look_sessions-IsKnown, stamp_letters-All, stamp_letters-Apart,
}
use ccdash.Hub.Watch.Prompts.{
  look_ptys-first, look_ptys-known, look_ptys-IsKnownPty, look_ptys-keeps,
}

module _ (escape base : Text → Text) (d : Watched) where
  -- The first look at a device sends nothing, whatever it finds.
  pub watch_once-first :
      (st : WatchState) (sessions : List Session) (approvals : List Approval) (ptys : List Pty)
      (now : ℕ)
      → st.first ≡ true
      → (watch_once escape base d st sessions approvals ptys now).0 ≡ []
  unfolding watch_once
  watch_once-first st sessions approvals ptys now h =
      look_ptys-first escape base d st ptys now ptys _ h
      ∙ look_sessions-first escape base d st (tools_of approvals []) now
          (stamp_letters d.letter sessions) _ h

  -- After any look at a device, a look that finds the same sessions, approvals and PTYs sends
  -- nothing, whenever it is, if the ids of the sessions differ and none begins with "pty:", and the
  -- keys of the PTYs differ.
  pub watch_once_again :
      (st : WatchState) (sessions : List Session) (approvals : List Approval) (ptys : List Pty)
      (now now' : ℕ)
      → Apart same_session sessions
      → All IsSessionId sessions
      → Apart same_pty ptys
      → (watch_once escape base d
          (watch_once escape base d st sessions approvals ptys now).1
          sessions
          approvals
          ptys
          now').0
        ≡ []
  unfolding watch_once
  watch_once_again st sessions approvals ptys now now' ids names keys =
      let st' = (watch_once escape base d st sessions approvals ptys now).1 in
      let tools = tools_of approvals [] in
      let ss = stamp_letters d.letter sessions in
      let start : Look = record { seen = []; last_sent = st.last_sent; due = [] } in
      let l = look_sessions escape base d st tools now ss start in
      look_ptys-known escape base d st' ptys now' ptys _ refl
        (look_ptys-IsKnownPty escape base d st ptys now ptys l keys)
      ∙ look_sessions-known escape base d st' tools now' ss _ refl (
          look_ptys-keeps escape base d st tools ptys ptys now l ss
            (stamp_letters-All (λ k. has_prefix k (codes "pty:") ≡ false) d.letter sessions names)
            (look_sessions-IsKnown escape base d st tools now ss start
              (stamp_letters-Apart d.letter sessions ids)))
