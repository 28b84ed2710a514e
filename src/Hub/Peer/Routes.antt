-- ===== src/Hub/Peer/Routes.antt =====
-- internal/hub/peer.go and internal/server/hub.go: a route of a peer is a route of the tunnel.
use ccdash.Prelude.{
  ◌≡◌, refl, sym, ◌∙◌, ap, inl, inr, Bool, true, false, ◌&&◌, not, List, [], ◌∷◌, arith, Text,
  codes, text_eq, text_eq_iff, is_empty, all, contains, has_prefix, segments, onto_first, after_api,
  Bool-cases, true-ne-false, and_first, and_mono, or_right, or_elim,
}
use ccdash.Server.Tunnel.{hub_read_route, hub_session_edit, hub_task_edit}
use ccdash.Server.Tunnel.Reach.{in_names, named}
use ccdash.Calendar.{is_digit}
use ccdash.Hub.Peer.{
  peer_transcript, peer_tasks, peer_session_edit, peer_project_edit, peer_task_edit, peer_pty,
}

abbrev reads : List Text
reads = codes "sessions" ∷ codes "approvals" ∷ codes "projects" ∷ codes "usage" ∷ codes "tasks" ∷ []

abbrev details : List Text
details = codes "transcript" ∷ codes "usage" ∷ codes "statusline" ∷ []

abbrev edits : List Text
edits =
    codes "archive"
    ∷ codes "favorite"
    ∷ codes "later"
    ∷ codes "grid"
    ∷ codes "color"
    ∷ codes "title"
    ∷ codes "group"
    ∷ codes "project"
    ∷ codes "seen"
    ∷ []

peer_names_known :
    (contains reads (codes "tasks") ≡ true)
    × (contains details (codes "transcript") ≡ true)
    × (all (contains edits) (
          codes "archive"
          ∷ codes "favorite"
          ∷ codes "later"
          ∷ codes "grid"
          ∷ codes "color"
          ∷ codes "title"
          ∷ codes "project"
          ∷ codes "seen"
          ∷ [])
        ≡ true)
unfolding contains text_eq
peer_names_known = (refl, refl, refl)

pub transcript_read : (api : List Text) → peer_transcript api ≡ true → hub_read_route api ≡ true
unfolding peer_transcript hub_read_route
transcript_read (a ∷ b ∷ c ∷ []) h =
    and_mono (text_eq a (codes "sessions") && not (is_empty b)) _ _
      (named (contains details) c (codes "transcript") peer_names_known.1) h
transcript_read _ h = cc

pub tasks_read : (api : List Text) → peer_tasks api ≡ true → hub_read_route api ≡ true
unfolding peer_tasks hub_read_route
tasks_read (a ∷ []) h = named (contains reads) a (codes "tasks") peer_names_known.0 h
tasks_read (a ∷ b ∷ []) h = or_right (text_eq a (codes "usage") && text_eq b (codes "sessions")) _ h
tasks_read _ h = cc

pub session_edits : (api : List Text) → peer_session_edit api ≡ true → hub_session_edit api ≡ true
unfolding peer_session_edit hub_session_edit
session_edits (a ∷ b ∷ c ∷ []) h =
    and_mono (text_eq a (codes "sessions") && not (is_empty b)) _ _
      (in_names (contains edits) _ c peer_names_known.2) h
session_edits _ h = cc

pub project_edits : (api : List Text) → peer_project_edit api ≡ true → hub_session_edit api ≡ true
unfolding peer_project_edit hub_session_edit
project_edits (a ∷ b ∷ []) h = h
project_edits _ h = cc

drop_middle : (x n d z : Bool) → x && (n && d) && z ≡ true → x && n && z ≡ true
drop_middle x n d z h = ground arith

number_filled : (n d : Bool) → n && d ≡ true → n ≡ true
number_filled n d h = ground arith

pub task_edits : (api : List Text) → peer_task_edit api ≡ true → hub_task_edit api ≡ true
unfolding peer_task_edit hub_task_edit
task_edits (a ∷ []) h = h
task_edits (a ∷ b ∷ []) h =
    and_mono (text_eq a (codes "tasks")) _ _
      (or_elim _ _ _ (named (λ x. not (is_empty x)) b (codes "order") refl) (number_filled _ _)) h
task_edits (a ∷ b ∷ c ∷ []) h = drop_middle (text_eq a (codes "tasks")) (not (is_empty b)) _ _ h
task_edits _ h = cc

-- Neither a sync nor an import is among the edits.
pub edit_not :
    (q lit : Text)
    → peer_task_edit (after_api (segments lit)) ≡ false
    → peer_task_edit (after_api (segments q)) ≡ true
    → text_eq q lit ≡ false
edit_not q lit h k = elim (Bool-cases (text_eq q lit)) [
  | inr other ↦ other
  | inl same ↦ absurd (
      true-ne-false (
        sym k ∙ ap (λ x. peer_task_edit (after_api (segments x))) ((text_eq_iff q lit).0 same) ∙ h))
]

pub neither_edit :
    (peer_task_edit (after_api (segments (codes "/api/tasks/sync"))) ≡ false)
    × (peer_task_edit (after_api (segments (codes "/api/tasks/import"))) ≡ false)
unfolding peer_task_edit after_api segments onto_first text_eq is_digit
neither_edit = (refl, refl)

pub pty_starts :
    (has_prefix (codes "/pty/") (codes "/pty/") ≡ true)
    × (has_prefix (codes "/pty/start") (codes "/pty/") ≡ true)
unfolding has_prefix
pty_starts = (refl, refl)

pub pty_below : (q : Text) → peer_pty q ≡ true → has_prefix q (codes "/pty/") ≡ true
unfolding peer_pty
pty_below q h = and_first _ _ (and_first _ _ h)
