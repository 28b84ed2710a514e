-- ===== src/Hub/Peer.antt =====
-- internal/hub/peer.go: what a joined device may ask of the others with its own token. A path of the
-- hub is taken apart as the regular expressions of the source do.
pub mod Routes
pub mod Answers
pub mod Reach
use ccdash.Prelude.{
  ℕ, Bool, true, false, ◌&&◌, ◌||◌, not, List, [], ◌∷◌, Option, none, some, Text, codes, text_eq,
  is_empty, contains, all, any, ◌==◌, if◌then◌else◌, has_prefix, drop_length, segments, after_api,
  Method, is_get, is_post, is_delete,
}
use ccdash.Calendar.{is_digit}

-- The levels of access, as they are stored.
abbrev pub peer_off : Text
peer_off = []

abbrev pub peer_read : Text
peer_read = codes "read"

abbrev pub peer_control : Text
peer_control = codes "control"

unfoldable pub valid_peer_access : Text → Bool
valid_peer_access v = text_eq v peer_off || text_eq v peer_read || text_eq v peer_control

pub record PeerRoute : Type 0 where
  pub method : Method → Bool
  pub matches : Text → Bool
  -- Needs the level "control".
  pub write : Bool

-- ^/api/(sessions|approvals|projects|usage|restart)$
unfoldable pub peer_lists : Text → Bool
peer_lists q =
    contains
      (codes "/api/sessions"
        ∷ codes "/api/approvals"
        ∷ codes "/api/projects"
        ∷ codes "/api/usage"
        ∷ codes "/api/restart"
        ∷ [])
      q

-- ^/api/sessions/[^/]+/transcript$
unfoldable pub peer_transcript : List Text → Bool
peer_transcript (a ∷ b ∷ c ∷ []) =
    text_eq a (codes "sessions") && not (is_empty b) && text_eq c (codes "transcript")
peer_transcript _ = false

-- ^/api/tasks(/[^/]+)?$
unfoldable pub peer_tasks : List Text → Bool
peer_tasks (a ∷ []) = text_eq a (codes "tasks")
peer_tasks (a ∷ b ∷ []) = text_eq a (codes "tasks") && not (is_empty b)
peer_tasks _ = false

-- ^/api/sessions/[^/]+/(archive|favorite|later|grid|color|title|project|seen)$
unfoldable pub peer_session_edit : List Text → Bool
peer_session_edit (a ∷ b ∷ c ∷ []) =
    text_eq a (codes "sessions")
    && not (is_empty b)
    && contains
        (codes "archive"
          ∷ codes "favorite"
          ∷ codes "later"
          ∷ codes "grid"
          ∷ codes "color"
          ∷ codes "title"
          ∷ codes "project"
          ∷ codes "seen"
          ∷ [])
        c
peer_session_edit _ = false

-- ^/api/projects/(color|rename|order)$
unfoldable pub peer_project_edit : List Text → Bool
peer_project_edit (a ∷ b ∷ []) =
    text_eq a (codes "projects") && contains (codes "color" ∷ codes "rename" ∷ codes "order" ∷ []) b
peer_project_edit _ = false

abbrev is_number : Text → Bool
is_number s = not (is_empty s) && all is_digit s

-- ^/api/tasks(/order|/[0-9]+(/notes)?)?$
unfoldable pub peer_task_edit : List Text → Bool
peer_task_edit (a ∷ []) = text_eq a (codes "tasks")
peer_task_edit (a ∷ b ∷ []) =
    text_eq a (codes "tasks") && (text_eq b (codes "order") || is_number b)
peer_task_edit (a ∷ b ∷ c ∷ []) =
    text_eq a (codes "tasks") && is_number b && text_eq c (codes "notes")
peer_task_edit _ = false

-- ^/pty/[^/]+$
unfoldable pub peer_pty : Text → Bool
peer_pty q =
    let rest = drop_length q (codes "/pty/") in
    has_prefix q (codes "/pty/") && not (is_empty rest) && not (any (λ c. c == b'/') rest)

unfoldable pub peer_device_routes : List PeerRoute
unfolding peer_lists peer_transcript peer_tasks peer_session_edit peer_project_edit peer_task_edit
    peer_pty
peer_device_routes =
    record { method = is_get; matches = peer_lists; write = false }
    ∷ record {
      method = is_get;
      matches = λ q. peer_transcript (after_api (segments q));
      write = false;
    }
    ∷ record {
      method = is_get;
      matches = λ q. text_eq q (codes "/pty") || text_eq q (codes "/pty/");
      write = false;
    }
    ∷ record {
      method = is_get;
      matches = λ q. text_eq q (codes "/hub/info") || text_eq q (codes "/hub/dirs");
      write = false;
    }
    ∷ record { method = is_get; matches = λ q. peer_tasks (after_api (segments q)); write = false }
    ∷ record {
      method = is_post;
      matches = λ q. peer_session_edit (after_api (segments q));
      write = true;
    }
    ∷ record {
      method = is_post;
      matches = λ q. peer_project_edit (after_api (segments q));
      write = true;
    }
    ∷ record {
      method = is_post;
      matches = λ q. peer_task_edit (after_api (segments q));
      write = true;
    }
    ∷ record { method = is_post; matches = λ q. text_eq q (codes "/pty/start"); write = true }
    ∷ record { method = is_delete; matches = peer_pty; write = true }
    ∷ record { method = is_post; matches = λ q. text_eq q (codes "/api/restart"); write = true }
    ∷ record { method = is_delete; matches = λ q. text_eq q (codes "/api/restart"); write = true }
    ∷ []

-- `(/.*)$` after `[^/]+`, where the point matches no line feed.
unfoldable pub from_slash : Text → Option Text
from_slash [] = none
from_slash (c ∷ s) =
    let rest = from_slash s in
    if c == b'/' then (if any (λ d. d == 10) s then none else some (c ∷ s)) else rest

unfoldable pub after_id : Text → Option Text
unfolding from_slash
after_id [] = none
after_id (c ∷ s) = if c == b'/' then none else from_slash s

-- ^/api/d/[^/]+(/.*)$
unfoldable pub peer_proxy_path : Text → Option Text
unfolding after_id
peer_proxy_path p =
    if has_prefix p (codes "/api/d/") then after_id (drop_length p (codes "/api/d/")) else none

-- strings.Contains(s, sub)
unfoldable pub has_infix : Text → Text → Bool
has_infix [] sub = is_empty sub
has_infix (c ∷ s) sub = has_prefix (c ∷ s) sub || has_infix s sub

pub data PeerRefusal : Type 0 where
  access_off not_for_peers read_only : PeerRefusal

unfoldable pub first_route : List PeerRoute → Method → Text → Text → Option PeerRefusal
first_route [] m q access = some not_for_peers
first_route (rt ∷ rts) m q access =
    if rt.method m && rt.matches q
    then (if rt.write && not (text_eq access peer_control) then some read_only else none)
    else first_route rts m q access

-- With what the path of the hub's proxy leads to.
unfoldable pub peer_proxied : Method → Text → Text → Option Text → Option PeerRefusal
unfolding has_infix first_route peer_device_routes
peer_proxied m p access none = some not_for_peers
peer_proxied m p access (some q) =
    if has_infix p (codes "/ws/")
    then some not_for_peers
    else first_route peer_device_routes m q access

unfoldable pub is_own_path : Text → Bool
is_own_path p = text_eq p (codes "/api/devices") || text_eq p (codes "/api/peer/self")

-- `none` where the request goes on.
unfoldable pub peer_allowed : Method → Text → Text → Option PeerRefusal
unfolding peer_proxy_path peer_proxied is_own_path
peer_allowed m p access =
    if text_eq access peer_off
    then some access_off
    else if is_get m && is_own_path p
    then none
    else peer_proxied m p access (peer_proxy_path p)
