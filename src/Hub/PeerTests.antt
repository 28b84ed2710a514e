-- ===== src/Hub/PeerTests.antt =====
-- Runs of what a peer may ask for.
use ccdash.Prelude.{
  ◌≡◌, ◌≢◌, refl, true, false, none, some, Text, codes, text_eq, has_prefix, drop_length, segments,
  onto_first, after_api, get, post, contains,
}
use ccdash.Calendar.{is_digit}
use ccdash.Server.Tunnel.{Toggles, tunnel, refused, not_through_hub}
use ccdash.Hub.Peer.{
  peer_allowed, peer_proxied, peer_proxy_path, peer_control, peer_read, first_route,
  peer_device_routes, peer_lists, peer_session_edit, peer_project_edit, peer_task_edit, has_infix,
  after_id, from_slash, is_own_path, read_only, not_for_peers,
}
use ccdash.Hub.Peer.Reach.{peer_allowed-tunnel}

abbrev toggles : Toggles
toggles = record { hub_enabled = true; attach_enabled = true; approve_enabled = false }

abbrev note_path : Text
note_path = codes "/api/d/mac/api/tasks/12/notes"

note_allowed : peer_allowed post note_path peer_control ≡ none
unfolding peer_allowed peer_proxied peer_proxy_path first_route peer_device_routes peer_task_edit
    peer_session_edit peer_project_edit has_infix after_id from_slash text_eq has_prefix drop_length
    segments onto_first after_api is_digit is_own_path contains
note_allowed = refl

note_proxied : peer_proxy_path note_path ≡ some (codes "/api/tasks/12/notes")
unfolding peer_proxy_path after_id from_slash has_prefix drop_length
note_proxied = refl

peer_allowed-tunnel_example :
    tunnel false post (codes "/api/tasks/12/notes") toggles ≢ refused not_through_hub
peer_allowed-tunnel_example =
    peer_allowed-tunnel toggles refl refl post note_path (codes "/api/tasks/12/notes") peer_control
      not_through_hub note_allowed note_proxied

sync_refused :
    peer_allowed post (codes "/api/d/mac/api/tasks/sync") peer_control ≡ some not_for_peers
unfolding peer_allowed peer_proxied peer_proxy_path first_route peer_device_routes peer_task_edit
    peer_session_edit peer_project_edit has_infix after_id from_slash text_eq has_prefix drop_length
    segments onto_first after_api is_digit is_own_path contains
sync_refused = refl

note_read_only : peer_allowed post note_path peer_read ≡ some read_only
unfolding peer_allowed peer_proxied peer_proxy_path first_route peer_device_routes peer_task_edit
    peer_session_edit peer_project_edit has_infix after_id from_slash text_eq has_prefix drop_length
    segments onto_first after_api is_digit is_own_path contains
note_read_only = refl

limited : text_eq peer_read peer_control ≡ false
unfolding text_eq
limited = refl

list_allowed : peer_allowed get (codes "/api/d/mac/api/sessions") peer_read ≡ none
unfolding peer_allowed peer_proxied peer_proxy_path first_route peer_device_routes peer_lists
    has_infix after_id from_slash text_eq has_prefix drop_length is_own_path contains
list_allowed = refl
