-- ===== src/Server/Tests.antt =====
-- Runs of the parts of internal/server, and each theorem on them at concrete bytes, times and requests.
use ccdash.Prelude.{
  ◌+◌, ◌-◌, ◌*◌, ◌≤◌, ◌≡◌, refl, true, false, List, [], ◌∷◌, some, none, codes, arith, ℕ, Bool,
}
use ccdash.Prelude.{◌||◌, text_eq, contains, has_prefix, segments, onto_first, after_api, get, post}
use ccdash.Server.Tunnel.{
  Toggles, tunnel, own, refused, not_through_hub, hub_allowed, hub_read_route, hub_session_edit,
  hub_titles, hub_task_edit, hub_decide_route, own_or_refused,
}
use ccdash.Server.Tunnel.Reach.{is_reachable, tunnel_own_reachable}
use ccdash.Server.Escapes.{in_ground, filter, filter_byte, esc_next}
use ccdash.Server.Escapes.Payload.{filter-ascii_payloads, ascii_payloads, in_payload}
use ccdash.Server.Limiter.{token, new_token_bucket, serve, allow, refilled}
use ccdash.Server.Limiter.Rate.{serve-rate}
use ccdash.Server.Restart.{
  RestartSchedule, Server, cancelled, ready, second, minute, schedule_restart,
  cancel_scheduled_restart, look, looks, idle_round, idle_since,
}
use ccdash.Server.Restart.Waits.{looks-QuietStretch, QuietStretch}

-- An OSC 0 title "\xe2\x9c\xb3" and its BEL, then a letter.
abbrev title_bytes : List ℕ
title_bytes = 0x1b ∷ b']' ∷ b'0' ∷ b';' ∷ 0xe2 ∷ 0x9c ∷ 0xb3 ∷ 0x07 ∷ b'a' ∷ []

title_filtered :
    filter in_ground title_bytes ≡ (in_ground, 0x1b ∷ b']' ∷ b'0' ∷ b';' ∷ 0x07 ∷ b'a' ∷ [])
unfolding filter filter_byte esc_next
title_filtered = refl

filter-ascii_payloads_example : (filter in_ground title_bytes).1 ≡ ascii_payloads [] title_bytes
filter-ascii_payloads_example = filter-ascii_payloads title_bytes

-- A device control string that a new introducer interrupts, and what is not in a payload is kept.
nested_payloads :
    ascii_payloads [] (0xe2 ∷ 0x1b ∷ b'P' ∷ 0xe2 ∷ 0x1b ∷ b'_' ∷ 0xe3 ∷ 0x18 ∷ 0xe4 ∷ [])
    ≡ 0xe2 ∷ 0x1b ∷ b'P' ∷ 0x1b ∷ b'_' ∷ 0x18 ∷ 0xe4 ∷ []
unfolding ascii_payloads in_payload
nested_payloads = refl

-- One token a second and a burst of two: three requests in the first second and one a second later.
two_then_one : (serve (new_token_bucket 1 2 0) (0 ∷ 10 ∷ 20 ∷ (2 * second) ∷ [])).1 ≡ 3
unfolding serve allow refilled new_token_bucket
two_then_one = refl

serve-rate_example :
    (serve (new_token_bucket 1 2 0) (0 ∷ 10 ∷ 20 ∷ (2 * second) ∷ [])).1 * token
    ≤ 2 * token + (3 * second - 0) * 1
serve-rate_example = serve-rate 1 2 0 (0 ∷ 10 ∷ 20 ∷ (2 * second) ∷ []) (3 * second) (omega arith)

abbrev pending : RestartSchedule
pending = record { ident = 7; since = 0; deadline = 10 * minute; by = codes "hub" }

abbrev server : Server
server = record { sched = some pending; last = none; last_at = 0; fresh = 8 }

abbrev run : List (ℕ × Bool)
run =
    (second, false)
    ∷ (2 * second, true)
    ∷ (3 * second, false)
    ∷ (5 * second, false)
    ∷ (7 * second, false)
    ∷ []

run_ready : looks none run server ≡ ready 7
unfolding looks look idle_round idle_since
run_ready = refl

looks-QuietStretch_example : (7 ≡ pending.ident) × QuietStretch pending.deadline run
looks-QuietStretch_example = looks-QuietStretch server pending run 7 refl run_ready

abbrev after_cancel : Server
after_cancel = (cancel_scheduled_restart (some cancelled) second server).0

abbrev after_another : Server
after_another = (schedule_restart 30 (codes "me") minute after_cancel).0

abbrev open_device : Toggles
open_device = record { hub_enabled = true; attach_enabled = true; approve_enabled = true }

abbrev closed_device : Toggles
closed_device = record { hub_enabled = true; attach_enabled = false; approve_enabled = false }

transcript_is_own : tunnel false get (codes "/api/sessions/ab-12/transcript") closed_device ≡ own
unfolding tunnel hub_allowed hub_read_route after_api segments onto_first text_eq contains
    has_prefix own_or_refused
transcript_is_own = refl

sync_is_refused : tunnel false post (codes "/api/tasks/sync") open_device ≡ refused not_through_hub
unfolding tunnel hub_allowed hub_read_route hub_session_edit hub_titles hub_task_edit
    hub_decide_route after_api segments onto_first text_eq contains has_prefix own_or_refused
sync_is_refused = refl

tunnel_own_reachable_example :
    (is_reachable (segments (codes "/api/sessions/ab-12/transcript")) ≡ true)
    × (false || closed_device.hub_enabled ≡ true)
tunnel_own_reachable_example =
    tunnel_own_reachable false get (codes "/api/sessions/ab-12/transcript") closed_device
      transcript_is_own

list_is_allowed : hub_allowed get (codes "/pty/") closed_device ≡ none
unfolding hub_allowed hub_read_route after_api segments onto_first text_eq contains has_prefix
list_is_allowed = refl

below_pty : has_prefix (codes "/pty/") (codes "/pty/") ≡ true
unfolding has_prefix
below_pty = refl
