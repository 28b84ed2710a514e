-- ===== src/Hub/Peer/Reach.antt =====
-- internal/hub/peer.go and internal/server/hub.go: what the hub lets a peer ask of a device, the device's
-- tunnel answers, and a peer that may only read asks for nothing else.
use ccdash.Prelude.{
  ◌≡◌, ◌≢◌, refl, sym, ◌∙◌, subst, inl, inr, ◌⊎◌, Bool, true, false, ◌&&◌, List, [], ◌∷◌, Option,
  none, some, Text, codes, text_eq, text_eq_iff, All, if◌then◌else◌, has_prefix, drop_length,
  Method, get, post, delete, other_method, is_get, Bool-cases, or_cases, and_first, and_second,
}
use mathlib.Core.Option.{some-injective, some-ne-none}
use ccdash.Server.Tunnel.{Toggles, Refusal, tunnel, refused}
use ccdash.Hub.Peer.{
  PeerRoute, PeerRefusal, peer_pty, peer_device_routes, peer_proxy_path, first_route, peer_allowed,
  peer_proxied, is_own_path, read_only, peer_off, peer_control, has_infix, after_id, from_slash,
}
use ccdash.Hub.Peer.Routes.{
  transcript_read, tasks_read, session_edits, project_edits, task_edits, edit_not, neither_edit,
  pty_starts, pty_below,
}
use ccdash.Hub.Peer.Answers.{
  read_allowed, edit_allowed, task_allowed, pty_allowed, tunnel_allowed', info-IsAnswered,
  dirs-IsAnswered, restart_allowed, same-IsAnswered, pty_root, lists_allowed, IsAnswered,
}

step : (b : Bool) (x y : Option PeerRefusal) → (if b then x else y) ≡ none → (b ≡ true) ⊎ (y ≡ none)
step true x y h = inl refl
step false x y h = inr h

skip_some :
    (b : Bool) (e : PeerRefusal) (y : Option PeerRefusal)
    → (if b then some e else y) ≡ none
    → y ≡ none
skip_some true e y h = absurd (some-ne-none e h)
skip_some false e y h = h

-- The hub's own two paths are no device's.
own_paths :
    (peer_proxy_path (codes "/api/devices") ≡ none)
    × (peer_proxy_path (codes "/api/peer/self") ≡ none)
unfolding peer_proxy_path after_id from_slash has_prefix drop_length
own_paths = (refl, refl)

own_path-none : (p : Text) → is_own_path p ≡ true → peer_proxy_path p ≡ none
unfolding is_own_path
own_path-none p h = elim (or_cases _ _ h) [
  | inl devices ↦ rw ((text_eq_iff p (codes "/api/devices")).0 devices) own_paths.0
  | inr self ↦ rw ((text_eq_iff p (codes "/api/peer/self")).0 self) own_paths.1
]

proxied_cases :
    (m : Method) (p access : Text) (o : Option Text)
    → peer_proxied m p access o ≡ none
    → (q : Text) × (o ≡ some q) × (first_route peer_device_routes m q access ≡ none)
unfolding peer_proxied
proxied_cases m p access none h = absurd (some-ne-none _ h)
proxied_cases m p access (some q) h = (q, refl, skip_some (has_infix p (codes "/ws/")) _ _ h)

-- What is let through is one of the hub's own two paths, or one of the routes of a device.
peer_cases :
    (m : Method) (p access : Text)
    → peer_allowed m p access ≡ none
    → (is_get m && is_own_path p ≡ true)
      ⊎ ((q : Text) × (peer_proxy_path p ≡ some q)
          × (first_route peer_device_routes m q access ≡ none))
unfolding peer_allowed
peer_cases m p access h =
    elim (step (is_get m && is_own_path p) none (peer_proxied m p access (peer_proxy_path p))
      (skip_some (text_eq access peer_off) _ _ h)) [
        | inl own ↦ inl own
        | inr rest ↦ inr (proxied_cases m p access (peer_proxy_path p) rest)
      ]

module _ (cfg : Toggles) (enabled : cfg.hub_enabled ≡ true)
    (attach : cfg.attach_enabled ≡ true) where
  get-IsAnswered :
      (q access : Text)
      → first_route peer_device_routes get q access ≡ none
      → IsAnswered cfg enabled attach get q
  unfolding first_route peer_device_routes
  get-IsAnswered q access h = elim (step _ _ _ h) [
    | inl lists ↦
        tunnel_allowed' cfg enabled attach get q (lists_allowed cfg enabled attach q lists)
    | inr h1 ↦ elim (step _ _ _ h1) [
      | inl transcript ↦
          tunnel_allowed' cfg enabled attach get q
            (read_allowed cfg enabled attach q (transcript_read _ transcript))
      | inr h2 ↦ elim (step _ _ _ h2) [
        | inl pty ↦ elim (or_cases _ _ pty) [
          | inl root ↦
              same-IsAnswered cfg enabled attach get q _ root
                (tunnel_allowed' cfg enabled attach get _ (pty_root cfg enabled attach))
          | inr slash ↦ same-IsAnswered cfg enabled attach get q (codes "/pty/") slash (
              tunnel_allowed' cfg enabled attach get _
                (pty_allowed cfg enabled attach get _ pty_starts.0))
        ]
        | inr h3 ↦ elim (step _ _ _ h3) [
          | inl hub ↦ elim (or_cases _ _ hub) [
            | inl at_info ↦
                same-IsAnswered cfg enabled attach get q _ at_info
                  (info-IsAnswered cfg enabled attach)
            | inr at_dirs ↦
                same-IsAnswered cfg enabled attach get q _ at_dirs
                  (dirs-IsAnswered cfg enabled attach)
          ]
          | inr h4 ↦ elim (step _ _ _ h4) [
            | inl tasks ↦
                tunnel_allowed' cfg enabled attach get q
                  (read_allowed cfg enabled attach q (tasks_read _ tasks))
            | inr h5 ↦ absurd (some-ne-none _ h5)
          ]
        ]
      ]
    ]
  ]

  post-IsAnswered :
      (q access : Text)
      → first_route peer_device_routes post q access ≡ none
      → IsAnswered cfg enabled attach post q
  unfolding first_route peer_device_routes
  post-IsAnswered q access h = elim (step _ _ _ h) [
    | inl session ↦
        tunnel_allowed' cfg enabled attach post q
          (edit_allowed cfg enabled attach q (session_edits _ session))
    | inr h1 ↦ elim (step _ _ _ h1) [
      | inl project ↦
          tunnel_allowed' cfg enabled attach post q
            (edit_allowed cfg enabled attach q (project_edits _ project))
      | inr h2 ↦ elim (step _ _ _ h2) [
        | inl task ↦ tunnel_allowed' cfg enabled attach post q (
            task_allowed cfg enabled attach q (task_edits _ task) (edit_not q _ neither_edit.0 task)
              (edit_not q _ neither_edit.1 task))
        | inr h3 ↦ elim (step _ _ _ h3) [
          | inl start ↦ same-IsAnswered cfg enabled attach post q (codes "/pty/start") start (
              tunnel_allowed' cfg enabled attach post _
                (pty_allowed cfg enabled attach post _ pty_starts.1))
          | inr h4 ↦ elim (step _ _ _ h4) [
            | inl restart ↦ same-IsAnswered cfg enabled attach post q _ restart (
                tunnel_allowed' cfg enabled attach post _
                  (restart_allowed cfg enabled attach post refl))
            | inr h5 ↦ absurd (some-ne-none _ h5)
          ]
        ]
      ]
    ]
  ]

  delete-IsAnswered :
      (q access : Text)
      → first_route peer_device_routes delete q access ≡ none
      → IsAnswered cfg enabled attach delete q
  unfolding first_route peer_device_routes
  delete-IsAnswered q access h = elim (step (peer_pty q) _ _ h) [
    | inl pty ↦
        tunnel_allowed' cfg enabled attach delete q
          (pty_allowed cfg enabled attach delete q (pty_below q pty))
    | inr h1 ↦ elim (step _ _ _ h1) [
      | inl restart ↦ same-IsAnswered cfg enabled attach delete q _ restart (
          tunnel_allowed' cfg enabled attach delete _
            (restart_allowed cfg enabled attach delete refl))
      | inr h2 ↦ absurd (some-ne-none _ h2)
    ]
  ]

  route-IsAnswered :
      (m : Method) (q access : Text)
      → first_route peer_device_routes m q access ≡ none
      → IsAnswered cfg enabled attach m q
  unfolding first_route peer_device_routes
  route-IsAnswered get q access h = get-IsAnswered q access h
  route-IsAnswered post q access h = post-IsAnswered q access h
  route-IsAnswered delete q access h = delete-IsAnswered q access h
  route-IsAnswered other_method q access h = absurd (some-ne-none _ h)

  -- Whatever of a device's routes the hub lets a peer ask for, the tunnel of a device that has the
  -- hub and attaching enabled does not refuse: each route of the hub's list is one that the
  -- device's own list has.
  pub peer_allowed-tunnel :
      (m : Method) (p q access : Text) (r : Refusal)
      → peer_allowed m p access ≡ none
      → peer_proxy_path p ≡ some q
      → tunnel false m q cfg ≢ refused r
  peer_allowed-tunnel m p q access r h proxied = elim (peer_cases m p access h) [
    | inl own ↦
        absurd (
          some-ne-none q
            (sym proxied ∙ own_path-none p (and_second (is_get m) (is_own_path p) own)))
    | inr (q', proxied', route) ↦
        route-IsAnswered m q access
          (subst (λ x. first_route peer_device_routes m x access ≡ none)
            (some-injective q' q (sym proxied' ∙ proxied)) route)
          r
  ]

-- What is given to a peer whose level is not "control" changes nothing.
reads_only :
    (rts : List PeerRoute) (m : Method) (q access : Text)
    → All (λ rt. (rt.write ≡ true) ⊎ ((k : Method) → rt.method k ≡ true → is_get k ≡ true)) rts
    → text_eq access peer_control ≡ false
    → first_route rts m q access ≡ none
    → is_get m ≡ true
unfolding first_route
reads_only [] m q access ok limited h = absurd (some-ne-none _ h)
reads_only (rt ∷ rts) m q access ok limited h = elim (Bool-cases (rt.method m && rt.matches q)) [
  | inr other ↦ reads_only rts m q access ok.1 limited (rw other at h)
  | inl here ↦ elim ok.0 [
    | inr reads ↦ reads m (and_first _ _ here)
    | inl writes ↦ absurd (some-ne-none read_only (rw (here, writes, limited) at h))
  ]
]

-- A peer whose level is not "control" is let through with a GET only.
pub peer_allowed_get :
    (m : Method) (p access : Text)
    → text_eq access peer_control ≡ false
    → peer_allowed m p access ≡ none
    → is_get m ≡ true
unfolding peer_device_routes
peer_allowed_get m p access limited h = elim (peer_cases m p access h) [
  | inl own ↦ and_first (is_get m) (is_own_path p) own
  | inr (q, proxied, route) ↦
      reads_only peer_device_routes m q access
        (
          inr (λ k e. e),
          (
            inr (λ k e. e),
            (
              inr (λ k e. e),
              (
                inr (λ k e. e),
                (
                  inr (λ k e. e),
                  (
                    inl refl,
                    (inl refl, (inl refl, (inl refl, (inl refl, (inl refl, (inl refl, tt)))))),
                  ),
                ),
              ),
            ),
          ),
        )
        limited route
]
