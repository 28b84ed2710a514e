-- ===== src/Server/Tunnel/Reach.antt =====
-- What a hub can reach on a device, and what the device's toggles keep from it.
use ccdash.Prelude.{
  ◌≡◌, ◌≢◌, refl, inl, inr, Bool, true, false, ◌&&◌, ◌||◌, not, List, [], ◌∷◌, Option, none, some,
  arith, Text, codes, text_eq, text_eq_iff, is_empty, all, contains, if◌then◌else◌, has_prefix,
  has_prefix-append, segments, onto_first, after_api, Method, is_get, Bool-cases,
}
use ccdash.Server.Tunnel.{
  Toggles, Refusal, hub_read_route, hub_session_edit, hub_titles, hub_task_edit, hub_decide_route,
  hub_allowed, tunnel, own, Answer, gated, info, upload, git_status, git_diff, file, subagents,
  settings, skills, dirs, refused, own_or_refused, subagent_route,
}

-- The parts of the collector that a hub may ask for at all: what may follow "/api/" …
abbrev pub is_reachable_api : List Text → Bool
is_reachable_api [] = false
is_reachable_api (a ∷ more) =
    contains
      (codes "sessions"
        ∷ codes "approvals"
        ∷ codes "projects"
        ∷ codes "usage"
        ∷ codes "tasks"
        ∷ codes "titles"
        ∷ codes "restart"
        ∷ [])
      a

-- … and what a path may begin with, between its slashes.
abbrev pub is_reachable : List Text → Bool
is_reachable (root ∷ part ∷ rest) =
    is_empty root
    && (text_eq part (codes "pty")
        || text_eq part (codes "approvals")
        || (text_eq part (codes "api") && is_reachable_api rest))
is_reachable _ = false

and_left : (a b : Bool) → a && b ≡ true → a ≡ true
and_left a b h = ground arith

-- What holds of the names of a list holds of a text that is in it.
pub in_names :
    (q : Text → Bool) (names : List Text) (a : Text)
    → all q names ≡ true
    → contains names a ≡ true
    → q a ≡ true
unfolding contains
in_names q [] a h k = cc
in_names q (x ∷ names) a h k = elim (Bool-cases (text_eq x a)) [
  | inl same ↦ let e : x ≡ a = (text_eq_iff x a).0 same in rw (← e) (and_left (q x) (all q names) h)
  | inr other ↦ in_names q names a (ground arith) (ground arith)
]

pub named : (q : Text → Bool) (a x : Text) → q x ≡ true → text_eq a x ≡ true → q a ≡ true
named q a x h k = let e : a ≡ x = (text_eq_iff a x).0 k in rw e h

module _ (rest : List Text) where
  first_reachable : Text → Bool
  first_reachable a = is_reachable_api (a ∷ rest)

  names_reachable :
      (all first_reachable (
          codes "sessions"
          ∷ codes "approvals"
          ∷ codes "projects"
          ∷ codes "usage"
          ∷ codes "tasks"
          ∷ [])
        ≡ true)
      × (first_reachable (codes "titles") ≡ true)
      × (first_reachable (codes "sessions") ≡ true)
      × (first_reachable (codes "projects") ≡ true)
      × (first_reachable (codes "usage") ≡ true)
      × (first_reachable (codes "tasks") ≡ true)
  unfolding first_reachable contains text_eq
  names_reachable = (refl, refl, refl, refl, refl, refl)

read_reachable : (api : List Text) → hub_read_route api ≡ true → is_reachable_api api ≡ true
unfolding hub_read_route first_reachable
read_reachable [] h = cc
read_reachable (a ∷ []) h = in_names (first_reachable []) _ a (names_reachable []).0 h
read_reachable (a ∷ b ∷ []) h =
    let (_, _, _, _, usage, tasks) = names_reachable (b ∷ []) in
    ground (
      arith,
      named (first_reachable (b ∷ [])) a (codes "usage") usage,
      named (first_reachable (b ∷ [])) a (codes "tasks") tasks,
    )
read_reachable (a ∷ b ∷ c ∷ []) h =
    let (_, _, sessions, _, _, _) = names_reachable (b ∷ c ∷ []) in
    ground (arith, named (first_reachable (b ∷ c ∷ [])) a (codes "sessions") sessions)
read_reachable _ h = cc

session_edit_reachable :
    (api : List Text) → hub_session_edit api ≡ true → is_reachable_api api ≡ true
unfolding hub_session_edit first_reachable
session_edit_reachable [] h = cc
session_edit_reachable (a ∷ []) h = cc
session_edit_reachable (a ∷ b ∷ []) h =
    let (_, _, _, projects, _, _) = names_reachable (b ∷ []) in
    named (first_reachable (b ∷ [])) a (codes "projects") projects (and_left _ _ h)
session_edit_reachable (a ∷ b ∷ c ∷ []) h =
    let (_, _, sessions, _, _, _) = names_reachable (b ∷ c ∷ []) in
    ground (arith, named (first_reachable (b ∷ c ∷ [])) a (codes "sessions") sessions)
session_edit_reachable _ h = cc

titles_reachable : (api : List Text) → hub_titles api ≡ true → is_reachable_api api ≡ true
unfolding hub_titles first_reachable
titles_reachable [] h = cc
titles_reachable (a ∷ []) h = named (first_reachable []) a (codes "titles") (names_reachable []).1 h
titles_reachable _ h = cc

task_edit_reachable : (api : List Text) → hub_task_edit api ≡ true → is_reachable_api api ≡ true
unfolding hub_task_edit first_reachable
task_edit_reachable [] h = cc
task_edit_reachable (a ∷ []) h =
    let (_, _, _, _, _, tasks) = names_reachable [] in
    named (first_reachable []) a (codes "tasks") tasks h
task_edit_reachable (a ∷ b ∷ []) h =
    let (_, _, _, _, _, tasks) = names_reachable (b ∷ []) in
    named (first_reachable (b ∷ [])) a (codes "tasks") tasks (and_left _ _ h)
task_edit_reachable (a ∷ b ∷ c ∷ []) h =
    let (_, _, _, _, _, tasks) = names_reachable (b ∷ c ∷ []) in
    ground (arith, named (first_reachable (b ∷ c ∷ [])) a (codes "tasks") tasks)
task_edit_reachable _ h = cc

api_reachable :
    (parts : List Text) → is_reachable_api (after_api parts) ≡ true → is_reachable parts ≡ true
unfolding after_api
api_reachable [] h = cc
api_reachable (root ∷ []) h = cc
api_reachable (root ∷ part ∷ rest) h = ground arith

decide_reachable : (parts : List Text) → hub_decide_route parts ≡ true → is_reachable parts ≡ true
unfolding hub_decide_route
decide_reachable (root ∷ a ∷ b ∷ c ∷ []) h = ground arith
decide_reachable _ h = cc

pty_reachable : (p : Text) → has_prefix p (codes "/pty/") ≡ true → is_reachable (segments p) ≡ true
unfolding segments onto_first text_eq
pty_reachable p h = rw (has_prefix-append p (codes "/pty/") h)

exact_reachable :
    (p q : Text)
    → text_eq p q ≡ true
    → is_reachable (segments q) ≡ true
    → is_reachable (segments p) ≡ true
exact_reachable p q h k = let e : p ≡ q = (text_eq_iff p q).0 h in rw e k

known_reachable :
    (is_reachable (segments (codes "/pty/")) ≡ true)
    × (is_reachable (segments (codes "/pty")) ≡ true)
    × (is_reachable (segments (codes "/api/restart")) ≡ true)
unfolding segments onto_first text_eq contains
known_reachable = (refl, refl, refl)

pub hub_allowed_reachable :
    (m : Method) (p : Text) (cfg : Toggles)
    → hub_allowed m p cfg ≡ none
    → is_reachable (segments p) ≡ true
unfolding hub_allowed
hub_allowed_reachable m p cfg h =
    let (pty, root, restart) = known_reachable in
    ground (
      arith,
      api_reachable (segments p),
      read_reachable (after_api (segments p)),
      session_edit_reachable (after_api (segments p)),
      titles_reachable (after_api (segments p)),
      task_edit_reachable (after_api (segments p)),
      decide_reachable (segments p),
      pty_reachable p,
      exact_reachable p (codes "/pty/"),
      exact_reachable p (codes "/pty"),
      exact_reachable p (codes "/api/restart"),
      pty,
      root,
      restart,
    )

subagent_route-not_own : (parts : List Text) → subagent_route parts ≢ own
unfolding subagent_route
subagent_route-not_own [] h = cc
subagent_route-not_own (a ∷ []) h = cc
subagent_route-not_own (a ∷ b ∷ []) h = ground arith
subagent_route-not_own _ h = cc

own_or_refused-own : (o : Option Refusal) → own_or_refused o ≡ own → o ≡ none
unfolding own_or_refused
own_or_refused-own none h = refl
own_or_refused-own (some r) h = cc

-- Every answer of the tunnel itself is another than the collector's own handlers.
others :
    (info ≢ own)
    × (upload ≢ own)
    × (git_status ≢ own)
    × (git_diff ≢ own)
    × (file ≢ own)
    × (subagents ≢ own)
    × (settings ≢ own)
    × (skills ≢ own)
    × (dirs ≢ own)
others = (
  λ e. ground arith,
  λ e. ground arith,
  λ e. ground arith,
  λ e. ground arith,
  λ e. ground arith,
  λ e. ground arith,
  λ e. ground arith,
  λ e. ground arith,
  λ e. ground arith,
)

skip : (c : Bool) (a b : Answer) → a ≢ own → (if c then a else b) ≡ own → b ≡ own
skip true a b n h = absurd (n h)
skip false a b n h = h

gated-not_own : (c : Bool) (a : Answer) → a ≢ own → gated c a ≢ own
gated-not_own true a n h = n h
gated-not_own false a n h = ground arith

refused_first :
    (c : Bool) (r : Refusal) (b : Answer)
    → (if c then refused r else b) ≡ own
    → (c ≡ false) × (b ≡ own)
refused_first c r b h = ground arith

switched_on : (local on : Bool) → not local && not on ≡ false → local || on ≡ true
switched_on local on h = ground arith

-- A request of the tunnel gets to the collector's own handlers only if the link is the local
-- portal's or the hub is enabled, and only if its path begins with /pty, /approvals or, under /api,
-- with sessions, approvals, projects, usage, tasks, titles or restart; so never to the settings,
-- the hooks or the shutdown.
pub tunnel_own_reachable :
    (local : Bool) (m : Method) (p : Text) (cfg : Toggles)
    → tunnel local m p cfg ≡ own
    → (is_reachable (segments p) ≡ true) × (local || cfg.hub_enabled ≡ true)
unfolding tunnel
tunnel_own_reachable local m p cfg h =
    let (
      no_info, no_upload, no_git_status, no_git_diff, no_file, no_subagents, no_settings, no_skills,
      no_dirs,
    ) =
      others in
    let (off, h1) = refused_first _ _ _ h in
    let h2 = skip _ info _ no_info h1 in
    let h3 = skip _ (gated cfg.attach_enabled upload) _ (gated-not_own _ upload no_upload) h2 in
    let h4 = skip _ git_status _ no_git_status h3 in
    let h5 = skip _ git_diff _ no_git_diff h4 in
    let h6 = skip _ file _ no_file h5 in
    let h7 = skip _ subagents _ no_subagents h6 in
    let h8 = skip _ (subagent_route _) _ (subagent_route-not_own _) h7 in
    let h9 = skip _ settings _ no_settings h8 in
    let h10 = skip _ (gated cfg.attach_enabled skills) _ (gated-not_own _ skills no_skills) h9 in
    let h11 = skip _ (gated cfg.attach_enabled dirs) _ (gated-not_own _ dirs no_dirs) h10 in
    (
      hub_allowed_reachable m p cfg (own_or_refused-own (hub_allowed m p cfg) h11),
      switched_on local cfg.hub_enabled off,
    )

-- With attach off nothing of a pseudo-terminal but the list of them is answered, and no restart is asked
-- for or cancelled; with approvals off, no approval is decided.
module _ (m : Method) (p : Text) (cfg : Toggles) where
  pty_not_api : has_prefix p (codes "/pty/") ≡ true → after_api (segments p) ≡ []
  unfolding segments onto_first after_api text_eq
  pty_not_api h = rw (has_prefix-append p (codes "/pty/") h)

  no_route :
      (hub_read_route [] ≡ false)
      × (hub_session_edit [] ≡ false)
      × (hub_titles [] ≡ false)
      × (hub_task_edit [] ≡ false)
  unfolding hub_read_route hub_session_edit hub_titles hub_task_edit
  no_route = (refl, refl, refl, refl)

  not_prefixed :
      (q : Text)
      → has_prefix q (codes "/pty/") ≡ false
      → text_eq p q ≡ true
      → has_prefix p (codes "/pty/") ≡ false
  not_prefixed q h k = let e : p ≡ q = (text_eq_iff p q).0 k in rw e h

  elsewhere :
      (has_prefix (codes "/pty") (codes "/pty/") ≡ false)
      × (has_prefix (codes "/api/restart") (codes "/pty/") ≡ false)
  unfolding has_prefix
  elsewhere = (refl, refl)

  -- With attach off, the only request below /pty/ that is let through is a GET of /pty/ itself.
  pub hub_allowed_detached :
      cfg.attach_enabled ≡ false
      → has_prefix p (codes "/pty/") ≡ true
      → hub_allowed m p cfg ≡ none
      → (is_get m ≡ true) × (p ≡ codes "/pty/")
  unfolding hub_allowed
  hub_allowed_detached off h k =
      let (no_read, no_edit, no_titles, no_task) = no_route in
      let e = pty_not_api h in
      let read : hub_read_route (after_api (segments p)) ≡ false = rw e no_read in
      let edit : hub_session_edit (after_api (segments p)) ≡ false = rw e no_edit in
      let titles : hub_titles (after_api (segments p)) ≡ false = rw e no_titles in
      let task : hub_task_edit (after_api (segments p)) ≡ false = rw e no_task in
      ground (
        arith,
        read,
        edit,
        titles,
        task,
        text_eq_iff p (codes "/pty/"),
        not_prefixed (codes "/pty") elsewhere.0,
        not_prefixed (codes "/api/restart") elsewhere.1,
      )
