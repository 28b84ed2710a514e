-- ===== src/Hub/Peer/Answers.antt =====
-- internal/server/hub.go: what the tunnel of a device answers when the hub and attaching are enabled.
use ccdash.Prelude.{
  ◌≡◌, ◌≢◌, refl, sym, ◌∙◌, ap, subst, Bool, true, false, ◌||◌, not, List, [], ◌∷◌, Option, none,
  some, arith, Text, codes, text_eq, text_eq_iff, all, contains, if◌then◌else◌, has_prefix,
  segments, onto_first, after_api, Method, get, post, delete, other_method, is_get, is_post,
  is_delete, true-ne-false,
}
use ccdash.Server.Tunnel.{
  Toggles, Refusal, hub_read_route, hub_session_edit, hub_titles, hub_task_edit, hub_allowed,
  tunnel, Answer, gated, refused, own_or_refused, subagent_route, info, upload, git_status,
  git_diff, file, subagents, settings, skills, dirs,
}
use ccdash.Server.Tunnel.Reach.{in_names}
use ccdash.Hub.Peer.{peer_lists}

subagent_route-not_refused : (r : Refusal) (parts : List Text) → subagent_route parts ≢ refused r
unfolding subagent_route
subagent_route-not_refused r [] h = cc
subagent_route-not_refused r (a ∷ []) h = cc
subagent_route-not_refused r (a ∷ b ∷ []) h = ground arith
subagent_route-not_refused r (a ∷ b ∷ c ∷ parts) h = cc

abbrev is_refusal : Answer → Bool
is_refusal (refused r) = true
is_refusal _ = false

no : (r : Refusal) (a : Answer) → is_refusal a ≡ false → a ≢ refused r
no r a h e = absurd (true-ne-false (ap is_refusal (sym e) ∙ h))

skip :
    (r : Refusal) (c : Bool) (a b : Answer)
    → a ≢ refused r
    → (if c then a else b) ≡ refused r
    → b ≡ refused r
skip r true a b n h = absurd (n h)
skip r false a b n h = h

on :
    (r : Refusal) (c : Bool) (a b : Answer)
    → c ≡ false
    → (if c then a else b) ≡ refused r
    → b ≡ refused r
on r c a b off h = ground arith

gated-not_refused :
    (r : Refusal) (c : Bool) (a : Answer) → c ≡ true → a ≢ refused r → gated c a ≢ refused r
gated-not_refused r c a attach n h = ground arith

own_or_refused-not_refused :
    (r : Refusal) (o : Option Refusal) → o ≡ none → own_or_refused o ≢ refused r
unfolding own_or_refused
own_or_refused-not_refused r none e h = cc
own_or_refused-not_refused r (some x) e h = cc

abbrev is_none : Option Refusal → Bool
is_none none = true
is_none (some r) = false

let_none : (o : Option Refusal) → is_none o ≡ true → o ≡ none
let_none none h = refl
let_none (some r) h = cc

module _ (cfg : Toggles) (enabled : cfg.hub_enabled ≡ true)
    (attach : cfg.attach_enabled ≡ true) where
  pub read_allowed :
      (q : Text) → hub_read_route (after_api (segments q)) ≡ true → hub_allowed get q cfg ≡ none
  unfolding hub_allowed
  read_allowed q h = rw (h, hub_allowed)

  pub edit_allowed :
      (q : Text) → hub_session_edit (after_api (segments q)) ≡ true → hub_allowed post q cfg ≡ none
  unfolding hub_allowed
  edit_allowed q h = rw (h, hub_allowed)

  pub task_allowed :
      (q : Text)
      → hub_task_edit (after_api (segments q)) ≡ true
      → text_eq q (codes "/api/tasks/sync") ≡ false
      → text_eq q (codes "/api/tasks/import") ≡ false
      → hub_allowed post q cfg ≡ none
  unfolding hub_allowed
  task_allowed q h k l = ground (arith, h, k, l)

  pub pty_allowed :
      (m : Method) (q : Text) → has_prefix q (codes "/pty/") ≡ true → hub_allowed m q cfg ≡ none
  unfolding hub_allowed
  pty_allowed m q h = ground (arith, h, attach)

  tunnel_allowed :
      (r : Refusal) (m : Method) (q : Text)
      → hub_allowed m q cfg ≡ none
      → tunnel false m q cfg ≢ refused r
  unfolding tunnel
  tunnel_allowed r m q allowed h =
      let h1 = on r _ _ _ (ap not enabled) h in
      let h2 = skip r _ info _ (no r info refl) h1 in
      let h3 =
        skip r _ (gated cfg.attach_enabled upload) _
          (gated-not_refused r _ upload attach (no r upload refl)) h2 in
      let h4 = skip r _ git_status _ (no r git_status refl) h3 in
      let h5 = skip r _ git_diff _ (no r git_diff refl) h4 in
      let h6 = skip r _ file _ (no r file refl) h5 in
      let h7 = skip r _ subagents _ (no r subagents refl) h6 in
      let h8 = skip r _ (subagent_route _) _ (subagent_route-not_refused r _) h7 in
      let h9 = skip r _ settings _ (no r settings refl) h8 in
      let h10 =
        skip r _ (gated cfg.attach_enabled skills) _
          (gated-not_refused r _ skills attach (no r skills refl)) h9 in
      let h11 =
        skip r _ (gated cfg.attach_enabled dirs) _
          (gated-not_refused r _ dirs attach (no r dirs refl)) h10 in
      own_or_refused-not_refused r (hub_allowed m q cfg) allowed h11

  -- The device answers `m q`, whatever it answers.
  abbrev pub IsAnswered : Method → Text → Type 0
  IsAnswered m q = (r : Refusal) → tunnel false m q cfg ≢ refused r

  pub info-IsAnswered : IsAnswered get (codes "/hub/info")
  unfolding tunnel text_eq
  info-IsAnswered r h = absurd (ground (arith, enabled, h))

  pub dirs-IsAnswered : IsAnswered get (codes "/hub/dirs")
  unfolding tunnel text_eq has_prefix
  dirs-IsAnswered r h = absurd (ground (arith, enabled, attach, h))

  pub tunnel_allowed' : (m : Method) (q : Text) → hub_allowed m q cfg ≡ none → IsAnswered m q
  tunnel_allowed' m q h r = tunnel_allowed r m q h

  pub restart_allowed :
      (m : Method)
      → (is_get m || is_post m || is_delete m) ≡ true
      → hub_allowed m (codes "/api/restart") cfg ≡ none
  unfolding hub_allowed text_eq has_prefix segments onto_first after_api hub_read_route
      hub_session_edit hub_titles hub_task_edit contains
  restart_allowed get h = refl
  restart_allowed post h = rw attach refl
  restart_allowed delete h = rw attach refl
  restart_allowed other_method h = cc

  pub same-IsAnswered :
      (m : Method) (q lit : Text) → text_eq q lit ≡ true → IsAnswered m lit → IsAnswered m q
  same-IsAnswered m q lit same h = subst (IsAnswered m) (sym ((text_eq_iff q lit).0 same)) h

  pub pty_root : hub_allowed get (codes "/pty") cfg ≡ none
  unfolding hub_allowed text_eq segments onto_first after_api hub_read_route
  pty_root = refl

  all_let :
      all
        (λ x. is_none (hub_allowed get x cfg))
        (codes "/api/sessions"
          ∷ codes "/api/approvals"
          ∷ codes "/api/projects"
          ∷ codes "/api/usage"
          ∷ codes "/api/restart"
          ∷ [])
      ≡ true
  unfolding hub_allowed text_eq segments onto_first after_api hub_read_route contains
  all_let = refl

  pub lists_allowed : (q : Text) → peer_lists q ≡ true → hub_allowed get q cfg ≡ none
  unfolding peer_lists
  lists_allowed q h = let_none _ (in_names (λ x. is_none (hub_allowed get x cfg)) _ q all_let h)
