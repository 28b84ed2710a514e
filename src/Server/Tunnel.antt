-- ===== src/Server/Tunnel.antt =====
-- internal/server/hub.go: which requests that come through the hub's tunnel a device answers, and with
-- what. A path is matched between its slashes, as the regular expressions of the source do.
pub mod Reach
use ccdash.Prelude.{
  Bool, true, false, ◌&&◌, ◌||◌, not, List, [], ◌∷◌, Option, none, some, Text, codes, text_eq,
  is_empty, contains, all, if◌then◌else◌, has_prefix, drop_length, segments, after_api, Method,
  is_get, is_post, is_delete,
}
use ccdash.Calendar.{is_digit}

-- The toggles of settings.Settings that the tunnel looks at.
pub record Toggles : Type 0 where
  pub hub_enabled : Bool
  pub attach_enabled : Bool
  pub approve_enabled : Bool

unfoldable pub hub_read_route : List Text → Bool
hub_read_route (a ∷ []) =
    contains
      (codes "sessions" ∷ codes "approvals" ∷ codes "projects" ∷ codes "usage" ∷ codes "tasks" ∷ [])
      a
hub_read_route (a ∷ b ∷ []) =
    (text_eq a (codes "usage") && text_eq b (codes "sessions"))
    || (text_eq a (codes "tasks") && not (is_empty b))
hub_read_route (a ∷ b ∷ c ∷ []) =
    text_eq a (codes "sessions")
    && not (is_empty b)
    && contains (codes "transcript" ∷ codes "usage" ∷ codes "statusline" ∷ []) c
hub_read_route _ = false

unfoldable pub hub_session_edit : List Text → Bool
hub_session_edit (a ∷ b ∷ []) =
    text_eq a (codes "projects") && contains (codes "color" ∷ codes "rename" ∷ codes "order" ∷ []) b
hub_session_edit (a ∷ b ∷ c ∷ []) =
    text_eq a (codes "sessions")
    && not (is_empty b)
    && contains
        (codes "archive"
          ∷ codes "favorite"
          ∷ codes "later"
          ∷ codes "grid"
          ∷ codes "color"
          ∷ codes "title"
          ∷ codes "group"
          ∷ codes "project"
          ∷ codes "seen"
          ∷ [])
        c
hub_session_edit _ = false

unfoldable pub hub_titles : List Text → Bool
hub_titles (a ∷ []) = text_eq a (codes "titles")
hub_titles _ = false

unfoldable pub hub_task_edit : List Text → Bool
hub_task_edit (a ∷ []) = text_eq a (codes "tasks")
hub_task_edit (a ∷ b ∷ []) = text_eq a (codes "tasks") && not (is_empty b)
hub_task_edit (a ∷ b ∷ c ∷ []) =
    text_eq a (codes "tasks") && not (is_empty b) && text_eq c (codes "notes")
hub_task_edit _ = false

unfoldable pub hub_decide_route : List Text → Bool
hub_decide_route (root ∷ a ∷ b ∷ c ∷ []) =
    is_empty root
    && text_eq a (codes "approvals")
    && not (is_empty b)
    && all is_digit b
    && text_eq c (codes "decide")
hub_decide_route _ = false

pub data Refusal : Type 0 where
  hub_off attach_off approve_off not_through_hub : Refusal

-- `none` where the request may reach the collector's own handlers.
unfoldable pub hub_allowed : Method → Text → Toggles → Option Refusal
hub_allowed m p cfg =
    let parts = segments p in
    let api = after_api parts in
    if is_get m && hub_read_route api
    then none
    else if is_post m && hub_session_edit api
    then none
    else if is_post m && hub_titles api
    then none
    else if is_post m
        && hub_task_edit api
        && not (text_eq p (codes "/api/tasks/sync"))
        && not (text_eq p (codes "/api/tasks/import"))
    then none
    else if is_get m
        && (text_eq p (codes "/pty/")
            || text_eq p (codes "/pty")
            || text_eq p (codes "/api/restart"))
    then none
    else if has_prefix p (codes "/pty/")
        || ((is_post m || is_delete m) && text_eq p (codes "/api/restart"))
    then (if cfg.attach_enabled then none else some attach_off)
    else if is_post m && hub_decide_route parts
    then (if cfg.approve_enabled then none else some approve_off)
    else some not_through_hub

-- Who answers a request of the tunnel: the collector's own handlers, one of the tunnel's, or nobody.
pub data Answer : Type 0 where
  own info upload git_status git_diff file subagents settings skills dirs not_found : Answer
  subagent_transcript : Text → Text → Answer
  refused : Refusal → Answer

abbrev pub gated : Bool → Answer → Answer
gated true a = a
gated false a = refused attach_off

-- The session and the agent after "/hub/subagents/".
unfoldable pub subagent_route : List Text → Answer
subagent_route (sid ∷ agent ∷ []) =
    if is_empty sid then not_found else subagent_transcript sid agent
subagent_route _ = not_found

unfoldable pub own_or_refused : Option Refusal → Answer
own_or_refused none = own
own_or_refused (some r) = refused r

unfoldable pub tunnel : Bool → Method → Text → Toggles → Answer
tunnel local m p cfg =
    if not local && not cfg.hub_enabled
    then refused hub_off
    else if is_get m && text_eq p (codes "/hub/info")
    then info
    else if is_post m && text_eq p (codes "/hub/upload")
    then gated cfg.attach_enabled upload
    else if is_get m && text_eq p (codes "/hub/git/status")
    then git_status
    else if is_get m && text_eq p (codes "/hub/git/diff")
    then git_diff
    else if is_get m && text_eq p (codes "/hub/file")
    then file
    else if is_get m && text_eq p (codes "/hub/subagents")
    then subagents
    else if is_get m && has_prefix p (codes "/hub/subagents/")
    then subagent_route (segments (drop_length p (codes "/hub/subagents/")))
    else if is_get m && text_eq p (codes "/hub/settings")
    then settings
    else if is_get m && text_eq p (codes "/hub/skills")
    then gated cfg.attach_enabled skills
    else if is_get m && text_eq p (codes "/hub/dirs")
    then gated cfg.attach_enabled dirs
    else own_or_refused (hub_allowed m p cfg)
