-- ===== src/Hub/Watch/Board.antt =====
-- internal/hub/notify.go: the warning of a scheduled restart, and what the hub shows across devices: the
-- board, the badge, the running sessions, and where a session is. A map of snapshots is a list of
-- pairs in the order in which the map is gone through.
use ccdash.Prelude.{
  ℕ, ◌+◌, ◌≡◌, Bool, true, false, ◌||◌, not, List, [], ◌∷◌, ◌++◌, Option, none, some, Text, codes,
  text_eq, is_empty, contains, ltb, ◌==◌, if◌then◌else◌, sort_stable, insert_stable, IsSorted,
  sort_stable-perm, sort_stable-IsSorted, All, arith,
}
use mathlib.Core.List.{Perm}
use ccdash.Session.{Session, attention_needs_you, attention_done, decimal}
use ccdash.Hub.Watch.{WatchState, Watched, Notification}

pub record RestartState : Type 0 where
  pub pending : Bool
  pub last : Text
  -- The text of the time at which it ended.
  pub last_at : Text
  pub waiting : ℕ
  pub hosted : ℕ

unfoldable pub restart_signature : Option RestartState → Text
restart_signature none = []
restart_signature (some rs) =
    if rs.pending
    then codes "pending"
    else if is_empty rs.last
    then []
    else rs.last ++ (codes "@" ++ rs.last_at)

unfoldable pub restart_text : Watched → RestartState → Option Notification
unfolding decimal
restart_text d rs =
    if rs.pending
    then some (record {
      title = d.name ++ codes " · 再起動を予約";
      body =
          codes "作業中のセッションが終わり次第 ccdash を再起動します（"
          ++ (decimal rs.waiting
              ++ (codes " 件待ち）。ホスト中の " ++ (decimal rs.hosted ++ codes " 件はいったん止まり、自動で再開されます。")));
      url = codes "/#/d/" ++ d.id;
      tag = d.id ++ codes ":restart";
    })
    else if text_eq rs.last (codes "expired")
    then some (record {
      title = d.name ++ codes " · 再起動の予約は時間切れ";
      body = codes "作業中のセッションが終わらなかったため、ccdash の再起動を取りやめました。";
      url = codes "/#/d/" ++ d.id;
      tag = d.id ++ codes ":restart";
    })
    else none

unfoldable pub restart_notice :
    Watched → Option RestartState → WatchState → Option Notification × WatchState
unfolding restart_signature restart_text
restart_notice d rs st =
    let sig = restart_signature rs in
    let st' = record st { restart = sig; restart_seen = true } in
    if not st.restart_seen || text_eq sig st.restart || is_empty sig
    then (none, st')
    else (elim rs [ none ↦ none | some r ↦ restart_text d r ], st')

unfoldable pub board_column : Session → Text
board_column s =
    if text_eq s.attention attention_needs_you
    then codes "needs_you"
    else if text_eq s.status (codes "active")
    then codes "working"
    else if text_eq s.attention attention_done || s.unseen
    then codes "done"
    else []

pub record DeviceSnapshot : Type 0 where
  pub device : Watched
  pub sessions : List Session
  pub at : ℕ

unfoldable pub count_badges : List Session → ℕ
unfolding board_column
count_badges [] = 0
count_badges (s ∷ ss) =
    let rest = count_badges ss in
    let k = board_column s in
    if text_eq k (codes "needs_you") || text_eq k (codes "done") then 1 + rest else rest

unfoldable pub badge_count : List (Text × DeviceSnapshot) → ℕ
unfolding count_badges
badge_count [] = 0
badge_count (b ∷ snaps) = count_badges b.1.sessions + badge_count snaps

-- A write to a map, in its place if it has the key.
unfoldable pub put_snapshot :
    DeviceSnapshot → List (Text × DeviceSnapshot) → List (Text × DeviceSnapshot)
put_snapshot snap [] = (snap.device.id, snap) ∷ []
put_snapshot snap (b ∷ m) =
    if text_eq b.0 snap.device.id then (b.0, snap) ∷ m else b ∷ put_snapshot snap m

unfoldable pub snapshot_of : Text → List (Text × DeviceSnapshot) → Option DeviceSnapshot
snapshot_of id [] = none
snapshot_of id (b ∷ m) = if text_eq b.0 id then some b.1 else snapshot_of id m

-- The replica's own snapshots, and those of the others that are newer or of other devices.
unfoldable pub all_snapshots :
    List (Text × DeviceSnapshot) → List DeviceSnapshot → List (Text × DeviceSnapshot)
unfolding put_snapshot snapshot_of
all_snapshots own [] = own
all_snapshots own (snap ∷ peers) =
    let newer : Bool = elim (snapshot_of snap.device.id own) [
      | none ↦ true
      | some cur ↦ ltb cur.at snap.at
    ] in
    all_snapshots (if newer then put_snapshot snap own else own) peers

unfoldable pub online_ids : List Text → List Text → List Text
unfolding contains
online_ids ids [] = ids
online_ids ids (id ∷ peers) = online_ids (if contains ids id then ids else ids ++ id ∷ []) peers

unfoldable pub has_session : Text → List Session → Bool
has_session sid [] = false
has_session sid (s ∷ ss) = text_eq s.session_id sid || has_session sid ss

-- The only one of the devices, if there is just one.
abbrev pub the_only : List Text → Text
the_only (id ∷ []) = id
the_only _ = []

unfoldable pub locate_session : Text → List (Text × DeviceSnapshot) → List Text → Text
unfolding has_session
locate_session sid [] online = the_only online
locate_session sid (b ∷ snaps) online =
    if has_session sid b.1.sessions then b.0 else locate_session sid snaps online

pub record BoardCard : Type 0 where
  pub device_id : Text
  pub device_name : Text
  pub session : Session

unfoldable pub is_running : Bool → Session → Bool
is_running all s =
    all
    || text_eq s.status (codes "active")
    || text_eq s.status (codes "idle")
    || text_eq s.attention attention_needs_you

unfoldable pub cards_of : Bool → Watched → List Session → List BoardCard
unfolding is_running
cards_of all d [] = []
cards_of all d (s ∷ ss) =
    let rest = cards_of all d ss in
    if is_running all s
    then record { device_id = d.id; device_name = d.name; session = s } ∷ rest
    else rest

unfoldable pub all_cards : Bool → List (Text × DeviceSnapshot) → List BoardCard
unfolding cards_of
all_cards all [] = []
all_cards all (b ∷ snaps) = cards_of all b.1.device b.1.sessions ++ all_cards all snaps

unfoldable pub active_rank : Session → ℕ
active_rank s =
    if text_eq s.attention attention_needs_you
    then 0
    else if text_eq s.status (codes "active")
    then 1
    else 2

unfoldable pub active_before : BoardCard → BoardCard → Bool
unfolding active_rank
active_before a b =
    if not (active_rank a.session == active_rank b.session)
    then ltb (active_rank a.session) (active_rank b.session)
    else ltb b.session.last_seen a.session.last_seen

unfoldable pub handle_active : Bool → List (Text × DeviceSnapshot) → List BoardCard
unfolding all_cards active_before sort_stable insert_stable
handle_active all snaps = sort_stable active_before (all_cards all snaps)

abbrev AnyCard : BoardCard → Type 0
AnyCard c = Unit {0}

All-AnyCard : (cs : List BoardCard) → All AnyCard cs
All-AnyCard [] = tt
All-AnyCard (c ∷ cs) = (tt, All-AnyCard cs)

active_before-asym : (a b : BoardCard) → active_before a b ≡ true → active_before b a ≡ false
unfolding active_before
active_before-asym a b h = ground (arith, h)

active_before-chain :
    (a b c : BoardCard)
    → active_before b a ≡ false
    → active_before c b ≡ false
    → active_before c a ≡ false
unfolding active_before
active_before-chain a b c h k = ground (arith, h, k)

-- The list of the running sessions is a permutation of the cards of all the devices, and no card
-- stands behind one that is to be shown after it: those that need the operator first, then the
-- active ones, and of the same rank the one that was seen last first.
pub handle_active-IsSorted :
    (all : Bool) (snaps : List (Text × DeviceSnapshot))
    → Perm (handle_active all snaps) (all_cards all snaps)
      × IsSorted active_before (handle_active all snaps)
unfolding handle_active
handle_active-IsSorted all snaps = (
  sort_stable-perm active_before (all_cards all snaps),
  sort_stable-IsSorted active_before AnyCard (λ a b _ _. active_before-asym a b)
      (λ a b c _ _ _. active_before-chain a b c) (all_cards all snaps)
      (All-AnyCard (all_cards all snaps)),
)
