-- ===== src/Hub/Cluster.antt =====
-- internal/hub/cluster.go and hub.go: which replica of the hub holds a device's tunnel. Times are
-- nanoseconds; signing, and the text of a number, are parameters. A map is a list of pairs in the order
-- in which it is gone through.
pub mod Newest
use ccdash.Prelude.{
  ℕ, ◌+◌, ◌-◌, ◌*◌, Bool, true, false, ◌&&◌, ◌||◌, not, List, [], ◌∷◌, ◌++◌, Option, none, some,
  Text, text_eq, is_empty, contains, ltb, leb, if◌then◌else◌, select,
}

-- Six seconds, three rounds of the refresh.
abbrev pub cluster_stale : ℕ
cluster_stale = 6 * 1_000_000_000

-- A minute, in seconds.
abbrev pub cluster_skew : ℕ
cluster_skew = 60

pub record PeerConn : Type 0 where
  pub id : Text
  pub since : ℕ
  pub remote : Text

pub record PeerView : Type 0 where
  pub seen_at : ℕ
  pub conns : List PeerConn

abbrev pub Peers : Type 0
Peers = List (Text × PeerView)

-- The addresses of the other replicas.
unfoldable pub other_replicas : Text → List Text → List Text
other_replicas advertise = select (λ a. not (text_eq a advertise))

abbrev distance : ℕ → ℕ → ℕ
distance a b = if leb a b then b - a else a - b

-- `parse` gives what stands before the point of the header as a number of seconds, and `sign` the header
-- that it ought to be; `now` is in nanoseconds.
unfoldable pub verify : (Text → Option ℕ) → (Text → Text → ℕ → Text) → Text → Text → Text → ℕ → Bool
verify parse sign header method uri now = elim (parse header) [
  | none ↦ false
  | some ts ↦
      if ltb (cluster_skew * 1_000_000_000) (distance (ts * 1_000_000_000) now)
      then false
      else text_eq header (sign method uri ts)
]

unfoldable pub find_conn : Text → List PeerConn → Option PeerConn
find_conn id [] = none
find_conn id (c ∷ cs) = if text_eq c.id id then some c else find_conn id cs

-- The peer that holds the tunnel of a device, the newest if two claim it.
unfoldable pub owner : Text → Peers → Option (Text × PeerConn) → Option (Text × PeerConn)
unfolding find_conn
owner id [] best = best
owner id (p ∷ peers) best = owner id peers (elim (find_conn id p.1.conns) [
  | none ↦ best
  | some c ↦ elim best [
    | none ↦ some (p.0, c)
    | some b ↦ if ltb b.1.since c.since then some (p.0, c) else some b
  ]
])

unfoldable pub put_peer : Text → PeerView → Peers → Peers
put_peer addr view [] = (addr, view) ∷ []
put_peer addr view (p ∷ peers) =
    if text_eq p.0 addr then (addr, view) ∷ peers else p ∷ put_peer addr view peers

unfoldable pub put_answers : ℕ → List (Text × List PeerConn) → Peers → Peers
unfolding put_peer
put_answers now [] peers = peers
put_answers now (a ∷ got) peers =
    put_answers now got (put_peer a.0 (record { seen_at = now; conns = a.1 }) peers)

-- The peers after a round: with the answers that came, without those that left the list or have not
-- answered for too long.
unfoldable pub refresh_peers : ℕ → List Text → List (Text × List PeerConn) → Peers → Peers
unfolding put_answers
refresh_peers now addrs got peers =
    select (λ p. contains addrs p.0 && not (ltb cluster_stale (now - p.1.seen_at)))
      (put_answers now got peers)

-- A replica's own tunnel of one device is the time since when it has it. `since` is none in a drop for
-- good, of a device whose token is rotated or that is deleted.
unfoldable pub handle_drop : Option ℕ → Option ℕ → Option ℕ
handle_drop since none = none
handle_drop none (some own) = none
handle_drop (some since) (some own) = if ltb own since then none else some own
