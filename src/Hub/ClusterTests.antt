-- ===== src/Hub/ClusterTests.antt =====
-- A device that moves from one of two replicas to the other.
use ccdash.Prelude.{ℕ, ◌≡◌, refl, true, false, [], ◌∷◌, some, none, codes, text_eq, arith}
use ccdash.Hub.Cluster.{handle_drop, owner, find_conn, Peers}
use ccdash.Hub.Cluster.Newest.{
  Replicas, Run, here, next, connect, arrive, start, hold, serve_device, receive, Run-one,
}

abbrev peers : Peers
peers =
    (
      codes "a",
      record { seen_at = 9; conns = record { id = codes "mac"; since = 5; remote = [] } ∷ [] },
    )
    ∷ (
      codes "b",
      record { seen_at = 9; conns = record { id = codes "mac"; since = 7; remote = [] } ∷ [] },
    )
    ∷ []

newest_owner :
    owner (codes "mac") peers none
    ≡ some (codes "b", record { id = codes "mac"; since = 7; remote = [] })
unfolding owner find_conn text_eq
newest_owner = refl

-- First the second replica's tunnel, then the first's; both drops arrive.
abbrev moved : Replicas
moved = receive 1 9 (receive 0 5 (serve_device 2 0 9 (serve_device 2 1 5 start)))

sent_first : (serve_device 2 0 9 (serve_device 2 1 5 start)).drops 0 5 ≡ true
unfolding serve_device
sent_first = refl

sent_second : (receive 0 5 (serve_device 2 0 9 (serve_device 2 1 5 start))).drops 1 9 ≡ true
unfolding serve_device receive
sent_second = refl

moved_run : Run 2 start moved
unfolding serve_device receive
moved_run =
    next
      (next
        (next (next here (connect 1 5 (omega arith) (omega arith)))
          (connect 0 9 (omega arith) (omega arith)))
        (arrive 0 5 sent_first))
      (arrive 1 9 sent_second)

moved_quiet : (i t : ℕ) → moved.drops i t ≡ false
unfolding serve_device receive
moved_quiet i t = ground arith

moved_held : moved.held 0 ≡ some 9
unfolding serve_device receive hold handle_drop
moved_held = refl

Run-one_example : Path ℕ 0 0 × Path ℕ 9 moved.newest
Run-one_example = Run-one 2 moved 0 0 9 9 moved_run moved_quiet moved_held moved_held
