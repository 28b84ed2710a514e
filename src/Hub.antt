-- ===== src/Hub.antt =====
-- internal/hub: the parts of the hub that decide something.
pub mod BreakGlass
pub mod ReadTokens
pub mod Letters
pub mod Peer
pub mod Watch
pub mod Login
pub mod Cluster
pub mod State
mod Tests
mod StateTests
mod PeerTests
mod WatchTests
mod LoginTests
mod ClusterTests
