-- ===== src/Topology.antt =====
-- backend/internal/topology: the live AS graph, owned by the one goroutine of the Aggregator.
pub mod Ring
pub mod Series
pub mod Stats
pub mod Graph
pub mod Apply
pub mod Views
pub mod Aggregator
mod Tests
