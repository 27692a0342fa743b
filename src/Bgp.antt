-- ===== src/Bgp.antt =====
-- backend/internal/bgp/types.go: the domain types that every stage of the pipeline shares.
-- `netip.Addr` and `netip.Prefix` of Go's standard library are in the child module Net.
pub mod Net
pub mod Types
