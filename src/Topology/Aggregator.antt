-- ===== src/Topology/Aggregator.antt =====
-- backend/internal/topology/aggregator.go: the requests that the aggregator answers and the copy of
-- an event that it sends on. The state is `State` of Topology.Apply.
pub mod Replies
use Prim.Native.String.{String}
use bgpulse.Base.{
  ℕ, Bool, true, false, Option, none, some, List, [], ◌∷◌, ◌++◌, length, ltb, if◌then◌else◌,
}
use bgpulse.Bgp.Types.{Asn, ClassifiedEvent}
use bgpulse.Bgp.Net.{Prefix}
use bgpulse.Topology.Graph.{new_graph}
use bgpulse.Topology.Ring
use bgpulse.Topology.Ring.{new_event_ring}
use bgpulse.Topology.Stats.{Floats, Stats, new_stats, tick}
use bgpulse.Topology.Apply.{State}
use bgpulse.Topology.Views.{
  SnapshotView, AsnDetailView, EdgeDetailView, StatsView, build_topology, build_stats,
  build_asn_detail, build_edge_detail,
}

abbrev pub snapshot_events_limit : ℕ
snapshot_events_limit = 200

-- `snapReq`, by its kind.
pub data SnapReq : Type 0 where
  snap_topology : SnapReq
  snap_events : ℕ → SnapReq
  snap_stats : SnapReq
  snap_asn : Asn → SnapReq
  snap_edge : Asn → Asn → ℕ → SnapReq
  snap_full : SnapReq

-- `NewAggregator`; `zero_event` fills the ring before its first events.
unfoldable pub new_aggregator : (fl : Floats) → ClassifiedEvent → ℕ → State fl
new_aggregator fl zero_event ring_cap = record {
  graph = new_graph;
  ring = new_event_ring zero_event ring_cap;
  stats = new_stats fl;
}

-- `broadcast` on what waits in `out`, a channel of this capacity; without one nothing is sent.
unfoldable pub broadcast_copy :
    Option ℕ → List ClassifiedEvent → ClassifiedEvent → List ClassifiedEvent
broadcast_copy none queue ev = queue
broadcast_copy (some capacity) queue ev =
    if ltb (length queue) capacity then queue ++ (ev ∷ []) else queue

module _ (fl : Floats) where
  pub record FullSnapshot : Type 0 where
    pub topology : SnapshotView
    pub events : List ClassifiedEvent
    pub stats : StatsView fl

  -- What goes back on `req.reply`.
  pub data Reply : Type 0 where
    topology_reply : SnapshotView → Reply
    events_reply : List ClassifiedEvent → Reply
    stats_reply : StatsView fl → Reply
    asn_reply : Option AsnDetailView → Reply
    edge_reply : Option EdgeDetailView → Reply
    full_reply : FullSnapshot → Reply

  abbrev pub or_panic {ℓ} : {A : Type ℓ} → Option A → (A → Reply) → Option Reply
  or_panic none f = none
  or_panic (some a) f = some (f a)

  -- `handle` at a time; `none` is a read of the ring out of range.
  unfoldable pub handle : (Prefix → Prefix → Bool) → ℕ → State fl → SnapReq → Option Reply
  handle text_before now s snap_topology = some (topology_reply (build_topology s.graph now))
  handle text_before now s (snap_events limit) = or_panic (Ring.recent s.ring limit) events_reply
  handle text_before now s snap_stats = some (stats_reply (build_stats fl s))
  handle text_before now s (snap_asn asn) =
      some (asn_reply (build_asn_detail text_before s.graph asn))
  handle text_before now s (snap_edge from to limit) =
      or_panic (build_edge_detail fl s from to limit) edge_reply
  handle text_before now s snap_full =
      or_panic (Ring.recent s.ring snapshot_events_limit) (λ events. full_reply (record {
        topology = build_topology s.graph now;
        events = events;
        stats = build_stats fl s;
      }))

  -- The callers of `request`: `none` is the nil of an aggregator that has stopped, and a reply of
  -- another type is the zero value too.
  unfoldable pub topology_of : Option Reply → SnapshotView
  topology_of (some (topology_reply v)) = v
  topology_of _ = record { nodes = []; edges = []; generated_at = 0 }

  unfoldable pub events_of : Option Reply → List ClassifiedEvent
  events_of (some (events_reply v)) = v
  events_of _ = []

  unfoldable pub asn_detail_of : Option Reply → Option AsnDetailView
  asn_detail_of (some (asn_reply v)) = v
  asn_detail_of _ = none

  unfoldable pub edge_detail_of : Option Reply → Option EdgeDetailView
  edge_detail_of (some (edge_reply v)) = v
  edge_detail_of _ = none

  abbrev pub zero_stats_view : StatsView fl
  zero_stats_view = record {
    total_events = 0;
    announces = 0;
    withdraws = 0;
    leaks = 0;
    hijacks = 0;
    rpki_valid = 0;
    rpki_invalid = 0;
    rpki_not_found = 0;
    node_count = 0;
    edge_count = 0;
    events_per_sec = fl.zero_rate;
    top_origins = [];
  }

  unfoldable pub stats_of : Option Reply → StatsView fl
  stats_of (some (stats_reply v)) = v
  stats_of _ = zero_stats_view

  unfoldable pub snapshot_of : Option Reply → FullSnapshot
  snapshot_of (some (full_reply v)) = v
  snapshot_of _ = record {
    topology = record { nodes = []; edges = []; generated_at = 0 };
    events = [];
    stats = zero_stats_view;
  }
