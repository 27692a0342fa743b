-- ===== src/Topology/Views.antt =====
-- backend/internal/topology/views.go: what the aggregator answers, as functions of its state. A map
-- is read in the order of its list; `sort.Slice` is an insertion sort, which for elements that the
-- order does not tell apart picks one of the orders that Go may give.
pub mod Top
use Prim.Native.String.{String}
use bgpulse.Base.{
  ℕ, ◌+◌, Bool, true, false, ◌&&◌, ◌||◌, Option, none, some, List, [], ◌∷◌, length, map, take, ltb,
  ◌==◌, if◌then◌else◌, ℕ_discrete,
}
use bgpulse.Base.Table.{lookup}
use bgpulse.Base.Sort.{sort_by}
use bgpulse.Bgp.Types.{Asn, VfStatus, RelStatus, RpkiStatus, EventId, invert, ClassifiedEvent}
use bgpulse.Bgp.Net.{Prefix}
use bgpulse.Topology.Series.{series}
use bgpulse.Topology.Ring.{path_has_edge, by_edge, recent}
use bgpulse.Topology.Stats.{Floats}
use bgpulse.Topology.Graph.{
  EdgeKey, EdgeKey-discrete, RpkiCounts, AsNode, prefix_count, Edge, TopologyGraph,
}
use bgpulse.Topology.Apply.{State}

abbrev pub top_origins_limit : ℕ
top_origins_limit = 40

pub record NodeView : Type 0 where
  pub asn : Asn
  pub name : String
  pub prefix_count : ℕ
  pub rpki : RpkiCounts
  pub first_seen : ℕ
  pub last_seen : ℕ

pub record EdgeView : Type 0 where
  pub from : Asn
  pub to : Asn
  pub status : VfStatus
  pub rel : RelStatus
  pub count : ℕ
  pub leak_count : ℕ
  pub hijack_count : ℕ
  pub last_event : ℕ
  pub last_event_id : EventId

pub record SnapshotView : Type 0 where
  pub nodes : List NodeView
  pub edges : List EdgeView
  pub generated_at : ℕ

pub record OriginStatView : Type 0 where
  pub asn : Asn
  pub name : String
  pub prefix_count : ℕ
  pub rpki : RpkiStatus
  pub valid : ℕ
  pub invalid : ℕ
  pub not_found : ℕ
  pub throughput : List ℕ

pub record NeighborView : Type 0 where
  pub asn : Asn
  pub direction : String
  pub rel : RelStatus
  pub status : VfStatus

-- The details of an AS or an edge that is not there are `none`, for `Found: false`.
pub record AsnDetailView : Type 0 where
  pub node : NodeView
  pub neighbors : List NeighborView
  pub prefixes : List Prefix
  pub sparkline : List ℕ

pub record EdgeDetailView : Type 0 where
  pub edge : EdgeView
  pub events : List ClassifiedEvent

unfoldable pub node_view : AsNode → NodeView
unfolding prefix_count
node_view n = record {
  asn = n.asn;
  name = n.name;
  prefix_count = prefix_count n;
  rpki = n.rpki;
  first_seen = n.first_seen;
  last_seen = n.last_seen;
}

unfoldable pub edge_view : Edge → EdgeView
edge_view e = record {
  from = e.key.from;
  to = e.key.to;
  status = e.status;
  rel = e.rel;
  count = e.count;
  leak_count = e.leak_count;
  hijack_count = e.hijack_count;
  last_event = e.last_event;
  last_event_id = e.last_event_id;
}

abbrev pub node_before : NodeView → NodeView → Bool
node_before x y = ltb x.asn y.asn

abbrev pub edge_before : EdgeView → EdgeView → Bool
edge_before x y = if x.from == y.from then ltb x.to y.to else ltb x.from y.from

unfoldable pub build_topology : TopologyGraph → ℕ → SnapshotView
unfolding node_view edge_view
build_topology g now = record {
  nodes = sort_by node_before (map (λ e. node_view e.1) g.nodes);
  edges = sort_by edge_before (map (λ e. edge_view e.1) g.edges);
  generated_at = now;
}

unfoldable pub active : List (Asn × AsNode) → List AsNode
active [] = []
active ((a, n) ∷ nodes) = let rest = active nodes in if ltb 0 n.events then n ∷ rest else rest

-- The tests on counters are those of the source for counts below 2^63.
-- The more events the earlier, and of as many the smaller AS number.
abbrev pub origin_before : AsNode → AsNode → Bool
origin_before x y = if x.events == y.events then ltb x.asn y.asn else ltb y.events x.events

unfoldable pub origin_view : AsNode → OriginStatView
unfolding prefix_count
origin_view n = record {
  asn = n.asn;
  name = n.name;
  prefix_count = prefix_count n;
  rpki = n.worst_rpki;
  valid = n.rpki.valid;
  invalid = n.rpki.invalid;
  not_found = n.rpki.not_found;
  throughput = series n.series;
}

unfoldable pub top_origins : TopologyGraph → List OriginStatView
unfolding active origin_view
top_origins g = map origin_view (take top_origins_limit (sort_by origin_before (active g.nodes)))

-- The loop over the edges; an edge at the AS itself cannot be, and would count as downstream.
unfoldable pub neighbors : Asn → List (EdgeKey × Edge) → List NeighborView
neighbors asn [] = []
neighbors asn ((key, e) ∷ edges) =
    let rest = neighbors asn edges in
    if asn == key.from
    then record { asn = key.to; direction = "downstream"; rel = e.rel; status = e.status } ∷ rest
    else if asn == key.to
    then record { asn = key.from; direction = "upstream"; rel = invert e.rel; status = e.status }
      ∷ rest
    else rest

abbrev pub neighbor_before : NeighborView → NeighborView → Bool
neighbor_before x y = ltb x.asn y.asn

-- `text_before` is the order of the texts of prefixes.
unfoldable pub build_asn_detail :
    (Prefix → Prefix → Bool) → TopologyGraph → Asn → Option AsnDetailView
unfolding node_view neighbors
build_asn_detail text_before g asn = elim (lookup ℕ_discrete asn g.nodes) [
  | none ↦ none
  | some n ↦ some (record {
    node = node_view n;
    neighbors = sort_by neighbor_before (neighbors asn g.edges);
    prefixes = sort_by text_before n.prefixes;
    sparkline = series n.series;
  })
]

module _ (fl : Floats) where
  open fl use {Float}

  pub record StatsView : Type 0 where
    pub total_events : ℕ
    pub announces : ℕ
    pub withdraws : ℕ
    pub leaks : ℕ
    pub hijacks : ℕ
    pub rpki_valid : ℕ
    pub rpki_invalid : ℕ
    pub rpki_not_found : ℕ
    pub node_count : ℕ
    pub edge_count : ℕ
    pub events_per_sec : Float
    pub top_origins : List OriginStatView

  unfoldable pub build_stats : State fl → StatsView
  build_stats s = record {
    total_events = s.stats.total_events;
    announces = s.stats.announces;
    withdraws = s.stats.withdraws;
    leaks = s.stats.leaks;
    hijacks = s.stats.hijacks;
    rpki_valid = s.stats.rpki_valid;
    rpki_invalid = s.stats.rpki_invalid;
    rpki_not_found = s.stats.rpki_not_found;
    node_count = length s.graph.nodes;
    edge_count = length s.graph.edges;
    events_per_sec = s.stats.events_per_sec;
    top_origins = top_origins s.graph;
  }

  -- `none` inside is a read of the ring out of range.
  unfoldable pub build_edge_detail : State fl → Asn → Asn → ℕ → Option (Option EdgeDetailView)
  unfolding edge_view
  build_edge_detail s from to limit =
      elim (lookup EdgeKey-discrete (record { from = from; to = to }) s.graph.edges) [
        | none ↦ some none
        | some e ↦ elim (by_edge (λ ev. path_has_edge ev.event.as_path from to) s.ring limit) [
          | none ↦ none
          | some events ↦ some (some (record { edge = edge_view e; events = events }))
        ]
      ]
