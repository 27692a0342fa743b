-- ===== src/Topology/Apply.antt =====
-- backend/internal/topology/apply.go: the one path by which an event changes the graph, the ring
-- and the counters. `names` is the aggregator's name lookup.
pub mod Same
pub mod Drops
pub mod Rib
pub mod Owner
pub mod Edges
pub mod Tallies
use Prim.Native.String.{String}
use bgpulse.Base.{
  ℕ, zero, suc, ◌+◌, ◌-◌, ◌%◌, Bool, true, false, ◌&&◌, not, Option, none, some, List, [], ◌∷◌,
  ◌++◌, length, drop, ltb, ◌==◌, if◌then◌else◌, inc64, ite, ℕ_discrete,
}
use bgpulse.Base.Table.{lookup, insert, delete}
use bgpulse.Base.Table as Table
use bgpulse.Bgp.Types.{
  Asn, VfStatus, RelStatus, unknown, RpkiStatus, EventId, PathHop, UpdateKind, announce, withdraw,
  ClassifiedEvent,
}
use bgpulse.Bgp.Net.{Prefix, Prefix-discrete, zero_prefix}
use bgpulse.Topology.Series.{RingCounters}
use bgpulse.Topology.Series as Series
use bgpulse.Topology.Graph.{
  EdgeKey, EdgeKey-discrete, RpkiCounts, AsNode, Edge, TopologyGraph, node, put_node,
}
use bgpulse.Topology.Ring.{EventRing}
use bgpulse.Topology.Ring as Ring
use bgpulse.Topology.Stats.{Floats, Stats, record_event}

abbrev pub max_samples_per_edge : ℕ
max_samples_per_edge = 15

-- `Prefix.String()`; every prefix that is not valid has the same text.
unfoldable pub cidr : Prefix → Prefix
cidr p = elim p.bits [ none ↦ zero_prefix | some n ↦ p ]

abbrev pub worse_rpki : RpkiStatus → RpkiStatus → RpkiStatus
worse_rpki RpkiStatus.invalid b = RpkiStatus.invalid
worse_rpki RpkiStatus.valid RpkiStatus.invalid = RpkiStatus.invalid
worse_rpki RpkiStatus.not_found RpkiStatus.invalid = RpkiStatus.invalid
worse_rpki RpkiStatus.valid RpkiStatus.valid = RpkiStatus.valid
worse_rpki RpkiStatus.valid RpkiStatus.not_found = RpkiStatus.valid
worse_rpki RpkiStatus.not_found RpkiStatus.valid = RpkiStatus.valid
worse_rpki RpkiStatus.not_found RpkiStatus.not_found = RpkiStatus.not_found

unfoldable pub tally_rpki : RpkiCounts → RpkiStatus → RpkiCounts
tally_rpki c RpkiStatus.valid = record c { valid = inc64 c.valid }
tally_rpki c RpkiStatus.invalid = record c { invalid = inc64 c.invalid }
tally_rpki c RpkiStatus.not_found = record c { not_found = inc64 c.not_found }

unfoldable pub append_sample : List EventId → EventId → List EventId
append_sample s id =
    let s' = s ++ (id ∷ []) in
    if ltb max_samples_per_edge (length s') then drop (length s' - max_samples_per_edge) s' else s'

unfoldable pub rel_for_hop : List PathHop → Asn → Asn → RelStatus
rel_for_hop [] from to = unknown
rel_for_hop (h ∷ hops) from to =
    if h.from == from && h.to == to then h.rel else rel_for_hop hops from to

-- `ed.LeakCount++` or `ed.HijackCount++`
abbrev pub tally_edge : Edge → VfStatus → Edge
tally_edge ed VfStatus.leak = record ed { leak_count = inc64 ed.leak_count }
tally_edge ed VfStatus.hijack = record ed { hijack_count = inc64 ed.hijack_count }
tally_edge ed VfStatus.valid = ed
tally_edge ed VfStatus.unknown = ed

-- The edge that `upsertEdge` finds, or makes with Go's zero values.
unfoldable pub edge_or_new : TopologyGraph → EdgeKey → List PathHop → Edge
edge_or_new g key hops = elim (lookup EdgeKey-discrete key g.edges) [
  | some ed ↦ ed
  | none ↦ record {
    key = key;
    status = VfStatus.valid;
    rel = rel_for_hop hops key.from key.to;
    count = 0;
    leak_count = 0;
    hijack_count = 0;
    last_event = 0;
    last_event_id = record { tag = ""; seq = 0 };
    samples = [];
  }
]

-- What an event writes into its edge.
unfoldable pub touch_edge : Edge → ClassifiedEvent → ℕ → Edge
unfolding append_sample
touch_edge ed ev now =
    let counted : Edge = tally_edge (record ed { count = inc64 ed.count }) ev.vf_status in
    record counted {
      status = ev.vf_status;
      last_event = now;
      last_event_id = ev.event.id;
      samples = append_sample counted.samples ev.event.id;
    }

unfoldable pub upsert_edge : TopologyGraph → Asn → Asn → ClassifiedEvent → ℕ → TopologyGraph
unfolding edge_or_new
upsert_edge g from to ev now =
    let key : EdgeKey = record { from = from; to = to } in
    record g {
      edges = insert EdgeKey-discrete key (touch_edge (edge_or_new g key ev.hops) ev now) g.edges;
    }

-- `g.node(asn, now, name).LastSeen = now`
unfoldable pub see_node : TopologyGraph → Asn → ℕ → String → TopologyGraph
unfolding node
see_node g asn now name =
    let (g', n) = node g asn now name in put_node g' asn (record n { last_seen = now })

module _ (names : Asn → String) where
  -- One round of the loop of `applyEdges`: a repeated AS is no adjacency.
  unfoldable pub apply_hop : TopologyGraph → ClassifiedEvent → ℕ → Asn → Asn → TopologyGraph
  unfolding see_node upsert_edge
  apply_hop g ev now from to =
      if from == to
      then g
      else upsert_edge (see_node (see_node g from now (names from)) to now (names to)) from to ev
          now

  -- The loop from the hop that begins at `from`.
  unfoldable pub apply_hops : TopologyGraph → ClassifiedEvent → ℕ → Asn → List Asn → TopologyGraph
  apply_hops g ev now from [] = g
  apply_hops g ev now from (to ∷ path) = apply_hops (apply_hop g ev now from to) ev now to path

  unfoldable pub apply_edges : TopologyGraph → ClassifiedEvent → ℕ → TopologyGraph
  unfolding apply_hops
  apply_edges g ev now = elim ev.event.as_path [
    | [] ↦ g
    | from ∷ path ↦ apply_hops g ev now from path
  ]

  unfoldable pub apply_origin : TopologyGraph → ClassifiedEvent → ℕ → TopologyGraph
  unfolding node tally_rpki
  apply_origin g ev now =
      let origin = ev.event.origin_as in
      let (g', n) = node g origin now (names origin) in
      put_node g' origin (record n {
        last_seen = now;
        events = inc64 n.events;
        series = Series.add n.series now;
        rpki = tally_rpki n.rpki ev.rpki_status;
        worst_rpki = worse_rpki n.worst_rpki ev.rpki_status;
      })

-- `delete(n.prefixes, cidr)` and `n.prefixes[cidr] = struct{}{}`, where the node exists.
unfoldable pub drop_prefix : TopologyGraph → Asn → Prefix → TopologyGraph
drop_prefix g asn p = elim (lookup ℕ_discrete asn g.nodes) [
  | none ↦ g
  | some n ↦ put_node g asn (record n { prefixes = Table.remove Prefix-discrete p n.prefixes })
]

unfoldable pub add_prefix : TopologyGraph → Asn → Prefix → TopologyGraph
add_prefix g asn p = elim (lookup ℕ_discrete asn g.nodes) [
  | none ↦ g
  | some n ↦ put_node g asn (record n { prefixes = Table.add Prefix-discrete p n.prefixes })
]

-- The first `if` of the announcing case of `applyRIB`: another AS gives up the prefix.
unfoldable pub drop_other : TopologyGraph → Prefix → Asn → TopologyGraph
unfolding drop_prefix
drop_other g p origin = elim (lookup Prefix-discrete p g.rib) [
  | none ↦ g
  | some prev ↦ if prev == origin then g else drop_prefix g prev p
]

-- The announcing case, for an origin that is not 0.
unfoldable pub rib_announce : TopologyGraph → Prefix → Asn → TopologyGraph
unfolding drop_other add_prefix
rib_announce g p origin =
    let g1 = drop_other g p origin in
    add_prefix (record g1 { rib = insert Prefix-discrete p origin g1.rib }) origin p

unfoldable pub rib_withdraw : TopologyGraph → Prefix → TopologyGraph
unfolding drop_prefix
rib_withdraw g p = elim (lookup Prefix-discrete p g.rib) [
  | none ↦ g
  | some prev ↦ let g1 = drop_prefix g prev p in record g1 { rib = delete Prefix-discrete p g1.rib }
]

unfoldable pub apply_rib : TopologyGraph → ClassifiedEvent → TopologyGraph
unfolding rib_announce rib_withdraw
apply_rib g ev =
    let p = cidr ev.event.prefix in
    elim ev.event.kind [
      | announce ↦ if ev.event.origin_as == 0 then g else rib_announce g p ev.event.origin_as
      | withdraw ↦ rib_withdraw g p
    ]

-- The changes that `apply` makes to the graph.
unfoldable pub apply_graph : (Asn → String) → TopologyGraph → ClassifiedEvent → TopologyGraph
apply_graph names g ev =
    let now = ev.event.timestamp in
    let g1 : TopologyGraph = elim ev.event.kind [
      | withdraw ↦ g
      | announce ↦
          apply_edges names (if ev.event.origin_as == 0 then g else apply_origin names g ev now) ev
            now
    ] in
    apply_rib g1 ev

-- What the aggregator owns.
pub record State (fl : Floats) : Type 0 where
  pub graph : TopologyGraph
  pub ring : EventRing ClassifiedEvent
  pub stats : Stats fl

unfoldable pub apply : (fl : Floats) → (Asn → String) → State fl → ClassifiedEvent → State fl
unfolding apply_graph
apply fl names s ev = record {
  graph = apply_graph names s.graph ev;
  ring = Ring.push s.ring ev;
  stats = record_event fl s.stats ev;
}
