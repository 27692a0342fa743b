-- ===== src/Api/Mapper.antt =====
-- backend/internal/api/mapper.go and the messages of frames.go before they are marshalled.
use bgpulse.Base.{ℕ, ◌/◌, ◌^◌, ◌==◌, Option, none, some, List, map, length, if◌then◌else◌}
use bgpulse.Bgp.Types.{
  kind_string, rel_string, vf_string, rpki_string, Community, PathHop, ClassifiedEvent,
}
use bgpulse.Bgp.Net.{Addr, invalid, ip4, ip6}
use bgpulse.Topology.Stats.{Floats}
use bgpulse.Topology.Views.{
  NodeView, EdgeView, SnapshotView, OriginStatView, NeighborView, AsnDetailView, EdgeDetailView,
  StatsView,
}
use bgpulse.Topology.Aggregator.{FullSnapshot}
use bgpulse.Api.Dto.{
  CommunityDto, PathHopDto, ClassifiedDto, NodeDto, EdgeDto, TopologyDto, OriginStatDto,
  NeighborDto, AsnDetailDto, EdgeDetailDto, StatsDto, SnapshotDto, WsMessage, ws_snapshot, ws_event,
  ws_stats,
}

-- A text in whole seconds, and the empty text for the zero time. The zero time is 0 here, and the
-- year 1 in the source, where 1970-01-01T00:00:00Z has a text.
abbrev pub rfc3339 : ℕ → Option ℕ
rfc3339 t = if t == 0 then none else some (t / 10 ^ 9)

abbrev pub addr_string : Addr → Option Addr
addr_string invalid = none
addr_string (ip4 b) = some (ip4 b)
addr_string (ip6 b) = some (ip6 b)

abbrev pub community_to_dto : Community → CommunityDto
community_to_dto c = record { asn = c.asn; value = c.value }

abbrev pub hop_to_dto : PathHop → PathHopDto
hop_to_dto h = record {
  from = h.from;
  to = h.to;
  rel = rel_string h.rel;
  is_offender = h.is_offender;
}

unfoldable pub classified_to_dto : ClassifiedEvent → ClassifiedDto
classified_to_dto ev = record {
  id = ev.event.id;
  seq = ev.event.seq;
  timestamp = rfc3339 ev.event.timestamp;
  kind = kind_string ev.event.kind;
  prefix = ev.event.prefix;
  peer_as = ev.event.peer_as;
  as_path = ev.event.as_path;
  next_hop = addr_string ev.event.next_hop;
  communities = map community_to_dto ev.event.communities;
  origin_as = ev.event.origin_as;
  vf_status = vf_string ev.vf_status;
  rpki_status = rpki_string ev.rpki_status;
  hops = map hop_to_dto ev.hops;
  offender_as = ev.offender_as;
  reason = ev.reason;
}

abbrev pub classified_slice_to_dto : List ClassifiedEvent → List ClassifiedDto
classified_slice_to_dto evs = map classified_to_dto evs

abbrev pub node_view_to_dto : NodeView → NodeDto
node_view_to_dto n = record {
  asn = n.asn;
  name = n.name;
  prefix_count = n.prefix_count;
  rpki = record { valid = n.rpki.valid; invalid = n.rpki.invalid; not_found = n.rpki.not_found };
  first_seen = rfc3339 n.first_seen;
  last_seen = rfc3339 n.last_seen;
}

abbrev pub edge_view_to_dto : EdgeView → EdgeDto
edge_view_to_dto e = record {
  from = e.from;
  to = e.to;
  status = vf_string e.status;
  rel = rel_string e.rel;
  count = e.count;
  leak_count = e.leak_count;
  hijack_count = e.hijack_count;
  last_event = rfc3339 e.last_event;
  last_event_id = e.last_event_id;
}

unfoldable pub topology_view_to_dto : SnapshotView → TopologyDto
topology_view_to_dto v =
    let nodes = map node_view_to_dto v.nodes in
    let edges = map edge_view_to_dto v.edges in
    record {
      nodes = nodes;
      edges = edges;
      node_count = length nodes;
      edge_count = length edges;
      generated = rfc3339 v.generated_at;
    }

abbrev pub origin_to_dto : OriginStatView → OriginStatDto
origin_to_dto o = record {
  asn = o.asn;
  name = o.name;
  prefix_count = o.prefix_count;
  rpki_status = rpki_string o.rpki;
  valid = o.valid;
  invalid = o.invalid;
  not_found = o.not_found;
  throughput = o.throughput;
}

abbrev pub neighbor_to_dto : NeighborView → NeighborDto
neighbor_to_dto n = record {
  asn = n.asn;
  direction = n.direction;
  rel = rel_string n.rel;
  status = vf_string n.status;
}

abbrev pub asn_detail_to_dto : AsnDetailView → AsnDetailDto
asn_detail_to_dto d = record {
  node = node_view_to_dto d.node;
  neighbors = map neighbor_to_dto d.neighbors;
  prefixes = d.prefixes;
  sparkline = d.sparkline;
}

abbrev pub edge_detail_to_dto : EdgeDetailView → EdgeDetailDto
edge_detail_to_dto d = record {
  edge = edge_view_to_dto d.edge;
  events = classified_slice_to_dto d.events;
}

module _ (fl : Floats) where
  unfoldable pub stats_view_to_dto : StatsView fl → StatsDto fl
  stats_view_to_dto s = record {
    total_events = s.total_events;
    announces = s.announces;
    withdraws = s.withdraws;
    leaks = s.leaks;
    hijacks = s.hijacks;
    rpki_valid = s.rpki_valid;
    rpki_invalid = s.rpki_invalid;
    rpki_not_found = s.rpki_not_found;
    node_count = s.node_count;
    edge_count = s.edge_count;
    events_per_sec = s.events_per_sec;
    top_origins = map origin_to_dto s.top_origins;
  }

  abbrev pub snapshot_to_dto : FullSnapshot fl → SnapshotDto fl
  snapshot_to_dto s = record {
    topology = topology_view_to_dto s.topology;
    events = classified_slice_to_dto s.events;
    stats = stats_view_to_dto s.stats;
  }

  abbrev pub event_frame : ℕ → ClassifiedEvent → WsMessage fl
  event_frame seq ev = ws_event seq (classified_to_dto ev)

  abbrev pub stats_frame : ℕ → StatsView fl → WsMessage fl
  stats_frame seq s = ws_stats seq (stats_view_to_dto s)

  abbrev pub snapshot_frame : FullSnapshot fl → WsMessage fl
  snapshot_frame s = ws_snapshot (snapshot_to_dto s)
