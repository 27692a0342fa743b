-- ===== src/Topology/Aggregator/Replies.antt =====
-- handle of topology/aggregator.go: every request is answered, from the events that were applied.
use bgpulse.Base.{
  ℕ, max, ◌≡◌, refl, ap, ◌∙◌, arith, Bool, Option, none, some, List, take, reverse, Option-cases,
  inl, inr,
}
use bgpulse.Base.Table.{lookup}
use bgpulse.Bgp.Types.{ClassifiedEvent}
use bgpulse.Bgp.Net.{Prefix}
use bgpulse.Topology.Graph.{EdgeKey-discrete}
use bgpulse.Topology.Ring
use bgpulse.Topology.Ring.{new_event_ring, by_edge, path_has_edge}
use bgpulse.Topology.Ring.Recent.{push_all, window, recent-push_all, by_edge-push_all, select}
use bgpulse.Topology.Stats.{Floats}
use bgpulse.Topology.Apply.{State}
use bgpulse.Topology.Views.{
  EdgeDetailView, build_edge_detail, build_topology, build_stats, edge_view,
}
use bgpulse.Topology.Aggregator.{
  SnapReq, snap_topology, snap_events, snap_stats, snap_asn, snap_edge, snap_full, Reply, or_panic,
  events_reply, full_reply, edge_reply, handle, events_of, snapshot_of, snapshot_events_limit,
}

module _ (fl : Floats) (text_before : Prefix → Prefix → Bool) (now : ℕ) (s : State fl)
    (zero_event : ClassifiedEvent) (ring_cap : ℕ) (evs : List ClassifiedEvent)
    (held : s.ring ≡ push_all (new_event_ring zero_event ring_cap) evs) where
  abbrev newest : ℕ → List ClassifiedEvent
  newest limit = take (window (max 1 ring_cap) limit) (reverse evs)

  recent_held : (limit : ℕ) → Ring.recent s.ring limit ≡ some (newest limit)
  recent_held limit =
      ap (λ r. Ring.recent r limit) held ∙ recent-push_all zero_event ring_cap limit evs

  -- What a caller gets from a running aggregator.
  pub record Answers : Type 0 where
    pub replies : (req : SnapReq) → (r : Reply fl) × (handle fl text_before now s req ≡ some r)
    pub events :
        (limit : ℕ)
        → events_of fl (handle fl text_before now s (snap_events limit))
          ≡ take (window (max 1 ring_cap) limit) (reverse evs)
    pub full :
        (snapshot_of fl (handle fl text_before now s snap_full)).events
        ≡ take (window (max 1 ring_cap) snapshot_events_limit) (reverse evs)
    pub graph :
        (snapshot_of fl (handle fl text_before now s snap_full)).topology
        ≡ build_topology s.graph now
    pub stats : (snapshot_of fl (handle fl text_before now s snap_full)).stats ≡ build_stats fl s

  events_held :
      (limit : ℕ)
      → handle fl text_before now s (snap_events limit) ≡ some (events_reply (newest limit))
  unfolding handle
  events_held limit = ap (λ o. or_panic fl o events_reply) (recent_held limit)

  full_held :
      handle fl text_before now s snap_full
      ≡ some (
          full_reply (record {
            topology = build_topology s.graph now;
            events = newest snapshot_events_limit;
            stats = build_stats fl s;
          }))
  unfolding handle
  full_held =
      ap
        (λ o. or_panic fl o (λ events. full_reply (record {
          topology = build_topology s.graph now;
          events = events;
          stats = build_stats fl s;
        })))
        (recent_held snapshot_events_limit)

  edge_total :
      (from to limit : ℕ)
      → (v : Option EdgeDetailView) × (build_edge_detail fl s from to limit ≡ some v)
  unfolding build_edge_detail
  edge_total from to limit =
      elim (Option-cases
        (lookup EdgeKey-discrete (record { from = from; to = to }) s.graph.edges)) [
          | inl e ↦ (none, ground arith)
          | inr (ed, e) ↦
              (let crosses : ClassifiedEvent → Bool =
                  λ ev. path_has_edge ev.event.as_path from to in
                let found =
                  ap (λ r. by_edge crosses r limit) held
                  ∙ by_edge-push_all zero_event crosses ring_cap limit evs in
                (
                  some (record {
                    edge = edge_view ed;
                    events = take limit (select crosses (take (max 1 ring_cap) (reverse evs)));
                  }),
                  ground (arith, found),
                ))
        ]

  replies_total : (req : SnapReq) → (r : Reply fl) × (handle fl text_before now s req ≡ some r)
  unfolding handle
  replies_total snap_topology = (_, refl)
  replies_total (snap_events limit) = (_, events_held limit)
  replies_total snap_stats = (_, refl)
  replies_total (snap_asn asn) = (_, refl)
  replies_total (snap_edge from to limit) =
      let (v, e) = edge_total from to limit in (edge_reply v, ap (λ o. or_panic fl o edge_reply) e)
  replies_total snap_full = (_, full_held)

  -- When the ring is that of some events pushed on a new one, every request has a reply, with no
  -- read of the ring out of range: Events gets the newest events, newest first, up to the limit or
  -- the capacity, and the full snapshot the newest up to 200, with the graph and the counters of
  -- the same moment.
  pub handle-Answers : Answers
  unfolding events_of snapshot_of
  handle-Answers = record {
    replies = replies_total;
    events = λ limit. ap (events_of fl) (events_held limit);
    full = ap (λ o. (snapshot_of fl o).events) full_held;
    graph = ap (λ o. (snapshot_of fl o).topology) full_held;
    stats = ap (λ o. (snapshot_of fl o).stats) full_held;
  }
