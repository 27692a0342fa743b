-- ===== src/Api/Served.antt =====
-- The handlers of api/rest.go in front of a running aggregator (topology/aggregator.go).
use Prim.Native.String.{String}
use bgpulse.Base.{
  ℕ, max, ◌≤◌, ◌≡◌, ap, ◌∙◌, arith, Bool, false, Option, none, some, List, take, reverse, length,
  Option-cases, ◌⊎◌, inl, inr, ℕ_discrete,
}
use bgpulse.Base.Table.{lookup}
use bgpulse.Base.Text.{is_empty, parse_uint32, atoi}
use bgpulse.Bgp.Types.{Asn, ClassifiedEvent}
use bgpulse.Bgp.Net.{Prefix}
use bgpulse.Topology.Graph.{AsNode, Edge, EdgeKey-discrete}
use bgpulse.Topology.Ring.{new_event_ring, by_edge, path_has_edge}
use bgpulse.Topology.Ring.Recent.{push_all, window, by_edge-push_all, select}
use bgpulse.Topology.Stats.{Floats}
use bgpulse.Topology.Apply.{State}
use bgpulse.Topology.Views.{AsnDetailView, edge_view, build_asn_detail, build_edge_detail}
use bgpulse.Topology.Aggregator.{SnapReq, Reply, handle, asn_detail_of, edge_detail_of}
use bgpulse.Topology.Aggregator.Replies.{handle-Answers}
use bgpulse.Api.{
  default_events_limit, max_events_limit, default_edge_events, parse_limit, Server, get_events,
  get_asn, get_edge, Response, events_data, asn_data, edge_data, write_ok, write_err, handle_events,
  handle_asn, handle_edge, edge_limit, route,
}
use bgpulse.Api.Mapper.{classified_slice_to_dto, asn_detail_to_dto, edge_detail_to_dto}
use bgpulse.Api.Limits.{
  parse_limit_range, parse_limit-none_iff, LimitOf, parse_limit-LimitOf, EdgeLimitOf,
  edge_limit-EdgeLimitOf,
}
use bgpulse.Api.Details.{IsDetail, detail_of, detail_of-IsDetail}

-- The newest events, newest first, that a ring of a requested capacity keeps.
abbrev pub kept : ℕ → List ClassifiedEvent → List ClassifiedEvent
kept ring_cap evs = take (max 1 ring_cap) (reverse evs)

module _ (fl : Floats) (s : State fl) (ring_cap : ℕ) (evs : List ClassifiedEvent) where
  -- A limit that is no integer is refused; else the newest events, newest first, are listed, with
  -- their number and a limit from 1 to 1000.
  abbrev pub EventsServed : String → Response fl → Type 0
  EventsServed q r =
      ((is_empty q ≡ false) × (atoi q ≡ none) × (r ≡ write_err fl 400 "invalid limit"))
      ⊎ ((limit : ℕ) × LimitOf 200 q limit
          × (1 ≤ limit)
          × (limit ≤ 1000)
          × (r
              ≡ write_ok fl (
                  events_data (record {
                    events =
                        classified_slice_to_dto
                          (take (window (max 1 ring_cap) limit) (reverse evs));
                    count = length (
                        classified_slice_to_dto
                          (take (window (max 1 ring_cap) limit) (reverse evs)));
                    limit = limit;
                  }))))

  -- A text that is no AS number, an AS that is not in the graph, or the details of its node, with the
  -- neighbours at its edges, its prefixes and its series.
  abbrev pub AsnServed : String → Response fl → Type 0
  AsnServed v r =
      ((parse_uint32 v ≡ none) × (r ≡ write_err fl 400 "invalid ASN"))
      ⊎ ((asn : Asn) × (parse_uint32 v ≡ some asn)
          × (((lookup ℕ_discrete asn s.graph.nodes ≡ none) × (r ≡ write_err fl 404 "unknown ASN"))
              ⊎ ((n : AsNode) × (d : AsnDetailView) × (lookup ℕ_discrete asn s.graph.nodes ≡ some n)
                  × IsDetail s.graph.edges asn n d
                  × (r ≡ write_ok fl (asn_data (asn_detail_to_dto d))))))

  -- An end that is no AS number, a pair that has no edge, or the edge with the newest of the kept
  -- events that cross it, at most as many as the limit of the query.
  abbrev pub EdgeServed : String → String → String → Response fl → Type 0
  EdgeServed v w q r =
      (((parse_uint32 v ≡ none) ⊎ (parse_uint32 w ≡ none)) × (r ≡ write_err fl 400 "invalid ASN"))
      ⊎ ((from : Asn) × (to : Asn) × (parse_uint32 v ≡ some from)
          × (parse_uint32 w ≡ some to)
          × (((lookup EdgeKey-discrete (record { from = from; to = to }) s.graph.edges ≡ none)
                × (r ≡ write_err fl 404 "unknown edge"))
              ⊎ ((e : Edge) × (limit : ℕ) × (lookup EdgeKey-discrete
                      (record { from = from; to = to }) s.graph.edges
                    ≡ some e)
                  × EdgeLimitOf q limit
                  × (1 ≤ limit)
                  × (limit ≤ 1000)
                  × (r
                      ≡ write_ok fl (
                          edge_data (
                            edge_detail_to_dto (record {
                              edge = record {
                                from = e.key.from;
                                to = e.key.to;
                                status = e.status;
                                rel = e.rel;
                                count = e.count;
                                leak_count = e.leak_count;
                                hijack_count = e.hijack_count;
                                last_event = e.last_event;
                                last_event_id = e.last_event_id;
                              };
                              events = take limit (
                                  select (λ ev. path_has_edge ev.event.as_path from to)
                                    (kept ring_cap evs));
                            })))))))

  -- What the three requests with parameters get.
  pub record Serves (answer_events : String → Response fl) (answer_asn : String → Response fl)
      (answer_edge : String → String → String → Response fl) : Type 0 where
    pub events : (q : String) → EventsServed q (answer_events q)
    pub asn : (v : String) → AsnServed v (answer_asn v)
    pub edge : (v w q : String) → EdgeServed v w q (answer_edge v w q)

edge_limit_range : (q : String) → (1 ≤ edge_limit q) × (edge_limit q ≤ 1000)
edge_limit_range q = elim (Option-cases (parse_limit default_edge_events max_events_limit q)) [
  | inl e ↦ ground (arith, e)
  | inr (n, e) ↦ ground (arith, e, parse_limit_range 50 1000 q (omega arith) (omega arith) e)
]

module _ (fl : Floats) (text_before : Prefix → Prefix → Bool) (now : ℕ) (s : State fl)
    (zero_event : ClassifiedEvent) (ring_cap : ℕ) (evs : List ClassifiedEvent)
    (held : s.ring ≡ push_all (new_event_ring zero_event ring_cap) evs) where
  -- The aggregator in this state.
  abbrev pub ask : SnapReq → Option (Reply fl)
  ask req = handle fl text_before now s req

  events_served : (q : String) → EventsServed fl s ring_cap evs q (handle_events fl ask q)
  unfolding handle_events
  events_served q = elim (Option-cases (parse_limit default_events_limit max_events_limit q)) [
    | inl e ↦
        let (given, text) = (parse_limit-none_iff default_events_limit max_events_limit q).0 e in
        inl (given, text, ground arith)
    | inr (limit, e) ↦
        let (low, high) = parse_limit_range 200 1000 q (omega arith) (omega arith) e in
        inr (
          limit,
          parse_limit-LimitOf 200 q e,
          low,
          high,
          rw (e, handle_events)
              (ap
                (λ l. write_ok fl (
                  events_data (record {
                    events = classified_slice_to_dto l;
                    count = length (classified_slice_to_dto l);
                    limit = limit;
                  })))
                ((handle-Answers fl text_before now s zero_event ring_cap evs held).events limit)),
        )
  ]

  asn_served : (v : String) → AsnServed fl s ring_cap evs v (handle_asn fl ask v)
  unfolding handle_asn asn_detail_of handle build_asn_detail
  asn_served v = elim (Option-cases (parse_uint32 v)) [
    | inl e ↦ inl (e, ground arith)
    | inr (asn, e) ↦ inr (
      asn,
      e,
      (elim (Option-cases (lookup ℕ_discrete asn s.graph.nodes)) [
        | inl m ↦ inl (m, ground arith)
        | inr (n, m) ↦ inr (
          n,
          detail_of text_before s.graph.edges asn n,
          m,
          detail_of-IsDetail text_before s.graph.edges asn n,
          ground arith,
        )
      ]),
    )
  ]

  found_edge :
      (from to limit : ℕ) (e : Edge)
      → lookup EdgeKey-discrete (record { from = from; to = to }) s.graph.edges ≡ some e
      → build_edge_detail fl s from to limit
        ≡ some (
            some (record {
              edge = edge_view e;
              events =
                  take limit
                    (select (λ ev. path_has_edge ev.event.as_path from to) (kept ring_cap evs));
            }))
  unfolding build_edge_detail
  found_edge from to limit e m =
      let crosses : ClassifiedEvent → Bool = λ ev. path_has_edge ev.event.as_path from to in
      let found =
        ap (λ r. by_edge crosses r limit) held
        ∙ by_edge-push_all zero_event crosses ring_cap limit evs in
      ground (arith, found)

  edge_served : (v w q : String) → EdgeServed fl s ring_cap evs v w q (handle_edge fl ask v w q)
  unfolding handle_edge edge_detail_of handle build_edge_detail edge_view
  edge_served v w q = elim (Option-cases (parse_uint32 v)) [
    | inl e ↦ inl (inl e, ground arith)
    | inr (from, e) ↦ elim (Option-cases (parse_uint32 w)) [
      | inl f ↦ inl (inr f, ground arith)
      | inr (to, f) ↦ inr (
        from,
        to,
        e,
        f,
        (elim (Option-cases
            (lookup EdgeKey-discrete (record { from = from; to = to }) s.graph.edges)) [
              | inl m ↦ inl (m, ground arith)
              | inr (ed, m) ↦
                  let (low, high) = edge_limit_range q in
                  inr (
                    ed,
                    edge_limit q,
                    m,
                    edge_limit-EdgeLimitOf q,
                    low,
                    high,
                    ground (arith, found_edge from to (edge_limit q) ed m),
                  )
            ]),
      )
    ]
  ]

  -- Before an aggregator whose ring is that of some events pushed on a new one, each request with
  -- parameters gets what it should, errors included, with the views of the aggregator in the form
  -- that the mapper gives them. The events: 400 for a limit that is no integer of 64 bits, else the
  -- newest events, newest first, with their number and the limit, which is 200 if none is given,
  -- and the given one, raised to 1 and lowered to 1000, otherwise. An AS: 400 for a text that is no
  -- AS number, 404 where the graph has no such node, else the details of its node: its fields, one
  -- neighbour for each edge that leaves or enters it, with the direction, the relationship from the
  -- AS and the status, sorted by AS number, its prefixes and its series. An edge: 400, 404 where
  -- the graph has no such edge, else the fields of the edge with the newest of the kept events that
  -- cross it, up to the limit, which is as before but 50 for a text that is no integer, or none.
  pub route-Serves :
      (srv : Server) (time : ℕ)
      → Serves fl s ring_cap evs
          (λ q. route fl ask srv time (get_events q))
          (λ v. route fl ask srv time (get_asn v))
          (λ v w q. route fl ask srv time (get_edge v w q))
  unfolding route
  route-Serves srv time = record { events = events_served; asn = asn_served; edge = edge_served }
