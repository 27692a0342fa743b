-- ===== src/Topology/Tests.antt =====
-- Concrete events for topology: AS7 and AS9 announce and give up 10.0.0.0/8.
use Prim.Native.String.{String}
use bgpulse.Base.{
  ◌%◌, ◌^◌, ℕ, ◌+◌, ◌*◌, ◌≡◌, refl, arith, Bool, false, none, some, List, [], ◌∷◌, get_elem?, map,
}
use bgpulse.Base.Table.{member}
use bgpulse.Bgp.Types.{
  Asn, VfStatus, RpkiStatus, announce, withdraw, UpdateKind, normal, ClassifiedEvent,
}
use bgpulse.Bgp.Net.{invalid, ip4, Prefix, Prefix-discrete}
use bgpulse.Topology.Ring.{new_event_ring, path_has_edge}
use bgpulse.Topology.Ring.Recent.{push_all}
use bgpulse.Topology.Series.{series}
use bgpulse.Topology.Series.Counted.{add_all, events_ago, beginnings, series-add_all}
use bgpulse.Topology.Stats.{Floats, new_stats}
use bgpulse.Topology.Graph.{AsNode, EdgeKey, new_graph, Edge}
use bgpulse.Topology.Views.{origin_view, top_origins}
use bgpulse.Topology.Apply.{State}
use bgpulse.Topology.Aggregator.Replies.{Answers, handle-Answers}
use bgpulse.Topology.Views.Top.{IsTop, top_origins-IsTop}
use bgpulse.Topology.Apply.{apply_graph, edge_or_new, touch_edge}
use bgpulse.Topology.Apply.Same.{prefixes_of, owned_by, IsOwned, new_graph-IsOwned}
use bgpulse.Topology.Apply.Rib.{apply_all, apply_graph-IsOwned, apply_all-IsOwned}
use bgpulse.Topology.Apply.Owner.{owner_from, member-apply_all}
use bgpulse.Topology.Apply.Edges.{
  edge_at, write_hop, write_all, event_hops, all_hops, hops_over, edge_at-apply_all,
}
use bgpulse.Topology.Apply.Tallies.{EdgeSums, apply_all-EdgeSums}

abbrev net10 : Prefix
net10 = record { addr = ip4 (10 ∷ 0 ∷ 0 ∷ 0 ∷ []); bits = some 8 }

abbrev sample_event : ℕ → UpdateKind → List Asn → Asn → VfStatus → ClassifiedEvent
sample_event seq kind path origin status = record {
  event = record {
    id = record { tag = "t"; seq = seq };
    seq = seq;
    timestamp = 1000000000 * seq;
    kind = kind;
    prefix = net10;
    peer_as = 1;
    as_path = path;
    has_as_set = false;
    next_hop = invalid;
    communities = [];
    origin_as = origin;
  };
  vf_status = status;
  rpki_status = RpkiStatus.not_found;
  hops = [];
  offender_as = 0;
  reason = normal;
}

abbrev taken : ClassifiedEvent
taken = sample_event 1 announce (1 ∷ 1 ∷ 7 ∷ []) 7 VfStatus.valid

abbrev stolen : ClassifiedEvent
stolen = sample_event 2 announce (1 ∷ 7 ∷ 9 ∷ []) 9 VfStatus.hijack

abbrev given_up : ClassifiedEvent
given_up = sample_event 3 withdraw [] 0 VfStatus.valid

abbrev no_name : Asn → String
no_name asn = ""

abbrev edge_1_7 : EdgeKey
edge_1_7 = record { from = 1; to = 7 }

abbrev over_1_7 : ClassifiedEvent → Bool
unfolding path_has_edge
over_1_7 ev = path_has_edge ev.event.as_path 1 7

-- Two events in neighbouring buckets.
series-add_all_example :
    get_elem? (series (add_all (2000000005 ∷ 5 ∷ []))) 28
    ≡ some (events_ago 1 (beginnings (2000000005 ∷ 5 ∷ [])) % 2 ^ 64)
series-add_all_example = series-add_all (2000000005 ∷ 5 ∷ []) 28 (omega arith)

-- An event a minute later starts its own bucket.
begin_again : beginnings (70000000000 ∷ 2000000007 ∷ 5 ∷ []) ≡ 70000000000 ∷ 2000000005 ∷ 5 ∷ []
unfolding beginnings
begin_again = refl

abbrev unit_floats : Floats
unit_floats = record {
  Float = ℕ;
  zero_rate = 0;
  alpha = 3;
  one_minus_alpha = 7;
  from_int = λ n. n;
  times = λ x y. x * y;
  plus = λ x y. x + y;
}

apply_graph-IsOwned_example : IsOwned (apply_graph no_name new_graph taken)
apply_graph-IsOwned_example = apply_graph-IsOwned no_name new_graph taken new_graph-IsOwned

apply_all-IsOwned_example : IsOwned (apply_all no_name new_graph (taken ∷ stolen ∷ given_up ∷ []))
apply_all-IsOwned_example = apply_all-IsOwned no_name (taken ∷ stolen ∷ given_up ∷ [])

member-apply_all_example :
    member Prefix-discrete net10 (prefixes_of (apply_all no_name new_graph (taken ∷ stolen ∷ [])) 9)
    ≡ owned_by (owner_from net10 none (taken ∷ stolen ∷ [])) 9
member-apply_all_example = member-apply_all no_name (taken ∷ stolen ∷ []) 9 net10

edge_at-apply_all_example :
    edge_at (apply_all no_name new_graph (taken ∷ stolen ∷ [])) edge_1_7
    ≡ write_all edge_1_7 none (all_hops edge_1_7 (taken ∷ stolen ∷ []))
edge_at-apply_all_example = edge_at-apply_all no_name (taken ∷ stolen ∷ []) edge_1_7

abbrev first_hop : Edge
first_hop = touch_edge (edge_or_new new_graph edge_1_7 []) taken 1000000000

edge_made : edge_at (apply_all no_name new_graph (taken ∷ [])) edge_1_7 ≡ some first_hop
unfolding write_all write_hop all_hops event_hops hops_over
edge_made = edge_at-apply_all no_name (taken ∷ []) edge_1_7

apply_all-EdgeSums_example : EdgeSums first_hop (all_hops edge_1_7 (taken ∷ []))
apply_all-EdgeSums_example = apply_all-EdgeSums no_name (taken ∷ []) edge_1_7 edge_made

top_origins-IsTop_example :
    (shown : List AsNode) × (rest : List AsNode) × (top_origins
        (apply_all no_name new_graph (taken ∷ stolen ∷ []))
      ≡ map origin_view shown)
    × IsTop (apply_all no_name new_graph (taken ∷ stolen ∷ [])).nodes shown rest
top_origins-IsTop_example = top_origins-IsTop (apply_all no_name new_graph (taken ∷ stolen ∷ []))

abbrev after_taken : State unit_floats
after_taken = record {
  graph = new_graph;
  ring = push_all (new_event_ring taken 4) (taken ∷ stolen ∷ []);
  stats = new_stats unit_floats;
}

handle-Answers_example :
    Answers unit_floats (λ p q. false) 5 after_taken taken 4 (taken ∷ stolen ∷ []) refl
handle-Answers_example =
    handle-Answers unit_floats (λ p q. false) 5 after_taken taken 4 (taken ∷ stolen ∷ []) refl
