-- ===== src/Api/Tests.antt =====
-- Requests to a server whose aggregator has seen one event.
use bgpulse.Base.{ℕ, ◌≡◌, refl, false, none, some, [], ◌∷◌, ◌*◌, ◌+◌}
use bgpulse.Base.Text.{parse_digits, digits_value, atoi}
use bgpulse.Bgp.Types.{announce, ClassifiedEvent}
use bgpulse.Bgp.Net.{zero_prefix, invalid}
use bgpulse.Classify.{neutral}
use bgpulse.Topology.Graph.{new_graph}
use bgpulse.Topology.Ring.{new_event_ring}
use bgpulse.Topology.Ring.Recent.{push_all}
use bgpulse.Topology.Stats.{Floats, new_stats}
use bgpulse.Topology.Apply.{State}
use bgpulse.Api.{Server, clamp, parse_limit, get_events, get_asn, get_edge, route}
use bgpulse.Api.Served.{Serves, ask, route-Serves}

-- A rate that is a whole number.
abbrev whole : Floats
whole = record {
  Float = ℕ;
  zero_rate = 0;
  alpha = 1;
  one_minus_alpha = 0;
  from_int = λ n. n;
  times = λ x y. x * y;
  plus = λ x y. x + y;
}

abbrev seen : ClassifiedEvent
seen = neutral (record {
  id = record { tag = "mrt"; seq = 1 };
  seq = 1;
  timestamp = 5;
  kind = announce;
  prefix = zero_prefix;
  peer_as = 7;
  as_path = 7 ∷ 1 ∷ [];
  has_as_set = false;
  next_hop = invalid;
  communities = [];
  origin_as = 1;
})

abbrev state : State whole
state = record {
  graph = new_graph;
  ring = push_all (new_event_ring seen 4) (seen ∷ []);
  stats = new_stats whole;
}

abbrev server : Server
server = record {
  health = record {
    mode = "demo";
    version = "1";
    bgp_source = "";
    rel_source = "";
    rpki_source = "";
    live_fell_back = false;
  };
  cors_origin = "";
  started_at = 0;
}

large_limit : parse_limit 200 1000 "5000" ≡ some 1000
unfolding parse_limit atoi parse_digits digits_value clamp
large_limit = refl

negative_limit : parse_limit 200 1000 "-3" ≡ some 1
unfolding parse_limit atoi parse_digits digits_value clamp
negative_limit = refl

no_limit : parse_limit 200 1000 "many" ≡ none
unfolding parse_limit atoi parse_digits digits_value
no_limit = refl

route-Serves_example :
    Serves whole state 4
      (seen ∷ [])
      (λ q.
        route whole
          (ask whole (λ p r. false) 5 state seen 4 (seen ∷ []) refl)
          server
          9
          (get_events q))
      (λ v.
        route whole (ask whole (λ p r. false) 5 state seen 4 (seen ∷ []) refl) server 9 (get_asn v))
      (λ v w q.
        route whole
          (ask whole (λ p r. false) 5 state seen 4 (seen ∷ []) refl)
          server
          9
          (get_edge v w q))
route-Serves_example = route-Serves whole (λ p r. false) 5 state seen 4 (seen ∷ []) refl server 9
