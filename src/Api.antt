-- ===== src/Api.antt =====
-- backend/internal/api/rest.go, envelope.go and server.go: the handlers of the requests, their
-- routes and the middleware that answers by itself. A path value and a query value are texts.
pub mod Dto
pub mod Mapper
pub mod Limits
pub mod Details
pub mod Served
mod Tests
use Prim.Native.String.{String}
use bgpulse.Base.{
  ℕ, ◌/◌, ◌^◌, ◌-◌, ◌++◌, Bool, true, false, Option, none, some, List, [], ◌∷◌, length, ltb,
  if◌then◌else◌,
}
use bgpulse.Base.Text.{ℤ, pos, negsuc, is_empty, parse_uint32, atoi}
use bgpulse.Bgp.Types.{Asn}
use bgpulse.Topology.Stats.{Floats}
use bgpulse.Topology.Aggregator.{
  SnapReq, snap_topology, snap_events, snap_stats, snap_asn, snap_edge, Reply, topology_of,
  events_of, stats_of, asn_detail_of, edge_detail_of,
}
use Dto.{
  Envelope, data_envelope, error_envelope, HealthDto, TopologyDto, StatsDto, EventsDto,
  AsnDetailDto, EdgeDetailDto,
}
use Mapper.{
  classified_slice_to_dto, topology_view_to_dto, stats_view_to_dto, asn_detail_to_dto,
  edge_detail_to_dto,
}

abbrev pub default_events_limit : ℕ
default_events_limit = 200

abbrev pub max_events_limit : ℕ
max_events_limit = 1000

abbrev pub default_edge_events : ℕ
default_edge_events = 50

-- The two tests of parseLimit after the parse.
unfoldable pub clamp : ℕ → ℤ → ℕ
clamp max (pos n) = let v = if ltb n 1 then 1 else n in if ltb max v then max else v
clamp max (negsuc n) = if ltb max 1 then max else 1

-- `parseLimit` on the query's value, which is empty where there is none.
unfoldable pub parse_limit : ℕ → ℕ → String → Option ℕ
unfolding clamp
parse_limit def max q =
    if is_empty q then some def else elim (atoi q) [ none ↦ none | some v ↦ some (clamp max v) ]

-- The limit of handleEdge, where one that does not parse is the default.
abbrev pub edge_limit : String → ℕ
edge_limit q = elim (parse_limit default_edge_events max_events_limit q) [
  | none ↦ default_edge_events
  | some limit ↦ limit
]

pub record HealthInfo : Type 0 where
  pub mode : String
  pub version : String
  pub bgp_source : String
  pub rel_source : String
  pub rpki_source : String
  pub live_fell_back : Bool

-- The server without its logger and its store.
pub record Server : Type 0 where
  pub health : HealthInfo
  pub cors_origin : String
  pub started_at : ℕ

-- A request by its route in the mux, with the values that its handler reads; `options` is a request
-- of that method for any path.
pub data Request : Type 0 where
  get_health get_topology get_stats options : Request
  get_events : String → Request
  get_asn : String → Request
  get_edge : String → String → String → Request

module _ (fl : Floats) where
  pub data Payload : Type 0 where
    health_data : HealthDto → Payload
    topology_data : TopologyDto → Payload
    stats_data : StatsDto fl → Payload
    events_data : EventsDto → Payload
    asn_data : AsnDetailDto → Payload
    edge_data : EdgeDetailDto → Payload

  pub record Response : Type 0 where
    pub status : ℕ
    pub headers : List (String × String)
    pub body : Option (Envelope Payload)

  abbrev pub write_ok : Payload → Response
  write_ok p = record {
    status = 200;
    headers = ("Content-Type", "application/json") ∷ [];
    body = some (data_envelope p);
  }

  abbrev pub write_err : ℕ → String → Response
  write_err status msg = record {
    status = status;
    headers = ("Content-Type", "application/json") ∷ [];
    body = some (error_envelope msg);
  }

  unfoldable pub handle_health : Server → ℕ → Response
  handle_health s now = write_ok (
      health_data (record {
        ok = true;
        mode = s.health.mode;
        version = s.health.version;
        uptime_sec = (now - s.started_at) / 10 ^ 9;
        sources = record {
          bgp = s.health.bgp_source;
          relationships = s.health.rel_source;
          rpki = s.health.rpki_source;
          live_fell_back = s.health.live_fell_back;
        };
      }))

  -- `ask` is the aggregator's `request`.
  module _ (ask : SnapReq → Option (Reply fl)) where
    unfoldable pub handle_topology : Response
    handle_topology =
        write_ok (topology_data (topology_view_to_dto (topology_of fl (ask snap_topology))))

    unfoldable pub handle_stats : Response
    handle_stats = write_ok (stats_data (stats_view_to_dto fl (stats_of fl (ask snap_stats))))

    unfoldable pub handle_events : String → Response
    handle_events q = elim (parse_limit default_events_limit max_events_limit q) [
      | none ↦ write_err 400 "invalid limit"
      | some limit ↦
          let dtos = classified_slice_to_dto (events_of fl (ask (snap_events limit))) in
          write_ok (events_data (record { events = dtos; count = length dtos; limit = limit }))
    ]

    unfoldable pub handle_asn : String → Response
    handle_asn asn_value = elim (parse_uint32 asn_value) [
      | none ↦ write_err 400 "invalid ASN"
      | some asn ↦ elim (asn_detail_of fl (ask (snap_asn asn))) [
        | none ↦ write_err 404 "unknown ASN"
        | some d ↦ write_ok (asn_data (asn_detail_to_dto d))
      ]
    ]

    unfoldable pub handle_edge : String → String → String → Response
    handle_edge from_value to_value q = elim (parse_uint32 from_value) [
      | none ↦ write_err 400 "invalid ASN"
      | some from ↦ elim (parse_uint32 to_value) [
        | none ↦ write_err 400 "invalid ASN"
        | some to ↦ elim (edge_detail_of fl (ask (snap_edge from to (edge_limit q)))) [
          | none ↦ write_err 404 "unknown edge"
          | some d ↦ write_ok (edge_data (edge_detail_to_dto d))
        ]
      ]
    ]

    -- The mux behind `cors`: an OPTIONS request does not reach it.
    unfoldable pub route : Server → ℕ → Request → Response
    unfolding handle_health handle_topology handle_stats handle_events handle_asn handle_edge
    route s now get_health = handle_health s now
    route s now get_topology = handle_topology
    route s now get_stats = handle_stats
    route s now (get_events q) = handle_events q
    route s now (get_asn asn) = handle_asn asn
    route s now (get_edge from to q) = handle_edge from to q
    route s now options = record { status = 204; headers = []; body = none }

    -- The headers that `cors` sets.
    abbrev pub cors_headers : String → List (String × String)
    cors_headers origin =
        if is_empty origin
        then []
        else ("Access-Control-Allow-Origin", origin)
          ∷ ("Vary", "Origin")
          ∷ ("Access-Control-Allow-Methods", "GET, OPTIONS")
          ∷ ("Access-Control-Allow-Headers", "Content-Type")
          ∷ []

    unfoldable pub serve : Server → ℕ → Request → Response
    unfolding route
    serve s now r =
        let answer = route s now r in
        record answer { headers = cors_headers s.cors_origin ++ answer.headers }
