-- ===== src/Api/Dto.antt =====
-- backend/internal/api/dto.go: what is sent. A text that is formatted from values is kept as the
-- values: an ID, a prefix, an address, a reason, and a time, in seconds, or `none` for the text of
-- the zero time.
use Prim.Native.String.{String}
use bgpulse.Base.{ℕ, Bool, Option, List}
use bgpulse.Bgp.Types.{Asn, EventId, Reason}
use bgpulse.Bgp.Net.{Addr, Prefix}
use bgpulse.Topology.Stats.{Floats}

-- The envelope's `data` with `ok`, or its `error`.
pub data Envelope (A : Type 0) : Type 0 where
  data_envelope : A → Envelope A
  error_envelope : String → Envelope A

pub record CommunityDto : Type 0 where
  pub asn : ℕ
  pub value : ℕ

pub record PathHopDto : Type 0 where
  pub from : Asn
  pub to : Asn
  pub rel : String
  pub is_offender : Bool

pub record ClassifiedDto : Type 0 where
  pub id : EventId
  pub seq : ℕ
  pub timestamp : Option ℕ
  pub kind : String
  pub prefix : Prefix
  pub peer_as : Asn
  pub as_path : List Asn
  pub next_hop : Option Addr
  pub communities : List CommunityDto
  pub origin_as : Asn
  pub vf_status : String
  pub rpki_status : String
  pub hops : List PathHopDto
  pub offender_as : Asn
  pub reason : Reason

pub record RpkiCountsDto : Type 0 where
  pub valid : ℕ
  pub invalid : ℕ
  pub not_found : ℕ

pub record NodeDto : Type 0 where
  pub asn : Asn
  pub name : String
  pub prefix_count : ℕ
  pub rpki : RpkiCountsDto
  pub first_seen : Option ℕ
  pub last_seen : Option ℕ

pub record EdgeDto : Type 0 where
  pub from : Asn
  pub to : Asn
  pub status : String
  pub rel : String
  pub count : ℕ
  pub leak_count : ℕ
  pub hijack_count : ℕ
  pub last_event : Option ℕ
  pub last_event_id : EventId

pub record TopologyDto : Type 0 where
  pub nodes : List NodeDto
  pub edges : List EdgeDto
  pub node_count : ℕ
  pub edge_count : ℕ
  pub generated : Option ℕ

pub record OriginStatDto : Type 0 where
  pub asn : Asn
  pub name : String
  pub prefix_count : ℕ
  pub rpki_status : String
  pub valid : ℕ
  pub invalid : ℕ
  pub not_found : ℕ
  pub throughput : List ℕ

pub record EventsDto : Type 0 where
  pub events : List ClassifiedDto
  pub count : ℕ
  pub limit : ℕ

pub record NeighborDto : Type 0 where
  pub asn : Asn
  pub direction : String
  pub rel : String
  pub status : String

pub record AsnDetailDto : Type 0 where
  pub node : NodeDto
  pub neighbors : List NeighborDto
  pub prefixes : List Prefix
  pub sparkline : List ℕ

pub record EdgeDetailDto : Type 0 where
  pub edge : EdgeDto
  pub events : List ClassifiedDto

pub record SourceHealthDto : Type 0 where
  pub bgp : String
  pub relationships : String
  pub rpki : String
  pub live_fell_back : Bool

pub record HealthDto : Type 0 where
  pub ok : Bool
  pub mode : String
  pub version : String
  pub uptime_sec : ℕ
  pub sources : SourceHealthDto

module _ (fl : Floats) where
  open fl use {Float}

  pub record StatsDto : Type 0 where
    pub total_events : ℕ
    pub announces : ℕ
    pub withdraws : ℕ
    pub leaks : ℕ
    pub hijacks : ℕ
    pub rpki_valid : ℕ
    pub rpki_invalid : ℕ
    pub rpki_not_found : ℕ
    pub node_count : ℕ
    pub edge_count : ℕ
    pub events_per_sec : Float
    pub top_origins : List OriginStatDto

  pub record SnapshotDto : Type 0 where
    pub topology : TopologyDto
    pub events : List ClassifiedDto
    pub stats : StatsDto

  -- `WSMessage`, by its type, with the sequence number where it has one.
  pub data WsMessage : Type 0 where
    ws_snapshot : SnapshotDto → WsMessage
    ws_event : ℕ → ClassifiedDto → WsMessage
    ws_stats : ℕ → StatsDto → WsMessage
