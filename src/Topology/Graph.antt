-- ===== src/Topology/Graph.antt =====
-- backend/internal/topology/graph.go: the graph and its maps. The maps hold pointers; a change
-- through a pointer is an insert of the changed value. A counter is the bit pattern of an int64.
use Prim.Native.String.{String}
use bgpulse.Base.{ℕ, none, some, List, [], ℕ_discrete, length}
use bgpulse.Base.Table.{lookup, insert}
use bgpulse.Bgp.Types.{Asn, VfStatus, RelStatus, RpkiStatus, EventId}
use bgpulse.Bgp.Net.{Prefix}
use bgpulse.Topology.Series.{RingCounters, new_ring_counters}

pub record EdgeKey : Type 0 where
  pub from : Asn
  pub to : Asn

unfoldable pub EdgeKey-discrete : Discrete EdgeKey
EdgeKey-discrete = hlevel ℕ_discrete

pub record RpkiCounts : Type 0 where
  pub valid : ℕ
  pub invalid : ℕ
  pub not_found : ℕ

-- A CIDR text is the text of a prefix; the prefix stands for it.
pub record AsNode : Type 0 where
  pub asn : Asn
  pub name : String
  pub prefixes : List Prefix
  pub rpki : RpkiCounts
  pub events : ℕ
  pub worst_rpki : RpkiStatus
  pub series : RingCounters
  pub first_seen : ℕ
  pub last_seen : ℕ

unfoldable pub prefix_count : AsNode → ℕ
prefix_count n = length n.prefixes

pub record Edge : Type 0 where
  pub key : EdgeKey
  pub status : VfStatus
  pub rel : RelStatus
  pub count : ℕ
  pub leak_count : ℕ
  pub hijack_count : ℕ
  pub last_event : ℕ
  pub last_event_id : EventId
  pub samples : List EventId

-- The value of a `ribEntry` is its origin.
pub record TopologyGraph : Type 0 where
  pub nodes : List (Asn × AsNode)
  pub edges : List (EdgeKey × Edge)
  pub rib : List (Prefix × Asn)

abbrev pub new_graph : TopologyGraph
new_graph = record { nodes = []; edges = []; rib = [] }

abbrev pub fresh_node : Asn → ℕ → String → AsNode
fresh_node asn now name = record {
  asn = asn;
  name = name;
  prefixes = [];
  rpki = record { valid = 0; invalid = 0; not_found = 0 };
  events = 0;
  worst_rpki = RpkiStatus.not_found;
  series = new_ring_counters;
  first_seen = now;
  last_seen = now;
}

-- `node`: the node of an AS, made on first sight, beside the graph that has it.
unfoldable pub node : TopologyGraph → Asn → ℕ → String → TopologyGraph × AsNode
node g asn now name = elim (lookup ℕ_discrete asn g.nodes) [
  | some n ↦ (g, n)
  | none ↦
      let n = fresh_node asn now name in (record g { nodes = insert ℕ_discrete asn n g.nodes }, n)
]

-- A change of the node through its pointer.
abbrev pub put_node : TopologyGraph → Asn → AsNode → TopologyGraph
put_node g asn n = record g { nodes = insert ℕ_discrete asn n g.nodes }
