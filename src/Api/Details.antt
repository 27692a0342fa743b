-- ===== src/Api/Details.antt =====
-- The details of a node that topology/views.go builds, against the node and the edges of the graph.

use bgpulse.Base.{
  ◌+◌, ◌≤◌, ◌≡◌, refl, ◌∙◌, arith, Bool, ◌&&◌, not, List, [], ◌∷◌, length, ◌==◌, All, Bool-cases,
  inl, inr,
}
use bgpulse.Base.Sort.{
  count_if, AllAfter, IsSorted, IsOrder, sort_by, sort_by-IsSorted, count_if-sort_by,
}
use bgpulse.Bgp.Types.{Asn, invert}
use bgpulse.Bgp.Net.{Prefix}
use bgpulse.Topology.Series.{series}
use bgpulse.Topology.Graph.{EdgeKey, AsNode, Edge, prefix_count}
use bgpulse.Topology.Views.{NeighborView, AsnDetailView, neighbor_before, neighbors, node_view}

-- An edge that leaves the AS to a neighbour with a property, and one that enters it from one.
abbrev pub leaves : Asn → (NeighborView → Bool) → EdgeKey × Edge → Bool
leaves asn f (key, e) =
    asn == key.from
    && f (record { asn = key.to; direction = "downstream"; rel = e.rel; status = e.status })

abbrev pub enters : Asn → (NeighborView → Bool) → EdgeKey × Edge → Bool
enters asn f (key, e) =
    not (asn == key.from)
    && ((asn == key.to)
        && f (record {
          asn = key.from;
          direction = "upstream";
          rel = invert e.rel;
          status = e.status;
        }))

abbrev pub ByAsn : List NeighborView → Type 0
ByAsn [] = Unit
ByAsn (x ∷ xs) = All (λ y. x.asn ≤ y.asn) xs × ByAsn xs

-- The fields of the node, the other end of each of its edges, sorted by AS number, its prefixes and
-- its series.
pub record IsDetail (edges : List (EdgeKey × Edge)) (asn : Asn) (n : AsNode) (d : AsnDetailView)
    : Type 0 where
  pub node : d.node ≡ record {
    asn = n.asn;
    name = n.name;
    prefix_count = length n.prefixes;
    rpki = n.rpki;
    first_seen = n.first_seen;
    last_seen = n.last_seen;
  }
  pub ends :
      (f : NeighborView → Bool)
      → count_if f d.neighbors ≡ count_if (leaves asn f) edges + count_if (enters asn f) edges
  pub sorted : ByAsn d.neighbors
  pub prefixes : (f : Prefix → Bool) → count_if f d.prefixes ≡ count_if f n.prefixes
  pub sparkline : d.sparkline ≡ series n.series

count_if-neighbors :
    (asn : Asn) (f : NeighborView → Bool) (edges : List (EdgeKey × Edge))
    → count_if f (neighbors asn edges)
      ≡ count_if (leaves asn f) edges + count_if (enters asn f) edges
unfolding count_if neighbors
count_if-neighbors asn f [] = refl
count_if-neighbors asn f ((key, e) ∷ edges) = elim (Bool-cases (asn == key.from)) [
  | inl q ↦ ground (arith, count_if-neighbors asn f edges)
  | inr q ↦ elim (Bool-cases (asn == key.to)) [
    | inl r ↦ ground (arith, count_if-neighbors asn f edges)
    | inr r ↦ ground (arith, count_if-neighbors asn f edges)
  ]
]

neighbor_before-IsOrder : IsOrder neighbor_before
neighbor_before-IsOrder = record {
  asymmetric = λ x y h. ground arith;
  chains = λ x y z h k. ground arith;
}

AllAfter-asn :
    (x : NeighborView) (ys : List NeighborView)
    → AllAfter neighbor_before x ys
    → All (λ y. x.asn ≤ y.asn) ys
AllAfter-asn x [] a = tt
AllAfter-asn x (y ∷ ys) a = (ground (arith, a.0), AllAfter-asn x ys a.1)

IsSorted-ByAsn : (xs : List NeighborView) → IsSorted neighbor_before xs → ByAsn xs
IsSorted-ByAsn [] s = tt
IsSorted-ByAsn (x ∷ xs) s = (AllAfter-asn x xs s.0, IsSorted-ByAsn xs s.1)

abbrev pub detail_of :
    (Prefix → Prefix → Bool) → List (EdgeKey × Edge) → Asn → AsNode → AsnDetailView
detail_of text_before edges asn n = record {
  node = node_view n;
  neighbors = sort_by neighbor_before (neighbors asn edges);
  prefixes = sort_by text_before n.prefixes;
  sparkline = series n.series;
}

pub detail_of-IsDetail :
    (text_before : Prefix → Prefix → Bool) (edges : List (EdgeKey × Edge)) (asn : Asn) (n : AsNode)
    → IsDetail edges asn n (detail_of text_before edges asn n)
unfolding node_view prefix_count
detail_of-IsDetail text_before edges asn n = record {
  node = refl;
  ends = λ f.
      count_if-sort_by neighbor_before f (neighbors asn edges) ∙ count_if-neighbors asn f edges;
  sorted =
      IsSorted-ByAsn (sort_by neighbor_before (neighbors asn edges))
        (sort_by-IsSorted neighbor_before neighbor_before-IsOrder (neighbors asn edges));
  prefixes = λ f. count_if-sort_by text_before f n.prefixes;
  sparkline = refl;
}
