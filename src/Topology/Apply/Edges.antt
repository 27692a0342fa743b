-- ===== src/Topology/Apply/Edges.antt =====
-- The edges of topology/apply.go against the history: an edge is what the hops over it, in order,
-- have written.
use Prim.Native.String.{String}
use bgpulse.Base.{
  ℕ, ◌≡◌, inl, inr, refl, sym, ap, ◌∙◌, arith, Bool, true, false, ◌&&◌, not, Option, none, some,
  List, [], ◌∷◌, ◌++◌, ◌==◌, if◌then◌else◌, Option-cases,
}
use bgpulse.Base.Table.{lookup, lookup-insert, insert}
use bgpulse.Bgp.Types.{Asn, UpdateKind, announce, withdraw, ClassifiedEvent}
use bgpulse.Bgp.Net.{Prefix, Prefix-discrete}
use bgpulse.Topology.Graph.{Edge, EdgeKey, EdgeKey-discrete, TopologyGraph, new_graph}
use bgpulse.Topology.Apply.{
  see_node, upsert_edge, edge_or_new, touch_edge, apply_hop, apply_hops, apply_edges, apply_origin,
  drop_prefix, add_prefix, drop_other, rib_announce, rib_withdraw, apply_rib, apply_graph, cidr,
}
use bgpulse.Topology.Apply.Rib.{apply_all}

abbrev pub edge_at : TopologyGraph → EdgeKey → Option Edge
edge_at g key = lookup EdgeKey-discrete key g.edges

-- The hop is a real adjacency over the edge.
abbrev pub is_over : EdgeKey → Asn → Asn → Bool
is_over key from to = not (from == to) && (from == key.from && to == key.to)

-- One hop over the edge, seen from the edge.
unfoldable pub write_hop : EdgeKey → Option Edge → ClassifiedEvent → Option Edge
unfolding edge_or_new
write_hop key none ev = some (touch_edge (edge_or_new new_graph key ev.hops) ev ev.event.timestamp)
write_hop key (some ed) ev = some (touch_edge ed ev ev.event.timestamp)

unfoldable pub write_all : EdgeKey → Option Edge → List ClassifiedEvent → Option Edge
write_all key o [] = o
write_all key o (ev ∷ evs) = write_all key (write_hop key o ev) evs

-- The event once for each of the path's hops over the edge.
unfoldable pub hops_over : EdgeKey → ClassifiedEvent → Asn → List Asn → List ClassifiedEvent
hops_over key ev from [] = []
hops_over key ev from (to ∷ path) =
    if is_over key from to then ev ∷ hops_over key ev to path else hops_over key ev to path

abbrev pub path_hops : EdgeKey → ClassifiedEvent → List Asn → List ClassifiedEvent
path_hops key ev [] = []
path_hops key ev (from ∷ path) = hops_over key ev from path

unfoldable pub event_hops : EdgeKey → ClassifiedEvent → List ClassifiedEvent
event_hops key ev = elim ev.event.kind [
  | withdraw ↦ []
  | announce ↦ path_hops key ev ev.event.as_path
]

event_hops-announce :
    (key : EdgeKey) (ev : ClassifiedEvent)
    → ev.event.kind ≡ announce
    → event_hops key ev ≡ path_hops key ev ev.event.as_path
unfolding event_hops
event_hops-announce key ev k = ground arith

event_hops-withdraw :
    (key : EdgeKey) (ev : ClassifiedEvent) → ev.event.kind ≡ withdraw → event_hops key ev ≡ []
unfolding event_hops
event_hops-withdraw key ev k = ground arith

unfoldable pub all_hops : EdgeKey → List ClassifiedEvent → List ClassifiedEvent
all_hops key [] = []
all_hops key (ev ∷ evs) = event_hops key ev ++ all_hops key evs

see_node-edges :
    (g : TopologyGraph) (b : Asn) (now : ℕ) (name : String)
    → (see_node g b now name).edges ≡ g.edges
unfolding see_node
see_node-edges g b now name = ground arith

edge_at-upsert :
    (g : TopologyGraph) (from to : Asn) (ev : ClassifiedEvent) (now : ℕ) (key : EdgeKey)
    → now ≡ ev.event.timestamp
    → edge_at (upsert_edge g from to ev now) key ≡ (
        if from == key.from && to == key.to
        then write_hop key (edge_at g key) ev
        else edge_at g key)
unfolding upsert_edge write_hop lookup
edge_at-upsert g from to ev now key e =
    let k : EdgeKey = record { from = from; to = to } in
    ground (
      arith,
      lookup-insert EdgeKey-discrete k key (touch_edge (edge_or_new g k ev.hops) ev now) g.edges,
    )

edge_at-apply_hop :
    (names : Asn → String) (g : TopologyGraph) (ev : ClassifiedEvent) (from to : Asn)
    (key : EdgeKey)
    → edge_at (apply_hop names g ev ev.event.timestamp from to) key
      ≡ (if is_over key from to then write_hop key (edge_at g key) ev else edge_at g key)
unfolding apply_hop
edge_at-apply_hop names g ev from to key =
    let now = ev.event.timestamp in
    let g1 = see_node g from now (names from) in
    let g2 = see_node g1 to now (names to) in
    let seen : g2.edges ≡ g.edges =
      see_node-edges g1 to now (names to) ∙ see_node-edges g from now (names from) in
    ground (arith, edge_at-upsert g2 from to ev now key refl, ap (lookup EdgeKey-discrete key) seen)

edge_at-apply_hops :
    (names : Asn → String) (g : TopologyGraph) (ev : ClassifiedEvent) (from : Asn) (path : List Asn)
    (key : EdgeKey)
    → edge_at (apply_hops names g ev ev.event.timestamp from path) key
      ≡ write_all key (edge_at g key) (hops_over key ev from path)
unfolding apply_hops write_all hops_over
edge_at-apply_hops names g ev from [] key = refl
edge_at-apply_hops names g ev from (to ∷ path) key =
    edge_at-apply_hops names (apply_hop names g ev ev.event.timestamp from to) ev to path key
    ∙ (ap (λ o. write_all key o (hops_over key ev to path))
          (edge_at-apply_hop names g ev from to key)
        ∙ split (is_over key from to))
  where
    split :
        (x : Bool)
        → write_all key
            (if x then write_hop key (edge_at g key) ev else edge_at g key)
            (hops_over key ev to path)
          ≡ write_all key
              (edge_at g key)
              (if x then ev ∷ hops_over key ev to path else hops_over key ev to path)
    split true = refl
    split false = refl

drop_prefix-edges : (g : TopologyGraph) (b : Asn) (p : Prefix) → (drop_prefix g b p).edges ≡ g.edges
unfolding drop_prefix
drop_prefix-edges g b p = ground arith

add_prefix-edges : (g : TopologyGraph) (b : Asn) (p : Prefix) → (add_prefix g b p).edges ≡ g.edges
unfolding add_prefix
add_prefix-edges g b p = ground arith

drop_other-edges :
    (g : TopologyGraph) (p : Prefix) (origin : Asn) → (drop_other g p origin).edges ≡ g.edges
unfolding drop_other
drop_other-edges g p origin = elim (Option-cases (lookup Prefix-discrete p g.rib)) [
  | inl e ↦ ground arith
  | inr (prev, e) ↦ ground (arith, drop_prefix-edges g prev p)
]

rib_announce-edges :
    (g : TopologyGraph) (p : Prefix) (origin : Asn) → (rib_announce g p origin).edges ≡ g.edges
unfolding rib_announce
rib_announce-edges g p origin =
    let g1 = drop_other g p origin in
    add_prefix-edges (record g1 { rib = insert Prefix-discrete p origin g1.rib }) origin p
    ∙ drop_other-edges g p origin

rib_withdraw-edges : (g : TopologyGraph) (p : Prefix) → (rib_withdraw g p).edges ≡ g.edges
unfolding rib_withdraw
rib_withdraw-edges g p = elim (Option-cases (lookup Prefix-discrete p g.rib)) [
  | inl e ↦ ground arith
  | inr (prev, e) ↦ ground (arith, drop_prefix-edges g prev p)
]

apply_rib-edges : (g : TopologyGraph) (ev : ClassifiedEvent) → (apply_rib g ev).edges ≡ g.edges
unfolding apply_rib
apply_rib-edges g ev =
    let p = cidr ev.event.prefix in
    ground (arith, rib_announce-edges g p ev.event.origin_as, rib_withdraw-edges g p)

apply_origin-edges :
    (names : Asn → String) (g : TopologyGraph) (ev : ClassifiedEvent) (now : ℕ)
    → (apply_origin names g ev now).edges ≡ g.edges
unfolding apply_origin
apply_origin-edges names g ev now = ground arith

edge_at-apply_edges :
    (names : Asn → String) (g : TopologyGraph) (ev : ClassifiedEvent) (key : EdgeKey)
    → ev.event.kind ≡ announce
    → edge_at (apply_edges names g ev ev.event.timestamp) key
      ≡ write_all key (edge_at g key) (event_hops key ev)
unfolding apply_edges
edge_at-apply_edges names g ev key k =
    go ev.event.as_path ∙ ap (write_all key (edge_at g key)) (sym (event_hops-announce key ev k))
  where
    go :
        (path : List Asn)
        → edge_at
            (elim path [
              | [] ↦ g
              | from ∷ rest ↦ apply_hops names g ev ev.event.timestamp from rest
            ])
            key
          ≡ write_all key (edge_at g key) (path_hops key ev path)
    go [] = unfold write_all in refl
    go (from ∷ rest) = edge_at-apply_hops names g ev from rest key

edge_at-apply_graph :
    (names : Asn → String) (g : TopologyGraph) (ev : ClassifiedEvent) (key : EdgeKey)
    → edge_at (apply_graph names g ev) key ≡ write_all key (edge_at g key) (event_hops key ev)
unfolding apply_graph
edge_at-apply_graph names g ev key =
    ap (lookup EdgeKey-discrete key) (apply_rib-edges _ ev) ∙ go ev.event.kind refl
  where
    now : ℕ
    now = ev.event.timestamp

    with_origin : Bool → TopologyGraph
    with_origin x = if x then g else apply_origin names g ev now

    origin_edges : (x : Bool) → (with_origin x).edges ≡ g.edges
    origin_edges true = refl
    origin_edges false = apply_origin-edges names g ev now

    go :
        (kind : UpdateKind)
        → ev.event.kind ≡ kind
        → edge_at
            (elim kind [
              | withdraw ↦ g
              | announce ↦ apply_edges names (with_origin (ev.event.origin_as == 0)) ev now
            ])
            key
          ≡ write_all key (edge_at g key) (event_hops key ev)
    go withdraw k =
        unfold write_all in sym (ap (write_all key (edge_at g key)) (event_hops-withdraw key ev k))
    go announce k =
        edge_at-apply_edges names (with_origin (ev.event.origin_as == 0)) ev key k
        ∙ ap (λ es. write_all key (lookup EdgeKey-discrete key es) (event_hops key ev))
            (origin_edges (ev.event.origin_as == 0))

write_all-append :
    (key : EdgeKey) (o : Option Edge) (xs ys : List ClassifiedEvent)
    → write_all key o (xs ++ ys) ≡ write_all key (write_all key o xs) ys
unfolding write_all
write_all-append key o [] ys = refl
write_all-append key o (x ∷ xs) ys = write_all-append key (write_hop key o x) xs ys

edge_at-from :
    (names : Asn → String) (g : TopologyGraph) (evs : List ClassifiedEvent) (key : EdgeKey)
    → edge_at (apply_all names g evs) key ≡ write_all key (edge_at g key) (all_hops key evs)
unfolding apply_all all_hops
edge_at-from names g [] key = unfold write_all in refl
edge_at-from names g (ev ∷ evs) key =
    edge_at-from names (apply_graph names g ev) evs key
    ∙ (ap (λ o. write_all key o (all_hops key evs)) (edge_at-apply_graph names g ev key)
        ∙ sym (write_all-append key (edge_at g key) (event_hops key ev) (all_hops key evs)))

-- After any events the graph has, at each directed pair, the edge that the announced hops over this
-- pair have written in their order: repeated ASes make no edge, and nothing else writes one.
pub edge_at-apply_all :
    (names : Asn → String) (evs : List ClassifiedEvent) (key : EdgeKey)
    → edge_at (apply_all names new_graph evs) key ≡ write_all key none (all_hops key evs)
unfolding lookup
edge_at-apply_all names evs key = edge_at-from names new_graph evs key
