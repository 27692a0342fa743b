-- ===== src/Topology/Apply/Same.antt =====
-- The steps of topology/apply.go that touch neither a prefix set nor the RIB.
use Prim.Native.String.{String}
use mathlib.Core.Path.{subst}
use bgpulse.Base.{
  ℕ, ◌≡◌, ◌⊎◌, inl, inr, refl, sym, ap, ◌∙◌, arith, Bool, true, false, Option, none, some, List, [],
  ◌∷◌, ◌==◌, if◌then◌else◌, ℕ_discrete, Bool-cases, Option-cases,
}
use bgpulse.Base.Table.{lookup, lookup-insert, member, IsDistinct}
use bgpulse.Bgp.Types.{Asn, ClassifiedEvent}
use bgpulse.Bgp.Net.{Prefix, Prefix-discrete}
use bgpulse.Topology.Graph.{AsNode, TopologyGraph, node, put_node, new_graph, fresh_node}
use bgpulse.Topology.Apply.{see_node, upsert_edge, apply_hop, apply_hops, apply_edges, apply_origin}

-- The prefixes that an AS originates; none where it has no node.
abbrev pub prefixes_of : TopologyGraph → Asn → List Prefix
prefixes_of g a = elim (lookup ℕ_discrete a g.nodes) [ none ↦ [] | some n ↦ n.prefixes ]

abbrev pub has_node : TopologyGraph → Asn → Bool
has_node g a = elim (lookup ℕ_discrete a g.nodes) [ none ↦ false | some n ↦ true ]

-- The RIB gives the prefix to this AS.
abbrev pub owned_by : Option Asn → Asn → Bool
owned_by none a = false
owned_by (some o) a = o == a

-- An AS has a prefix in its set exactly when the RIB gives the prefix to it, and has it once.
pub record IsOwned (g : TopologyGraph) : Type 0 where
  pub agrees :
      (a : Asn) (p : Prefix)
      → member Prefix-discrete p (prefixes_of g a) ≡ owned_by (lookup Prefix-discrete p g.rib) a
  pub distinct : (a : Asn) → IsDistinct Prefix-discrete (prefixes_of g a)

pub new_graph-IsOwned : IsOwned new_graph
unfolding lookup member
new_graph-IsOwned = record { agrees = λ a p. refl; distinct = λ a. tt }

-- Two graphs with the same prefix sets and the same RIB; the second has every node of the first.
pub record SameRib (g g' : TopologyGraph) : Type 0 where
  pub prefixes : (a : Asn) → prefixes_of g' a ≡ prefixes_of g a
  pub rib : g'.rib ≡ g.rib
  pub nodes : (a : Asn) → has_node g a ≡ true → has_node g' a ≡ true

pub SameRib-refl : (g : TopologyGraph) → SameRib g g
SameRib-refl g = record { prefixes = λ a. refl; rib = refl; nodes = λ a h. h }

pub SameRib-trans : {g h k : TopologyGraph} → SameRib g h → SameRib h k → SameRib g k
SameRib-trans s t = record {
  prefixes = λ a. t.prefixes a ∙ s.prefixes a;
  rib = t.rib ∙ s.rib;
  nodes = λ a h. t.nodes a (s.nodes a h);
}

pub SameRib-IsOwned : {g g' : TopologyGraph} → SameRib g g' → IsOwned g → IsOwned g'
SameRib-IsOwned s v = record {
  agrees = λ a p. rw (s.prefixes a, s.rib) (v.agrees a p);
  distinct = λ a. subst (IsDistinct Prefix-discrete) (sym (s.prefixes a)) (v.distinct a);
}

pub prefixes_of-put_node :
    (g : TopologyGraph) (b a : Asn) (n : AsNode)
    → prefixes_of (put_node g b n) a ≡ (if b == a then n.prefixes else prefixes_of g a)
prefixes_of-put_node g b a n = ground (arith, lookup-insert ℕ_discrete b a n g.nodes)

pub has_node-put_node :
    (g : TopologyGraph) (b a : Asn) (n : AsNode)
    → has_node (put_node g b n) a ≡ (if b == a then true else has_node g a)
has_node-put_node g b a n = ground (arith, lookup-insert ℕ_discrete b a n g.nodes)

put_node-SameRib :
    (g : TopologyGraph) (b : Asn) (n : AsNode)
    → n.prefixes ≡ prefixes_of g b
    → SameRib g (put_node g b n)
put_node-SameRib g b n e = record {
  prefixes = λ a. prefixes_of-put_node g b a n ∙ same a (Bool-cases (b == a));
  rib = refl;
  nodes = λ a h. has_node-put_node g b a n ∙ rw h (both (b == a));
}
  where
    same :
        (a : Asn)
        → ((b == a) ≡ true) ⊎ ((b == a) ≡ false)
        → (if b == a then n.prefixes else prefixes_of g a) ≡ prefixes_of g a
    same a (inl q) = rw q (e ∙ ap (prefixes_of g) (let r : b ≡ a = ground arith in r))
    same a (inr q) = rw q

    both : (x : Bool) → (if x then true else true) ≡ true
    both true = refl
    both false = refl

node_cases :
    (g : TopologyGraph) (b : Asn) (now : ℕ) (name : String)
    → let (g', n) = node g b now name in SameRib g g' × (n.prefixes ≡ prefixes_of g b)
unfolding node
node_cases g b now name = elim (Option-cases (lookup ℕ_discrete b g.nodes)) [
  | inl e ↦
      let n = fresh_node b now name in
      subst (λ (r : TopologyGraph × AsNode). SameRib g r.0 × (r.1.prefixes ≡ prefixes_of g b))
        (made (put_node g b n) n (ground arith))
        (put_node-SameRib g b n (ground arith), ground arith)
  | inr (n, e) ↦
      subst (λ (r : TopologyGraph × AsNode). SameRib g r.0 × (r.1.prefixes ≡ prefixes_of g b))
        (made g n (ground arith)) (SameRib-refl g, ground arith)
]
  where
    made :
        (h : TopologyGraph) (n : AsNode)
        → node g b now name ≡ (h, n)
        → ◌≡◌ {A = TopologyGraph × AsNode} (h, n) (node g b now name)
    made h n e = sym e

see_node-SameRib :
    (g : TopologyGraph) (b : Asn) (now : ℕ) (name : String) → SameRib g (see_node g b now name)
unfolding see_node
see_node-SameRib g b now name =
    let (s, e) = node_cases g b now name in
    SameRib-trans s (put_node-SameRib (node g b now name).0 b _ (e ∙ sym (s.prefixes b)))

upsert_edge-SameRib :
    (g : TopologyGraph) (from to : Asn) (ev : ClassifiedEvent) (now : ℕ)
    → SameRib g (upsert_edge g from to ev now)
unfolding upsert_edge
upsert_edge-SameRib g from to ev now = record { prefixes = λ a. refl; rib = refl; nodes = λ a h. h }

apply_hop-SameRib :
    (names : Asn → String) (g : TopologyGraph) (ev : ClassifiedEvent) (now : ℕ) (from to : Asn)
    → SameRib g (apply_hop names g ev now from to)
unfolding apply_hop
apply_hop-SameRib names g ev now from to = hop (from == to)
  where
    hop :
        (x : Bool)
        → SameRib g (
            if x
            then g
            else upsert_edge
                (see_node (see_node g from now (names from)) to now (names to))
                from
                to
                ev
                now)
    hop true = SameRib-refl g
    hop false = SameRib-trans (see_node-SameRib g from now (names from)) (
        SameRib-trans (see_node-SameRib (see_node g from now (names from)) to now (names to)) (
          upsert_edge-SameRib (see_node (see_node g from now (names from)) to now (names to)) from
            to ev now))

apply_hops-SameRib :
    (names : Asn → String) (g : TopologyGraph) (ev : ClassifiedEvent) (now : ℕ) (from : Asn)
    (path : List Asn)
    → SameRib g (apply_hops names g ev now from path)
unfolding apply_hops
apply_hops-SameRib names g ev now from [] = SameRib-refl g
apply_hops-SameRib names g ev now from (to ∷ path) =
    SameRib-trans (apply_hop-SameRib names g ev now from to)
      (apply_hops-SameRib names (apply_hop names g ev now from to) ev now to path)

pub apply_edges-SameRib :
    (names : Asn → String) (g : TopologyGraph) (ev : ClassifiedEvent) (now : ℕ)
    → SameRib g (apply_edges names g ev now)
unfolding apply_edges
apply_edges-SameRib names g ev now = go ev.event.as_path
  where
    go :
        (path : List Asn)
        → SameRib g (elim path [ [] ↦ g | from ∷ rest ↦ apply_hops names g ev now from rest ])
    go [] = SameRib-refl g
    go (from ∷ rest) = apply_hops-SameRib names g ev now from rest

pub apply_origin-SameRib :
    (names : Asn → String) (g : TopologyGraph) (ev : ClassifiedEvent) (now : ℕ)
    → SameRib g (apply_origin names g ev now)
      × (has_node (apply_origin names g ev now) ev.event.origin_as ≡ true)
unfolding apply_origin
apply_origin-SameRib names g ev now =
    let origin = ev.event.origin_as in
    let (s, e) = node_cases g origin now (names origin) in
    (
      SameRib-trans s (
          put_node-SameRib (node g origin now (names origin)).0 origin _
            (e ∙ sym (s.prefixes origin))),
      has_node-put_node (node g origin now (names origin)).0 origin origin _ ∙ ground arith,
    )
