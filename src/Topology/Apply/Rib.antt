-- ===== src/Topology/Apply/Rib.antt =====
-- The prefix sets of the nodes and the RIB under apply.go: they always tell the same story.
use Prim.Native.String.{String}
use mathlib.Core.Path.{subst}
use bgpulse.Base.{
  ℕ, ◌≡◌, ◌⊎◌, inl, inr, refl, sym, ap, ◌∙◌, arith, Bool, true, false, List, [], ◌∷◌, ◌==◌,
  if◌then◌else◌, Option-cases,
}
use bgpulse.Base.Table.{
  lookup, insert, delete, lookup-insert, lookup-delete, add, member-add, member-remove, IsDistinct,
  add-IsDistinct,
}
use bgpulse.Bgp.Types.{Asn, UpdateKind, announce, withdraw, ClassifiedEvent}
use bgpulse.Bgp.Net.{Prefix, Prefix-discrete}
use bgpulse.Topology.Graph.{TopologyGraph, new_graph}
use bgpulse.Topology.Apply.Same.{
  prefixes_of, has_node, IsOwned, new_graph-IsOwned, SameRib, SameRib-refl, SameRib-trans,
  SameRib-IsOwned, apply_edges-SameRib, apply_origin-SameRib,
}
use bgpulse.Topology.Apply.{
  apply_edges, apply_origin, drop_prefix, drop_other, rib_announce, rib_withdraw, apply_rib,
  apply_graph, cidr,
}
use bgpulse.Topology.Apply.Drops.{
  prefixes_of-drop, prefixes_of-add, drop_prefix_rest, add_prefix-rib, drop_other_rest,
  member-drop_other, IsDistinct-if, drop_prefix-IsDistinct, drop_other-IsDistinct,
}

prefixes_of-announce :
    (g : TopologyGraph) (p : Prefix) (origin a : Asn)
    → has_node g origin ≡ true
    → prefixes_of (rib_announce g p origin) a ≡ (
        if origin == a
        then add Prefix-discrete p (prefixes_of (drop_other g p origin) a)
        else prefixes_of (drop_other g p origin) a)
unfolding rib_announce
prefixes_of-announce g p origin a h =
    let g1 = drop_other g p origin in
    prefixes_of-add (record g1 { rib = insert Prefix-discrete p origin g1.rib }) origin a p
      ((drop_other_rest g p origin).1 origin h)

pub rib-announce :
    (g : TopologyGraph) (p : Prefix) (origin : Asn)
    → (rib_announce g p origin).rib ≡ insert Prefix-discrete p origin g.rib
unfolding rib_announce
rib-announce g p origin =
    let g1 = drop_other g p origin in
    add_prefix-rib (record g1 { rib = insert Prefix-discrete p origin g1.rib }) origin p
    ∙ ap (insert Prefix-discrete p origin) (drop_other_rest g p origin).0

rib_announce-IsOwned :
    (g : TopologyGraph) (p : Prefix) (origin : Asn)
    → has_node g origin ≡ true
    → IsOwned g
    → IsOwned (rib_announce g p origin)
rib_announce-IsOwned g p origin h v = record {
  agrees = λ a q. ground (
    arith,
    prefixes_of-announce g p origin a h,
    ap (lookup Prefix-discrete q) (rib-announce g p origin),
    lookup-insert Prefix-discrete p q origin g.rib,
    member-drop_other g p q origin a v,
    member-add Prefix-discrete p q (prefixes_of (drop_other g p origin) a),
  );
  distinct = λ a. subst (IsDistinct Prefix-discrete) (sym (prefixes_of-announce g p origin a h)) (
      IsDistinct-if (origin == a) _ _
        (add-IsDistinct Prefix-discrete p _ (drop_other-IsDistinct g p origin a v))
        (drop_other-IsDistinct g p origin a v));
}

rib_withdraw-IsOwned : (g : TopologyGraph) (p : Prefix) → IsOwned g → IsOwned (rib_withdraw g p)
unfolding rib_withdraw
rib_withdraw-IsOwned g p v = elim (Option-cases (lookup Prefix-discrete p g.rib)) [
  | inl e ↦ subst IsOwned (ground arith) v
  | inr (prev, e) ↦
      let g1 = drop_prefix g prev p in
      subst IsOwned
        (let q : record g1 { rib = delete Prefix-discrete p g1.rib } ≡ rib_withdraw g p =
            ground arith in
          q)
        (record {
          agrees = λ a q. ground (
            arith,
            v.agrees a q,
            prefixes_of-drop g prev a p,
            member-remove Prefix-discrete p q (prefixes_of g a),
            (drop_prefix_rest g prev p).0,
            lookup-delete Prefix-discrete p q g.rib,
            ap (λ r. lookup Prefix-discrete q (delete Prefix-discrete p r))
                (drop_prefix_rest g prev p).0,
          );
          distinct = λ a. drop_prefix-IsDistinct g prev a p v;
        })
]

-- The effect of one event on the graph.
apply_rib-IsOwned :
    (g : TopologyGraph) (ev : ClassifiedEvent)
    → (ev.event.kind ≡ announce → (has_node g ev.event.origin_as ≡ true) ⊎ (ev.event.origin_as ≡ 0))
    → IsOwned g
    → IsOwned (apply_rib g ev)
unfolding apply_rib
apply_rib-IsOwned g ev h v = go ev.event.kind refl
  where
    origin : Asn
    origin = ev.event.origin_as

    p : Prefix
    p = cidr ev.event.prefix

    announced :
        (x : Bool)
        → (origin == 0) ≡ x
        → (has_node g origin ≡ true) ⊎ (origin ≡ 0)
        → IsOwned (if x then g else rib_announce g p origin)
    announced true e k = v
    announced false e (inl k) = rib_announce-IsOwned g p origin k v
    announced false e (inr k) = absurd (ground arith)

    go :
        (kind : UpdateKind)
        → ev.event.kind ≡ kind
        → IsOwned (elim kind [
          | announce ↦ if origin == 0 then g else rib_announce g p origin
          | withdraw ↦ rib_withdraw g p
        ])
    go announce k = announced (origin == 0) refl (h k)
    go withdraw k = rib_withdraw-IsOwned g p v

-- Every event, an announcement with or without a known origin or a withdrawal, keeps the prefix
-- sets and the RIB in step.
pub apply_graph-IsOwned :
    (names : Asn → String) (g : TopologyGraph) (ev : ClassifiedEvent)
    → IsOwned g
    → IsOwned (apply_graph names g ev)
unfolding apply_graph
apply_graph-IsOwned names g ev v = go ev.event.kind refl
  where
    now : ℕ
    now = ev.event.timestamp

    origin : Asn
    origin = ev.event.origin_as

    with_origin : Bool → TopologyGraph
    with_origin x = if x then g else apply_origin names g ev now

    origin_step :
        (x : Bool)
        → (origin == 0) ≡ x
        → SameRib g (with_origin x) × ((has_node (with_origin x) origin ≡ true) ⊎ (origin ≡ 0))
    origin_step true e = (SameRib-refl g, inr (ground arith))
    origin_step false e = let (s, n) = apply_origin-SameRib names g ev now in (s, inl n)

    go :
        (kind : UpdateKind)
        → ev.event.kind ≡ kind
        → IsOwned (
            apply_rib
              (elim kind [
                | withdraw ↦ g
                | announce ↦ apply_edges names (with_origin (origin == 0)) ev now
              ])
              ev)
    go withdraw e = apply_rib-IsOwned g ev (λ k. cc) v
    go announce e =
        let g1 = with_origin (origin == 0) in
        let (s, n) = origin_step (origin == 0) refl in
        let t = apply_edges-SameRib names g1 ev now in
        apply_rib-IsOwned (apply_edges names g1 ev now) ev
          (λ k. elim n [ inl x ↦ inl (t.nodes origin x) | inr x ↦ inr x ])
          (SameRib-IsOwned (SameRib-trans s t) v)

unfoldable pub apply_all : (Asn → String) → TopologyGraph → List ClassifiedEvent → TopologyGraph
apply_all names g [] = g
apply_all names g (ev ∷ evs) = apply_all names (apply_graph names g ev) evs

apply_all-from :
    (names : Asn → String) (g : TopologyGraph) (evs : List ClassifiedEvent)
    → IsOwned g
    → IsOwned (apply_all names g evs)
unfolding apply_all
apply_all-from names g [] v = v
apply_all-from names g (ev ∷ evs) v =
    apply_all-from names (apply_graph names g ev) evs (apply_graph-IsOwned names g ev v)

-- From the empty graph any events lead to a graph in which an AS holds a prefix, once, exactly when
-- the RIB gives it the prefix.
pub apply_all-IsOwned :
    (names : Asn → String) (evs : List ClassifiedEvent) → IsOwned (apply_all names new_graph evs)
apply_all-IsOwned names evs = apply_all-from names new_graph evs new_graph-IsOwned
