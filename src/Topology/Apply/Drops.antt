-- ===== src/Topology/Apply/Drops.antt =====
-- How an AS gives up or takes a prefix in `applyRIB` of topology/apply.go.

use mathlib.Core.Path.{subst}
use bgpulse.Base.{
  ◌≡◌, inl, inr, sym, arith, Bool, true, false, ◌&&◌, List, ite, ◌==◌, if◌then◌else◌, ℕ_discrete,
  Bool-cases, Option-cases,
}
use bgpulse.Base.Table.{
  lookup, lookup-insert, member, add, remove, member-remove, IsDistinct, remove-IsDistinct,
}
use bgpulse.Bgp.Types.{Asn}
use bgpulse.Bgp.Net.{Prefix, Prefix-discrete}
use bgpulse.Topology.Graph.{TopologyGraph}
use bgpulse.Topology.Apply.Same.{prefixes_of, has_node, owned_by, IsOwned}
use bgpulse.Topology.Apply.{drop_prefix, add_prefix, drop_other}

pub prefixes_of-drop :
    (g : TopologyGraph) (b a : Asn) (p : Prefix)
    → prefixes_of (drop_prefix g b p) a
      ≡ (if b == a then remove Prefix-discrete p (prefixes_of g a) else prefixes_of g a)
unfolding drop_prefix remove
prefixes_of-drop g b a p = elim (Option-cases (lookup ℕ_discrete b g.nodes)) [
  | inl e ↦ ground arith
  | inr (n, e) ↦ ground (
    arith,
    lookup-insert ℕ_discrete b a (record n { prefixes = remove Prefix-discrete p n.prefixes })
        g.nodes,
  )
]

pub prefixes_of-add :
    (g : TopologyGraph) (b a : Asn) (p : Prefix)
    → has_node g b ≡ true
    → prefixes_of (add_prefix g b p) a
      ≡ (if b == a then add Prefix-discrete p (prefixes_of g a) else prefixes_of g a)
unfolding add_prefix
prefixes_of-add g b a p h = elim (Option-cases (lookup ℕ_discrete b g.nodes)) [
  | inl e ↦ absurd (ground arith)
  | inr (n, e) ↦ ground (
    arith,
    lookup-insert ℕ_discrete b a (record n { prefixes = add Prefix-discrete p n.prefixes }) g.nodes,
  )
]

pub drop_prefix_rest :
    (g : TopologyGraph) (b : Asn) (p : Prefix)
    → ((drop_prefix g b p).rib ≡ g.rib)
      × ((a : Asn) → has_node g a ≡ true → has_node (drop_prefix g b p) a ≡ true)
unfolding drop_prefix
drop_prefix_rest g b p = elim (Option-cases (lookup ℕ_discrete b g.nodes)) [
  | inl e ↦ (ground arith, λ a h. ground arith)
  | inr (n, e) ↦ (
    ground arith,
    λ a h. ground (
      arith,
      lookup-insert ℕ_discrete b a (record n { prefixes = remove Prefix-discrete p n.prefixes })
          g.nodes,
    ),
  )
]

pub add_prefix-rib : (g : TopologyGraph) (b : Asn) (p : Prefix) → (add_prefix g b p).rib ≡ g.rib
unfolding add_prefix
add_prefix-rib g b p = ground arith

pub drop_other_rest :
    (g : TopologyGraph) (p : Prefix) (origin : Asn)
    → ((drop_other g p origin).rib ≡ g.rib)
      × ((a : Asn) → has_node g a ≡ true → has_node (drop_other g p origin) a ≡ true)
unfolding drop_other
drop_other_rest g p origin = elim (Option-cases (lookup Prefix-discrete p g.rib)) [
  | inl e ↦ (ground arith, λ a h. ground arith)
  | inr (prev, e) ↦ (
    ground (arith, (drop_prefix_rest g prev p).0),
    λ a h. ground (arith, (drop_prefix_rest g prev p).1 a h),
  )
]

-- After the other AS has given the prefix up, only the announcing AS may have it.
pub member-drop_other :
    (g : TopologyGraph) (p q : Prefix) (origin a : Asn)
    → IsOwned g
    → member Prefix-discrete q (prefixes_of (drop_other g p origin) a)
      ≡ ite
          (Prefix-discrete p q)
          (owned_by (lookup Prefix-discrete q g.rib) a && origin == a)
          (owned_by (lookup Prefix-discrete q g.rib) a)
unfolding drop_other
member-drop_other g p q origin a v = elim (Option-cases (lookup Prefix-discrete p g.rib)) [
  | inl e ↦ ground (arith, v.agrees a q)
  | inr (prev, e) ↦ ground (
    arith,
    v.agrees a q,
    prefixes_of-drop g prev a p,
    member-remove Prefix-discrete p q (prefixes_of g a),
  )
]

-- A set that is another one, or it after an add or a remove, is distinct with it.
pub IsDistinct-if :
    (x : Bool) (s t : List Prefix)
    → IsDistinct Prefix-discrete s
    → IsDistinct Prefix-discrete t
    → IsDistinct Prefix-discrete (if x then s else t)
IsDistinct-if true s t d e = d
IsDistinct-if false s t d e = e

pub drop_prefix-IsDistinct :
    (g : TopologyGraph) (b a : Asn) (p : Prefix)
    → IsOwned g
    → IsDistinct Prefix-discrete (prefixes_of (drop_prefix g b p) a)
drop_prefix-IsDistinct g b a p v =
    subst (IsDistinct Prefix-discrete) (sym (prefixes_of-drop g b a p)) (
      IsDistinct-if (b == a) _ _
        (remove-IsDistinct Prefix-discrete p (prefixes_of g a) (v.distinct a)) (v.distinct a))

pub drop_other-IsDistinct :
    (g : TopologyGraph) (p : Prefix) (origin a : Asn)
    → IsOwned g
    → IsDistinct Prefix-discrete (prefixes_of (drop_other g p origin) a)
unfolding drop_other
drop_other-IsDistinct g p origin a v = elim (Option-cases (lookup Prefix-discrete p g.rib)) [
  | inl e ↦ subst (IsDistinct Prefix-discrete) (ground arith) (v.distinct a)
  | inr (prev, e) ↦ elim (Bool-cases (prev == origin)) [
    | inl q ↦ subst (IsDistinct Prefix-discrete) (ground arith) (v.distinct a)
    | inr q ↦
        subst (IsDistinct Prefix-discrete) (ground arith) (drop_prefix-IsDistinct g prev a p v)
  ]
]
