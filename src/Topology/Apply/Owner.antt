-- ===== src/Topology/Apply/Owner.antt =====
-- The RIB of topology/apply.go against the history: the latest event about a prefix decides.
use Prim.Native.String.{String}
use bgpulse.Base.{
  ℕ, ◌≡◌, inl, inr, refl, ap, ◌∙◌, arith, Bool, true, false, Option, none, some, List, [], ◌∷◌, ite,
  ◌==◌, if◌then◌else◌, Option-cases,
}
use bgpulse.Base.Table.{lookup, lookup-insert, lookup-delete, delete, member}
use bgpulse.Bgp.Types.{Asn, UpdateKind, announce, withdraw, ClassifiedEvent}
use bgpulse.Bgp.Net.{Prefix, Prefix-discrete}
use bgpulse.Topology.Graph.{TopologyGraph, new_graph}
use bgpulse.Topology.Apply.{apply_edges, apply_origin, rib_withdraw, apply_rib, apply_graph, cidr}
use bgpulse.Topology.Apply.Same.{prefixes_of, owned_by, apply_edges-SameRib, apply_origin-SameRib}
use bgpulse.Topology.Apply.Drops.{drop_prefix_rest}
use bgpulse.Topology.Apply.Rib.{rib-announce, apply_all, apply_all-IsOwned}

-- Who has a prefix after one event, by who had it before.
unfoldable pub owner_after : Prefix → Option Asn → ClassifiedEvent → Option Asn
owner_after q before ev =
    ite (Prefix-discrete (cidr ev.event.prefix) q)
      (elim ev.event.kind [
        | announce ↦ if ev.event.origin_as == 0 then before else some ev.event.origin_as
        | withdraw ↦ none
      ])
      before

-- Who has a prefix after the events, the first one first.
unfoldable pub owner_from : Prefix → Option Asn → List ClassifiedEvent → Option Asn
owner_from q before [] = before
owner_from q before (ev ∷ evs) = owner_from q (owner_after q before ev) evs

lookup-withdraw :
    (g : TopologyGraph) (p q : Prefix)
    → lookup Prefix-discrete q (rib_withdraw g p).rib
      ≡ ite (Prefix-discrete p q) none (lookup Prefix-discrete q g.rib)
unfolding rib_withdraw
lookup-withdraw g p q = elim (Option-cases (lookup Prefix-discrete p g.rib)) [
  | inl e ↦ ground arith
  | inr (prev, e) ↦ ground (
    arith,
    lookup-delete Prefix-discrete p q g.rib,
    ap (λ r. lookup Prefix-discrete q (delete Prefix-discrete p r)) (drop_prefix_rest g prev p).0,
  )
]

lookup-apply_rib :
    (g : TopologyGraph) (ev : ClassifiedEvent) (q : Prefix)
    → lookup Prefix-discrete q (apply_rib g ev).rib
      ≡ owner_after q (lookup Prefix-discrete q g.rib) ev
unfolding apply_rib owner_after
lookup-apply_rib g ev q =
    let p = cidr ev.event.prefix in
    ground (
      arith,
      lookup-withdraw g p q,
      ap (lookup Prefix-discrete q) (rib-announce g p ev.event.origin_as),
      lookup-insert Prefix-discrete p q ev.event.origin_as g.rib,
    )

lookup-apply_graph :
    (names : Asn → String) (g : TopologyGraph) (ev : ClassifiedEvent) (q : Prefix)
    → lookup Prefix-discrete q (apply_graph names g ev).rib
      ≡ owner_after q (lookup Prefix-discrete q g.rib) ev
unfolding apply_graph
lookup-apply_graph names g ev q = go ev.event.kind
  where
    now : ℕ
    now = ev.event.timestamp

    with_origin : Bool → TopologyGraph
    with_origin x = if x then g else apply_origin names g ev now

    origin_rib : (x : Bool) → (with_origin x).rib ≡ g.rib
    origin_rib true = refl
    origin_rib false = (apply_origin-SameRib names g ev now).0.rib

    go :
        (kind : UpdateKind)
        → lookup Prefix-discrete q
            (apply_rib
              (elim kind [
                | withdraw ↦ g
                | announce ↦ apply_edges names (with_origin (ev.event.origin_as == 0)) ev now
              ])
              ev).rib
          ≡ owner_after q (lookup Prefix-discrete q g.rib) ev
    go withdraw = lookup-apply_rib g ev q
    go announce =
        let g1 = with_origin (ev.event.origin_as == 0) in
        lookup-apply_rib (apply_edges names g1 ev now) ev q
        ∙ ap (λ r. owner_after q (lookup Prefix-discrete q r) ev)
            ((apply_edges-SameRib names g1 ev now).rib ∙ origin_rib (ev.event.origin_as == 0))

lookup-apply_all :
    (names : Asn → String) (g : TopologyGraph) (evs : List ClassifiedEvent) (q : Prefix)
    → lookup Prefix-discrete q (apply_all names g evs).rib
      ≡ owner_from q (lookup Prefix-discrete q g.rib) evs
unfolding apply_all owner_from
lookup-apply_all names g [] q = refl
lookup-apply_all names g (ev ∷ evs) q =
    lookup-apply_all names (apply_graph names g ev) evs q
    ∙ ap (λ o. owner_from q o evs) (lookup-apply_graph names g ev q)

-- After any events an AS holds a prefix exactly when the latest event about that prefix, a
-- withdrawal or an announcement with a known origin, is an announcement by this AS.
pub member-apply_all :
    (names : Asn → String) (evs : List ClassifiedEvent) (a : Asn) (q : Prefix)
    → member Prefix-discrete q (prefixes_of (apply_all names new_graph evs) a)
      ≡ owned_by (owner_from q none evs) a
unfolding lookup
member-apply_all names evs a q =
    (apply_all-IsOwned names evs).agrees a q
    ∙ ap (λ o. owned_by o a) (lookup-apply_all names new_graph evs q)
