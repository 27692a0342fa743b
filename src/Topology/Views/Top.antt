-- ===== src/Topology/Views/Top.antt =====
-- The origins that topology/views.go shows in the statistics.
use bgpulse.Base.{
  ℕ, zero, suc, ◌≤◌, ◌<◌, ◌≡◌, refl, sym, ap, ◌∙◌, arith, Bool, ltb, ◌&&◌, All, ◌⊎◌, inl, inr,
  Bool-cases, List, [], ◌∷◌, ◌++◌, length, map, take, drop,
}
use mathlib.Core.Path.{subst}
use bgpulse.Base.Sort.{
  count_if, AllAfter, IsSorted, IsOrder, sort_by, sort_by-IsSorted, count_if-sort_by,
}
use bgpulse.Bgp.Types.{Asn}
use bgpulse.Topology.Graph.{AsNode, TopologyGraph}
use bgpulse.Topology.Views.{active, origin_before, origin_view, top_origins}

origin_before-IsOrder : IsOrder origin_before
origin_before-IsOrder = record {
  asymmetric = λ x y h. ground arith;
  chains = λ x y z h k. ground arith;
}

take-drop : (n : ℕ) (xs : List AsNode) → take n xs ++ drop n xs ≡ xs
take-drop zero xs = refl
take-drop (suc n) [] = refl
take-drop (suc n) (x ∷ xs) = ap (◌∷◌ x) (take-drop n xs)

take_bounds :
    (n : ℕ) (xs : List AsNode)
    → (length (take n xs) ≤ n) × (length (take n xs) < n → drop n xs ≡ [])
take_bounds zero xs = (omega arith, (λ h. absurd (omega arith)))
take_bounds (suc n) [] = (omega arith, (λ h. refl))
take_bounds (suc n) (x ∷ xs) =
    let rest = take_bounds n xs in (omega (arith, rest.0), (λ h. rest.1 (omega arith)))

-- A node with more events is earlier, and of those with as many the one with the smaller AS number.
abbrev pub NotBehind : AsNode → AsNode → Type 0
NotBehind x y = (y.events < x.events) ⊎ ((y.events ≡ x.events) × (x.asn ≤ y.asn))

abbrev pub AllBehind : AsNode → List AsNode → Type 0
AllBehind x ys = All (λ y. NotBehind x y) ys

abbrev pub IsRanked : List AsNode → Type 0
IsRanked [] = Unit
IsRanked (x ∷ xs) = AllBehind x xs × IsRanked xs

-- A node of the graph that has events and passes a test.
abbrev pub has_events : (AsNode → Bool) → Asn × AsNode → Bool
has_events f (a, n) = ltb 0 n.events && f n

-- The nodes that are shown and those that are not, in their order: together the nodes that have
-- events, each as often as in the graph.
pub record IsTop (nodes : List (Asn × AsNode)) (shown rest : List AsNode) : Type 0 where
  pub few : length shown ≤ 40
  pub full : length shown < 40 → rest ≡ []
  pub ranked : IsRanked (shown ++ rest)
  pub same : (f : AsNode → Bool) → count_if f (shown ++ rest) ≡ count_if (has_events f) nodes

AllAfter-AllBehind : (x : AsNode) (ys : List AsNode) → AllAfter origin_before x ys → AllBehind x ys
AllAfter-AllBehind x [] a = tt
AllAfter-AllBehind x (y ∷ ys) a = (
  (elim (Bool-cases (ltb y.events x.events)) [
    | inl e ↦ inl (ground arith)
    | inr e ↦ inr (ground (arith, a.0), ground (arith, a.0))
  ]),
  AllAfter-AllBehind x ys a.1,
)

IsSorted-IsRanked : (xs : List AsNode) → IsSorted origin_before xs → IsRanked xs
IsSorted-IsRanked [] s = tt
IsSorted-IsRanked (x ∷ xs) s = (AllAfter-AllBehind x xs s.0, IsSorted-IsRanked xs s.1)

count_if-active :
    (f : AsNode → Bool) (nodes : List (Asn × AsNode))
    → count_if f (active nodes) ≡ count_if (has_events f) nodes
unfolding count_if active
count_if-active f [] = refl
count_if-active f ((a, n) ∷ nodes) = ground (arith, count_if-active f nodes)

-- The statistics show at most 40 of the nodes of the graph that have events: together with those
-- that are left out they are these nodes, each as often as in the graph, and of all of them a node
-- with more events is earlier, and of two with as many the one with the smaller AS number; fewer
-- than 40 are shown only if none is left out.
pub top_origins-IsTop :
    (g : TopologyGraph)
    → (shown : List AsNode) × (rest : List AsNode) × (top_origins g ≡ map origin_view shown)
      × IsTop g.nodes shown rest
unfolding top_origins
top_origins-IsTop g =
    let all = sort_by origin_before (active g.nodes) in
    (
      take 40 all,
      drop 40 all,
      refl,
      record {
        few = (take_bounds 40 all).0;
        full = (take_bounds 40 all).1;
        ranked = subst IsRanked (sym (take-drop 40 all)) (
            IsSorted-IsRanked all
              (sort_by-IsSorted origin_before origin_before-IsOrder (active g.nodes)));
        same = λ f.
            ap (count_if f) (take-drop 40 all)
            ∙ (count_if-sort_by origin_before f (active g.nodes) ∙ count_if-active f g.nodes);
      },
    )
