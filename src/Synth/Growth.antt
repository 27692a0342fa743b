-- ===== src/Synth/Growth.antt =====
-- The linking of synth/topology.go only adds edges: what held of the builder before still holds.
use bgpulse.Base.{
  ℕ, ◌+◌, ◌%◌, ◌≡◌, refl, arith, ◌∙◌, ◌≢◌, Bool, true, false, Option, none, some, List, [], ◌∷◌,
  inl, inr, Option-cases, ◌==◌, if◌then◌else◌, ap, get_or,
}
use bgpulse.Bgp.Types.{Asn, RelStatus, unknown, peer, provider, sibling}
use bgpulse.Bgp.Net.{Prefix}
use bgpulse.Synth.{
  Graph, Rng, Builder, edge, record_adjacency, edges_to, link_tier1_from, link_tier1, home_transit,
  home_transits, maybe_peers, link_peers, home_first, link_transit, second_upstream, link_stub,
  link_stubs_from, link_stubs_of, link_stubs, link_sibling, pick_distinct, draw, peer_prob,
  extra_upstream_prob, sibling_every,
}
use bgpulse.Synth.Adjacency.{answer, IsLinked, edge-IsLinked, edge-answer, edge-graph}

-- What the linking leaves alone: the tiers, and the prefixes, which come later.
abbrev pub tiers :
    Graph
    → List Asn × List Asn × List Asn × List (Prefix × Asn) × List Prefix × List (Asn × List Prefix)
tiers g = (g.tier1, g.transit, g.stubs, g.prefix_owner, g.roa_prefixes, g.owner_prefixes)

-- From the one builder to the other, edges were added.
pub record IsGrown {S : Type 0} (b b' : Builder S) : Type 0 where
  pub linked : IsLinked b → IsLinked b'
  pub known :
      (r : RelStatus) (x y : Asn) → r ≢ unknown → answer b.rel x y ≡ r → answer b'.rel x y ≡ r
  pub same : tiers b'.graph ≡ tiers b.graph

tiers-record :
    (a c : Asn) (rel : RelStatus) (g : Graph) → tiers (record_adjacency a c rel g) ≡ tiers g
unfolding record_adjacency
tiers-record a c RelStatus.customer g = refl
tiers-record a c RelStatus.provider g = refl
tiers-record a c RelStatus.peer g = refl
tiers-record a c RelStatus.sibling g = refl
tiers-record a c RelStatus.unknown g = refl

module _ {S : Type 0} where
  pub same-IsGrown : (b : Builder S) (s : S) → IsGrown b (record b { rng = s })
  same-IsGrown b s = record { linked = λ w. w; known = λ r x y n h. h; same = refl }

  pub IsGrown-trans : {a b c : Builder S} → IsGrown a b → IsGrown b c → IsGrown a c
  IsGrown-trans p q = record {
    linked = λ w. q.linked (p.linked w);
    known = λ r x y n h. q.known r x y n (p.known r x y n h);
    same = q.same ∙ p.same;
  }

  IsGrown-if :
      (hit : Bool) {a b c : Builder S}
      → IsGrown a b
      → IsGrown a c
      → IsGrown a (if hit then b else c)
  IsGrown-if true p q = p
  IsGrown-if false p q = q

  module _ (rng : Rng S) where
    pub edge-IsGrown :
        (b : Builder S) (a c : Asn) (rel : RelStatus) → IsGrown b (edge rng b a c rel)
    edge-IsGrown b a c rel = record {
      linked = edge-IsLinked rng b a c rel;
      known = edge-answer rng b a c rel;
      same = ap tiers (edge-graph rng b a c rel) ∙ go _;
    }
      where
        go :
            {A : Type 0} (err : Option A)
            → tiers (elim err [ some _ ↦ b.graph | none ↦ record_adjacency a c rel b.graph ])
              ≡ tiers b.graph
        go none = tiers-record a c rel b.graph
        go (some e) = refl

    edges_to-IsGrown :
        (b : Builder S) (a : Asn) (cs : List Asn) (rel : RelStatus)
        → IsGrown b (edges_to rng b a cs rel)
    unfolding edges_to
    edges_to-IsGrown b a [] rel = same-IsGrown b b.rng
    edges_to-IsGrown b a (c ∷ cs) rel =
        IsGrown-trans (edge-IsGrown b a c rel) (edges_to-IsGrown (edge rng b a c rel) a cs rel)

    link_tier1_from-IsGrown : (b : Builder S) (l : List Asn) → IsGrown b (link_tier1_from rng b l)
    unfolding link_tier1_from
    link_tier1_from-IsGrown b [] = same-IsGrown b b.rng
    link_tier1_from-IsGrown b (a ∷ rest) =
        IsGrown-trans (edges_to-IsGrown b a rest peer)
          (link_tier1_from-IsGrown (edges_to rng b a rest peer) rest)

    pub home_transit-IsGrown :
        (fuel : ℕ) (b : Builder S) (t : Asn) {b' : Builder S}
        → home_transit rng fuel b t ≡ some b'
        → IsGrown b b'
    unfolding home_transit
    home_transit-IsGrown fuel b t {b'} h =
        elim (Option-cases (
          pick_distinct rng fuel b.graph.tier1 (1 + (rng.int_n b.rng 2).0) (rng.int_n b.rng 2).1)) [
            | inl e ↦ absurd (ground arith)
            | inr ((picked, s), e) ↦
                let made : edges_to rng (record b { rng = s }) t picked provider ≡ b' =
                  ground arith in
                rw (← made) (
                  IsGrown-trans (same-IsGrown b s)
                    (edges_to-IsGrown (record b { rng = s }) t picked provider))
          ]

    home_transits-IsGrown :
        (fuel : ℕ) (b : Builder S) (ts : List Asn) {b' : Builder S}
        → home_transits rng fuel b ts ≡ some b'
        → IsGrown b b'
    unfolding home_transits
    home_transits-IsGrown fuel b [] {b'} h =
        let made : b ≡ b' = ground arith in rw (← made) (same-IsGrown b b.rng)
    home_transits-IsGrown fuel b (t ∷ ts) h = elim (Option-cases (home_transit rng fuel b t)) [
      | inl e ↦ absurd (ground arith)
      | inr (b1, e) ↦
          IsGrown-trans (home_transit-IsGrown fuel b t e)
            (home_transits-IsGrown fuel b1 ts (ground arith))
    ]

    maybe_peers-IsGrown :
        (b : Builder S) (a : Asn) (cs : List Asn) → IsGrown b (maybe_peers rng b a cs)
    unfolding maybe_peers
    maybe_peers-IsGrown b a [] = same-IsGrown b b.rng
    maybe_peers-IsGrown b a (c ∷ cs) =
        let (hit, s) = rng.below b.rng peer_prob in
        let drawn = same-IsGrown b s in
        IsGrown-trans
          (IsGrown-if hit (IsGrown-trans drawn (edge-IsGrown (record b { rng = s }) a c peer))
            drawn)
          (maybe_peers-IsGrown
            (if hit then edge rng (record b { rng = s }) a c peer else record b { rng = s }) a cs)

    link_peers-IsGrown : (b : Builder S) (l : List Asn) → IsGrown b (link_peers rng b l)
    unfolding link_peers
    link_peers-IsGrown b [] = same-IsGrown b b.rng
    link_peers-IsGrown b (a ∷ rest) =
        IsGrown-trans (maybe_peers-IsGrown b a rest)
          (link_peers-IsGrown (maybe_peers rng b a rest) rest)

    second_upstream-IsGrown :
        (b : Builder S) (stub first x : Asn) (xs : List Asn)
        → IsGrown b (second_upstream rng b stub first x xs)
    unfolding second_upstream
    second_upstream-IsGrown b stub first x xs =
        let (second, s) = draw rng x xs b.rng in
        let drawn = same-IsGrown b s in
        IsGrown-if (second == first) drawn
          (IsGrown-trans drawn (edge-IsGrown (record b { rng = s }) stub second provider))

    link_sibling-IsGrown :
        (b : Builder S) (idx : ℕ) (stub : Asn) (later : List Asn)
        → IsGrown b (link_sibling rng b idx stub later)
    unfolding link_sibling
    link_sibling-IsGrown b idx stub [] = same-IsGrown b b.rng
    link_sibling-IsGrown b idx stub (next ∷ rest) =
        IsGrown-if (idx % sibling_every == 0) (edge-IsGrown b stub next sibling)
          (same-IsGrown b b.rng)

    link_stub-IsGrown :
        (b : Builder S) (idx : ℕ) (stub : Asn) (later : List Asn) (x : Asn) (xs : List Asn)
        → IsGrown b (link_stub rng b idx stub later x xs)
    unfolding link_stub
    link_stub-IsGrown b idx stub later x xs =
        let (first, s) = draw rng x xs b.rng in
        let b1 = edge rng (record b { rng = s }) stub first provider in
        let (hit, s') = rng.below b1.rng extra_upstream_prob in
        let b2 : Builder S = record b1 { rng = s' } in
        let b3 = if hit then second_upstream rng b2 stub first x xs else b2 in
        IsGrown-trans
          (IsGrown-trans (same-IsGrown b s) (
            IsGrown-trans (edge-IsGrown (record b { rng = s }) stub first provider) (
              IsGrown-trans (same-IsGrown b1 s') (
                IsGrown-if hit (second_upstream-IsGrown b2 stub first x xs) (same-IsGrown b2 s')))))
          (link_sibling-IsGrown b3 idx stub later)

    link_stubs_from-IsGrown :
        (b : Builder S) (idx : ℕ) (stubs : List Asn) (x : Asn) (xs : List Asn)
        → IsGrown b (link_stubs_from rng b idx stubs x xs)
    unfolding link_stubs_from
    link_stubs_from-IsGrown b idx [] x xs = same-IsGrown b b.rng
    link_stubs_from-IsGrown b idx (stub ∷ later) x xs =
        IsGrown-trans (link_stub-IsGrown b idx stub later x xs)
          (link_stubs_from-IsGrown (link_stub rng b idx stub later x xs) (idx + 1) later x xs)

    pub link_tier1-IsGrown : (b : Builder S) → IsGrown b (link_tier1 rng b)
    unfolding link_tier1
    link_tier1-IsGrown b = link_tier1_from-IsGrown b b.graph.tier1

    pub home_first-IsGrown : (b : Builder S) (t : Asn) → IsGrown b (home_first rng b t)
    unfolding home_first
    home_first-IsGrown b t =
        IsGrown-trans (edge-IsGrown b t (get_or b.graph.tier1 0 0) provider)
          (edge-IsGrown _ t (get_or b.graph.tier1 1 0) provider)

    -- After the first transit AS has its providers, the others get theirs.
    pub link_transit-IsGrown_first :
        (fuel : ℕ) (b : Builder S) (t : Asn) (ts : List Asn) {b' : Builder S}
        → b.graph.transit ≡ t ∷ ts
        → link_transit rng fuel b ≡ some b'
        → IsGrown (home_first rng b t) b'
    unfolding link_transit
    link_transit-IsGrown_first fuel b t ts {b'} e h =
        elim (Option-cases (home_transits rng fuel (home_first rng b t) ts)) [
          | inl e' ↦ absurd (ground arith)
          | inr (b1, e') ↦
              let made : link_peers rng b1 b1.graph.transit ≡ b' = ground arith in
              rw (← made) (
                IsGrown-trans (home_transits-IsGrown fuel (home_first rng b t) ts e')
                  (link_peers-IsGrown b1 b1.graph.transit))
        ]

    link_stubs_of-IsGrown : (b : Builder S) (pool : List Asn) → IsGrown b (link_stubs_of rng b pool)
    unfolding link_stubs_of
    link_stubs_of-IsGrown b [] = same-IsGrown b b.rng
    link_stubs_of-IsGrown b (x ∷ xs) = link_stubs_from-IsGrown b 0 b.graph.stubs x xs

    pub link_stubs-IsGrown : (b : Builder S) → IsGrown b (link_stubs rng b)
    unfolding link_stubs
    link_stubs-IsGrown b = link_stubs_of-IsGrown b b.graph.transit
