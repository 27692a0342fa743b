-- ===== src/Synth/Built.antt =====
-- BuildDefault of synth/topology.go: it returns, and what it returns.
use bgpulse.Base.{
  ℕ, zero, suc, ◌+◌, ◌≡◌, refl, sym, ap, ◌∙◌, arith, ◌≢◌, Bool, true, false, Option, none, some,
  List, [], ◌∷◌, ◌++◌, length, leb, ltb, if◌then◌else◌, Option-cases, inl, inr, ℕ_discrete, get_or,
}
use bgpulse.Base.Table.{member}
use bgpulse.Bgp.Types.{invert, RelStatus-discrete, Asn, provider}
use bgpulse.Synth.{
  record_adjacency, link, Rng, IsRng, Builder, empty_graph, edge, edges_to, draw, assign_asns,
  link_tier1, link_tier1_from, pick_loop, pick_distinct, home_transit, home_transits, home_first,
  link_transit, link_stubs, link_peers,
}
use bgpulse.Relationships
use bgpulse.Relationships.{rel_lookup, add_rel, add_neighbor, PairKey-discrete}
use bgpulse.Synth.Numbering.{numbered}
use bgpulse.Synth.Prefixes.{start, link_all}
use bgpulse.Synth.Adjacency.{IsLinked, answer}
use bgpulse.Synth.Growth.{
  tiers, home_transit-IsGrown, IsGrown, IsGrown-trans, link_tier1-IsGrown, home_first-IsGrown,
  link_transit-IsGrown_first, link_stubs-IsGrown,
}

abbrev pub tier1_list : List Asn
tier1_list = 1001 ∷ numbered 1002 5

module _ {S : Type 0} (rng : Rng S) where
  -- The values that `fuel` draws add to those of `out`.
  unfoldable pub drawn : ℕ → Asn → List Asn → List Asn → S → List Asn
  drawn zero x xs out s = out
  drawn (suc fuel) x xs out s =
      let (v, s') = draw rng x xs s in
      drawn fuel x xs (if member ℕ_discrete v out then out else out ++ (v ∷ [])) s'

  -- Where `fuel` draws hold `n` different values, `pickDistinct` is done after them.
  pub pick_loop_total :
      (fuel : ℕ) (x : Asn) (xs : List Asn) (n : ℕ) (out : List Asn) (s : S)
      → leb n (length (drawn fuel x xs out s)) ≡ true
      → (r : List Asn × S) × (pick_loop rng fuel x xs n out s ≡ some r)
  unfolding pick_loop drawn
  pick_loop_total zero x xs n out s h = ((out, s), rw h refl)
  pick_loop_total (suc fuel) x xs n out s h =
      let (v, s') = draw rng x xs s in
      let (r, e) =
        pick_loop_total fuel x xs n (if member ℕ_discrete v out then out else out ++ (v ∷ [])) s'
          h in
      go r e (leb n (length out))
    where
      go :
          {rest : Option (List Asn × S)} (r : List Asn × S)
          → rest ≡ some r
          → (b : Bool) → (r' : List Asn × S) × ((if b then some (out, s) else rest) ≡ some r')
      go r e true = ((out, s), refl)
      go r e false = (r, e)

  -- From every state, `fuel` draws from the tier-1 ASes hold two of them.
  abbrev pub IsVaried : ℕ → Type 0
  IsVaried fuel = (s : S) → leb 2 (length (drawn fuel 1001 (numbered 1002 5) [] s)) ≡ true

  pick_total :
      (fuel n : ℕ) (s : S)
      → IsVaried fuel
      → leb n 2 ≡ true
      → (r : List Asn × S) × (pick_distinct rng fuel tier1_list n s ≡ some r)
  unfolding pick_distinct numbered
  pick_total fuel n s v h =
      let (r, e) = pick_loop_total fuel 1001 (numbered 1002 5) n [] s (ground (arith, v s)) in
      (r, ground arith)

  home_transit_total :
      (fuel : ℕ) (b : Builder S) (t : Asn)
      → IsRng rng
      → IsVaried fuel
      → b.graph.tier1 ≡ tier1_list
      → (b' : Builder S) × (home_transit rng fuel b t ≡ some b')
  unfolding home_transit
  home_transit_total fuel b t w v e =
      let (i, s) = rng.int_n b.rng 2 in
      let small : ltb i 2 ≡ true = w.in_range b.rng 2 refl in
      let ((picked, s'), done) = pick_total fuel (1 + i) s v (ground (arith, small)) in
      let made : pick_distinct rng fuel b.graph.tier1 (1 + i) s ≡ some (picked, s') = rw e done in
      (edges_to rng (record b { rng = s' }) t picked provider, ground arith)

  home_transits_total :
      (fuel : ℕ) (b : Builder S) (ts : List Asn)
      → IsRng rng
      → IsVaried fuel
      → b.graph.tier1 ≡ tier1_list
      → (b' : Builder S) × (home_transits rng fuel b ts ≡ some b')
  unfolding home_transits
  home_transits_total fuel b [] w v e = (b, refl)
  home_transits_total fuel b (t ∷ ts) w v e =
      let (b1, one) = home_transit_total fuel b t w v e in
      let kept : b1.graph.tier1 ≡ tier1_list =
        ap (λ p. p.0) (home_transit-IsGrown rng fuel b t one).same ∙ e in
      let (b2, all) = home_transits_total fuel b1 ts w v kept in (b2, ground arith)

  -- The builder before the first transit AS is homed.
  abbrev pub before_transit : S → Builder S
  before_transit s = link_tier1 rng (assign_asns rng (start rng s))

  assigned : S → Builder S
  assigned s = record (start rng s) {
    graph = record empty_graph {
      tier1 = tier1_list;
      transit = numbered 2001 24;
      stubs = numbered 3001 120;
    };
  }

  assign_asns-eq : (s : S) → assign_asns rng (start rng s) ≡ assigned s
  unfolding assign_asns assigned numbered
  assign_asns-eq s = refl

  -- The demo's tiers, the agreement of maps and store, and the two providers of AS 2001.
  pub record IsDemo (b : Builder S) : Type 0 where
    pub linked : IsLinked b
    pub tiers : tiers b.graph ≡ (tier1_list, numbered 2001 24, numbered 3001 120, [], [], [])
    pub first : answer b.rel 2001 1001 ≡ provider
    pub second : answer b.rel 2001 1002 ≡ provider

  assigned-IsLinked : (s : S) → IsLinked (assigned s)
  unfolding assigned bgpulse.Base.Table.lookup
  assigned-IsLinked s = record { providers = λ a. tt; customers = λ a. tt; peers = λ a. tt }

  before_first : S → Builder S
  unfolding assigned
  before_first s = link_tier1 rng (assigned s)

  first_answers :
      (s : S)
      → (answer (home_first rng (before_first s) 2001).rel 2001 1001 ≡ provider)
        × (answer (home_first rng (before_first s) 2001).rel 2001 1002 ≡ provider)
  unfolding before_first home_first link_tier1 link_tier1_from edges_to edge assigned numbered
      rel_lookup add_rel add_neighbor Relationships.build bgpulse.Base.Table.lookup
      bgpulse.Base.Table.insert bgpulse.Base.Table.add invert PairKey-discrete RelStatus-discrete
      record_adjacency link ℕ_discrete
  first_answers s = (refl, refl)

  first-tiers :
      (s : S) → tiers (home_first rng (before_first s) 2001).graph ≡ tiers (assigned s).graph
  unfolding before_first
  first-tiers s =
      (home_first-IsGrown rng (before_first s) 2001).same
      ∙ (link_tier1-IsGrown rng (assigned s)).same

  first-linked : (s : S) → IsLinked (home_first rng (before_first s) 2001)
  unfolding before_first
  first-linked s =
      (home_first-IsGrown rng (before_first s) 2001).linked
        ((link_tier1-IsGrown rng (assigned s)).linked (assigned-IsLinked s))

  transit-first : (s : S) → (before_first s).graph.transit ≡ 2001 ∷ numbered 2002 23
  unfolding before_first assigned numbered
  transit-first s = ap (λ p. p.1) (link_tier1-IsGrown rng (assigned s)).same

  link_transit_homed :
      (fuel : ℕ) (b : Builder S) (t : Asn) (ts : List Asn) (b1 : Builder S)
      → b.graph.transit ≡ t ∷ ts
      → home_transits rng fuel (home_first rng b t) ts ≡ some b1
      → link_transit rng fuel b ≡ some (link_peers rng b1 b1.graph.transit)
  unfolding link_transit
  link_transit_homed fuel b t ts b1 e h = ground arith

  link_all_linked :
      (fuel : ℕ) (s : S) (b : Builder S)
      → link_transit rng fuel (before_first s) ≡ some b
      → link_all rng fuel s ≡ some (link_stubs rng b)
  unfolding link_all before_first
  link_all_linked fuel s b h = ground (arith, assign_asns-eq s)

  IsGrown-IsDemo :
      (s : S) (b : Builder S) → IsGrown (home_first rng (before_first s) 2001) b → IsDemo b
  unfolding assigned numbered
  IsGrown-IsDemo s b g = record {
    linked = g.linked (first-linked s);
    tiers = g.same ∙ first-tiers s;
    first = g.known provider 2001 1001 (λ e. cc) (first_answers s).0;
    second = g.known provider 2001 1002 (λ e. cc) (first_answers s).1;
  }

  -- When the generator varies, the linking ends, and every AS number, relationship and adjacency
  -- is as the scenarios need it.
  pub link_all_total :
      (fuel : ℕ) (s : S)
      → IsRng rng
      → IsVaried fuel
      → (b : Builder S) × (link_all rng fuel s ≡ some b) × IsDemo b
  unfolding assigned numbered
  link_all_total fuel s w v =
      let b0 = home_first rng (before_first s) 2001 in
      let (b1, homed) =
        home_transits_total fuel b0 (numbered 2002 23) w v (ap (λ p. p.0) (first-tiers s)) in
      let b2 = link_peers rng b1 b1.graph.transit in
      let made : link_transit rng fuel (before_first s) ≡ some b2 =
        link_transit_homed fuel (before_first s) 2001 (numbered 2002 23) b1 (transit-first s)
          homed in
      (
        link_stubs rng b2,
        link_all_linked fuel s b2 made,
        IsGrown-IsDemo s (link_stubs rng b2) (
            IsGrown-trans
              (link_transit-IsGrown_first rng fuel (before_first s) 2001 (numbered 2002 23)
                (transit-first s) made)
              (link_stubs-IsGrown rng b2)),
      )
