-- ===== src/Synth/World.antt =====
-- BuildDefault of synth/topology.go as a whole: it returns, and what the demo's stores hold.
use Prim.Native.String.{String}
use mathlib.Core.Path.{subst}
use bgpulse.Base.{ℕ, ◌≡◌, refl, sym, ap, ◌∙◌, arith, ◌≢◌, All-imp, true, some, List, [], ◌∷◌, All}
use bgpulse.Base.Table.{lookup, member}
use bgpulse.Bgp.Types.{Asn, RelStatus, provider, customer, peer}
use bgpulse.Relationships
use bgpulse.Relationships.{RelStore, rel_lookup, set_name}
use bgpulse.Rpki
use bgpulse.Rpki.{Vrp, Vrp-discrete}
use bgpulse.Rpki.Spec.{new_builder-IsIndex}
use bgpulse.Synth.{tier1_names, adjacent, Rng, IsRng, Graph, SynthTopology, Builder}
use bgpulse.Synth.Numbering.{numbered, transit_name, stub_name}
use bgpulse.Synth.Prefixes.{
  roa_vrp, build_vrp, finalize_rel, name_tier1, name_all, allocate_prefixes, link_all,
  build_default, has_prefix,
}
use bgpulse.Synth.Adjacency.{IsAdjacent, answer}
use bgpulse.Synth.Built.{IsVaried, IsDemo, link_all_total, tier1_list}
use bgpulse.Synth.Allocation.{IsBlock, Held, frame}
use bgpulse.Synth.Ready.{IsReady, allocate_prefixes-IsReady}
use bgpulse.Synth.Roas.{IsRoas, add_roas_total}

-- Names do not touch the edges.
edges-set_name :
    (rb : Relationships.Builder) (a : Asn) (text : String) → (set_name rb a text).edges ≡ rb.edges
unfolding set_name
edges-set_name rb a String.[] = refl
edges-set_name rb a (String.◌∷◌ c text) = refl

edges-name_all :
    (text : Asn → String) (l : List Asn) (rb : Relationships.Builder)
    → (name_all text l rb).edges ≡ rb.edges
unfolding name_all
edges-name_all text [] rb = refl
edges-name_all text (a ∷ l) rb =
    edges-name_all text l (set_name rb a (text a)) ∙ edges-set_name rb a (text a)

edges-name_tier1 :
    (rb : Relationships.Builder) (l : List Asn) (names : List String)
    → (name_tier1 rb l names).edges ≡ rb.edges
unfolding name_tier1
edges-name_tier1 rb [] names = refl
edges-name_tier1 rb (a ∷ l) [] = refl
edges-name_tier1 rb (a ∷ l) (text ∷ names) =
    edges-name_tier1 (set_name rb a text) l names ∙ edges-set_name rb a text

rel_lookup-edges :
    (s s' : RelStore) (a c : Asn) → s.edges ≡ s'.edges → rel_lookup s a c ≡ rel_lookup s' a c
unfolding rel_lookup
rel_lookup-edges s s' a c e =
    ap (λ edges. rel_lookup (record { edges = edges; names = []; degrees = [] }) a c) e

rel_lookup-finalize :
    (rb : Relationships.Builder) (g : Graph) (a c : Asn)
    → rel_lookup (finalize_rel rb g) a c ≡ answer rb a c
unfolding finalize_rel Relationships.build
rel_lookup-finalize rb g a c = rel_lookup-edges (finalize_rel rb g) (Relationships.build rb) a c (
    edges-name_all stub_name g.stubs _
    ∙ (edges-name_all transit_name g.transit _ ∙ edges-name_tier1 rb g.tier1 tier1_names))

-- The demo as the scenarios need it.
pub record IsWorld (t : SynthTopology) : Type 0 where
  pub adjacent : IsAdjacent (rel_lookup t.rel) t.graph
  pub first : rel_lookup t.rel 2001 1001 ≡ provider
  pub second : rel_lookup t.rel 2001 1002 ≡ provider
  pub tier1 : t.graph.tier1 ≡ tier1_list
  pub transit : t.graph.transit ≡ numbered 2001 24
  pub stubs : t.graph.stubs ≡ numbered 3001 120
  pub held : Held t.graph
  pub owners : All (λ a. has_prefix t.graph a ≡ true) t.graph.originables
  pub some_owner : t.graph.originables ≢ []
  pub first_owns : has_prefix t.graph 1001 ≡ true
  pub blocks : All IsBlock t.graph.roa_prefixes
  pub vb : Rpki.Builder
  pub store : t.vrp ≡ Rpki.build vb
  pub roas : IsRoas t.graph vb
  pub listed :
      All (λ p. member Vrp-discrete (roa_vrp t.graph p) vb.seen ≡ true) t.graph.roa_prefixes

-- The agreement is about the maps and the answers alone.
IsAdjacent-same :
    (rl rl' : Asn → Asn → RelStatus) (g g' : Graph)
    → ((a c : Asn) → rl' a c ≡ rl a c)
    → frame g' ≡ frame g
    → IsAdjacent rl g
    → IsAdjacent rl' g'
IsAdjacent-same rl rl' g g' same e w = record {
  providers = λ a. moved provider (λ f. f.0.0) a (w.providers a);
  customers = λ a. moved customer (λ f. f.0.1) a (w.customers a);
  peers = λ a. moved peer (λ f. f.0.2) a (w.peers a);
}
  where
    moved :
        (r : RelStatus)
        (part : (List (Asn × List Asn) × List (Asn × List Asn) × List (Asn × List Asn))
            × (List Asn × List Asn × List Asn)
          → List (Asn × List Asn))
        (a : Asn)
        → All (λ c. rl a c ≡ r) (adjacent (part (frame g)) a)
        → All (λ c. rl' a c ≡ r) (adjacent (part (frame g')) a)
    moved r part a h =
        subst (λ f. All (λ c. rl' a c ≡ r) (adjacent (part f) a)) (sym e)
          (All-imp _ _ _ (λ c q. same a c ∙ q) h)

build_vrp_total :
    (g : Graph)
    → All IsBlock g.roa_prefixes
    → (vb : Rpki.Builder) × (build_vrp g ≡ some (Rpki.build vb))
      × IsRoas g vb
      × All (λ p. member Vrp-discrete (roa_vrp g p) vb.seen ≡ true) g.roa_prefixes
unfolding build_vrp member
build_vrp_total g h =
    let (vb, made, roas, keeps, listed) =
      add_roas_total g g.roa_prefixes Rpki.new_builder h
        (record { index = new_builder-IsIndex; owned = λ w e. absurd (empty w e) }) in
    (vb, ground arith, roas, listed)
  where
    empty : (w : Vrp) → member Vrp-discrete w [] ≢ true
    empty w e = cc

module _ {S : Type 0} (rng : Rng S) where
  build_default_built :
      (fuel : ℕ) (s : S) (b : Builder S) (vb : Rpki.Builder)
      → link_all rng fuel s ≡ some b
      → build_vrp (allocate_prefixes rng b).graph ≡ some (Rpki.build vb)
      → build_default rng fuel s
        ≡ some (record {
          graph = (allocate_prefixes rng b).graph;
          rel = finalize_rel b.rel (allocate_prefixes rng b).graph;
          vrp = Rpki.build vb;
        })
  unfolding build_default allocate_prefixes
  build_default_built fuel s b vb h k = ground arith

  IsDemo-Held : (b : Builder S) → IsDemo rng b → Held b.graph
  unfolding lookup
  IsDemo-Held b d a = rw (ap (λ t. t.5) d.tiers) tt

  -- When `IntN` stays in its range and, from every state, some number of draws from the tier-1 ASes
  -- holds two different ones, BuildDefault returns after that many draws for each upstream choice:
  -- the maps that make the paths agree with the relationships that the classifier looks up, AS 2001
  -- has the providers 1001 and 1002, every AS that originates owns a prefix, and the VRP store is
  -- in step with one exact VRP for each prefix with a ROA and its owner.
  pub build_default_total :
      (fuel : ℕ) (s : S)
      → IsRng rng
      → IsVaried rng fuel
      → (t : SynthTopology) × (build_default rng fuel s ≡ some t) × IsWorld t
  build_default_total fuel s w v =
      let (b, linked, demo) = link_all_total rng fuel s w v in
      let g = (allocate_prefixes rng b).graph in
      let ready : IsReady rng b.graph g =
        allocate_prefixes-IsReady rng b 1001 (numbered 1002 5) (ap (λ t. t.0) demo.tiers)
          (ap (λ t. t.3) demo.tiers) (ap (λ t. t.4) demo.tiers) (IsDemo-Held b demo) in
      let (vb, stored, roas, listed) = build_vrp_total g ready.blocks in
      let same = rel_lookup-finalize b.rel g in
      (
        record { graph = g; rel = finalize_rel b.rel g; vrp = Rpki.build vb },
        build_default_built fuel s b vb linked stored,
        record {
          adjacent =
              IsAdjacent-same (answer b.rel) (rel_lookup (finalize_rel b.rel g)) b.graph g same
                ready.frames demo.linked;
          first = same 2001 1001 ∙ demo.first;
          second = same 2001 1002 ∙ demo.second;
          tier1 = ap (λ f. f.1.0) ready.frames ∙ ap (λ t. t.0) demo.tiers;
          transit = ap (λ f. f.1.1) ready.frames ∙ ap (λ t. t.1) demo.tiers;
          stubs = ap (λ f. f.1.2) ready.frames ∙ ap (λ t. t.2) demo.tiers;
          held = ready.held;
          owners = ready.owners;
          some_owner = ready.some_owner;
          first_owns = ready.first_owns 1001 (numbered 1002 5) (ap (λ t. t.0) demo.tiers);
          blocks = ready.blocks;
          vb = vb;
          store = refl;
          roas = roas;
          listed = listed;
        },
      )
