-- ===== src/Synth/Ready.antt =====
-- allocatePrefixes of synth/prefixes.go: every AS that originates owns a prefix.
use mathlib.Core.Path.{subst}
use bgpulse.Base.{
  ℕ, ◌+◌, ◌%◌, ◌^◌, ◌≡◌, refl, ap, ◌∙◌, arith, ◌≢◌, Bool, true, false, Option, none, some, List, [],
  ◌∷◌, ◌++◌, if◌then◌else◌, inl, All,
}
use bgpulse.Base.Table.{lookup, insert}
use bgpulse.Bgp.Types.{Asn}
use bgpulse.Bgp.Net.{Prefix, Prefix-discrete}
use bgpulse.Synth.{Rng, Graph, Builder, link}
use bgpulse.Synth.Prefixes.{
  p16, p24, alloc, alloc_16, alloc_stubs, allocate_prefixes, keep, all_asns_in_order, has_prefix,
  second_prefix_prob,
}
use bgpulse.Synth.Allocation.{
  IsBlock, in_11, in_12, in_100, in_101, frame, Held, IsAllocated, owns-link, alloc-IsAllocated,
  IsAllocated-trans, byte_lt, alloc_16-IsAllocated, IsAllocated-if,
}

module _ {S : Type 0} (rng : Rng S) where
  alloc_stubs-IsAllocated :
      (k : ℕ) (l : List Asn) (st : ℕ × Graph) (s : S)
      → IsAllocated st.1 (alloc_stubs rng k l st s).0.1
  unfolding alloc_stubs
  alloc_stubs-IsAllocated k [] st s = record {
    frames = refl;
    owns = λ x e. e;
    held = λ w. w;
    blocks = λ w. w;
  }
  alloc_stubs-IsAllocated k (asn ∷ rest) st s =
      let st1 = alloc st asn (p24 100 0 (k % 2 ^ 8)) in
      let (hit, s') = rng.below s second_prefix_prob in
      let st1' = alloc st1 asn (p24 101 0 (k % 2 ^ 8)) in
      let one = alloc-IsAllocated st.0 st.1 asn (p24 100 0 (k % 2 ^ 8)) (in_100 _ (byte_lt k)) in
      let two =
        IsAllocated-trans one
          (alloc-IsAllocated st1.0 st1.1 asn (p24 101 0 (k % 2 ^ 8)) (in_101 _ (byte_lt k))) in
      IsAllocated-trans (IsAllocated-if hit st.1 st1' st1 two one)
        (alloc_stubs-IsAllocated (k + 1) rest (if hit then st1' else st1) s')

  -- The allocation of a graph whose first tier-1 AS is `a` and that owns nothing yet.
  pub record IsReady (g g' : Graph) : Type 0 where
    pub frames : frame g' ≡ frame g
    pub blocks : All IsBlock g'.roa_prefixes
    pub held : Held g'
    pub owners : All (λ a. has_prefix g' a ≡ true) g'.originables
    pub some_owner : g'.originables ≢ []
    pub first_owns : (a : Asn) (rest : List Asn) → g.tier1 ≡ a ∷ rest → has_prefix g' a ≡ true

  keep-All : (f : Asn → Bool) (l : List Asn) → All (λ a. f a ≡ true) (keep f l)
  unfolding keep
  keep-All f [] = tt
  keep-All f (a ∷ l) = go (f a) refl (keep-All f l)
    where
      go :
          (b : Bool)
          → f a ≡ b
          → All (λ a. f a ≡ true) (keep f l)
          → All (λ a. f a ≡ true) (if b then a ∷ keep f l else keep f l)
      go true e h = (e, h)
      go false e h = h

  -- The graph after the stubs have their prefixes.
  allocated : Builder S → Graph
  allocated b =
      (alloc_stubs rng 0 b.graph.stubs
        (alloc_16 12 0 b.graph.transit (alloc_16 11 0 b.graph.tier1 (0, b.graph))) b.rng).0.1

  allocated-IsAllocated :
      (b : Builder S) (l : List Asn)
      → b.graph.tier1 ≡ l
      → IsAllocated (alloc_16 11 0 l (0, b.graph)).1 (allocated b)
  unfolding allocated
  allocated-IsAllocated b l e =
      subst (λ m. IsAllocated (alloc_16 11 0 m (0, b.graph)).1 (allocated b)) e
        (IsAllocated-trans
          (alloc_16-IsAllocated 12 0 b.graph.transit (alloc_16 11 0 b.graph.tier1 (0, b.graph))
            in_12)
          (alloc_stubs-IsAllocated 0 b.graph.stubs
            (alloc_16 12 0 b.graph.transit (alloc_16 11 0 b.graph.tier1 (0, b.graph))) b.rng))

  keep-ne-nil : (f : Asn → Bool) (a : Asn) (l : List Asn) → f a ≡ true → keep f (a ∷ l) ≢ []
  unfolding keep
  keep-ne-nil f a l e h = ground (arith, e, h)

  first_alloc :
      (g : Graph) (a : Asn) (p : Prefix)
      → lookup Prefix-discrete p g.prefix_owner ≡ none
      → has_prefix (alloc (0, g) a p).1 a ≡ true
  unfolding alloc
  first_alloc g a p e = ap (λ o. has_prefix (alloc_case o) a) e ∙ owns-link g a p a (inl refl)
    where
      alloc_case : Option Asn → Graph
      alloc_case o =
          (elim o as (λ _. ℕ × Graph) [
            | some _ ↦ (0, g)
            | none ↦ (
              1,
              record g {
                prefix_owner = insert Prefix-discrete p a g.prefix_owner;
                owner_prefixes = link a p g.owner_prefixes;
                roa_prefixes = g.roa_prefixes ++ (p ∷ []);
              },
            )
          ]).1

  pub allocate_prefixes-IsReady :
      (b : Builder S) (a : Asn) (rest : List Asn)
      → b.graph.tier1 ≡ a ∷ rest
      → b.graph.prefix_owner ≡ []
      → b.graph.roa_prefixes ≡ []
      → Held b.graph
      → IsReady b.graph (allocate_prefixes rng b).graph
  unfolding allocate_prefixes allocated alloc_16 lookup
  allocate_prefixes-IsReady b a rest e o r w =
      let st = alloc (0, b.graph) a (p16 11 0) in
      let one = alloc-IsAllocated 0 b.graph a (p16 11 0) (in_11 0 (omega arith)) in
      let tier1 = alloc_16-IsAllocated 11 1 rest st in_11 in
      let later : IsAllocated (alloc_16 11 1 rest st).1 (allocated b) =
        allocated-IsAllocated b (a ∷ rest) e in
      let all = IsAllocated-trans tier1 later in
      let first : has_prefix (allocated b) a ≡ true =
        all.owns a (first_alloc b.graph a (p16 11 0) (ap (lookup Prefix-discrete (p16 11 0)) o)) in
      let whole = IsAllocated-trans one all in
      record {
        frames = whole.frames;
        blocks = whole.blocks (rw r tt);
        held = whole.held w;
        owners = keep-All (has_prefix (allocated b)) (all_asns_in_order (allocated b));
        some_owner =
            rw (ap (λ p. p.1.0) whole.frames ∙ e)
              (keep-ne-nil (has_prefix (allocated b)) a _ first);
        first_owns = λ c l h.
            (let same : a ≡ c = cc (e, h) in
              subst (λ x. has_prefix (allocated b) x ≡ true) same first);
      }
