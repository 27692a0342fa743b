-- ===== src/Synth/Prefixes.antt =====
-- backend/internal/synth/prefixes.go, and BuildDefault of topology.go: the prefixes of the demo's
-- ASes, the VRPs for them, and the whole construction.
use Prim.Native.String.{String}
use bgpulse.Base.{
  ℕ, ◌+◌, ◌%◌, ◌^◌, Bool, true, false, Option, none, some, List, [], ◌∷◌, ◌++◌, ◌==◌, if◌then◌else◌,
}
use bgpulse.Base.Table.{lookup, insert}
use bgpulse.Bgp.Types.{Asn}
use bgpulse.Bgp.Net.{Prefix, Prefix-discrete, ip4, masked, prefix_from}
use bgpulse.Relationships
use bgpulse.Relationships.{RelStore, set_name}
use bgpulse.Rpki
use bgpulse.Rpki.{VrpStore, Vrp, add_vrp, ok, refused, fault}
use bgpulse.Synth.{
  Rng, Graph, SynthTopology, Builder, empty_graph, adjacent, link, tier1_names, assign_asns,
  link_tier1, link_transit, link_stubs,
}
use bgpulse.Synth.Numbering.{transit_name, stub_name}

abbrev pub roa_skip_every : ℕ
roa_skip_every = 5

abbrev pub second_prefix_prob : ℕ
second_prefix_prob = 40

abbrev pub p16 : ℕ → ℕ → Prefix
p16 a b = masked (prefix_from (ip4 (a ∷ b ∷ 0 ∷ 0 ∷ [])) 16)

abbrev pub p24 : ℕ → ℕ → ℕ → Prefix
p24 a b c = masked (prefix_from (ip4 (a ∷ b ∷ c ∷ 0 ∷ [])) 24)

-- The closure `alloc`, with its counter `idx`.
unfoldable pub alloc : ℕ × Graph → Asn → Prefix → ℕ × Graph
alloc (idx, g) owner p = elim (lookup Prefix-discrete p g.prefix_owner) [
  | some _ ↦ (idx, g)
  | none ↦ (
    idx + 1,
    record g {
      prefix_owner = insert Prefix-discrete p owner g.prefix_owner;
      owner_prefixes = link owner p g.owner_prefixes;
      roa_prefixes =
          if idx % roa_skip_every == 4 then g.roa_prefixes else g.roa_prefixes ++ (p ∷ []);
    },
  )
]

-- One prefix `a.i.0.0/16` for each AS, `i` its place.
unfoldable pub alloc_16 : ℕ → ℕ → List Asn → ℕ × Graph → ℕ × Graph
unfolding alloc
alloc_16 a i [] st = st
alloc_16 a i (asn ∷ rest) st = alloc_16 a (i + 1) rest (alloc st asn (p16 a (i % 2 ^ 8)))

abbrev pub some_prefix : List Prefix → Bool
some_prefix [] = false
some_prefix (_ ∷ _) = true

abbrev pub has_prefix : Graph → Asn → Bool
has_prefix g asn = some_prefix (adjacent g.owner_prefixes asn)

unfoldable pub keep : (Asn → Bool) → List Asn → List Asn
keep f [] = []
keep f (asn ∷ rest) = let kept = keep f rest in if f asn then asn ∷ kept else kept

abbrev pub all_asns_in_order : Graph → List Asn
all_asns_in_order g = g.tier1 ++ (g.transit ++ g.stubs)

module _ {S : Type 0} (rng : Rng S) where
  unfoldable pub alloc_stubs : ℕ → List Asn → ℕ × Graph → S → (ℕ × Graph) × S
  unfolding alloc
  alloc_stubs k [] st s = (st, s)
  alloc_stubs k (asn ∷ rest) st s =
      let st1 = alloc st asn (p24 100 0 (k % 2 ^ 8)) in
      let (hit, s') = rng.below s second_prefix_prob in
      let st2 = if hit then alloc st1 asn (p24 101 0 (k % 2 ^ 8)) else st1 in
      alloc_stubs (k + 1) rest st2 s'

  unfoldable pub allocate_prefixes : Builder S → Builder S
  unfolding alloc_16 alloc_stubs keep
  allocate_prefixes b =
      let g = b.graph in
      let st = alloc_16 12 0 g.transit (alloc_16 11 0 g.tier1 (0, g)) in
      let ((_, g'), s) = alloc_stubs 0 g.stubs st b.rng in
      record b {
        rng = s;
        graph = record g' { originables = keep (has_prefix g') (all_asns_in_order g') };
      }

-- The names of a tier, by a list that is long enough.
unfoldable pub name_tier1 : Relationships.Builder → List Asn → List String → Relationships.Builder
name_tier1 rb [] names = rb
name_tier1 rb (asn ∷ rest) [] = rb
name_tier1 rb (asn ∷ rest) (text ∷ names) = name_tier1 (set_name rb asn text) rest names

unfoldable pub name_all : (Asn → String) → List Asn → Relationships.Builder → Relationships.Builder
name_all text [] rb = rb
name_all text (asn ∷ rest) rb = name_all text rest (set_name rb asn (text asn))

unfoldable pub finalize_rel : Relationships.Builder → Graph → RelStore
unfolding name_tier1 name_all
finalize_rel rb g = Relationships.build (
    name_all stub_name g.stubs
      (name_all transit_name g.transit (name_tier1 rb g.tier1 tier1_names)))

abbrev pub owner_of : Graph → Prefix → Asn
owner_of g p = elim (lookup Prefix-discrete p g.prefix_owner) [ none ↦ 0 | some owner ↦ owner ]

-- `uint8(p.Bits())`; an invalid prefix has -1 bits.
abbrev pub bits_of : Prefix → ℕ
bits_of p = elim p.bits [ none ↦ 255 | some n ↦ n ]

-- The VRP of the exact length for a prefix and its owner.
abbrev pub roa_vrp : Graph → Prefix → Vrp
roa_vrp g p = record { prefix = p; max_length = bits_of p; origin_as = owner_of g p }

-- The loop of `buildVRP`: an error of Add is passed over, and `none` is a panic.
unfoldable pub add_roas : Graph → List Prefix → Rpki.Builder → Option Rpki.Builder
add_roas g [] vb = some vb
add_roas g (p ∷ rest) vb = elim (add_vrp vb (roa_vrp g p)) [
  | ok vb' ↦ add_roas g rest vb'
  | refused _ ↦ add_roas g rest vb
  | fault ↦ none
]

unfoldable pub build_vrp : Graph → Option VrpStore
unfolding add_roas
build_vrp g = elim (add_roas g g.roa_prefixes Rpki.new_builder) [
  | none ↦ none
  | some vb ↦ some (Rpki.build vb)
]

module _ {S : Type 0} (rng : Rng S) where
  -- The builder before the first edge.
  abbrev pub start : S → Builder S
  start s = record { rng = s; rel = Relationships.new_builder; graph = empty_graph }

  -- The edges of the demo topology, where each `pickDistinct` has at most `fuel` draws.
  unfoldable pub link_all : ℕ → S → Option (Builder S)
  link_all fuel s = elim (link_transit rng fuel (link_tier1 rng (assign_asns rng (start s)))) [
    | none ↦ none
    | some b ↦ some (link_stubs rng b)
  ]

  -- `BuildDefault`, from the generator's state that the seed gives.
  unfoldable pub build_default : ℕ → S → Option SynthTopology
  unfolding link_all
  build_default fuel s = elim (link_all fuel s) [
    | none ↦ none
    | some b ↦
        let b' = allocate_prefixes rng b in
        elim (build_vrp b'.graph) [
          | none ↦ none
          | some vrp ↦
              some (record { graph = b'.graph; rel = finalize_rel b'.rel b'.graph; vrp = vrp })
        ]
  ]
