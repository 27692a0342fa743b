-- ===== src/Synth.antt =====
-- backend/internal/synth/topology.go: the demo topology and its construction.
pub mod Numbering
pub mod Paths
pub mod Prefixes
pub mod Generator
pub mod Adjacency
pub mod Built
pub mod Hills
pub mod Liveness
mod Tests
pub mod Next
pub mod Events
pub mod Stream
pub mod Draws
pub mod Scenarios
pub mod World
pub mod Hijacks
pub mod Roas
pub mod Allocation
pub mod Ready
pub mod ValleyFreePaths
pub mod Growth
use Prim.Native.String.{String}
use bgpulse.Base.{
  ℕ, zero, suc, ◌+◌, ◌%◌, ◌≡◌, Bool, true, false, ◌&&◌, not, Option, none, some, List, [], ◌∷◌,
  ◌++◌, length, get_or, leb, ltb, ◌==◌, if◌then◌else◌, ℕ_discrete,
}
use bgpulse.Base.Table.{lookup, insert, member}
use bgpulse.Bgp.Types.{Asn, RelStatus, unknown, customer, provider, peer, sibling}
use bgpulse.Bgp.Net.{Prefix}
use bgpulse.Rpki.{VrpStore}
use bgpulse.Relationships
use bgpulse.Relationships.{RelStore, add_rel, set_name}
use bgpulse.Synth.Numbering.{numbered}

-- What the package uses of a seeded math/rand/v2 generator, whose state is of the type `S`: `IntN`,
-- which panics on 0, and the test `Float64() < p` for a probability in hundredths.
pub record Rng (S : Type 0) : Type 0 where
  pub int_n : S → ℕ → ℕ × S
  pub below : S → ℕ → Bool × S

-- The documented range of `IntN`.
pub record IsRng {S : Type 0} (rng : Rng S) : Type 0 where
  pub in_range : (s : S) (n : ℕ) → ltb 0 n ≡ true → ltb (rng.int_n s n).0 n ≡ true

abbrev pub tier1_base : ℕ
tier1_base = 1001

abbrev pub tier1_count : ℕ
tier1_count = 6

abbrev pub transit_base : ℕ
transit_base = 2001

abbrev pub transit_count : ℕ
transit_count = 24

abbrev pub stub_base : ℕ
stub_base = 3001

abbrev pub stub_count : ℕ
stub_count = 120

abbrev pub peer_prob : ℕ
peer_prob = 15

abbrev pub extra_upstream_prob : ℕ
extra_upstream_prob = 30

abbrev pub sibling_every : ℕ
sibling_every = 17

abbrev pub tier1_names : List String
tier1_names = "Arelion" ∷ "Lumen" ∷ "Cogent" ∷ "GTT" ∷ "Telia" ∷ "NTT" ∷ []

-- `Topology`, less the two stores that `BuildDefault` sets at its end.
pub record Graph : Type 0 where
  pub tier1 : List Asn
  pub transit : List Asn
  pub stubs : List Asn
  pub providers_of : List (Asn × List Asn)
  pub customers_of : List (Asn × List Asn)
  pub peers_of : List (Asn × List Asn)
  pub owner_prefixes : List (Asn × List Prefix)
  pub prefix_owner : List (Prefix × Asn)
  pub originables : List Asn
  pub roa_prefixes : List Prefix

pub record SynthTopology : Type 0 where
  pub graph : Graph
  pub rel : RelStore
  pub vrp : VrpStore

abbrev pub empty_graph : Graph
empty_graph = record {
  tier1 = [];
  transit = [];
  stubs = [];
  providers_of = [];
  customers_of = [];
  peers_of = [];
  owner_prefixes = [];
  prefix_owner = [];
  originables = [];
  roa_prefixes = [];
}

-- A missing key of the map is the empty slice.
abbrev pub adjacent : {V : Type 0} → List (Asn × List V) → Asn → List V
adjacent m a = elim (lookup ℕ_discrete a m) [ none ↦ [] | some l ↦ l ]

-- `m[a] = append(m[a], c)`
unfoldable pub link : {V : Type 0} → Asn → V → List (Asn × List V) → List (Asn × List V)
link a c m = insert ℕ_discrete a (adjacent m a ++ (c ∷ [])) m

-- `builder`
pub record Builder (S : Type 0) : Type 0 where
  pub rng : S
  pub rel : Relationships.Builder
  pub graph : Graph

unfoldable pub record_adjacency : Asn → Asn → RelStatus → Graph → Graph
record_adjacency a c customer g = record g {
  customers_of = link a c g.customers_of;
  providers_of = link c a g.providers_of;
}
record_adjacency a c provider g = record g {
  providers_of = link a c g.providers_of;
  customers_of = link c a g.customers_of;
}
record_adjacency a c peer g = record g { peers_of = link c a (link a c g.peers_of) }
record_adjacency a c sibling g = g
record_adjacency a c unknown g = g

-- `pool[i]`. An index out of range, which IntN does not return, gives the first element.
abbrev pub element {ℓ} : {A : Type ℓ} → A → List A → ℕ → A
element x xs i = get_or (x ∷ xs) i x

module _ {S : Type 0} (rng : Rng S) where
  -- `pool[rng.IntN(len(pool))]` for a pool that is not empty.
  unfoldable pub draw {ℓ} : {A : Type ℓ} → A → List A → S → A × S
  draw x xs s = let (i, s') = rng.int_n s (length (x ∷ xs)) in (element x xs i, s')

  -- `edge`: a relationship that the builder refuses leaves everything as it was.
  unfoldable pub edge : Builder S → Asn → Asn → RelStatus → Builder S
  edge b a c rel =
      let (rb, err) = add_rel b.rel a c rel in
      elim err [
        | some _ ↦ record b { rel = rb }
        | none ↦ record b { rel = rb; graph = record_adjacency a c rel b.graph }
      ]

  unfoldable pub assign_asns : Builder S → Builder S
  assign_asns b = record b {
    graph = record b.graph {
      tier1 = b.graph.tier1 ++ numbered tier1_base tier1_count;
      transit = b.graph.transit ++ numbered transit_base transit_count;
      stubs = b.graph.stubs ++ numbered stub_base stub_count;
    };
  }

  -- The edges from `a` to every AS of a list, in its order.
  unfoldable pub edges_to : Builder S → Asn → List Asn → RelStatus → Builder S
  edges_to b a [] rel = b
  edges_to b a (c ∷ cs) rel = edges_to (edge b a c rel) a cs rel

  unfoldable pub link_tier1_from : Builder S → List Asn → Builder S
  link_tier1_from b [] = b
  link_tier1_from b (a ∷ rest) = link_tier1_from (edges_to b a rest peer) rest

  unfoldable pub link_tier1 : Builder S → Builder S
  unfolding link_tier1_from
  link_tier1 b = link_tier1_from b b.graph.tier1

  -- The loop of `pickDistinct`, of at most `fuel` draws; `none` where it still goes on.
  unfoldable pub pick_loop : ℕ → Asn → List Asn → ℕ → List Asn → S → Option (List Asn × S)
  pick_loop zero x xs n out s = if leb n (length out) then some (out, s) else none
  pick_loop (suc fuel) x xs n out s =
      let (v, s') = draw x xs s in
      let rest =
        pick_loop fuel x xs n (if member ℕ_discrete v out then out else out ++ (v ∷ [])) s' in
      if leb n (length out) then some (out, s) else rest

  unfoldable pub pick_distinct : ℕ → List Asn → ℕ → S → Option (List Asn × S)
  unfolding pick_loop
  pick_distinct fuel [] n s = some ([], s)
  pick_distinct fuel (x ∷ xs) n s =
      if leb (length (x ∷ xs)) n then some (x ∷ xs, s) else pick_loop fuel x xs n [] s

  -- The providers of the transit AS `t`, which is not the first.
  unfoldable pub home_transit : ℕ → Builder S → Asn → Option (Builder S)
  home_transit fuel b t =
      let (i, s) = rng.int_n b.rng 2 in
      elim (pick_distinct fuel b.graph.tier1 (1 + i) s) [
        | none ↦ none
        | some (picked, s') ↦ some (edges_to (record b { rng = s' }) t picked provider)
      ]

  unfoldable pub home_transits : ℕ → Builder S → List Asn → Option (Builder S)
  home_transits fuel b [] = some b
  home_transits fuel b (t ∷ ts) = elim (home_transit fuel b t) [
    | none ↦ none
    | some b' ↦ home_transits fuel b' ts
  ]

  unfoldable pub maybe_peers : Builder S → Asn → List Asn → Builder S
  maybe_peers b a [] = b
  maybe_peers b a (c ∷ cs) =
      let (hit, s) = rng.below b.rng peer_prob in
      let b' : Builder S = record b { rng = s } in
      maybe_peers (if hit then edge b' a c peer else b') a cs

  unfoldable pub link_peers : Builder S → List Asn → Builder S
  link_peers b [] = b
  link_peers b (a ∷ rest) = link_peers (maybe_peers b a rest) rest

  -- `b.t.Tier1[0]` and `b.t.Tier1[1]`, which the demo topology has.
  unfoldable pub home_first : Builder S → Asn → Builder S
  unfolding edge
  home_first b t =
      edge (edge b t (get_or b.graph.tier1 0 0) provider) t (get_or b.graph.tier1 1 0) provider

  unfoldable pub link_transit : ℕ → Builder S → Option (Builder S)
  unfolding home_first home_transits link_peers
  link_transit fuel b = elim b.graph.transit [
    | [] ↦ some b
    | t ∷ ts ↦ elim (home_transits fuel (home_first b t) ts) [
      | none ↦ none
      | some b' ↦ some (link_peers b' b'.graph.transit)
    ]
  ]

  -- The second upstream of a stub.
  unfoldable pub second_upstream : Builder S → Asn → Asn → Asn → List Asn → Builder S
  second_upstream b stub first x xs =
      let (second, s) = draw x xs b.rng in
      let b' : Builder S = record b { rng = s } in
      if second == first then b' else edge b' stub second provider

  -- Every 17th stub is a sibling of the next one.
  unfoldable pub link_sibling : Builder S → ℕ → Asn → List Asn → Builder S
  link_sibling b idx stub [] = b
  link_sibling b idx stub (next ∷ _) =
      if idx % sibling_every == 0 then edge b stub next sibling else b

  unfoldable pub link_stub : Builder S → ℕ → Asn → List Asn → Asn → List Asn → Builder S
  unfolding second_upstream link_sibling
  link_stub b idx stub later x xs =
      let (first, s) = draw x xs b.rng in
      let b1 = edge (record b { rng = s }) stub first provider in
      let (hit, s') = rng.below b1.rng extra_upstream_prob in
      let b2 : Builder S = record b1 { rng = s' } in
      let b3 = if hit then second_upstream b2 stub first x xs else b2 in
      link_sibling b3 idx stub later

  unfoldable pub link_stubs_from : Builder S → ℕ → List Asn → Asn → List Asn → Builder S
  link_stubs_from b idx [] x xs = b
  link_stubs_from b idx (stub ∷ later) x xs =
      link_stubs_from (link_stub b idx stub later x xs) (idx + 1) later x xs

  -- Without transit ASes, where Go panics, no stub is linked.
  unfoldable pub link_stubs_of : Builder S → List Asn → Builder S
  unfolding link_stubs_from
  link_stubs_of b [] = b
  link_stubs_of b (x ∷ xs) = link_stubs_from b 0 b.graph.stubs x xs

  unfoldable pub link_stubs : Builder S → Builder S
  unfolding link_stubs_of
  link_stubs b = link_stubs_of b b.graph.transit
