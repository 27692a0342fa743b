-- ===== src/Synth/Adjacency.antt =====
-- edge of synth/topology.go: the adjacency maps that make the paths agree with the relationships
-- that the classifier consults.
use mathlib.Core.Path.{subst}
use bgpulse.Base.{
  ite, ◌≡◌, arith, ◌≢◌, none, some, List, [], ◌∷◌, ◌++◌, All, All-append, All-imp, inl, inr,
  Option-cases, ℕ_discrete,
}
use bgpulse.Base.Table.{lookup-insert}
use bgpulse.Bgp.Types.{Asn, RelStatus, unknown, customer, provider, peer, sibling, invert}
use bgpulse.Relationships
use bgpulse.Relationships.{add_rel, rel_lookup}
use bgpulse.Relationships.Adds.{rel_lookup-add, rel_lookup-add_known, add_rel-ok_iff}
use bgpulse.Synth.{Graph, adjacent, link, record_adjacency, Rng, Builder, edge}

-- What the built store answers.
abbrev pub answer : Relationships.Builder → Asn → Asn → RelStatus
answer rb a c = rel_lookup (Relationships.build rb) a c

-- The maps agree with the answers of the store.
pub record IsAdjacent (rl : Asn → Asn → RelStatus) (g : Graph) : Type 0 where
  pub providers : (a : Asn) → All (λ c. rl a c ≡ provider) (adjacent g.providers_of a)
  pub customers : (a : Asn) → All (λ c. rl a c ≡ customer) (adjacent g.customers_of a)
  pub peers : (a : Asn) → All (λ c. rl a c ≡ peer) (adjacent g.peers_of a)

IsAdjacent-add :
    (rb : Relationships.Builder) (a c : Asn) (rel : RelStatus) (g : Graph)
    → IsAdjacent (answer rb) g
    → IsAdjacent (answer (add_rel rb a c rel).0) g
IsAdjacent-add rb a c rel g w = record {
  providers = λ x. All-imp _ _ _ (λ y. keeps provider (λ e. cc) x y) (w.providers x);
  customers = λ x. All-imp _ _ _ (λ y. keeps customer (λ e. cc) x y) (w.customers x);
  peers = λ x. All-imp _ _ _ (λ y. keeps peer (λ e. cc) x y) (w.peers x);
}
  where
    keeps :
        (r : RelStatus)
        → r ≢ unknown
        → (x y : Asn) → answer rb x y ≡ r
        → answer (add_rel rb a c rel).0 x y ≡ r
    keeps r n x y = rel_lookup-add_known rb a c rel r x y n

adjacent-link :
    (a c : Asn) (m : List (Asn × List Asn)) (x : Asn)
    → adjacent (link a c m) x ≡ ite (ℕ_discrete a x) (adjacent m a ++ (c ∷ [])) (adjacent m x)
unfolding link
adjacent-link a c m x = ground (arith, lookup-insert ℕ_discrete a x (adjacent m a ++ (c ∷ [])) m)

All-link :
    (P : Asn → Asn → Type 0) (a c : Asn) (m : List (Asn × List Asn))
    → P a c
    → ((x : Asn) → All (P x) (adjacent m x))
    → (x : Asn) → All (P x) (adjacent (link a c m) x)
All-link P a c m h w x = rw (adjacent-link a c m x) (go (ℕ_discrete a x))
  where
    go : (d : Dec (a ≡ x)) → All (P x) (ite d (adjacent m a ++ (c ∷ [])) (adjacent m x))
    go (yes p) =
        subst (λ y. All (P y) (adjacent m a ++ (c ∷ []))) p
          (All-append (P a) (adjacent m a) (c ∷ []) (w a) (h, tt))
    go (no n) = w x

-- An edge that the store answers, from both ends, may go into the maps.
IsAdjacent-record :
    (rl : Asn → Asn → RelStatus) (a c : Asn) (rel : RelStatus) (g : Graph)
    → rl a c ≡ rel
    → rl c a ≡ invert rel
    → IsAdjacent rl g
    → IsAdjacent rl (record_adjacency a c rel g)
unfolding record_adjacency invert
IsAdjacent-record rl a c customer g h k w = record {
  providers = All-link (λ x y. rl x y ≡ provider) c a g.providers_of k w.providers;
  customers = All-link (λ x y. rl x y ≡ customer) a c g.customers_of h w.customers;
  peers = w.peers;
}
IsAdjacent-record rl a c provider g h k w = record {
  providers = All-link (λ x y. rl x y ≡ provider) a c g.providers_of h w.providers;
  customers = All-link (λ x y. rl x y ≡ customer) c a g.customers_of k w.customers;
  peers = w.peers;
}
IsAdjacent-record rl a c peer g h k w = record {
  providers = w.providers;
  customers = w.customers;
  peers =
      All-link (λ x y. rl x y ≡ peer) c a (link a c g.peers_of) k
        (All-link (λ x y. rl x y ≡ peer) a c g.peers_of h w.peers);
}
IsAdjacent-record rl a c sibling g h k w = w
IsAdjacent-record rl a c unknown g h k w = w

-- A builder whose maps agree with the store that it would build.
abbrev pub IsLinked : {S : Type 0} → Builder S → Type 0
IsLinked b = IsAdjacent (answer b.rel) b.graph

module _ {S : Type 0} (rng : Rng S) (b : Builder S) (a c : Asn) (rel : RelStatus) where
  edge-rel : (edge rng b a c rel).rel ≡ (add_rel b.rel a c rel).0
  unfolding edge
  edge-rel = ground arith

  pub edge-graph : (edge rng b a c rel).graph ≡ elim (add_rel b.rel a c rel).1 [
    | some _ ↦ b.graph
    | none ↦ record_adjacency a c rel b.graph
  ]
  unfolding edge
  edge-graph = ground arith

  -- Every edge, accepted or refused, keeps the adjacency maps of the demo topology in agreement
  -- with the answers of the store that is built.
  pub edge-IsLinked : IsLinked b → IsLinked (edge rng b a c rel)
  edge-IsLinked w =
      rw (edge-rel, edge-graph)
        (elim (Option-cases (add_rel b.rel a c rel).1) [
          | inl e ↦ rw e (
              IsAdjacent-record (answer (add_rel b.rel a c rel).0) a c rel b.graph (forth e)
                (back e) (IsAdjacent-add b.rel a c rel b.graph w))
          | inr (err, e) ↦ rw e (IsAdjacent-add b.rel a c rel b.graph w)
        ])
    where
      forth : (add_rel b.rel a c rel).1 ≡ none → answer (add_rel b.rel a c rel).0 a c ≡ rel
      forth e = ground (arith, rel_lookup-add b.rel a c rel a c e)

      back : (add_rel b.rel a c rel).1 ≡ none → answer (add_rel b.rel a c rel).0 c a ≡ invert rel
      back e =
          ground (arith, rel_lookup-add b.rel a c rel c a e, (add_rel-ok_iff b.rel a c rel).0 e)

  -- What the store knows it keeps.
  pub edge-answer :
      (r : RelStatus) (x y : Asn)
      → r ≢ unknown
      → answer b.rel x y ≡ r
      → answer (edge rng b a c rel).rel x y ≡ r
  edge-answer r x y n h = rw edge-rel (rel_lookup-add_known b.rel a c rel r x y n h)
