-- ===== src/Relationships/Degrees.antt =====
-- The neighbor sets that Add of relationships/store.go keeps beside the edges, and the degrees
-- that Build takes from them.
use mathlib.Core.Path.{subst}
use bgpulse.Base.{
  is_some, ◌≡◌, refl, arith, ◌≢◌, none, some, true, false, ◌==◌, if◌then◌else◌, ap, sym, ◌&&◌, ◌⊎◌,
  inl, inr, List, [], ◌∷◌, length, map, ℕ_discrete,
}
use bgpulse.Base.Table.{
  lookup, insert, lookup-insert, add, member, member-add, IsDistinct, add-IsDistinct,
}
use bgpulse.Bgp.Types.{Asn, RelStatus}
use bgpulse.Relationships.{
  Builder, PairKey-discrete, canonical, oriented, add_rel, add_neighbor, neighbors_of, new_builder,
  build, degree,
}
use bgpulse.Relationships.Adds.{entry, same_pair, entry-add}

-- An AS is in the neighbor set of another exactly when the pair has an entry.
pub record IsConsistent (b : Builder) : Type 0 where
  pub agrees :
      (x y : Asn)
      → member ℕ_discrete y (neighbors_of b x) ≡ (if x == y then false else is_some (entry b x y))
  pub distinct : (x : Asn) → IsDistinct ℕ_discrete (neighbors_of b x)

neighbors_of-add :
    (b : Builder) (a c x y : Asn)
    → member ℕ_discrete y (neighbors_of (add_neighbor b a c) x)
      ≡ (if a == x && c == y then true else member ℕ_discrete y (neighbors_of b x))
unfolding add_neighbor member
neighbors_of-add b a c x y = ground (
  arith,
  lookup-insert ℕ_discrete a x (add ℕ_discrete c (neighbors_of b a)) b.neighbors,
  member-add ℕ_discrete c y (neighbors_of b a),
)

neighbors_of_cases :
    (b : Builder) (a c x : Asn)
    → (neighbors_of (add_neighbor b a c) x ≡ add ℕ_discrete c (neighbors_of b a))
      ⊎ (neighbors_of (add_neighbor b a c) x ≡ neighbors_of b x)
unfolding add_neighbor
neighbors_of_cases b a c x =
    ground (arith, lookup-insert ℕ_discrete a x (add ℕ_discrete c (neighbors_of b a)) b.neighbors)

IsDistinct-add :
    (b : Builder) (a c x : Asn)
    → ((z : Asn) → IsDistinct ℕ_discrete (neighbors_of b z))
    → IsDistinct ℕ_discrete (neighbors_of (add_neighbor b a c) x)
IsDistinct-add b a c x d = elim (neighbors_of_cases b a c x) [
  | inl e ↦
      subst (IsDistinct ℕ_discrete) (sym e) (add-IsDistinct ℕ_discrete c (neighbors_of b a) (d a))
  | inr e ↦ subst (IsDistinct ℕ_discrete) (sym e) (d x)
]

pub new_builder-IsConsistent : IsConsistent new_builder
unfolding lookup member entry
new_builder-IsConsistent = record { agrees = λ x y. ground arith; distinct = λ x. tt }

-- The builder that an accepted Add of a new pair makes.
added : Builder → Asn → Asn → RelStatus → Builder
added b a c rel =
    let (key, swapped) = canonical a c in
    add_neighbor
      (add_neighbor
        (record b { edges = insert PairKey-discrete key (oriented swapped rel) b.edges }) a c)
      c a

add_rel_cases :
    (b : Builder) (a c : Asn) (rel : RelStatus)
    → ((add_rel b a c rel).0 ≡ b)
      ⊎ ((a ≢ c) × ((add_rel b a c rel).1 ≡ none) × ((add_rel b a c rel).0 ≡ added b a c rel))
unfolding add_rel added
add_rel_cases b a c rel = ground arith

added-IsDistinct :
    (b : Builder) (a c : Asn) (rel : RelStatus) (x : Asn)
    → IsConsistent b
    → IsDistinct ℕ_discrete (neighbors_of (added b a c rel) x)
unfolding added
added-IsDistinct b a c rel x v = IsDistinct-add _ c a x (λ z. IsDistinct-add _ a c z v.distinct)

added-agrees :
    (b : Builder) (a c : Asn) (rel : RelStatus) (x y : Asn)
    → a ≢ c
    → IsConsistent b
    → member ℕ_discrete y (neighbors_of (added b a c rel) x)
      ≡ (if x == y then false else (if same_pair a c x y then true else is_some (entry b x y)))
unfolding added
added-agrees b a c rel x y n v =
    let (key, swapped) = canonical a c in
    let b' : Builder = record b {
      edges = insert PairKey-discrete key (oriented swapped rel) b.edges;
    } in
    ground (
      arith,
      neighbors_of-add (add_neighbor b' a c) c a x y,
      neighbors_of-add b' a c x y,
      v.agrees x y,
    )

-- Every Add, accepted or refused, keeps the neighbor sets in step with the edges.
pub add_rel-IsConsistent :
    (b : Builder) (a c : Asn) (rel : RelStatus)
    → IsConsistent b
    → IsConsistent (add_rel b a c rel).0
add_rel-IsConsistent b a c rel v = elim (add_rel_cases b a c rel) [
  | inl same ↦ rw same v
  | inr (n, accepted, new) ↦ record {
    agrees = λ x y. ground (
      arith,
      added-agrees b a c rel x y n v,
      entry-add b a c rel x y accepted,
      ap (λ z. member ℕ_discrete y (neighbors_of z x)) new,
    );
    distinct = λ x. rw new (added-IsDistinct b a c rel x v);
  }
]

lookup-lengths :
    (asn : Asn) (m : List (Asn × List Asn))
    → (elim (lookup ℕ_discrete asn (map (λ e. (e.0, length e.1)) m)) [ none ↦ 0 | some d ↦ d ])
      ≡ length (elim (lookup ℕ_discrete asn m) [ none ↦ [] | some set ↦ set ])
unfolding lookup
lookup-lengths asn [] = refl
lookup-lengths asn ((a, set) ∷ m) = ground (arith, lookup-lengths asn m)

-- The degree of an AS in the built store is the size of its neighbor set.
pub degree-build : (b : Builder) (x : Asn) → degree (build b) x ≡ length (neighbors_of b x)
unfolding degree build
degree-build b x = lookup-lengths x b.neighbors
