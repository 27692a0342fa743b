-- ===== src/Relationships/Adds.antt =====
-- Add of relationships/store.go: what a later Lookup sees, and when Add refuses.

use bgpulse.Base.{
  Option-cases, inl, inr, ◌≡◌, arith, ◌≢◌, none, some, Option, true, ◌==◌, if◌then◌else◌, ◌&&◌,
  ◌||◌, ◌↔◌, ◌⊎◌, Bool,
}
use bgpulse.Base.Table.{lookup, lookup-insert}
use bgpulse.Bgp.Types.{Asn, RelStatus, unknown, sibling, invert}
use bgpulse.Relationships.{
  Builder, PairKey-discrete, canonical, oriented, rel_lookup, add_rel, add_neighbor, build,
  AddError,
}

-- The unordered pairs are the same.
abbrev pub same_pair : Asn → Asn → Asn → Asn → Bool
same_pair a c x y = (a == x && c == y) || (a == y && c == x)

canonical-eq_iff :
    (a c x y : Asn) → ((canonical a c).0 ≡ (canonical x y).0) ↔ (same_pair a c x y ≡ true)
canonical-eq_iff a c x y = ((λ h. ground arith), (λ h. ground arith))

-- The relationship recorded for a pair, seen from `a`; `none` where the pair has no entry.
unfoldable pub entry : Builder → Asn → Asn → Option RelStatus
entry b a c =
    let (key, swapped) = canonical a c in
    elim (lookup PairKey-discrete key b.edges) [
      | none ↦ none
      | some rel ↦ some (oriented swapped rel)
    ]

-- Add refuses exactly the self-pairs and the pairs that already have another relationship.
pub add_rel-ok_iff :
    (b : Builder) (a c : Asn) (rel : RelStatus)
    → ((add_rel b a c rel).1 ≡ none) ↔ ((a ≢ c) × ((entry b a c ≡ none) ⊎ (entry b a c ≡ some rel)))
unfolding add_rel entry invert
add_rel-ok_iff b a c rel = ((λ h. ground arith), (λ h. ground arith))

-- A refused Add leaves the builder as it was.
pub add_rel_refused :
    (b : Builder) (a c : Asn) (rel : RelStatus) {e : AddError}
    → (add_rel b a c rel).1 ≡ some e
    → (add_rel b a c rel).0 ≡ b
unfolding add_rel
add_rel_refused b a c rel h = ground arith

pub entry-add :
    (b : Builder) (a c : Asn) (rel : RelStatus) (x y : Asn)
    → (add_rel b a c rel).1 ≡ none
    → entry (add_rel b a c rel).0 x y
      ≡ (if same_pair a c x y then some (if a == x then rel else invert rel) else entry b x y)
unfolding entry add_rel add_neighbor invert
entry-add b a c rel x y h = ground (
  arith,
  lookup-insert PairKey-discrete (canonical a c).0 (canonical x y).0
      (oriented (canonical a c).1 rel) b.edges,
  canonical-eq_iff a c x y,
)

rel_lookup-build :
    (b : Builder) (x y : Asn)
    → rel_lookup (build b) x y
      ≡ (if x == y then sibling else elim (entry b x y) [ none ↦ unknown | some rel ↦ rel ])
unfolding rel_lookup build entry
rel_lookup-build b x y = ground arith

-- After an accepted Add of `rel` for the pair `a`, `c` the built store answers `rel` from `a` and
-- its inverse from `c`, and answers for every other pair as before.
pub rel_lookup-add :
    (b : Builder) (a c : Asn) (rel : RelStatus) (x y : Asn)
    → (add_rel b a c rel).1 ≡ none
    → rel_lookup (build (add_rel b a c rel).0) x y ≡ (
        if same_pair a c x y
        then (if a == x then rel else invert rel)
        else rel_lookup (build b) x y)
rel_lookup-add b a c rel x y h = ground (
  arith,
  rel_lookup-build b x y,
  rel_lookup-build (add_rel b a c rel).0 x y,
  entry-add b a c rel x y h,
  (add_rel-ok_iff b a c rel).0 h,
)

-- A known relationship stays, whatever is added, accepted or refused.
pub rel_lookup-add_known :
    (b : Builder) (a c : Asn) (rel r : RelStatus) (x y : Asn)
    → r ≢ unknown
    → rel_lookup (build b) x y ≡ r
    → rel_lookup (build (add_rel b a c rel).0) x y ≡ r
unfolding entry invert
rel_lookup-add_known b a c rel r x y n h = elim (Option-cases (add_rel b a c rel).1) [
  | inl e ↦ ground (
    arith,
    rel_lookup-add b a c rel x y e,
    rel_lookup-build b x y,
    (add_rel-ok_iff b a c rel).0 e,
  )
  | inr (err, e) ↦ rw (add_rel_refused b a c rel e) h
]
