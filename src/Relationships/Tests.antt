-- ===== src/Relationships/Tests.antt =====
-- Concrete pairs for relationships/store.go: AS1 sells transit to AS2.

use bgpulse.Base.{◌≡◌, refl, none, some, length, ℕ_discrete}
use bgpulse.Base.Table.{lookup, insert, add}
use bgpulse.Bgp.Types.{RelStatus-discrete, customer, provider, peer, invert}
use bgpulse.Relationships.{
  Builder, PairKey-discrete, new_builder, add_rel, add_neighbor, rel_lookup, build, degree,
  neighbors_of, conflict,
}
use bgpulse.Relationships.Degrees.{degree-build}

abbrev one_pair : Builder
unfolding add_rel add_neighbor lookup insert add invert PairKey-discrete ℕ_discrete
    RelStatus-discrete
one_pair = (add_rel new_builder 2 1 provider).0

one_pair_inverted : rel_lookup (build one_pair) 1 2 ≡ customer
unfolding rel_lookup build add_rel add_neighbor lookup insert add invert PairKey-discrete ℕ_discrete
    RelStatus-discrete
one_pair_inverted = refl

one_pair_conflicts :
    (add_rel one_pair 1 2 peer).1 ≡ some (conflict (record { lo = 1; hi = 2 }) customer peer)
unfolding add_rel add_neighbor lookup insert add invert PairKey-discrete ℕ_discrete
    RelStatus-discrete
one_pair_conflicts = refl

one_pair_repeats : (add_rel one_pair 1 2 customer).1 ≡ none
unfolding add_rel add_neighbor lookup insert add invert PairKey-discrete ℕ_discrete
    RelStatus-discrete
one_pair_repeats = refl

new_pair_accepted : (add_rel one_pair 1 3 peer).1 ≡ none
unfolding add_rel add_neighbor lookup insert add invert PairKey-discrete ℕ_discrete
    RelStatus-discrete
new_pair_accepted = refl

degree-build_example : degree (build one_pair) 1 ≡ length (neighbors_of one_pair 1)
degree-build_example = degree-build one_pair 1
