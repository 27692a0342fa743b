-- ===== src/Relationships/Lookups.antt =====
-- Lookup of relationships/store.go seen from both ends of a pair.
use bgpulse.Base.{◌≡◌, refl, arith}
use bgpulse.Bgp.Types.{Asn, RelStatus, unknown, customer, provider, peer, sibling, invert}
use bgpulse.Relationships.{RelStore, rel_lookup}

pub invert-invert : (r : RelStatus) → invert (invert r) ≡ r
unfolding invert
invert-invert unknown = refl
invert-invert customer = refl
invert-invert provider = refl
invert-invert peer = refl
invert-invert sibling = refl

-- A pair of ASes has one relationship: Lookup from the other end is the inverse, for every two
-- ASes, whether the store knows the pair or not.
pub rel_lookup-invert : (s : RelStore) (a b : Asn) → rel_lookup s a b ≡ invert (rel_lookup s b a)
unfolding rel_lookup invert
rel_lookup-invert s a b = ground arith
