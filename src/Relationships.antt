-- ===== src/Relationships.antt =====
-- backend/internal/relationships/store.go: the AS-relationship store and its builder.
pub mod Lookups
pub mod Adds
pub mod Degrees
pub mod Loading
mod Tests
use Prim.Native.String.{String}
use bgpulse.Base.{
  ℕ, suc, ◌≡◌, Bool, true, false, Option, none, some, List, [], ◌∷◌, length, ltb, ◌==◌,
  if◌then◌else◌, ite, ℕ_discrete, map,
}
use bgpulse.Base.Table.{lookup, insert, add}
use bgpulse.Bgp.Types.{
  Asn, RelStatus, RelStatus-discrete, unknown, customer, provider, peer, sibling, invert,
}

-- A canonical pair, `lo <= hi`.
pub record PairKey : Type 0 where
  pub lo : Asn
  pub hi : Asn

unfoldable pub PairKey-discrete : Discrete PairKey
PairKey-discrete = hlevel ℕ_discrete

pub record RelStore : Type 0 where
  pub edges : List (PairKey × RelStatus)
  pub names : List (Asn × String)
  pub degrees : List (Asn × ℕ)

pub record Builder : Type 0 where
  pub edges : List (PairKey × RelStatus)
  pub neighbors : List (Asn × List Asn)
  pub names : List (Asn × String)

pub data AddError : Type 0 where
  self_pair : Asn → AddError
  conflict : PairKey → RelStatus → RelStatus → AddError

-- The canonical key of a pair, and whether the two are swapped in it.
abbrev pub canonical : Asn → Asn → PairKey × Bool
canonical a b =
    if ltb b a then (record { lo = b; hi = a }, true) else (record { lo = a; hi = b }, false)

abbrev pub oriented : Bool → RelStatus → RelStatus
oriented swapped rel = if swapped then invert rel else rel

unfoldable pub rel_lookup : RelStore → Asn → Asn → RelStatus
rel_lookup s a b =
    if a == b
    then sibling
    else let (key, swapped) = canonical a b in
      elim (lookup PairKey-discrete key s.edges) [
        | none ↦ unknown
        | some rel ↦ oriented swapped rel
      ]

-- A missing name is the empty text.
unfoldable pub name : RelStore → Asn → String
name s asn = elim (lookup ℕ_discrete asn s.names) [ none ↦ "" | some text ↦ text ]

unfoldable pub degree : RelStore → Asn → ℕ
degree s asn = elim (lookup ℕ_discrete asn s.degrees) [ none ↦ 0 | some d ↦ d ]

unfoldable pub size : RelStore → ℕ
size s = length s.edges

abbrev pub new_builder : Builder
new_builder = record { edges = []; neighbors = []; names = [] }

-- The neighbors recorded of `a`; a missing set is empty.
abbrev pub neighbors_of : Builder → Asn → List Asn
neighbors_of b a = elim (lookup ℕ_discrete a b.neighbors) [ none ↦ [] | some set ↦ set ]

unfoldable pub add_neighbor : Builder → Asn → Asn → Builder
add_neighbor b a c = record b {
  neighbors = insert ℕ_discrete a (add ℕ_discrete c (neighbors_of b a)) b.neighbors;
}

-- `Add`; the builder is as it was beside an error.
unfoldable pub add_rel : Builder → Asn → Asn → RelStatus → Builder × Option AddError
unfolding add_neighbor
add_rel b a c rel =
    if a == c
    then (b, some (self_pair a))
    else let (key, swapped) = canonical a c in
      let canon = oriented swapped rel in
      elim (lookup PairKey-discrete key b.edges) [
        | some existing ↦
            ite (RelStatus-discrete existing canon) (b, none)
              (b, some (conflict key existing canon))
        | none ↦
            let b' : Builder = record b { edges = insert PairKey-discrete key canon b.edges } in
            (add_neighbor (add_neighbor b' a c) c a, none)
      ]

-- `SetName`: an empty name is not recorded.
unfoldable pub set_name : Builder → Asn → String → Builder
set_name b asn text = elim text [
  | String.[] ↦ b
  | String.◌∷◌ c rest ↦ record b { names = insert ℕ_discrete asn (String.◌∷◌ c rest) b.names }
]

unfoldable pub build : Builder → RelStore
build b = record {
  edges = b.edges;
  names = b.names;
  degrees = map (λ e. (e.0, length e.1)) b.neighbors;
}
