-- ===== src/Rpki.antt =====
-- backend/internal/rpki: the VRPs (vrp.go), their binary tries and RFC 6811 validation (store.go).
pub mod Paths
pub mod Inserts
pub mod Spec
pub mod Answers
pub mod Masks
pub mod Covers
pub mod Adds
pub mod Mapped
pub mod Accepts
pub mod Unordered
pub mod Loading
mod Tests
use mathlib.Core.Option
use bgpulse.Base.{
  ℕ, zero, suc, ◌+◌, ◌/◌, ◌%◌, ◌≡◌, Bool, true, false, ◌&&◌, ◌||◌, not, Option, none, some, List,
  [], ◌∷◌, ◌++◌, get_elem?, leb, ltb, ◌==◌, if◌then◌else◌, ℕ_discrete,
}
use bgpulse.Base.Table.{member, add}
use bgpulse.Bgp.Types.{Asn, RpkiStatus}
use bgpulse.Bgp.Net.{Addr, ip4, ip6, invalid, Prefix, Prefix-discrete, is6, unmap, masked, bit_of}

pub record Vrp : Type 0 where
  pub prefix : Prefix
  pub max_length : ℕ
  pub origin_as : Asn

unfoldable pub Vrp-discrete : Discrete Vrp
unfolding Prefix-discrete
Vrp-discrete = hlevel (ℕ_discrete, Prefix-discrete)

-- The result of one validation. The counter `covering` is at most the size of the store.
pub record Validation : Type 0 where
  pub status : RpkiStatus
  pub matched : Option Vrp
  pub covering : ℕ

abbrev pub max_bits_v4 : ℕ
max_bits_v4 = 32

abbrev pub max_bits_v6 : ℕ
max_bits_v6 = 128

-- `*trieNode`: a nil pointer, or the VRPs of a node and its two children.
pub data Trie : Type 0 where
  nil : Trie
  node : List Vrp → Trie → Trie → Trie

pub record VrpStore : Type 0 where
  pub v4 : Trie
  pub v6 : Trie
  pub size : ℕ

-- `bitAt`; `none` is the panic of an index out of range.
unfoldable pub bit_at : Addr → ℕ → Option ℕ
bit_at (ip4 bytes) d = Option.map (λ byte. bit_of byte (d % 8)) (get_elem? bytes (d / 8))
bit_at (ip6 bytes) d = Option.map (λ byte. bit_of byte (d % 8)) (get_elem? bytes (d / 8))
bit_at invalid d = if ltb d 128 then some 0 else none

abbrev pub matches : ℕ → Asn → Vrp → Bool
matches p_bits origin v = leb p_bits v.max_length && (not (origin == 0) && v.origin_as == origin)

-- The inner loop of `Validate` over the VRPs of a node.
unfoldable pub scan_vrps : ℕ → Asn → List Vrp → ℕ × Option Vrp → ℕ × Option Vrp
scan_vrps p_bits origin [] acc = acc
scan_vrps p_bits origin (v ∷ vs) (covering, matched) =
    scan_vrps p_bits origin vs (covering + 1, if matches p_bits origin v then some v else matched)

-- The descent of `Validate`; `none` is a panic in `bitAt`.
unfoldable pub descend : Addr → ℕ → Asn → Trie → ℕ → ℕ × Option Vrp → Option (ℕ × Option Vrp)
descend addr p_bits origin nil depth acc = some acc
descend addr p_bits origin (node vs l r) depth acc =
    let acc' = scan_vrps p_bits origin vs acc in
    elim (depth == p_bits) [
      | true ↦ some acc'
      | false ↦ elim (bit_at addr depth) [
        | none ↦ none
        | some zero ↦ descend addr p_bits origin l (depth + 1) acc'
        | some (suc _) ↦ descend addr p_bits origin r (depth + 1) acc'
      ]
    ]

-- The last `switch` of `Validate`.
unfoldable pub verdict : ℕ × Option Vrp → Validation
verdict (covering, some v) = record {
  status = RpkiStatus.valid;
  matched = some v;
  covering = covering;
}
verdict (covering, none) =
    if ltb 0 covering
    then record { status = RpkiStatus.invalid; matched = none; covering = covering }
    else record { status = RpkiStatus.not_found; matched = none; covering = 0 }

abbrev pub not_found_result : Validation
not_found_result = record { status = RpkiStatus.not_found; matched = none; covering = 0 }

unfoldable pub validate : VrpStore → Prefix → Asn → Option Validation
unfolding descend scan_vrps verdict
validate s prefix origin = elim prefix.bits [
  | none ↦ some not_found_result
  | some p_bits ↦
      let addr = unmap prefix.addr in
      Option.map verdict (descend addr p_bits origin (if is6 addr then s.v6 else s.v4) 0 (0, none))
]

-- `Builder`. A key of `seen` is the text of a VRP's three fields; the VRP itself stands for it.
pub record Builder : Type 0 where
  pub v4 : Trie
  pub v6 : Trie
  pub size : ℕ
  pub seen : List Vrp

abbrev pub new_builder : Builder
new_builder = record { v4 = nil; v6 = nil; size = 0; seen = [] }

pub data AddError : Type 0 where
  invalid_prefix max_length_out_of_range : AddError

-- What `Add` does: it returns with the builder, with an error, or it panics.
pub data Added : Type 0 where
  ok : Builder → Added
  refused : AddError → Added
  fault : Added

abbrev pub vrps_of : Trie → List Vrp
vrps_of nil = []
vrps_of (node vs l r) = vs

abbrev pub child : Trie → ℕ → Trie
child nil b = nil
child (node vs l r) zero = l
child (node vs l r) (suc _) = r

-- The node, made if there is none, with one child replaced.
abbrev pub with_child : Trie → ℕ → Trie → Trie
with_child nil zero c = node [] c nil
with_child nil (suc _) c = node [] nil c
with_child (node vs l r) zero c = node vs c r
with_child (node vs l r) (suc _) c = node vs l c

-- The loop of `Add` that makes the way down, with the append at its end. The first number is
-- what is left of the prefix length.
unfoldable pub place : Addr → Vrp → ℕ → ℕ → Trie → Option Trie
place addr v zero d nil = some (node (v ∷ []) nil nil)
place addr v zero d (node vs l r) = some (node (vs ++ (v ∷ [])) l r)
place addr v (suc k) d t = elim (bit_at addr d) [
  | none ↦ none
  | some b ↦ Option.map (with_child t b) (place addr v k (d + 1) (child t b))
]

abbrev pub mask_vrp : Vrp → Vrp
mask_vrp v = record v { prefix = masked v.prefix }

-- The part of `Add` after the checks, for a VRP that is masked.
unfoldable pub add_masked : Builder → Vrp → ℕ → Added
unfolding place
add_masked b v pl =
    let addr = unmap v.prefix.addr in
    if member Vrp-discrete v b.seen
    then ok b
    else elim (place addr v pl 0 (if is6 addr then b.v6 else b.v4)) [
      | none ↦ fault
      | some t ↦ ok (record {
        v4 = if is6 addr then b.v4 else t;
        v6 = if is6 addr then t else b.v6;
        size = b.size + 1;
        seen = add Vrp-discrete v b.seen;
      })
    ]

unfoldable pub add_vrp : Builder → Vrp → Added
unfolding add_masked
add_vrp b v = elim v.prefix.bits [
  | none ↦ refused invalid_prefix
  | some pl ↦
      let v' = mask_vrp v in
      let bits = if is6 (unmap v'.prefix.addr) then max_bits_v6 else max_bits_v4 in
      if ltb v.max_length pl || ltb bits v.max_length
      then refused max_length_out_of_range
      else add_masked b v' pl
]

unfoldable pub build : Builder → VrpStore
build b = record { v4 = b.v4; v6 = b.v6; size = b.size }
