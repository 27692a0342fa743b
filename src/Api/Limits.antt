-- ===== src/Api/Limits.antt =====
-- parseLimit of api/rest.go.
use Prim.Native.String.{String}
use mathlib.Core.Path.{subst}
use bgpulse.Base.{
  min, max, true, ◌⊎◌, ℕ, ◌≤◌, ◌≡◌, ◌↔◌, arith, false, none, some, Bool-cases, Option-cases, inl,
  inr,
}
use bgpulse.Base.Text.{ℤ, pos, negsuc, is_empty, atoi}
use bgpulse.Api.{clamp, parse_limit, edge_limit}

clamp_range : (max : ℕ) (z : ℤ) → 1 ≤ max → (1 ≤ clamp max z) × (clamp max z ≤ max)
unfolding clamp
clamp_range max (pos n) h = (ground arith, ground arith)
clamp_range max (negsuc n) h = (ground arith, ground arith)

-- A limit that is taken lies in its range.
pub parse_limit_range :
    (def max : ℕ) (q : String) {n : ℕ}
    → 1 ≤ def
    → def ≤ max
    → parse_limit def max q ≡ some n
    → (1 ≤ n) × (n ≤ max)
unfolding parse_limit
parse_limit_range def max q {n} a b h = elim (Bool-cases (is_empty q)) [
  | inl e ↦ (ground arith, ground arith)
  | inr e ↦ elim (Option-cases (atoi q)) [
    | inl f ↦ absurd (ground arith)
    | inr (z, f) ↦ ground (arith, clamp_range max z (omega arith))
  ]
]

-- Only a limit that is given and is no integer of 64 bits is refused.
pub parse_limit-none_iff :
    (def max : ℕ) (q : String)
    → (parse_limit def max q ≡ none) ↔ ((is_empty q ≡ false) × (atoi q ≡ none))
unfolding parse_limit
parse_limit-none_iff def max q = ((λ h. ground arith), (λ h. ground arith))

-- A given limit, raised to 1 and lowered to 1000.
abbrev pub Clamped : ℤ → ℕ → Type 0
Clamped (pos n) limit = limit ≡ max 1 (min n 1000)
Clamped (negsuc n) limit = limit ≡ 1

-- The default where no limit is given, else the given one.
abbrev pub LimitOf : ℕ → String → ℕ → Type 0
LimitOf def q limit =
    ((is_empty q ≡ true) × (limit ≡ def))
    ⊎ ((z : ℤ) × (is_empty q ≡ false) × (atoi q ≡ some z) × Clamped z limit)

clamp-Clamped : (z : ℤ) → Clamped z (clamp 1000 z)
unfolding clamp
clamp-Clamped (pos n) = ground arith
clamp-Clamped (negsuc n) = ground arith

pub parse_limit-LimitOf :
    (def : ℕ) (q : String) {n : ℕ} → parse_limit def 1000 q ≡ some n → LimitOf def q n
unfolding parse_limit
parse_limit-LimitOf def q {n} h = elim (Bool-cases (is_empty q)) [
  | inl e ↦ inl (e, ground arith)
  | inr e ↦ elim (Option-cases (atoi q)) [
    | inl f ↦ absurd (ground arith)
    | inr (z, f) ↦
        let same : clamp 1000 z ≡ n = ground arith in
        inr (z, e, f, subst (Clamped z) same (clamp-Clamped z))
  ]
]

-- The limit of an edge, whose default serves a text that is no integer, too.
abbrev pub EdgeLimitOf : String → ℕ → Type 0
EdgeLimitOf q limit = LimitOf 50 q limit ⊎ ((is_empty q ≡ false) × (atoi q ≡ none) × (limit ≡ 50))

pub edge_limit-EdgeLimitOf : (q : String) → EdgeLimitOf q (edge_limit q)
edge_limit-EdgeLimitOf q = elim (Option-cases (parse_limit 50 1000 q)) [
  | inl e ↦
      let (given, text) = (parse_limit-none_iff 50 1000 q).0 e in inr (given, text, ground arith)
  | inr (n, e) ↦
      let same : n ≡ edge_limit q = ground arith in
      inl (subst (LimitOf 50 q) same (parse_limit-LimitOf 50 q e))
]
