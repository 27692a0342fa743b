-- ===== src/Rpki/Mapped.antt =====
-- Validate of rpki/store.go on an IPv4-mapped IPv6 prefix: the address is unmapped, the number of
-- bits is not.
use mathlib.Core.Option
use bgpulse.Base.{
  ℕ, zero, suc, ◌+◌, ◌<◌, ◌≡◌, ◌≢◌, refl, sym, ap, ◌∙◌, Option, none, some, List, [], ◌∷◌, length,
  arith, Option-cases, inl, inr,
}
use bgpulse.Bgp.Types.{Asn}
use bgpulse.Bgp.Net.{Addr, ip4, Prefix, unmap}
use bgpulse.Rpki.{Vrp, Trie, nil, node, bit_at, scan_vrps, descend, verdict, validate, VrpStore}

-- What is left of a trie after `n` bits of an address from depth `d`.
unfoldable pub subtree : Addr → ℕ → ℕ → Trie → Trie
subtree addr n d nil = nil
subtree addr zero d (node vs l r) = node vs l r
subtree addr (suc n) d (node vs l r) = elim (bit_at addr d) [
  | none ↦ nil
  | some zero ↦ subtree addr n (d + 1) l
  | some (suc _) ↦ subtree addr n (d + 1) r
]

descend_panics :
    (addr : Addr) (p_bits : ℕ) (origin : Asn) (n d : ℕ) (t : Trie) (acc : ℕ × Option Vrp)
    → d + n < p_bits
    → bit_at addr (d + n) ≡ none
    → subtree addr n d t ≢ nil
    → descend addr p_bits origin t d acc ≡ none
unfolding descend subtree
descend_panics addr p_bits origin n d nil acc lt h s = absurd (s refl)
descend_panics addr p_bits origin zero d (node vs l r) acc lt h s =
    let e : d + zero ≡ d = omega arith in
    let h' : bit_at addr d ≡ none = ap (bit_at addr) (sym e) ∙ h in ground arith
descend_panics addr p_bits origin (suc n) d (node vs l r) acc lt h s =
    let e : d + suc n ≡ (d + 1) + n = omega arith in
    let h' : bit_at addr ((d + 1) + n) ≡ none = ap (bit_at addr) (sym e) ∙ h in
    elim (Option-cases (bit_at addr d)) [
      | inl b ↦ absurd (s (rw (b, subtree)))
      | inr (zero, b) ↦ ground (
        arith,
        descend_panics addr p_bits origin n (d + 1) l (scan_vrps p_bits origin vs acc) (omega arith)
            h' (λ x. s (rw (b, subtree) x)),
      )
      | inr (suc k, b) ↦ ground (
        arith,
        descend_panics addr p_bits origin n (d + 1) r (scan_vrps p_bits origin vs acc) (omega arith)
            h' (λ x. s (rw (b, subtree) x)),
      )
    ]

-- Validate panics, with an index out of range in bitAt, on every IPv4-mapped prefix of more than 32
-- bits whose IPv4 address has a node at depth 32 in the IPv4 trie, as a VRP for that host makes.
pub validate_panics :
    (s : VrpStore) (p : Prefix) (n : ℕ) (origin : Asn) (bytes : List ℕ)
    → p.bits ≡ some n
    → 32 < n
    → unmap p.addr ≡ ip4 bytes
    → length bytes ≡ 4
    → subtree (ip4 bytes) 32 0 s.v4 ≢ nil
    → validate s p origin ≡ none
unfolding validate bit_at
validate_panics s p n origin bytes e lt u w deep =
    rw (e, u)
      (ap (Option.map verdict)
        (descend_panics (ip4 bytes) n origin 32 0 s.v4 (0, none) (omega arith) (past bytes w) deep))
  where
    past : (bs : List ℕ) → length bs ≡ 4 → bit_at (ip4 bs) 32 ≡ none
    past (a ∷ b ∷ c ∷ d ∷ []) h = refl
    past (a ∷ b ∷ c ∷ d ∷ e ∷ bs) h = absurd (omega arith)
    past [] h = absurd (omega arith)
    past (a ∷ []) h = absurd (omega arith)
    past (a ∷ b ∷ []) h = absurd (omega arith)
    past (a ∷ b ∷ c ∷ []) h = absurd (omega arith)
