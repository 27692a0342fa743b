-- ===== src/Rpki/Paths.antt =====
-- The VRPs that the descent of Validate (rpki/store.go) meets, and what it makes of them.
use bgpulse.Base.{
  ℕ, zero, suc, ◌+◌, ◌<◌, ◌≡◌, ◌≢◌, refl, true, Option, none, some, List, [], ◌∷◌, ◌++◌,
  get_elem?-ne-none, arith, ◌/◌,
}
use bgpulse.Bgp.Types.{Asn}
use bgpulse.Bgp.Net.{Addr, ip4, ip6, invalid, IsAddr, bit_len, is_addr}
use bgpulse.Rpki.{Vrp, Trie, nil, node, bit_at, scan_vrps, descend}

-- The VRPs on the way of `n` more bits of an address from depth `d`.
unfoldable pub path_vrps : Addr → ℕ → ℕ → Trie → List Vrp
path_vrps addr n d nil = []
path_vrps addr zero d (node vs l r) = vs
path_vrps addr (suc n) d (node vs l r) = vs ++ (elim (bit_at addr d) [
  | none ↦ []
  | some zero ↦ path_vrps addr n (d + 1) l
  | some (suc _) ↦ path_vrps addr n (d + 1) r
])

scan_vrps-append :
    (p_bits : ℕ) (origin : Asn) (vs ws : List Vrp) (acc : ℕ × Option Vrp)
    → scan_vrps p_bits origin (vs ++ ws) acc
      ≡ scan_vrps p_bits origin ws (scan_vrps p_bits origin vs acc)
unfolding scan_vrps
scan_vrps-append p_bits origin [] ws acc = refl
scan_vrps-append p_bits origin (v ∷ vs) ws acc = scan_vrps-append p_bits origin vs ws _

-- In a well-formed address every bit below its length can be read.
pub bit_at-in_range :
    (a : Addr) (d : ℕ) → IsAddr a → is_addr a ≡ true → d < bit_len a → bit_at a d ≢ none
unfolding bit_at
bit_at-in_range (ip4 bytes) d w v h = ground (arith, get_elem?-ne-none bytes (d / 8) (omega arith))
bit_at-in_range (ip6 bytes) d w v h = ground (arith, get_elem?-ne-none bytes (d / 8) (omega arith))
bit_at-in_range invalid d w v h = cc

-- Where every bit on the way can be read, the descent is a scan of the VRPs on the way.
pub descend-eq-scan :
    (addr : Addr) (p_bits : ℕ) (origin : Asn) (n d : ℕ) (t : Trie) (acc : ℕ × Option Vrp)
    → p_bits ≡ d + n
    → ((i : ℕ) → i < p_bits → bit_at addr i ≢ none)
    → descend addr p_bits origin t d acc ≡ some (scan_vrps p_bits origin (path_vrps addr n d t) acc)
unfolding descend path_vrps scan_vrps
descend-eq-scan addr p_bits origin n d nil acc e h = refl
descend-eq-scan addr p_bits origin zero d (node vs l r) acc e h = ground arith
descend-eq-scan addr p_bits origin (suc n) d (node vs l r) acc e h = ground (
  arith,
  h d,
  scan_vrps-append p_bits origin vs (path_vrps addr n (d + 1) l) acc,
  scan_vrps-append p_bits origin vs (path_vrps addr n (d + 1) r) acc,
  descend-eq-scan addr p_bits origin n (d + 1) l (scan_vrps p_bits origin vs acc) (omega arith) h,
  descend-eq-scan addr p_bits origin n (d + 1) r (scan_vrps p_bits origin vs acc) (omega arith) h,
)
