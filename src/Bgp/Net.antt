-- ===== src/Bgp/Net.antt =====
-- The part of Go's net/netip that the program uses: addresses as bytes, prefixes, masking, bits.
use bgpulse.Base.{
  ℕ, ◌-◌, ◌/◌, ◌%◌, ◌^◌, ◌≡◌, Bool, true, false, ◌&&◌, Option, none, some, List, [], ◌∷◌, length,
  take, drop, leb, ◌==◌, if◌then◌else◌, ℕ_discrete,
}

-- `netip.Addr`: the zero value, 4 bytes, or 16 bytes (which may be an IPv4-mapped address).
pub data Addr : Type 0 where
  invalid : Addr
  ip4 : List ℕ → Addr
  ip6 : List ℕ → Addr

-- `netip.Prefix`; the bits are `none` where the Go value is not valid.
pub record Prefix : Type 0 where
  pub addr : Addr
  pub bits : Option ℕ

unfoldable pub Addr-discrete : Discrete Addr
Addr-discrete = hlevel ℕ_discrete

unfoldable pub Prefix-discrete : Discrete Prefix
unfolding Addr-discrete
Prefix-discrete = hlevel (ℕ_discrete, Addr-discrete)

-- `Addr.Is6`, which holds of an IPv4-mapped address too.
abbrev pub is6 : Addr → Bool
is6 (ip6 b) = true
is6 (ip4 b) = false
is6 invalid = false

abbrev pub bit_len : Addr → ℕ
bit_len (ip6 b) = 128
bit_len (ip4 b) = 32
bit_len invalid = 0

abbrev pub all_zero : List ℕ → Bool
all_zero [] = true
all_zero (b ∷ bs) = b == 0 && all_zero bs

abbrev pub all_ones : List ℕ → Bool
all_ones [] = true
all_ones (b ∷ bs) = b == 255 && all_ones bs

-- The bytes of `::ffff:0:0/96`.
abbrev pub is_mapped : List ℕ → Bool
is_mapped bytes = all_zero (take 10 bytes) && all_ones (take 2 (drop 10 bytes))

-- `Addr.Unmap`
unfoldable pub unmap : Addr → Addr
unmap (ip6 bytes) = if is_mapped bytes then ip4 (drop 12 bytes) else ip6 bytes
unmap (ip4 bytes) = ip4 bytes
unmap invalid = invalid

-- The first `n` bits of the bytes; the others are cleared.
unfoldable pub mask_bytes : ℕ → List ℕ → List ℕ
mask_bytes n [] = []
mask_bytes n (b ∷ bs) = (if leb 8 n then b else b - b % 2 ^ (8 - n)) ∷ mask_bytes (n - 8) bs

abbrev pub mask_addr : ℕ → Addr → Addr
mask_addr n (ip6 bytes) = ip6 (mask_bytes n bytes)
mask_addr n (ip4 bytes) = ip4 (mask_bytes n bytes)
mask_addr n invalid = invalid

abbrev pub is_addr : Addr → Bool
is_addr invalid = false
is_addr (ip4 b) = true
is_addr (ip6 b) = true

-- `netip.PrefixFrom`
unfoldable pub prefix_from : Addr → ℕ → Prefix
prefix_from a n = record {
  addr = a;
  bits = if is_addr a && leb n (bit_len a) then some n else none;
}

abbrev pub zero_prefix : Prefix
zero_prefix = record { addr = invalid; bits = none }

-- `Prefix.Masked`
unfoldable pub masked : Prefix → Prefix
unfolding prefix_from
masked p = elim p.bits [ none ↦ zero_prefix | some n ↦ prefix_from (mask_addr n p.addr) n ]

-- The bit of weight `2 ^ (7 - k)` of a byte.
abbrev pub bit_of : ℕ → ℕ → ℕ
bit_of byte k = byte / 2 ^ (7 - k) % 2

-- An address of the right number of bytes, as every netip.Addr is.
abbrev pub IsAddr : Addr → Type 0
IsAddr (ip4 b) = length b ≡ 4
IsAddr (ip6 b) = length b ≡ 16
IsAddr invalid = Unit
