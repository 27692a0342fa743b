-- ===== src/Rpki/Adds.antt =====
-- Add of rpki/store.go returns for every VRP whose maxLength is in range, and records it.
use bgpulse.Base.{
  ℕ, zero, suc, ◌+◌, ◌-◌, ◌<◌, ◌≤◌, ◌≡◌, ◌≢◌, refl, ap, ◌∙◌, true, none, some, List, [], ◌∷◌,
  if◌then◌else◌, length, length-drop, arith, Bool-cases, Option-cases, inl, inr, ite,
}
use bgpulse.Base.Table.{member, member-add}
use bgpulse.Bgp.Net.{
  Addr, ip4, ip6, invalid, Prefix, is6, unmap, IsAddr, bit_len, is_addr, masked, mask_bytes,
  mask_addr, prefix_from, is_mapped,
}
use bgpulse.Rpki.{
  Vrp, Vrp-discrete, Trie, child, with_child, bit_at, Builder, ok, add_vrp, add_masked, mask_vrp,
  place, max_bits_v4, max_bits_v6,
}
use bgpulse.Rpki.Paths.{bit_at-in_range}
use bgpulse.Rpki.Spec.{IsPrefix, indexed}

place_total :
    (w : Addr) (v : Vrp) (k d : ℕ) (t : Trie)
    → ((i : ℕ) → i < d + k → bit_at w i ≢ none)
    → (t' : Trie) × (place w v k d t ≡ some t')
unfolding place
place_total w v zero d Trie.nil h = (_, refl)
place_total w v zero d (Trie.node vs l r) h = (_, refl)
place_total w v (suc k) d t h = elim (Option-cases (bit_at w d)) [
  | inl e ↦ absurd (h d (omega arith) e)
  | inr (b, e) ↦
      let (c, p) = place_total w v k (d + 1) (child t b) (λ i lt. h i (omega arith)) in
      (with_child t b c, ground arith)
]

pub length-mask_bytes : (n : ℕ) (bs : List ℕ) → length (mask_bytes n bs) ≡ length bs
unfolding mask_bytes
length-mask_bytes n [] = refl
length-mask_bytes n (b ∷ bs) = ap suc (length-mask_bytes (n - 8) bs)

unmap-IsAddr : (a : Addr) → IsAddr a → IsAddr (unmap a)
unfolding unmap
unmap-IsAddr (ip4 bytes) h = h
unmap-IsAddr (ip6 bytes) h = elim (Bool-cases (is_mapped bytes)) [
  | inl e ↦ rw e (omega (arith, length-drop 12 bytes))
  | inr e ↦ rw e h
]
unmap-IsAddr invalid h = h

masked-IsAddr : (p : Prefix) (n : ℕ) → p.bits ≡ some n → IsAddr p.addr → IsAddr (masked p).addr
unfolding masked prefix_from
masked-IsAddr p n e w = rw e (go p.addr w)
  where
    go : (a : Addr) → IsAddr a → IsAddr (mask_addr n a)
    go (ip4 b) h = length-mask_bytes n b ∙ h
    go (ip6 b) h = length-mask_bytes n b ∙ h
    go invalid h = tt

masked-is_addr :
    (p : Prefix) (n : ℕ)
    → p.bits ≡ some n
    → is_addr p.addr ≡ true
    → is_addr (unmap (masked p).addr) ≡ true
unfolding masked prefix_from unmap
masked-is_addr p n e w = rw e (go p.addr w)
  where
    go : (a : Addr) → is_addr a ≡ true → is_addr (unmap (mask_addr n a)) ≡ true
    go (ip4 b) h = refl
    go (ip6 b) h = ground arith
    go invalid h = cc

-- The longest prefix of a family, as Add tests it.
abbrev pub max_bits : Addr → ℕ
max_bits a = if is6 a then max_bits_v6 else max_bits_v4

max_bits-le : (a : Addr) → is_addr a ≡ true → max_bits a ≤ bit_len a
max_bits-le (ip4 b) h = omega arith
max_bits-le (ip6 b) h = omega arith
max_bits-le invalid h = cc

add_masked_total :
    (b : Builder) (v : Vrp) (pl : ℕ)
    → IsAddr (unmap v.prefix.addr)
    → is_addr (unmap v.prefix.addr) ≡ true
    → pl ≤ bit_len (unmap v.prefix.addr)
    → (b' : Builder) × (add_masked b v pl ≡ ok b')
      × ((w : Vrp)
          → member Vrp-discrete w b'.seen
            ≡ ite (Vrp-discrete v w) true (member Vrp-discrete w b.seen))
unfolding add_masked
add_masked_total b v pl w h le = elim (Bool-cases (member Vrp-discrete v b.seen)) [
  | inl e ↦ (b, rw e, λ x. elim (Vrp-discrete v x) [ yes p ↦ ground arith | no n ↦ ground arith ])
  | inr e ↦
      let a = unmap v.prefix.addr in
      let root : Trie = if is6 a then b.v6 else b.v4 in
      let (t, p) = place_total a v pl 0 root (λ i lt. bit_at-in_range a i w h (omega arith)) in
      (indexed b v t, rw (e, p), λ x. member-add Vrp-discrete v x b.seen)
]

-- A VRP of a valid prefix whose maxLength lies between the prefix length and the longest of the
-- family is taken without a panic; after it the builder knows this VRP, masked, and the VRPs of
-- before.
pub add_vrp_total :
    (b : Builder) (v : Vrp) (pl : ℕ)
    → IsPrefix v.prefix
    → v.prefix.bits ≡ some pl
    → pl ≤ v.max_length
    → v.max_length ≤ max_bits (unmap (masked v.prefix).addr)
    → (b' : Builder) × (add_vrp b v ≡ ok b')
      × ((w : Vrp)
          → member Vrp-discrete w b'.seen
            ≡ ite (Vrp-discrete (mask_vrp v) w) true (member Vrp-discrete w b.seen))
unfolding add_vrp
add_vrp_total b v pl w e lo hi =
    let m = mask_vrp v in
    let a = unmap m.prefix.addr in
    let reach = masked-is_addr v.prefix pl e w.1 in
    let (b', made, knows) =
      add_masked_total b m pl (unmap-IsAddr _ (masked-IsAddr v.prefix pl e w.0)) reach
        (omega (arith, max_bits-le a reach)) in
    (b', ground arith, knows)
