-- ===== src/Synth/Hijacks.antt =====
-- makeHijack of synth/scenarios.go against the store of buildVRP: a wrong origin is RPKI-Invalid.

use bgpulse.Base.{
  ℕ, ◌<◌, ◌≤◌, ◌≡◌, refl, sym, ap, ◌∙◌, arith, ◌≢◌, inl, inr, true, false, some, [], ◌∷◌, ◌&&◌,
  Bool-cases,
}
use bgpulse.Base.Table.{member}
use bgpulse.Bgp.Types.{Asn, RpkiStatus}
use bgpulse.Bgp.Net.{
  Prefix, ip4, unmap, masked, prefix_from, mask_bytes, mask_addr, bit_len, IsAddr, is_addr,
}
use bgpulse.Rpki
use bgpulse.Rpki.{Vrp, Vrp-discrete}
use bgpulse.Rpki.Spec.{covers, authorizes, rov}
use bgpulse.Rpki.Covers.{covers_iff, IsBytes}
use bgpulse.Synth.{Graph}
use bgpulse.Synth.Prefixes.{p16, p24, bits_of, roa_vrp, owner_of}
use bgpulse.Synth.Allocation.{IsBlock, in_11, in_12, in_100, in_101}
use bgpulse.Synth.Roas.{IsRoas, count-none, count-some}

octets_eq :
    {a b c d a' b' c' d' : ℕ}
    → ip4 (a ∷ b ∷ c ∷ d ∷ []) ≡ ip4 (a' ∷ b' ∷ c' ∷ d' ∷ [])
    → (a ≡ a') × (b ≡ b') × (c ≡ c')
octets_eq h = (ground arith, ground arith, ground arith)

-- What a covering VRP of the blocks has in common with the covered prefix.
record Agrees (q p : Prefix) : Type 0 where
  shorter : bits_of q ≤ bits_of p
  masks : mask_addr (bits_of q) q.addr ≡ mask_addr (bits_of q) p.addr

Agrees-eq : {q p : Prefix} → IsBlock q → IsBlock p → Agrees q p → q ≡ p
unfolding masked prefix_from mask_bytes
Agrees-eq (in_11 i h) (in_11 j k) w = ap (p16 11) (octets_eq w.masks).1
Agrees-eq (in_12 i h) (in_12 j k) w = ap (p16 12) (octets_eq w.masks).1
Agrees-eq (in_100 i h) (in_100 j k) w = ap (p24 100 0) (octets_eq w.masks).2
Agrees-eq (in_101 i h) (in_101 j k) w = ap (p24 101 0) (octets_eq w.masks).2
Agrees-eq (in_11 i h) (in_12 j k) w =
    absurd (let q : 11 ≡ 12 = (octets_eq w.masks).0 in ground arith)
Agrees-eq (in_11 i h) (in_100 j k) w =
    absurd (let q : 11 ≡ 100 = (octets_eq w.masks).0 in ground arith)
Agrees-eq (in_11 i h) (in_101 j k) w =
    absurd (let q : 11 ≡ 101 = (octets_eq w.masks).0 in ground arith)
Agrees-eq (in_12 i h) (in_11 j k) w =
    absurd (let q : 12 ≡ 11 = (octets_eq w.masks).0 in ground arith)
Agrees-eq (in_12 i h) (in_100 j k) w =
    absurd (let q : 12 ≡ 100 = (octets_eq w.masks).0 in ground arith)
Agrees-eq (in_12 i h) (in_101 j k) w =
    absurd (let q : 12 ≡ 101 = (octets_eq w.masks).0 in ground arith)
Agrees-eq (in_100 i h) (in_101 j k) w =
    absurd (let q : 100 ≡ 101 = (octets_eq w.masks).0 in ground arith)
Agrees-eq (in_101 i h) (in_100 j k) w =
    absurd (let q : 101 ≡ 100 = (octets_eq w.masks).0 in ground arith)
Agrees-eq (in_100 i h) (in_11 j k) w = absurd (let q : 24 ≤ 16 = w.shorter in omega arith)
Agrees-eq (in_100 i h) (in_12 j k) w = absurd (let q : 24 ≤ 16 = w.shorter in omega arith)
Agrees-eq (in_101 i h) (in_11 j k) w = absurd (let q : 24 ≤ 16 = w.shorter in omega arith)
Agrees-eq (in_101 i h) (in_12 j k) w = absurd (let q : 24 ≤ 16 = w.shorter in omega arith)

-- A prefix of the blocks as an address and a length.
pub record IsFour (p : Prefix) : Type 0 where
  pub bytes : IsBytes (unmap p.addr)
  pub plain : unmap p.addr ≡ p.addr
  pub bits : p.bits ≡ some (bits_of p)
  pub fits : bits_of p ≤ bit_len (unmap p.addr)
  pub sized : IsAddr (unmap p.addr)
  pub known : is_addr (unmap p.addr) ≡ true

octets-IsBytes :
    (a b c d : ℕ) → a < 256 → b < 256 → c < 256 → d < 256 → IsBytes (ip4 (a ∷ b ∷ c ∷ d ∷ []))
octets-IsBytes a b c d h i j k = ((h, (i, (j, (k, tt)))), refl)

p16-IsFour : (a i : ℕ) → a < 256 → i < 256 → IsFour (p16 a i)
unfolding masked prefix_from mask_bytes unmap
p16-IsFour a i h k = record {
  bytes = octets-IsBytes a i 0 0 h k (omega arith) (omega arith);
  plain = refl;
  bits = refl;
  fits = omega arith;
  sized = refl;
  known = refl;
}

p24-IsFour : (a i : ℕ) → a < 256 → i < 256 → IsFour (p24 a 0 i)
unfolding masked prefix_from mask_bytes unmap
p24-IsFour a i h k = record {
  bytes = octets-IsBytes a 0 i 0 h (omega arith) k (omega arith);
  plain = refl;
  bits = refl;
  fits = omega arith;
  sized = refl;
  known = refl;
}

pub IsBlock-IsFour : {p : Prefix} → IsBlock p → IsFour p
IsBlock-IsFour (in_11 i h) = p16-IsFour 11 i (omega arith) h
IsBlock-IsFour (in_12 i h) = p16-IsFour 12 i (omega arith) h
IsBlock-IsFour (in_100 i h) = p24-IsFour 100 i (omega arith) h
IsBlock-IsFour (in_101 i h) = p24-IsFour 101 i (omega arith) h

module _ (g : Graph) (vb : Rpki.Builder) (roas : IsRoas g vb) (p : Prefix) (block : IsBlock p) where
  four : IsFour p
  four = IsBlock-IsFour block

  -- A VRP of the store that covers the prefix is the prefix's own.
  covering_is_own :
      (v : Vrp)
      → member Vrp-discrete v vb.seen ≡ true
      → covers (unmap p.addr) (bits_of p) v ≡ true
      → v ≡ roa_vrp g p
  covering_is_own v m c =
      let (vblock, own) = roas.owned v m in
      let vfour = IsBlock-IsFour vblock in
      let (shorter, masks) =
        (covers_iff (unmap p.addr) (bits_of p) (bits_of v.prefix) v vfour.bytes four.bytes
            vfour.bits vfour.fits).0
          c in
      let same : v.prefix ≡ p = Agrees-eq vblock block (record {
        shorter = shorter;
        masks =
            ap (mask_addr (bits_of v.prefix)) (sym vfour.plain)
            ∙ (masks ∙ ap (mask_addr (bits_of v.prefix)) four.plain);
      }) in
      own ∙ ap (roa_vrp g) same

  covers_own : covers (unmap p.addr) (bits_of p) (roa_vrp g p) ≡ true
  covers_own =
      (covers_iff (unmap p.addr) (bits_of p) (bits_of p) (roa_vrp g p) four.bytes four.bytes
          four.bits four.fits).1
        (omega arith, refl)

  -- An AS that is not the owner of a prefix with a ROA announces it: RPKI-Invalid.
  pub rov-wrong_origin :
      (other : Asn)
      → member Vrp-discrete (roa_vrp g p) vb.seen ≡ true
      → other ≢ owner_of g p
      → rov vb.seen (unmap p.addr) (bits_of p) other ≡ RpkiStatus.invalid
  unfolding rov
  rov-wrong_origin other m n = ground (
    arith,
    count-some (covers (unmap p.addr) (bits_of p)) (roa_vrp g p) vb.seen m covers_own,
    count-none (λ v. covers (unmap p.addr) (bits_of p) v && authorizes (bits_of p) other v) vb.seen
        unauthorized,
  )
    where
      unauthorized :
          (v : Vrp)
          → member Vrp-discrete v vb.seen ≡ true
          → (covers (unmap p.addr) (bits_of p) v && authorizes (bits_of p) other v) ≡ false
      unauthorized v h = elim (Bool-cases (covers (unmap p.addr) (bits_of p) v)) [
        | inr e ↦ rw e refl
        | inl e ↦
            (let owner : v.origin_as ≡ owner_of g p =
                ap (λ x. x.origin_as) (covering_is_own v h e) in
              ground arith)
      ]

  -- The owner itself announces a prefix: not RPKI-Invalid, with a ROA or without.
  pub rov-own_origin :
      (owner : Asn)
      → owner ≢ 0
      → owner_of g p ≡ owner
      → rov vb.seen (unmap p.addr) (bits_of p) owner ≢ RpkiStatus.invalid
  unfolding rov
  rov-own_origin owner n e = elim (Bool-cases (member Vrp-discrete (roa_vrp g p) vb.seen)) [
    | inl m ↦
        (let some_vrp =
            count-some (λ v. covers (unmap p.addr) (bits_of p) v && authorizes (bits_of p) owner v)
              (roa_vrp g p) vb.seen m (ground (arith, covers_own, authorized)) in
          ground (arith, some_vrp))
    | inr m ↦
        (let no_vrp = count-none (covers (unmap p.addr) (bits_of p)) vb.seen (uncovered m) in
          ground (arith, no_vrp))
  ]
    where
      authorized : authorizes (bits_of p) owner (roa_vrp g p) ≡ true
      authorized = ground arith

      uncovered :
          member Vrp-discrete (roa_vrp g p) vb.seen ≡ false
          → (v : Vrp) → member Vrp-discrete v vb.seen ≡ true
          → covers (unmap p.addr) (bits_of p) v ≡ false
      uncovered m v h = elim (Bool-cases (covers (unmap p.addr) (bits_of p) v)) [
        | inr c ↦ c
        | inl c ↦
            absurd (cc (ap (λ x. member Vrp-discrete x vb.seen) (covering_is_own v h c), h, m))
      ]
