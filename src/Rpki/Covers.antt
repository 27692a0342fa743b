-- ===== src/Rpki/Covers.antt =====
-- Which prefixes the descent of Validate in rpki/store.go takes for covering, in terms of masks.
use bgpulse.Base.{
  ℕ, zero, suc, ◌+◌, ◌*◌, ◌≤◌, ◌≡◌, ◌↔◌, refl, ap, true, ◌&&◌, some, List, length, leb, arith,
}
use bgpulse.Bgp.Net.{Addr, ip4, ip6, invalid, mask_bytes, mask_addr, bit_len, is6, unmap}
use bgpulse.Rpki.{bit_at, Vrp}
use bgpulse.Rpki.Spec.{same_bool, covers}
use bgpulse.Rpki.Inserts.{agree, same_bit}
use bgpulse.Rpki.Masks.{AllBytes, bit_in, mask_bytes-zero, mask_bytes_step}

agree-snoc :
    (k d : ℕ) (a b : Addr)
    → agree (suc k) d a b ≡ (agree k d a b && same_bit (bit_at a (d + k)) (bit_at b (d + k)))
unfolding agree
agree-snoc zero d a b =
    ground
      (arith, ap (λ i. same_bit (bit_at a i) (bit_at b i)) (let q : d ≡ d + 0 = omega arith in q))
agree-snoc (suc k) d a b = ground (
  arith,
  agree-snoc k (d + 1) a b,
  ap (λ i. same_bit (bit_at a i) (bit_at b i)) (let q : (d + 1) + k ≡ d + suc k = omega arith in q),
)

agree_bytes :
    (wrap : List ℕ → Addr) (k : ℕ) (xs ys : List ℕ)
    → ((zs : List ℕ) (d : ℕ) → bit_at (wrap zs) d ≡ bit_in zs d)
    → AllBytes xs
    → AllBytes ys
    → length xs ≡ length ys
    → k ≤ 8 * length xs
    → (agree k 0 (wrap xs) (wrap ys) ≡ true) ↔ (mask_bytes k xs ≡ mask_bytes k ys)
agree_bytes wrap zero xs ys bits a b e h =
    ((λ q. mask_bytes-zero xs ys a b e), (λ q. unfold agree in refl))
agree_bytes wrap (suc k) xs ys bits a b e h =
    let before = agree_bytes wrap k xs ys bits a b e (omega arith) in
    let step = mask_bytes_step k xs ys a b e (omega arith) in
    let snoc : agree (suc k) 0 (wrap xs) (wrap ys)
        ≡ (agree k 0 (wrap xs) (wrap ys) && same_bit (bit_in xs k) (bit_in ys k)) =
      ground (
        arith,
        agree-snoc k 0 (wrap xs) (wrap ys),
        bits xs k,
        bits ys k,
        ap (λ i. same_bit (bit_at (wrap xs) i) (bit_at (wrap ys) i))
            (let q : 0 + k ≡ k = omega arith in q),
      ) in
    (
      (λ q.
          let both : (agree k 0 (wrap xs) (wrap ys) ≡ true)
              × (same_bit (bit_in xs k) (bit_in ys k) ≡ true) =
            ground (arith, snoc) in
          step.1 (before.0 both.0, both.1)),
      (λ q. let both = step.0 q in ground (arith, snoc, before.1 both.0, both.1)),
    )

-- A pair of addresses of one family whose bytes are bytes.
abbrev pub IsPair : Addr → Addr → Type 0
IsPair (ip4 xs) (ip4 ys) = AllBytes xs × AllBytes ys × (length xs ≡ 4) × (length ys ≡ 4)
IsPair (ip6 xs) (ip6 ys) = AllBytes xs × AllBytes ys × (length xs ≡ 16) × (length ys ≡ 16)
IsPair (ip4 xs) (ip6 ys) = ⊥
IsPair (ip6 xs) (ip4 ys) = ⊥
IsPair invalid a = ⊥
IsPair (ip4 xs) invalid = ⊥
IsPair (ip6 xs) invalid = ⊥

agree_iff :
    (k : ℕ) (a b : Addr)
    → IsPair a b
    → k ≤ bit_len a
    → (agree k 0 a b ≡ true) ↔ (mask_addr k a ≡ mask_addr k b)
unfolding bit_at
agree_iff k (ip4 xs) (ip4 ys) w h =
    let iff =
      agree_bytes ip4 k xs ys (λ zs d. refl) w.0 w.1 (omega (arith, w.2, w.3))
        (omega (arith, w.2)) in
    ((λ q. ap ip4 (iff.0 q)), (λ q. iff.1 (cc)))
agree_iff k (ip6 xs) (ip6 ys) w h =
    let iff =
      agree_bytes ip6 k xs ys (λ zs d. refl) w.0 w.1 (omega (arith, w.2, w.3))
        (omega (arith, w.2)) in
    ((λ q. ap ip6 (iff.0 q)), (λ q. iff.1 (cc)))
agree_iff k (ip4 xs) (ip6 ys) w h = absurd w
agree_iff k (ip6 xs) (ip4 ys) w h = absurd w
agree_iff k invalid b w h = absurd w
agree_iff k (ip4 xs) invalid w h = absurd w
agree_iff k (ip6 xs) invalid w h = absurd w

-- The bytes of an address are bytes, as many as its family has.
abbrev pub IsBytes : Addr → Type 0
IsBytes (ip4 xs) = AllBytes xs × (length xs ≡ 4)
IsBytes (ip6 xs) = AllBytes xs × (length xs ≡ 16)
IsBytes invalid = ⊥

contains_iff :
    (k n : ℕ) (w a : Addr)
    → IsBytes w
    → IsBytes a
    → k ≤ bit_len w
    → ((same_bool (is6 w) (is6 a) && (leb k n && agree k 0 w a)) ≡ true)
      ↔ ((k ≤ n) × (mask_addr k w ≡ mask_addr k a))
contains_iff k n (ip4 xs) (ip4 ys) p q h =
    let iff = agree_iff k (ip4 xs) (ip4 ys) (p.0, q.0, p.1, q.1) h in
    (
      (λ e. ((let lt : k ≤ n = ground arith in lt), iff.0 (ground arith))),
      (λ e. ground (arith, iff.1 e.1, e.0)),
    )
contains_iff k n (ip6 xs) (ip6 ys) p q h =
    let iff = agree_iff k (ip6 xs) (ip6 ys) (p.0, q.0, p.1, q.1) h in
    (
      (λ e. ((let lt : k ≤ n = ground arith in lt), iff.0 (ground arith))),
      (λ e. ground (arith, iff.1 e.1, e.0)),
    )
contains_iff k n (ip4 xs) (ip6 ys) p q h = ((λ e. absurd (cc)), (λ e. absurd (ground arith)))
contains_iff k n (ip6 xs) (ip4 ys) p q h = ((λ e. absurd (cc)), (λ e. absurd (ground arith)))
contains_iff k n invalid a p q h = absurd p
contains_iff k n (ip4 xs) invalid p q h = absurd q
contains_iff k n (ip6 xs) invalid p q h = absurd q

-- For addresses of the right number of bytes and a VRP whose length fits its address: the VRP
-- covers an announced prefix of `n` bits, bit by bit as bitAt reads them, exactly when its length
-- is at most `n` and both addresses, masked to that length, are equal.
pub covers_iff :
    (a : Addr) (n k : ℕ) (v : Vrp)
    → IsBytes (unmap v.prefix.addr)
    → IsBytes a
    → v.prefix.bits ≡ some k
    → k ≤ bit_len (unmap v.prefix.addr)
    → (covers a n v ≡ true) ↔ ((k ≤ n) × (mask_addr k (unmap v.prefix.addr) ≡ mask_addr k a))
covers_iff a n k v p q e h = rw e (contains_iff k n (unmap v.prefix.addr) a p q h)
