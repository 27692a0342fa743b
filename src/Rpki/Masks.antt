-- ===== src/Rpki/Masks.antt =====
-- The bits that bitAt of rpki/store.go reads, against the prefixes that netip masks.
use mathlib.Core.Option
use bgpulse.Base.{
  ℕ, zero, suc, ◌+◌, ◌-◌, ◌*◌, ◌/◌, ◌%◌, ◌^◌, ◌<◌, ◌≤◌, ◌≡◌, ◌↔◌, refl, sym, ap, ◌∙◌, true, Option,
  some, List, [], ◌∷◌, length, get_elem?, leb, ltb, if◌then◌else◌, arith, Bool-cases, inl, inr,
}
use bgpulse.Bgp.Net.{mask_bytes, bit_of}
use bgpulse.Rpki.Inserts.{same_bit}

abbrev pub AllBytes : List ℕ → Type 0
AllBytes [] = Unit
AllBytes (b ∷ bs) = (b < 256) × AllBytes bs

-- The byte with all but its first `n` bits cleared.
abbrev mask_byte : ℕ → ℕ → ℕ
mask_byte n b = if leb 8 n then b else b - b % 2 ^ (8 - n)

mask_byte_step :
    (k x y : ℕ)
    → k < 8
    → x < 256
    → y < 256
    → (mask_byte (suc k) x ≡ mask_byte (suc k) y)
      ↔ ((mask_byte k x ≡ mask_byte k y) × (bit_of x k ≡ bit_of y k))
mask_byte_step zero x y k a b = ((λ h. omega arith), (λ h. omega arith))
mask_byte_step (suc zero) x y k a b = ((λ h. omega arith), (λ h. omega arith))
mask_byte_step (suc (suc zero)) x y k a b = ((λ h. omega arith), (λ h. omega arith))
mask_byte_step (suc (suc (suc zero))) x y k a b = ((λ h. omega arith), (λ h. omega arith))
mask_byte_step (suc (suc (suc (suc zero)))) x y k a b = ((λ h. omega arith), (λ h. omega arith))
mask_byte_step (suc (suc (suc (suc (suc zero))))) x y k a b =
    ((λ h. omega arith), (λ h. omega arith))
mask_byte_step (suc (suc (suc (suc (suc (suc zero)))))) x y k a b =
    ((λ h. omega arith), (λ h. omega arith))
mask_byte_step (suc (suc (suc (suc (suc (suc (suc zero))))))) x y k a b =
    ((λ h. omega arith), (λ h. omega arith))
mask_byte_step (suc (suc (suc (suc (suc (suc (suc (suc k)))))))) x y h a b = absurd (omega arith)

pub mask_bytes-zero :
    (xs ys : List ℕ)
    → AllBytes xs
    → AllBytes ys
    → length xs ≡ length ys
    → mask_bytes 0 xs ≡ mask_bytes 0 ys
unfolding mask_bytes
mask_bytes-zero [] [] a b e = refl
mask_bytes-zero [] (y ∷ ys) a b e = absurd (omega arith)
mask_bytes-zero (x ∷ xs) [] a b e = absurd (omega arith)
mask_bytes-zero (x ∷ xs) (y ∷ ys) a b e =
    ground (arith, mask_bytes-zero xs ys a.1 b.1 (omega arith), a.0, b.0)

-- The bit that `bitAt` reads of the bytes of an address.
abbrev pub bit_in : List ℕ → ℕ → Option ℕ
bit_in bytes d = Option.map (λ byte. bit_of byte (d % 8)) (get_elem? bytes (d / 8))

bit_in_here : (x : ℕ) (xs : List ℕ) (k : ℕ) → k < 8 → bit_in (x ∷ xs) k ≡ some (bit_of x k)
bit_in_here x xs k h =
    ap (bit_in_at x xs (k % 8)) (let q : k / 8 ≡ 0 = omega arith in q)
    ∙ ap (λ j. some (bit_of x j)) (let q : k % 8 ≡ k = omega arith in q)
  where
    bit_in_at : ℕ → List ℕ → ℕ → ℕ → Option ℕ
    bit_in_at x xs r i = Option.map (λ byte. bit_of byte r) (get_elem? (x ∷ xs) i)

bit_in_next : (x : ℕ) (xs : List ℕ) (j : ℕ) → bit_in (x ∷ xs) (j + 8) ≡ bit_in xs j
bit_in_next x xs j =
    ap (λ r. Option.map (λ byte. bit_of byte r) (get_elem? (x ∷ xs) ((j + 8) / 8)))
      (let q : (j + 8) % 8 ≡ j % 8 = omega arith in q)
    ∙ ap (λ i. Option.map (λ byte. bit_of byte (j % 8)) (get_elem? (x ∷ xs) i))
        (let q : (j + 8) / 8 ≡ suc (j / 8) = omega arith in q)

same_bit_small : (p q : ℕ) → p < 2 → q < 2 → (same_bit (some p) (some q) ≡ true) ↔ (p ≡ q)
same_bit_small zero zero a b = ((λ h. refl), (λ h. refl))
same_bit_small zero (suc q) a b = ((λ h. cc), (λ h. absurd (omega arith)))
same_bit_small (suc p) zero a b = ((λ h. cc), (λ h. absurd (omega arith)))
same_bit_small (suc p) (suc q) a b = ((λ h. omega arith), (λ h. refl))

same_bit_iff :
    (x y k : ℕ)
    → (same_bit (some (bit_of x k)) (some (bit_of y k)) ≡ true) ↔ (bit_of x k ≡ bit_of y k)
same_bit_iff x y k =
    same_bit_small (bit_of x k) (bit_of y k) (parity (x / 2 ^ (7 - k))) (parity (y / 2 ^ (7 - k)))
  where
    parity : (m : ℕ) → m % 2 < 2
    parity m = omega arith

cons_iff : {x y : ℕ} {xs ys : List ℕ} → ((x ∷ xs) ≡ (y ∷ ys)) ↔ ((x ≡ y) × (xs ≡ ys))
cons_iff = ((λ h. ground arith), (λ h. ground arith))

mask_bytes-late :
    (k x : ℕ) (xs : List ℕ) → 8 ≤ k → mask_bytes k (x ∷ xs) ≡ x ∷ mask_bytes (k - 8) xs
unfolding mask_bytes
mask_bytes-late k x xs h = ground arith

mask_bytes-next :
    (k x : ℕ) (xs : List ℕ) → 8 ≤ k → mask_bytes (suc k) (x ∷ xs) ≡ x ∷ mask_bytes (suc (k - 8)) xs
mask_bytes-next k x xs h =
    mask_bytes-late (suc k) x xs (omega arith)
    ∙ ap (λ n. x ∷ mask_bytes n xs) (let q : suc k - 8 ≡ suc (k - 8) = omega arith in q)

mask_bytes-early :
    (k : ℕ) (xs ys : List ℕ)
    → AllBytes xs
    → AllBytes ys
    → length xs ≡ length ys
    → k ≤ 8
    → mask_bytes (k - 8) xs ≡ mask_bytes (k - 8) ys
mask_bytes-early k xs ys a b e h =
    rw (let q : k - 8 ≡ 0 = omega arith in q) (mask_bytes-zero xs ys a b e)

bit_in-late : (k x : ℕ) (xs : List ℕ) → 8 ≤ k → bit_in (x ∷ xs) k ≡ bit_in xs (k - 8)
bit_in-late k x xs h =
    ap (bit_in (x ∷ xs)) (let q : k ≡ (k - 8) + 8 = omega arith in q) ∙ bit_in_next x xs (k - 8)

-- One more bit of the mask is one more bit that agrees.
pub mask_bytes_step :
    (k : ℕ) (xs ys : List ℕ)
    → AllBytes xs
    → AllBytes ys
    → length xs ≡ length ys
    → k < 8 * length xs
    → (mask_bytes (suc k) xs ≡ mask_bytes (suc k) ys)
      ↔ ((mask_bytes k xs ≡ mask_bytes k ys) × (same_bit (bit_in xs k) (bit_in ys k) ≡ true))
unfolding mask_bytes
mask_bytes_step k [] ys a b e h = absurd (omega arith)
mask_bytes_step k (x ∷ xs) [] a b e h = absurd (omega arith)
mask_bytes_step k (x ∷ xs) (y ∷ ys) a b e h = elim (Bool-cases (ltb k 8)) [
  | inl lt ↦
      let small : k < 8 = ground arith in
      let byte = mask_byte_step k x y small a.0 b.0 in
      let bits = same_bit_iff x y k in
      let tail_now = mask_bytes-early k xs ys a.1 b.1 (omega arith) (omega arith) in
      let tail_next = mask_bytes-early (suc k) xs ys a.1 b.1 (omega arith) (omega arith) in
      rw (bit_in_here x xs k small, bit_in_here y ys k small)
        (
          (λ q.
              let both = byte.0 (cons_iff.0 q).0 in (cons_iff.1 (both.0, tail_now), bits.1 both.1)),
          (λ q. cons_iff.1 (byte.1 ((cons_iff.0 q.0).0, bits.0 q.1), tail_next)),
        )
  | inr ge ↦
      let big : 8 ≤ k = ground arith in
      let rest = mask_bytes_step (k - 8) xs ys a.1 b.1 (omega arith) (omega arith) in
      rw (bit_in-late k x xs big, bit_in-late k y ys big)
        (
          (λ q.
              let both =
                cons_iff.0 (sym (mask_bytes-next k x xs big) ∙ (q ∙ mask_bytes-next k y ys big)) in
              let less = rest.0 both.1 in
              (
                mask_bytes-late k x xs big
                    ∙ (cons_iff.1 (both.0, less.0) ∙ sym (mask_bytes-late k y ys big)),
                less.1,
              )),
          (λ q.
              let both =
                cons_iff.0
                  (sym (mask_bytes-late k x xs big) ∙ (q.0 ∙ mask_bytes-late k y ys big)) in
              mask_bytes-next k x xs big
              ∙ (cons_iff.1 (both.0, rest.1 (both.1, q.1)) ∙ sym (mask_bytes-next k y ys big))),
        )
]
