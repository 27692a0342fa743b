-- ===== src/Rtr/Codec/Decoded.antt =====
-- The prefixes that `readPDU` of rtr/codec.go makes are prefixes as the rest of the program wants
-- them.
use bgpulse.Base.{
  ℕ, zero, suc, ◌-◌, ◌≤◌, ◌≡◌, refl, ap, ◌∙◌, arith, Bool, true, false, Option, none, some, List,
  [], ◌∷◌, length, take, drop, get_or, ltb, ◌⊎◌, inl, inr, Bool-cases, Option-cases, length-drop,
}
use mathlib.Core.Path.{subst}
use bgpulse.Bgp.Types.{Asn}
use bgpulse.Bgp.Net.{Addr, ip4, ip6, invalid, prefix_from, masked, is_addr, IsAddr, mask_bytes}
use bgpulse.Rpki.Spec.{IsPrefix}
use bgpulse.Rpki.Adds.{length-mask_bytes}
use bgpulse.Rtr.Codec.{
  Header, PrefixPdu, Pdu, prefix_pdu, closed, Read, got, failed, read_full, read_header,
  checked_prefix, decode_prefix, decode_body, read_body, read_pdu, be32, type_of, decode_error,
  error_text,
}

length-take : (xs : List ℕ) (n : ℕ) → n ≤ length xs → length (take n xs) ≡ n
length-take xs zero h = refl
length-take [] (suc n) h = elim h [ ]
length-take (x ∷ xs) (suc n) h = ap suc (length-take xs n (omega arith))

masked-prefix_from :
    (a : Addr) (plen n : ℕ)
    → IsAddr a
    → is_addr a ≡ true
    → (masked (prefix_from a plen)).bits ≡ some n
    → IsPrefix (masked (prefix_from a plen))
unfolding masked prefix_from
masked-prefix_from (ip4 b) plen n s k e =
    subst IsPrefix
      (let q : record { addr = ip4 (mask_bytes plen b); bits = some plen }
            ≡ masked (prefix_from (ip4 b) plen) =
          ground arith in
        q)
      (length-mask_bytes plen b ∙ s, refl, (let q : plen ≤ 32 = ground arith in q))
masked-prefix_from (ip6 b) plen n s k e =
    subst IsPrefix
      (let q : record { addr = ip6 (mask_bytes plen b); bits = some plen }
            ≡ masked (prefix_from (ip6 b) plen) =
          ground arith in
        q)
      (length-mask_bytes plen b ∙ s, refl, (let q : plen ≤ 128 = ground arith in q))
masked-prefix_from invalid plen n s k e = cc

checked_prefix-IsPrefix :
    (v6 : Bool) (flags plen maxlen : ℕ) (a : Addr) (asn : Asn) {p : PrefixPdu}
    → IsAddr a
    → is_addr a ≡ true
    → checked_prefix v6 flags plen maxlen a asn ≡ inl p
    → IsPrefix p.prefix
unfolding checked_prefix
checked_prefix-IsPrefix v6 flags plen maxlen a asn {p} s k e =
    elim (Option-cases (masked (prefix_from a plen)).bits) [
      | inl n ↦ absurd (ground arith)
      | inr (n, b) ↦
          subst IsPrefix (let q : masked (prefix_from a plen) ≡ p.prefix = ground arith in q)
            (masked-prefix_from a plen n s k b)
    ]

decode_prefix-IsPrefix :
    (body : List ℕ) (v6 : Bool) {p : PrefixPdu} → decode_prefix body v6 ≡ inl p → IsPrefix p.prefix
unfolding decode_prefix
decode_prefix-IsPrefix body true {p} e = elim (Bool-cases (ltb (length body) 24)) [
  | inl short ↦ absurd (ground arith)
  | inr long ↦
      checked_prefix-IsPrefix true (get_or body 0 0) (get_or body 1 0) (get_or body 2 0)
        (ip6 (take 16 (drop 4 body))) (be32 (drop 20 body)) {p = p}
        (length-take (drop 4 body) 16 (ground (arith, length-drop 4 body))) refl (ground arith)
]
decode_prefix-IsPrefix body false {p} e = elim (Bool-cases (ltb (length body) 12)) [
  | inl short ↦ absurd (ground arith)
  | inr long ↦
      checked_prefix-IsPrefix false (get_or body 0 0) (get_or body 1 0) (get_or body 2 0)
        (ip4 (take 4 (drop 4 body))) (be32 (drop 8 body)) {p = p}
        (length-take (drop 4 body) 4 (ground (arith, length-drop 4 body))) refl (ground arith)
]

body_prefix :
    (h : Header) (body : List ℕ) {p : PrefixPdu}
    → decode_body h body ≡ inl (prefix_pdu p)
    → IsPrefix p.prefix
unfolding decode_body type_of decode_error error_text
body_prefix h body {p} e =
    let made : (decode_prefix body true ≡ inl p) ⊎ (decode_prefix body false ≡ inl p) =
      ground arith in
    elim made [
      | inl six ↦ decode_prefix-IsPrefix body true six
      | inr four ↦ decode_prefix-IsPrefix body false four
    ]

-- Every prefix that is read has the bytes of its family and a length that lies in them.
pub read_pdu-IsPrefix :
    (conn : List ℕ) {p : PrefixPdu} {rest : List ℕ}
    → read_pdu conn ≡ got (prefix_pdu p) rest
    → IsPrefix p.prefix
unfolding read_pdu read_body
read_pdu-IsPrefix conn {p} {rest} e = go (read_header conn) refl
  where
    from_body :
        (h : Header) (o : Option (List ℕ × List ℕ))
        → elim o as (λ _. Read Pdu) [
          | none ↦ failed closed
          | some (body, rest') ↦ elim (decode_body h body) [
            | inl q ↦ got q rest'
            | inr x ↦ failed x
          ]
        ]
          ≡ got (prefix_pdu p) rest
        → IsPrefix p.prefix
    from_body h none k = absurd (cc)
    from_body h (some (body, rest')) k =
        body_prefix h body (let q : decode_body h body ≡ inl (prefix_pdu p) = ground arith in q)

    go : (r : Read Header) → read_header conn ≡ r → IsPrefix p.prefix
    go (failed x) k = absurd (ground arith)
    go (got h after) k =
        from_body h (read_full (h.size - 8) after)
          (let q : read_body h after ≡ got (prefix_pdu p) rest = ground arith in q)
