-- ===== src/Rtr/Codec/Framing.antt =====
-- What `readPDU` of rtr/codec.go takes from the connection, and what it looks at.
use bgpulse.Base.{
  ℕ, suc, ◌+◌, ◌-◌, ◌≤◌, ◌≡◌, refl, ap, arith, Bool, true, false, Option, none, some, List, ◌∷◌,
  length, take, drop, get_or, leb, ltb, if◌then◌else◌, length-drop, drop-drop, ◌⊎◌, inl, inr, ◌||◌,
}
use bgpulse.Rtr.Codec.{
  Header, Pdu, closed, bad_length, Read, got, failed, be16, be32, read_full, read_header,
  parse_header, read_body, decode_body, read_pdu,
}

-- The size that the header of a connection declares.
abbrev pub declared : List ℕ → ℕ
declared conn = be32 (drop 4 (take 8 conn))

read_full_cases :
    (n : ℕ) (conn : List ℕ)
    → (read_full n conn ≡ none)
      ⊎ ((n ≤ length conn) × (read_full n conn ≡ some (take n conn, drop n conn)))
unfolding read_full
read_full_cases n conn = ground arith

parse_header_got :
    (b conn : List ℕ) {h : Header} {rest : List ℕ}
    → parse_header b conn ≡ got h rest
    → (h.size ≡ be32 (drop 4 b)) × (8 ≤ h.size) × (h.size ≤ 1048576) × (rest ≡ conn)
unfolding parse_header
parse_header_got b conn e = ground arith

read_body_got :
    (h : Header) (conn : List ℕ) {p : Pdu} {rest : List ℕ}
    → read_body h conn ≡ got p rest
    → (h.size - 8 ≤ length conn) × (rest ≡ drop (h.size - 8) conn)
unfolding read_body
read_body_got h conn e = elim (read_full_cases (h.size - 8) conn) [
  | inl n ↦ absurd (ground arith)
  | inr (le, g) ↦ ground arith
]

-- A PDU that is read had a header with a size of 8 to 2^20 bytes, all of which had come, and
-- exactly these bytes are taken from the connection.
pub read_pdu_framed :
    (conn : List ℕ) {p : Pdu} {rest : List ℕ}
    → read_pdu conn ≡ got p rest
    → (8 ≤ declared conn)
      × (declared conn ≤ 1048576)
      × (declared conn ≤ length conn)
      × (rest ≡ drop (declared conn) conn)
unfolding read_pdu read_header
read_pdu_framed conn {p} {rest} e = elim (read_full_cases 8 conn) [
  | inl n ↦ absurd (ground arith)
  | inr (le, g) ↦ go (parse_header (take 8 conn) (drop 8 conn)) refl
]
  where
    go :
        (r : Read Header)
        → parse_header (take 8 conn) (drop 8 conn) ≡ r
        → (8 ≤ declared conn)
          × (declared conn ≤ 1048576)
          × (declared conn ≤ length conn)
          × (rest ≡ drop (declared conn) conn)
    go (failed x) k = absurd (ground arith)
    go (got h after) k =
        let head = parse_header_got (take 8 conn) (drop 8 conn) k in
        let body =
          read_body_got h after (let q : read_body h after ≡ got p rest = ground arith in q) in
        ground (
          arith,
          head,
          body,
          length-drop 8 conn,
          drop-drop (h.size - 8) 8 conn,
          ap (λ n. drop n conn) (let q : 8 + (h.size - 8) ≡ h.size = omega (arith, head.1) in q),
        )

-- The steps of `readPDU`, each after a test on the connection.
abbrev if_whole : Bool → List ℕ → List ℕ → Option (List ℕ × List ℕ)
if_whole whole b rest = if whole then some (b, rest) else none

abbrev if_bad : Bool → ℕ → Header → List ℕ → Read Header
if_bad bad n h rest = if bad then failed (bad_length n) else got h rest

abbrev then_header : Option (List ℕ × List ℕ) → Read Header
then_header none = failed closed
then_header (some (b, rest)) = parse_header b rest

abbrev then_body : Read Header → Read Pdu
then_body (failed e) = failed e
then_body (got h rest) = read_body h rest

parse_header-version :
    (v w : ℕ) (b conn : List ℕ)
    → then_body (parse_header (v ∷ b) conn) ≡ then_body (parse_header (w ∷ b) conn)
unfolding parse_header read_body decode_body
parse_header-version v w b conn =
    go (ltb (be32 (drop 3 b)) 8 || ltb 1048576 (be32 (drop 3 b))) (get_or b 0 0) (be16 (drop 1 b))
      (be32 (drop 3 b))
  where
    header : ℕ → ℕ → ℕ → ℕ → Header
    header version ptype session size = record {
      version = version;
      ptype = ptype;
      session = session;
      size = size;
    }

    go :
        (bad : Bool) (ptype session size : ℕ)
        → then_body (if_bad bad size (header v ptype session size) conn)
          ≡ then_body (if_bad bad size (header w ptype session size) conn)
    go true ptype session size = refl
    go false ptype session size = refl

-- The version byte of a header has no effect: a PDU of any protocol version is read alike.
pub read_pdu-version : (v w : ℕ) (conn : List ℕ) → read_pdu (v ∷ conn) ≡ read_pdu (w ∷ conn)
unfolding read_pdu read_header read_full
read_pdu-version v w conn = go (leb 8 (suc (length conn)))
  where
    go :
        (whole : Bool)
        → then_body (then_header (if_whole whole (v ∷ take 7 conn) (drop 7 conn)))
          ≡ then_body (then_header (if_whole whole (w ∷ take 7 conn) (drop 7 conn)))
    go true = parse_header-version v w (take 7 conn) (drop 7 conn)
    go false = refl
