-- ===== src/Rtr/Codec/RoundTrip.antt =====
-- The encoders of rtr/codec.go against `readPDU`.
use bgpulse.Base.{
  ℕ, ◌+◌, ◌-◌, ◌%◌, ◌^◌, ◌<◌, ◌≤◌, ◌≡◌, refl, ap, ◌∙◌, arith, Bool, true, false, Option, none, some,
  List, [], ◌∷◌, ◌++◌, length, if◌then◌else◌, length-append, inl,
}
use mathlib.Core.List.{append_assoc}
use bgpulse.Bgp.Types.{Asn}
use bgpulse.Bgp.Net.{
  Addr, ip4, ip6, invalid, Prefix, is6, is_addr, IsAddr, bit_len, masked, prefix_from,
}
use bgpulse.Rtr.Codec.{
  protocol_version, header_len, PduType, type_code, type_of, Header, PrefixPdu, Pdu, reset_query,
  serial_query, serial_notify, cache_response, prefix_pdu, end_of_data, cache_reset, got, be32,
  read_full, read_header, parse_header, read_body, checked_prefix, decode_prefix, decode_body,
  read_pdu,
}
use bgpulse.Rtr.Codec.Encode.{
  put16, put32, put_header, reset_query_bytes, serial_query_bytes, encode_cache_response,
  encode_serial_notify, encode_cache_reset, encode_end_of_data, encode_prefix,
}
use bgpulse.Rtr.Codec.Bytes.{be16-put16, be32-put32, take-append, drop-append}

-- The header that `put_header` writes.
abbrev pub header_of : PduType → ℕ → ℕ → Header
header_of t session size = record {
  version = protocol_version;
  ptype = type_code t;
  session = session;
  size = size;
}

read_header-put :
    (t : PduType) (session size : ℕ) (rest : List ℕ)
    → session < 65536
    → 8 ≤ size
    → size ≤ 1048576
    → read_header (put_header t session size ++ rest) ≡ got (header_of t session size) rest
unfolding read_header parse_header put_header read_full put16 put32
read_header-put t session size rest a b c =
    ground (arith, be16-put16 session [] a, be32-put32 size [] (omega arith))

-- A whole PDU is read as its body is decoded, and what comes after it is left.
read_pdu-put :
    (t : PduType) (session size : ℕ) (body rest : List ℕ) {p : Pdu}
    → session < 65536
    → size ≤ 1048576
    → size ≡ 8 + length body
    → decode_body (header_of t session size) body ≡ inl p
    → read_pdu (put_header t session size ++ (body ++ rest)) ≡ got p rest
unfolding read_pdu read_body read_full
read_pdu-put t session size body rest a b c d = ground (
  arith,
  read_header-put t session size (body ++ rest) a (omega arith) b,
  length-append body rest,
  take-append body rest (size - 8) (omega arith),
  drop-append body rest (size - 8) (omega arith),
)

read_pdu-encoded :
    (t : PduType) (session size : ℕ) (body rest : List ℕ) {p : Pdu}
    → session < 65536
    → size ≤ 1048576
    → size ≡ 8 + length body
    → decode_body (header_of t session size) body ≡ inl p
    → read_pdu ((put_header t session size ++ body) ++ rest) ≡ got p rest
read_pdu-encoded t session size body rest a b c d =
    ap read_pdu (append_assoc (put_header t session size) body rest)
    ∙ read_pdu-put t session size body rest a b c d

-- The PDUs without a body and those of one serial number are read back as they were written, and
-- what follows them is left for the next read.
read_pdu-encode :
    (session serial : ℕ) (rest : List ℕ)
    → session < 2 ^ 16
    → serial < 2 ^ 32
    → (read_pdu (encode_cache_response session ++ rest) ≡ got (cache_response session) rest)
      × (read_pdu (encode_cache_reset ++ rest) ≡ got cache_reset rest)
      × (read_pdu (reset_query_bytes ++ rest) ≡ got reset_query rest)
      × (read_pdu (encode_serial_notify session serial ++ rest)
          ≡ got (serial_notify session serial) rest)
      × (read_pdu (serial_query_bytes session serial ++ rest)
          ≡ got (serial_query session serial) rest)
unfolding encode_cache_response encode_cache_reset reset_query_bytes encode_serial_notify
    serial_query_bytes decode_body put32 type_of be32
read_pdu-encode session serial rest a b = (
  read_pdu-put PduType.cache_response session 8 [] rest a (omega arith) refl refl,
  read_pdu-put PduType.cache_reset 0 8 [] rest (omega arith) (omega arith) refl refl,
  read_pdu-put PduType.reset_query 0 8 [] rest (omega arith) (omega arith) refl refl,
  read_pdu-encoded PduType.serial_notify session 12 (put32 serial) rest a (omega arith) refl
      (ap (λ n. inl (serial_notify session n)) (be32-put32 serial [] b)),
  read_pdu-encoded PduType.serial_query session 12 (put32 serial) rest a (omega arith) refl
      (ap (λ n. inl (serial_query session n)) (be32-put32 serial [] b)),
)

-- An End Of Data PDU is read back with its session, its serial and its three timers.
pub read_pdu-encode_end_of_data :
    (session serial refresh retry expire : ℕ) (rest : List ℕ)
    → session < 2 ^ 16
    → serial < 2 ^ 32
    → refresh < 2 ^ 32
    → retry < 2 ^ 32
    → expire < 2 ^ 32
    → read_pdu (encode_end_of_data session serial refresh retry expire ++ rest)
      ≡ got (end_of_data session serial refresh retry expire) rest
unfolding encode_end_of_data decode_body put32 type_of be32
read_pdu-encode_end_of_data session serial refresh retry expire rest a b c d e =
    read_pdu-encoded PduType.end_of_data session 24
      (put32 serial ++ (put32 refresh ++ (put32 retry ++ put32 expire))) rest a (omega arith) refl
      (ground (
        arith,
        be32-put32 serial [] b,
        be32-put32 refresh [] c,
        be32-put32 retry [] d,
        be32-put32 expire [] e,
      ))

prefix_from-fits :
    (a : Addr) (n : ℕ)
    → is_addr a ≡ true
    → n ≤ bit_len a
    → prefix_from a n ≡ record { addr = a; bits = some n }
unfolding prefix_from
prefix_from-fits a n k f = ground arith

checked_prefix-valid :
    (announce v6 : Bool) (p : Prefix) (n max_len : ℕ) (asn : Asn)
    → prefix_from p.addr n ≡ p
    → p.bits ≡ some n
    → masked p ≡ p
    → checked_prefix v6 (if announce then 1 else 0) n max_len p.addr asn
      ≡ inl (record { is_v6 = v6; announce = announce; prefix = p; max_len = max_len; asn = asn })
unfolding checked_prefix
checked_prefix-valid announce v6 p n max_len asn whole bits canonical =
    ground (arith, ap masked whole)

-- The parts of a prefix body, after the flags, the two lengths and a zero.
decode_prefix-body :
    (v6 : Bool) (flags plen maxlen : ℕ) (b : List ℕ) (asn : Asn)
    → asn < 4294967296
    → length b ≡ (if v6 then 16 else 4)
    → decode_prefix ((flags ∷ (plen ∷ (maxlen ∷ (0 ∷ [])))) ++ (b ++ put32 asn)) v6
      ≡ checked_prefix v6 flags plen maxlen (if v6 then ip6 b else ip4 b) asn
unfolding decode_prefix put32
decode_prefix-body true flags plen maxlen b asn h size = ground (
  arith,
  length-append b (put32 asn),
  take-append b (put32 asn) 16 size,
  drop-append b (put32 asn) 16 size,
  be32-put32 asn [] h,
)
decode_prefix-body false flags plen maxlen b asn h size = ground (
  arith,
  length-append b (put32 asn),
  take-append b (put32 asn) 4 size,
  drop-append b (put32 asn) 4 size,
  be32-put32 asn [] h,
)

-- A Prefix PDU whose body passes the checks of `decodePrefix` is read as they say.
read_pdu-prefix :
    (v6 : Bool) (flags plen maxlen : ℕ) (b : List ℕ) (asn : Asn) (rest : List ℕ) {q : PrefixPdu}
    → asn < 4294967296
    → length b ≡ (if v6 then 16 else 4)
    → checked_prefix v6 flags plen maxlen (if v6 then ip6 b else ip4 b) asn ≡ inl q
    → read_pdu (
        (put_header
            (if v6 then PduType.ipv6_prefix else PduType.ipv4_prefix)
            0
            (header_len + 4 + (if v6 then 16 else 4) + 4)
          ++ ((flags ∷ (plen ∷ (maxlen ∷ (0 ∷ [])))) ++ (b ++ put32 asn)))
        ++ rest)
      ≡ got (prefix_pdu q) rest
unfolding decode_body type_of put32
read_pdu-prefix true flags plen maxlen b asn rest h size ok =
    read_pdu-encoded PduType.ipv6_prefix 0 32 _ rest (omega arith) (omega arith)
      (ground (arith, length-append b (put32 asn)))
      (ground (arith, decode_prefix-body true flags plen maxlen b asn h size))
read_pdu-prefix false flags plen maxlen b asn rest h size ok =
    read_pdu-encoded PduType.ipv4_prefix 0 20 _ rest (omega arith) (omega arith)
      (ground (arith, length-append b (put32 asn)))
      (ground (arith, decode_prefix-body false flags plen maxlen b asn h size))

-- A masked prefix of either family, announced or withdrawn, is read back from its Prefix PDU with
-- its maxLength and its AS.
pub read_pdu-encode_prefix :
    (announce : Bool) (p : Prefix) (n max_len : ℕ) (asn : Asn) (rest : List ℕ)
    → p.bits ≡ some n
    → IsAddr p.addr
    → is_addr p.addr ≡ true
    → n ≤ bit_len p.addr
    → masked p ≡ p
    → asn < 2 ^ 32
    → read_pdu (encode_prefix announce p max_len asn ++ rest)
      ≡ got
          (prefix_pdu (record {
            is_v6 = is6 p.addr;
            announce = announce;
            prefix = p;
            max_len = max_len;
            asn = asn;
          }))
          rest
unfolding encode_prefix
read_pdu-encode_prefix announce p n max_len asn rest bits sized known fits canonical h =
    go p.addr p.bits bits sized known fits canonical
  where
    go :
        (a : Addr) (bs : Option ℕ)
        → bs ≡ some n
        → IsAddr a
        → is_addr a ≡ true
        → n ≤ bit_len a
        → masked (record { addr = a; bits = bs }) ≡ record { addr = a; bits = bs }
        → read_pdu (encode_prefix announce (record { addr = a; bits = bs }) max_len asn ++ rest)
          ≡ got
              (prefix_pdu (record {
                is_v6 = is6 a;
                announce = announce;
                prefix = record { addr = a; bits = bs };
                max_len = max_len;
                asn = asn;
              }))
              rest
    go (ip4 b) none e s k f c = absurd (cc)
    go (ip4 b) (some m) e s k f c =
        let small : m ≤ 32 = ground arith in
        read_pdu-prefix false (if announce then 1 else 0) (m % 256) max_len b asn rest h s (
          ap (λ k. checked_prefix false (if announce then 1 else 0) k max_len (ip4 b) asn)
            (let q : m % 256 ≡ m = omega arith in q)
          ∙ checked_prefix-valid announce false (record { addr = ip4 b; bits = some m }) m max_len
              asn (prefix_from-fits (ip4 b) m refl small) refl c)
    go (ip6 b) none e s k f c = absurd (cc)
    go (ip6 b) (some m) e s k f c =
        let small : m ≤ 128 = ground arith in
        read_pdu-prefix true (if announce then 1 else 0) (m % 256) max_len b asn rest h s (
          ap (λ k. checked_prefix true (if announce then 1 else 0) k max_len (ip6 b) asn)
            (let q : m % 256 ≡ m = omega arith in q)
          ∙ checked_prefix-valid announce true (record { addr = ip6 b; bits = some m }) m max_len
              asn (prefix_from-fits (ip6 b) m refl small) refl c)
    go invalid bs e s k f c = absurd (cc)
