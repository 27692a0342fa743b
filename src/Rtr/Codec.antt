-- ===== src/Rtr/Codec.antt =====
-- backend/internal/rtr/pdu.go and codec.go: the PDUs on the wire. A byte is a number below 256, and a
-- connection is the list of the bytes that come before it ends.
pub mod Encode
pub mod Bytes
pub mod RoundTrip
pub mod Framing
pub mod Decoded
mod Tests
use bgpulse.Base.{
  ℕ, zero, suc, ◌+◌, ◌-◌, ◌*◌, ◌/◌, ◌%◌, ◌^◌, Bool, true, false, ◌||◌, ◌&&◌, not, Option, none,
  some, List, [], ◌∷◌, ◌++◌, ◌⊎◌, inl, inr, length, take, drop, get_or, leb, ltb, ◌==◌,
  if◌then◌else◌,
}
use bgpulse.Bgp.Types.{Asn}
use bgpulse.Bgp.Net.{Addr, ip4, ip6, invalid, Prefix, is6, prefix_from, masked}

abbrev pub protocol_version : ℕ
protocol_version = 1

abbrev pub header_len : ℕ
header_len = 8

abbrev pub max_pdu_len : ℕ
max_pdu_len = 1048576

pub data PduType : Type 0 where
  serial_notify serial_query reset_query cache_response ipv4_prefix ipv6_prefix : PduType
  end_of_data cache_reset router_key error_report : PduType

abbrev pub type_code : PduType → ℕ
type_code PduType.serial_notify = 0
type_code PduType.serial_query = 1
type_code PduType.reset_query = 2
type_code PduType.cache_response = 3
type_code PduType.ipv4_prefix = 4
type_code PduType.ipv6_prefix = 6
type_code PduType.end_of_data = 7
type_code PduType.cache_reset = 8
type_code PduType.router_key = 9
type_code PduType.error_report = 10

-- The cases of the `switch` of `readPDU`; `none` is its default.
unfoldable pub type_of : ℕ → Option PduType
type_of code =
    if code == 0
    then some PduType.serial_notify
    else if code == 1
    then some PduType.serial_query
    else if code == 2
    then some PduType.reset_query
    else if code == 3
    then some PduType.cache_response
    else if code == 4
    then some PduType.ipv4_prefix
    else if code == 6
    then some PduType.ipv6_prefix
    else if code == 7
    then some PduType.end_of_data
    else if code == 8
    then some PduType.cache_reset
    else if code == 9
    then some PduType.router_key
    else if code == 10
    then some PduType.error_report
    else none

abbrev pub flag_announce : ℕ
flag_announce = 1

abbrev pub unsupported_protocol_version : ℕ
unsupported_protocol_version = 4

pub record Header : Type 0 where
  pub version : ℕ
  pub ptype : ℕ
  pub session : ℕ
  pub size : ℕ

pub record PrefixPdu : Type 0 where
  pub is_v6 : Bool
  pub announce : Bool
  pub prefix : Prefix
  pub max_len : ℕ
  pub asn : Asn

-- The values that `readPDU` returns. The text of an error report is its bytes.
pub data Pdu : Type 0 where
  reset_query : Pdu
  serial_query : ℕ → ℕ → Pdu
  serial_notify : ℕ → ℕ → Pdu
  cache_response : ℕ → Pdu
  prefix_pdu : PrefixPdu → Pdu
  end_of_data : ℕ → ℕ → ℕ → ℕ → ℕ → Pdu
  cache_reset : Pdu
  router_key : Pdu
  error_report : ℕ → List ℕ → Pdu

pub data ReadError : Type 0 where
  closed short_prefix : ReadError
  bad_length bad_type short_body bad_prefix_len : ℕ → ReadError

pub data Read {ℓ} (A : Type ℓ) : Type ℓ where
  got : A → List ℕ → Read A
  failed : ReadError → Read A

-- `be.Uint16` and `be.Uint32` of the first bytes.
unfoldable pub be16 : List ℕ → ℕ
be16 b = get_or b 0 0 * 256 + get_or b 1 0

unfoldable pub be32 : List ℕ → ℕ
be32 b = ((get_or b 0 0 * 256 + get_or b 1 0) * 256 + get_or b 2 0) * 256 + get_or b 3 0

-- `io.ReadFull` of `n` bytes.
unfoldable pub read_full : ℕ → List ℕ → Option (List ℕ × List ℕ)
read_full n conn = if leb n (length conn) then some (take n conn, drop n conn) else none

-- The header in 8 bytes, and what comes after it, if its length is one that `readHeader` takes.
unfoldable pub parse_header : List ℕ → List ℕ → Read Header
unfolding be16 be32
parse_header b rest =
    let h : Header = record {
      version = get_or b 0 0;
      ptype = get_or b 1 0;
      session = be16 (drop 2 b);
      size = be32 (drop 4 b);
    } in
    if ltb h.size header_len || ltb max_pdu_len h.size
    then failed (bad_length h.size)
    else got h rest

unfoldable pub read_header : List ℕ → Read Header
unfolding read_full parse_header
read_header conn = elim (read_full header_len conn) [
  | none ↦ failed closed
  | some (b, rest) ↦ parse_header b rest
]

-- The `PrefixPDU` of a body that is long enough, with its flags, lengths, address and AS.
unfoldable pub checked_prefix : Bool → ℕ → ℕ → ℕ → Addr → Asn → PrefixPdu ⊎ ReadError
checked_prefix v6 flags plen maxlen addr asn =
    let prefix = masked (prefix_from addr plen) in
    elim prefix.bits [
      | none ↦ inr (bad_prefix_len plen)
      | some n ↦ inl (record {
        is_v6 = v6;
        announce = not (flags % 2 == 0);
        prefix = prefix;
        max_len = maxlen;
        asn = asn;
      })
    ]

unfoldable pub decode_prefix : List ℕ → Bool → PrefixPdu ⊎ ReadError
unfolding checked_prefix be32
decode_prefix body v6 =
    let addr_len = if v6 then 16 else 4 in
    if ltb (length body) (4 + addr_len + 4)
    then inr short_prefix
    else checked_prefix v6 (get_or body 0 0) (get_or body 1 0) (get_or body 2 0)
        (if v6 then ip6 (take 16 (drop 4 body)) else ip4 (take 4 (drop 4 body)))
        (be32 (drop (4 + addr_len) body))

-- The text that begins with its length at `off`; what is too short for one has none.
unfoldable pub error_text : ℕ → List ℕ → ℕ → Pdu
unfolding be32
error_text session body off =
    if leb (off + 4) (length body) && leb (off + 4 + be32 (drop off body)) (length body)
    then error_report session (take (be32 (drop off body)) (drop (off + 4) body))
    else error_report session []

-- The code of the report is in the session field.
unfoldable pub decode_error : ℕ → List ℕ → Pdu
unfolding be32 error_text
decode_error session body =
    if ltb (length body) 4 then error_report session [] else error_text session body (4 + be32 body)

-- The `switch` of `readPDU`.
unfoldable pub decode_body : Header → List ℕ → Pdu ⊎ ReadError
unfolding type_of decode_prefix decode_error be32
decode_body h body = elim (type_of h.ptype) [
  | none ↦ inr (bad_type h.ptype)
  | some PduType.reset_query ↦ inl reset_query
  | some PduType.serial_query ↦
      if ltb (length body) 4
      then inr (short_body h.ptype)
      else inl (serial_query h.session (be32 body))
  | some PduType.serial_notify ↦
      if ltb (length body) 4
      then inr (short_body h.ptype)
      else inl (serial_notify h.session (be32 body))
  | some PduType.cache_response ↦ inl (cache_response h.session)
  | some PduType.cache_reset ↦ inl cache_reset
  | some PduType.ipv4_prefix ↦ elim (decode_prefix body false) [
    | inl p ↦ inl (prefix_pdu p)
    | inr e ↦ inr e
  ]
  | some PduType.ipv6_prefix ↦ elim (decode_prefix body true) [
    | inl p ↦ inl (prefix_pdu p)
    | inr e ↦ inr e
  ]
  | some PduType.end_of_data ↦
      if ltb (length body) 16
      then inr (short_body h.ptype)
      else inl (
          end_of_data h.session (be32 body) (be32 (drop 4 body)) (be32 (drop 8 body))
            (be32 (drop 12 body)))
  | some PduType.router_key ↦ inl router_key
  | some PduType.error_report ↦ inl (decode_error h.session body)
]

-- `readPDU` after a good header.
unfoldable pub read_body : Header → List ℕ → Read Pdu
unfolding read_full decode_body
read_body h rest = elim (read_full (h.size - header_len) rest) [
  | none ↦ failed closed
  | some (body, rest') ↦ elim (decode_body h body) [ inl p ↦ got p rest' | inr e ↦ failed e ]
]

unfoldable pub read_pdu : List ℕ → Read Pdu
unfolding read_header read_body
read_pdu conn = elim (read_header conn) [ failed e ↦ failed e | got h rest ↦ read_body h rest ]
