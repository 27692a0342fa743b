-- ===== src/Rtr/Codec/Encode.antt =====
-- The encoders of backend/internal/rtr/codec.go.
use bgpulse.Base.{ℕ, ◌+◌, ◌/◌, ◌%◌, Bool, none, some, List, [], ◌∷◌, ◌++◌, if◌then◌else◌}
use bgpulse.Bgp.Types.{Asn}
use bgpulse.Bgp.Net.{Addr, ip4, ip6, invalid, Prefix, is6}
use bgpulse.Rtr.Codec.{protocol_version, header_len, flag_announce, PduType, type_code}

-- `be.PutUint16` and `be.AppendUint32`.
unfoldable pub put16 : ℕ → List ℕ
put16 v = v / 256 % 256 ∷ (v % 256 ∷ [])

unfoldable pub put32 : ℕ → List ℕ
put32 v = v / 16777216 % 256 ∷ (v / 65536 % 256 ∷ (v / 256 % 256 ∷ (v % 256 ∷ [])))

unfoldable pub put_header : PduType → ℕ → ℕ → List ℕ
unfolding put16 put32
put_header ptype session size = protocol_version ∷ (type_code ptype ∷ (put16 session ++ put32 size))

-- The bytes that `writeResetQuery` and `writeSerialQuery` write.
unfoldable pub reset_query_bytes : List ℕ
unfolding put_header
reset_query_bytes = put_header PduType.reset_query 0 header_len

unfoldable pub serial_query_bytes : ℕ → ℕ → List ℕ
unfolding put_header put32
serial_query_bytes session serial =
    put_header PduType.serial_query session (header_len + 4) ++ put32 serial

unfoldable pub encode_cache_response : ℕ → List ℕ
unfolding put_header
encode_cache_response session = put_header PduType.cache_response session header_len

unfoldable pub encode_serial_notify : ℕ → ℕ → List ℕ
unfolding put_header put32
encode_serial_notify session serial =
    put_header PduType.serial_notify session (header_len + 4) ++ put32 serial

unfoldable pub encode_cache_reset : List ℕ
unfolding put_header
encode_cache_reset = put_header PduType.cache_reset 0 header_len

unfoldable pub encode_end_of_data : ℕ → ℕ → ℕ → ℕ → ℕ → List ℕ
unfolding put_header put32
encode_end_of_data session serial refresh retry expire =
    put_header PduType.end_of_data session (header_len + 16)
    ++ (put32 serial ++ (put32 refresh ++ (put32 retry ++ put32 expire)))

abbrev pub addr_bytes : Addr → List ℕ
addr_bytes (ip6 b) = b
addr_bytes (ip4 b) = b
addr_bytes invalid = []

-- `EncodePrefix`. Bits that are not valid are -1 in Go, and 255 as a byte; the zero address, where
-- `As4` panics, has no bytes here.
unfoldable pub encode_prefix : Bool → Prefix → ℕ → Asn → List ℕ
unfolding put_header put32
encode_prefix announce prefix max_len asn =
    let v6 = is6 prefix.addr in
    let addr_len = if v6 then 16 else 4 in
    let flags = if announce then flag_announce else 0 in
    let plen : ℕ = elim prefix.bits [ none ↦ 255 | some n ↦ n % 256 ] in
    put_header (if v6 then PduType.ipv6_prefix else PduType.ipv4_prefix) 0
      (header_len + 4 + addr_len + 4)
    ++ ((flags ∷ (plen ∷ (max_len ∷ (0 ∷ [])))) ++ (addr_bytes prefix.addr ++ put32 asn))
