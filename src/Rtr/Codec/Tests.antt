-- ===== src/Rtr/Codec/Tests.antt =====
-- Concrete PDUs for rtr/codec.go: 10.0.0.0/8 up to /16 for AS65001.
use bgpulse.Base.{◌≡◌, ◌≤◌, refl, arith, true, false, some, [], ◌∷◌, ◌++◌, length, drop}
use bgpulse.Bgp.Net.{ip4, Prefix, prefix_from, masked, mask_bytes}
use bgpulse.Rtr.Codec.{PrefixPdu, prefix_pdu, got, read_pdu}
use bgpulse.Rtr.Codec.Encode.{encode_prefix}
use bgpulse.Rtr.Codec.RoundTrip.{read_pdu-encode_prefix}
use bgpulse.Rtr.Codec.Framing.{declared, read_pdu_framed}

abbrev net10 : Prefix
net10 = record { addr = ip4 (10 ∷ 0 ∷ 0 ∷ 0 ∷ []); bits = some 8 }

abbrev net10_pdu : PrefixPdu
net10_pdu = record { is_v6 = false; announce = true; prefix = net10; max_len = 16; asn = 65001 }

net10-masked : masked net10 ≡ net10
unfolding masked prefix_from mask_bytes
net10-masked = refl

net10_read : read_pdu (encode_prefix true net10 16 65001 ++ []) ≡ got (prefix_pdu net10_pdu) []
net10_read =
    read_pdu-encode_prefix true net10 8 16 65001 [] refl refl refl (omega arith) net10-masked
      (omega arith)

read_pdu-encode_prefix_example :
    read_pdu (encode_prefix true net10 16 65001 ++ (5 ∷ [])) ≡ got (prefix_pdu net10_pdu) (5 ∷ [])
read_pdu-encode_prefix_example =
    read_pdu-encode_prefix true net10 8 16 65001 (5 ∷ []) refl refl refl (omega arith) net10-masked
      (omega arith)

read_pdu_framed_example :
    let conn = encode_prefix true net10 16 65001 ++ [] in
    (8 ≤ declared conn)
    × (declared conn ≤ 1048576)
    × (declared conn ≤ length conn)
    × ([] ≡ drop (declared conn) conn)
read_pdu_framed_example = read_pdu_framed (encode_prefix true net10 16 65001 ++ []) net10_read
