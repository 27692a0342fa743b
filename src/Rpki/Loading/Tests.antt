-- ===== src/Rpki/Loading/Tests.antt =====
-- An export of two entries, of which the second repeats the first as rpki-client writes it.
use Prim.Native.String.{String}
use bgpulse.Base.{◌≡◌, refl, Option, none, some, List, [], ◌∷◌}
use bgpulse.Base.Text.{
  trim_space, trim_left, trim_right, trim_as, parse_uint32, parse_digits, digits_value,
}
use bgpulse.Bgp.Net.{Prefix, ip4}
use bgpulse.Rpki.Loading.{asn_number, asn_text, unmarshal_asn, RoaValue}

abbrev ten : Prefix
ten = record { addr = ip4 (10 ∷ 0 ∷ 0 ∷ 0 ∷ []); bits = some 8 }

-- A parser that knows one text.
abbrev parse : String → Option Prefix
parse String.[] = none
parse (String.◌∷◌ c s) = some ten

abbrev export : List RoaValue
export =
    record { prefix = "10.0.0.0/8"; max_length = some 16; asn = asn_text " AS64500" }
    ∷ record { prefix = "10.0.0.0/8"; max_length = some 16; asn = asn_number 64500 }
    ∷ []

routinator_asn : unmarshal_asn (asn_text " AS64500") ≡ some 64500
unfolding unmarshal_asn trim_space trim_left trim_right trim_as parse_uint32 parse_digits
    digits_value
routinator_asn = refl
