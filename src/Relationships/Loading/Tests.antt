-- ===== src/Relationships/Loading/Tests.antt =====
-- A file of three data lines: AS1 sells transit to AS2, AS2 and AS3 are peers, AS4 buys from AS1.
use Prim.Native.String.{String}
use bgpulse.Base.{◌≡◌, refl, List, [], ◌∷◌}
use bgpulse.Base.Text.{
  trim_as, trim_left, trim_right, trim_space, cut, split_n, digits_value, parse_digits,
  parse_uint32, atoi,
}
use bgpulse.Bgp.Types.{customer, peer}
use bgpulse.Relationships.Loading.{
  line_text, parse_fields, parse_line, entry, bad, bad_as2, malformed, split_at, split_asn_name,
  parse_name_line,
}

abbrev lines : List String
lines = "# comment" ∷ "1|2|-1\r" ∷ "" ∷ " 2 | 3|0|bgp" ∷ "4|1|+1" ∷ []

transit_line : parse_line "1|2|-1\r" ≡ entry (1, 2, customer)
unfolding parse_line line_text trim_space trim_left trim_right split_n cut parse_fields parse_uint32
    parse_digits digits_value atoi
transit_line = refl

peer_line : parse_line " 2 | 3|0|bgp" ≡ entry (2, 3, peer)
unfolding parse_line line_text trim_space trim_left trim_right split_n cut parse_fields parse_uint32
    parse_digits digits_value atoi
peer_line = refl

large_line : parse_line "1|4294967296|0" ≡ bad bad_as2
unfolding parse_line line_text trim_space trim_left trim_right split_n cut parse_fields parse_uint32
    parse_digits digits_value atoi
large_line = refl

short_line : parse_line "1|2" ≡ bad malformed
unfolding parse_line line_text trim_space trim_left trim_right split_n cut parse_fields
short_line = refl

name_line : parse_name_line "AS13335 Cloudflare, Inc.\r" ≡ entry (13335, "Cloudflare, Inc.")
unfolding parse_name_line line_text trim_space trim_left trim_right split_asn_name split_at cut
    trim_as parse_uint32 parse_digits digits_value
name_line = refl
