-- ===== src/Synth/Numbering.antt =====
-- The numbers and names that synth/topology.go gives to the ASes of the demo.
use Prim.Native.String.{String, ◌++◌}
use Prim.Native.Char.{Char}
use bgpulse.Base.{ℕ, zero, suc, ◌+◌, ◌/◌, ◌%◌, List, [], ◌∷◌, ltb, get_or, refl, ◌≡◌, if◌then◌else◌}
use bgpulse.Bgp.Types.{Asn}

-- `count` consecutive numbers from `base`.
unfoldable pub numbered : ℕ → ℕ → List Asn
numbered base zero = []
numbered base (suc count) = base ∷ numbered (base + 1) count

abbrev pub digits : List Char
digits = "0" ∷ "1" ∷ "2" ∷ "3" ∷ "4" ∷ "5" ∷ "6" ∷ "7" ∷ "8" ∷ "9" ∷ []

-- The decimal digits of a number below `10 ^ fuel`, before a text; a `uint32` has at most ten.
unfoldable pub digits_before : ℕ → ℕ → String → String
digits_before zero n s = s
digits_before (suc fuel) n s =
    let s' = String.◌∷◌ (get_or digits (n % 10) "0") s in
    let more = digits_before fuel (n / 10) s' in if ltb n 10 then s' else more

unfoldable pub transit_name : Asn → String
unfolding digits_before
transit_name asn = "Transit-" ++ (digits_before 10 asn "")

unfoldable pub stub_name : Asn → String
unfolding digits_before
stub_name asn = "AS" ++ (digits_before 10 asn "")

transit_name_2001 : transit_name 2001 ≡ "Transit-2001"
unfolding transit_name
transit_name_2001 = refl
