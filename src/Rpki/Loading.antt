-- ===== src/Rpki/Loading.antt =====
-- backend/internal/rpki/jsonload.go on the decoded JSON, and live.go. `netip.ParsePrefix` is the
-- parameter `parse`.
pub mod Outcome
mod Tests
use Prim.Native.String.{String}
use bgpulse.Base.{
  ℕ, zero, suc, ◌+◌, ◌^◌, ◌%◌, Bool, Option, none, some, List, [], ◌∷◌, ltb, if◌then◌else◌,
}
use bgpulse.Base.Text.{trim_space, trim_as, parse_uint32}
use bgpulse.Bgp.Types.{Asn}
use bgpulse.Bgp.Net.{Prefix, masked}
use bgpulse.Rpki.{
  Vrp, VrpStore, Validation, Builder, AddError, ok, refused, fault, new_builder, add_vrp, build,
  validate,
}

-- The JSON value of an `asn`: a number without a fraction, a text, `null` or nothing, or another
-- value.
pub data AsnValue : Type 0 where
  asn_number : ℕ → AsnValue
  asn_text : String → AsnValue
  asn_null asn_other : AsnValue

-- `UnmarshalJSON` of asnJSON.
unfoldable pub unmarshal_asn : AsnValue → Option Asn
unmarshal_asn (asn_number n) = if ltb n (2 ^ 32) then some n else none
unmarshal_asn (asn_text s) = parse_uint32 (trim_as (trim_space s))
unmarshal_asn asn_null = some 0
unmarshal_asn asn_other = none

-- An entry as it stands in the export, and as it is decoded.
pub record RoaValue : Type 0 where
  pub prefix : String
  pub max_length : Option ℕ
  pub asn : AsnValue

pub record RoaJson : Type 0 where
  pub prefix : String
  pub max_length : Option ℕ
  pub asn : Asn

-- A `*uint8`.
abbrev pub is_uint8 : Option ℕ → Bool
is_uint8 none = Bool.true
is_uint8 (some n) = ltb n (2 ^ 8)

-- The decoding of `exportJSON`; one entry that does not decode is an error for all.
unfoldable pub decode_export : List RoaValue → Option (List RoaJson)
unfolding unmarshal_asn
decode_export [] = some []
decode_export (r ∷ rs) =
    let rest = decode_export rs in
    elim (unmarshal_asn r.asn) [
      | none ↦ none
      | some asn ↦
          if is_uint8 r.max_length
          then elim rest [
            | none ↦ none
            | some roas ↦
                some (record { prefix = r.prefix; max_length = r.max_length; asn = asn } ∷ roas)
          ]
          else none
    ]

pub data LoadError : Type 0 where
  bad_json : LoadError
  bad_prefix : ℕ → LoadError
  bad_roa : ℕ → AddError → LoadError

-- The store or the error, or a panic of Add.
pub data Loaded : Type 0 where
  loaded : VrpStore → Loaded
  failed : LoadError → Loaded
  panicked : Loaded

-- `uint8(p.Bits())`, where Bits is -1 for a prefix that is not valid.
abbrev pub bits_uint8 : Option ℕ → ℕ
bits_uint8 none = 255
bits_uint8 (some n) = n % 2 ^ 8

-- The VRP of an entry whose prefix is `p`.
abbrev pub vrp_of : Prefix → RoaJson → Vrp
vrp_of p roa = record {
  prefix = masked p;
  max_length = elim roa.max_length [ none ↦ bits_uint8 (masked p).bits | some n ↦ n ];
  origin_as = roa.asn;
}

module _ (parse : String → Option Prefix) where
  -- The loop over the entries, from the entry of index `i`.
  unfoldable pub load_roas : Builder → ℕ → List RoaJson → Loaded
  load_roas b i [] = loaded (build b)
  load_roas b i (roa ∷ roas) = elim (parse roa.prefix) [
    | none ↦ failed (bad_prefix i)
    | some p ↦ elim (add_vrp b (vrp_of p roa)) [
      | ok b' ↦ load_roas b' (i + 1) roas
      | refused e ↦ failed (bad_roa i e)
      | fault ↦ panicked
    ]
  ]

  -- `LoadVRPsJSON`, where `none` is a text that is no JSON of the shape.
  unfoldable pub load_vrps_json : Option (List RoaValue) → Loaded
  unfolding decode_export load_roas
  load_vrps_json none = failed bad_json
  load_vrps_json (some rs) = elim (decode_export rs) [
    | none ↦ failed bad_json
    | some roas ↦ load_roas new_builder 0 roas
  ]

-- `NewLive`; Live is the store that it holds.
unfoldable pub new_live : Option VrpStore → VrpStore
new_live none = build new_builder
new_live (some s) = s

-- `Live.Replace`
unfoldable pub replace : VrpStore → Option VrpStore → VrpStore
replace live none = live
replace live (some s) = s

unfoldable pub live_validate : VrpStore → Prefix → Asn → Option Validation
live_validate live prefix origin = validate live prefix origin

unfoldable pub live_size : VrpStore → ℕ
live_size live = live.size
