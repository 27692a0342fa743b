-- ===== src/Mrt/Tests.antt =====
-- A dump of three framed records: an UPDATE, one that does not decode, and a KEEPALIVE.
use mathlib.Core.Path.{subst}
use bgpulse.Base.{◌≡◌, refl, arith, Bool, true, false, Option, none, some, List, [], ◌∷◌, All}
use bgpulse.Bgp.Types.{Asn, RelStatus, provider, UpdateEvent}
use bgpulse.Bgp.Net.{Prefix, ip4}
use bgpulse.Classify.{classify}
use bgpulse.Mrt.{
  as_path_attr, next_hop_attr, BgpUpdate, MrtMessage, bgp4mp_update, bgp4mp_other, base_event,
  update_events, decode_stream, replay_passes,
}
use bgpulse.Mrt.Events.{IsParsed}
use bgpulse.Mrt.Decoded.{AreReported, decode_stream-AreReported}
use bgpulse.Mrt.Aggregates.{IsBlameless, update_events-IsBlameless}
use bgpulse.Mrt.Replay.{IsReplay, times_over, replay_passes-IsReplay}

abbrev host : Prefix
host = record { addr = ip4 (10 ∷ 0 ∷ 0 ∷ 1 ∷ []); bits = some 8 }

-- An NLRI is a prefix, or a text that is none.
abbrev parse : Bool → Option Prefix
parse true = some host
parse false = none

parse-IsParsed : (n : Bool) (p : Prefix) → parse n ≡ some p → IsParsed p
parse-IsParsed true p e = subst IsParsed (let q : host ≡ p = cc in q) (8, refl, refl, omega arith)
parse-IsParsed false p e = cc

-- Two ASes and an AS_SET at the end.
abbrev update : BgpUpdate Bool
update = record {
  withdrawn_routes = false ∷ true ∷ [];
  nlri = true ∷ [];
  path_attributes =
      next_hop_attr (ip4 (192 ∷ 0 ∷ 2 ∷ 1 ∷ []))
      ∷ as_path_attr (
          record { is_set = false; ases = 7 ∷ 9 ∷ [] }
          ∷ record { is_set = true; ases = 5 ∷ 6 ∷ [] }
          ∷ [])
      ∷ [];
}

abbrev dump : List (Option (MrtMessage Bool))
dump =
    some (record { timestamp = 5; body = bgp4mp_update 7 update })
    ∷ none
    ∷ some (record { timestamp = 6; body = bgp4mp_other 7 })
    ∷ []

abbrev all_providers : Asn → Asn → RelStatus
all_providers a b = provider

decode_stream-AreReported_example :
    (evs : List UpdateEvent) × (decode_stream parse false dump ≡ some evs)
    × AreReported parse dump evs
decode_stream-AreReported_example = decode_stream-AreReported parse parse-IsParsed dump

update_events-IsBlameless_example :
    All
      (λ ev. IsBlameless ev (classify all_providers (λ p a. none) ev))
      (update_events parse (base_event 5 7) update)
update_events-IsBlameless_example =
    update_events-IsBlameless parse all_providers (λ p a. none) parse-IsParsed 5 7 update refl

abbrev decoded : List UpdateEvent
decoded = base_event 5 7 ∷ base_event 6 7 ∷ []

replay_passes-IsReplay_example : IsReplay 0 (times_over 3 decoded) (replay_passes 3 0 decoded)
replay_passes-IsReplay_example = replay_passes-IsReplay 3 0 decoded (omega arith)
