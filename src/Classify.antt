-- ===== src/Classify.antt =====
-- backend/internal/classify/classify.go: the combined verdict on one event. The two interfaces that
-- a Classifier holds are the functions `rl` (valleyfree.RelLookup) and `vrp` (Validator), where
-- `none` is a panic inside the validator.
pub mod Precedence
mod Tests
use mathlib.Core.Option
use bgpulse.Base.{
  ℕ, ◌+◌, ◌≡◌, Bool, true, false, ◌&&◌, not, Option, none, some, List, [], length, ltb, ◌==◌,
  if◌then◌else◌,
}
use bgpulse.Bgp.Types.{
  Asn, RelStatus, VfStatus, RpkiStatus, UpdateKind, announce, withdraw, UpdateEvent,
  ClassifiedEvent, normal, valley, unauthorized, unauthorized_valley,
}
use bgpulse.Bgp.Net.{Prefix}
use bgpulse.Rpki.{Validation}
use bgpulse.ValleyFree.{Verdict, classify_path}

abbrev pub is_invalid : RpkiStatus → Bool
is_invalid RpkiStatus.invalid = true
is_invalid RpkiStatus.valid = false
is_invalid RpkiStatus.not_found = false

-- `out` as Classify begins with it; a withdraw is returned so.
abbrev pub neutral : UpdateEvent → ClassifiedEvent
neutral ev = record {
  event = ev;
  vf_status = VfStatus.valid;
  rpki_status = RpkiStatus.not_found;
  hops = [];
  offender_as = 0;
  reason = normal;
}

-- The `switch` of Classify, after the walk and the validation.
unfoldable pub resolve : UpdateEvent → Verdict → RpkiStatus → ClassifiedEvent
resolve ev vf status =
    let out : ClassifiedEvent = record (neutral ev) { rpki_status = status; hops = vf.hops } in
    if not (ev.origin_as == 0) && is_invalid status
    then record out {
      vf_status = VfStatus.hijack;
      offender_as = ev.origin_as;
      reason =
          if vf.is_leak
          then unauthorized_valley ev.origin_as ev.prefix vf.reason
          else unauthorized ev.origin_as ev.prefix;
    }
    else if vf.is_leak
    then record out {
      vf_status = VfStatus.leak;
      offender_as = vf.offender_as;
      reason = valley vf.reason;
    }
    else if ltb 1 (length ev.as_path) && vf.known_hops == 0
    then record out { vf_status = VfStatus.unknown }
    else out

module _ (rl : Asn → Asn → RelStatus) (vrp : Prefix → Asn → Option Validation) where
  -- The validation status of an announcement; an unknown origin is not validated.
  unfoldable pub origin_status : UpdateEvent → Option RpkiStatus
  origin_status ev =
      if ev.origin_as == 0
      then some RpkiStatus.not_found
      else Option.map (λ r. r.status) (vrp ev.prefix ev.origin_as)

  unfoldable pub classify : UpdateEvent → Option ClassifiedEvent
  unfolding resolve origin_status
  classify ev = elim ev.kind [
    | withdraw ↦ some (neutral ev)
    | announce ↦
        Option.map (resolve ev (classify_path rl ev.as_path ev.has_as_set)) (origin_status ev)
  ]
