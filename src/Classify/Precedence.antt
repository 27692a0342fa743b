-- ===== src/Classify/Precedence.antt =====
-- Classify of classify/classify.go against the two questions that it combines: is some VRP
-- covering with none that matches, and does the path leave the valley-free shape.
use mathlib.Core.Path.{subst}
use bgpulse.Base.{
  ℕ, ◌≤◌, ◌≡◌, ◌≢◌, ◌↔◌, arith, Bool, true, false, ◌&&◌, Option, some, length, ltb, ◌==◌,
  if◌then◌else◌,
}
use bgpulse.Bgp.Types.{
  Asn, RelStatus, VfStatus, RpkiStatus, announce, withdraw, UpdateEvent, ClassifiedEvent,
}
use bgpulse.Bgp.Net.{Prefix, unmap, IsAddr, is_addr, bit_len}
use bgpulse.Rpki.{Validation, Builder, build, validate}
use bgpulse.Rpki.Spec.{IsIndex, rov}
use bgpulse.Rpki.Answers.{validate-Answers}
use bgpulse.ValleyFree.{Verdict, classify_path}
use bgpulse.ValleyFree.Shape.{IsValleyFree}
use bgpulse.ValleyFree.Verdicts.{path_moves, is_leak_iff}
use bgpulse.Classify.{is_invalid, neutral, resolve, origin_status, classify}

-- The four verdicts on an announcement, by the origin's status and the walk's verdict.
abbrev pub combined : Bool → Verdict → ℕ → VfStatus
combined bad_origin vf path_length =
    if bad_origin
    then VfStatus.hijack
    else if vf.is_leak
    then VfStatus.leak
    else if ltb 1 path_length && vf.known_hops == 0
    then VfStatus.unknown
    else VfStatus.valid

-- The status that RFC 6811 gives to an announcement whose origin is known.
abbrev pub spec_status : Builder → UpdateEvent → ℕ → RpkiStatus
spec_status b ev n =
    if ev.origin_as == 0
    then RpkiStatus.not_found
    else rov b.seen (unmap ev.prefix.addr) n ev.origin_as

-- An announcement of a prefix of `n` bits that lie in its unmapped address.
pub record IsAnnounced (ev : UpdateEvent) (n : ℕ) : Type 0 where
  pub kind : ev.kind ≡ announce
  pub bits : ev.prefix.bits ≡ some n
  pub sized : IsAddr (unmap ev.prefix.addr)
  pub known : is_addr (unmap ev.prefix.addr) ≡ true
  pub fits : n ≤ bit_len (unmap ev.prefix.addr)

module _ (rl : Asn → Asn → RelStatus) (b : Builder) (ev : UpdateEvent) (n : ℕ) where
  origin_status-spec :
      IsIndex b
      → IsAnnounced ev n
      → origin_status rl (validate (build b)) ev ≡ some (spec_status b ev n)
  unfolding origin_status
  origin_status-spec x a =
      let (r, done, answers) =
        validate-Answers b ev.prefix n ev.origin_as x a.bits a.sized a.known a.fits in
      ground (arith, answers.by_rov)

  -- What Classify returns for an announcement.
  abbrev pub classified : ClassifiedEvent
  classified = resolve ev (classify_path rl ev.as_path ev.has_as_set) (spec_status b ev n)

  -- An announcement is classified without a panic, and both partial verdicts are kept: the status
  -- is that of RFC 6811 over the added VRPs (NotFound for an unknown origin), the hops are those of
  -- the walk, and the combined status is the first of hijack, leak, unknown and valid that applies.
  pub classify-combines :
      IsIndex b
      → IsAnnounced ev n
      → (classify rl (validate (build b)) ev ≡ some classified)
        × (classified.event ≡ ev)
        × (classified.rpki_status ≡ spec_status b ev n)
        × (classified.hops ≡ (classify_path rl ev.as_path ev.has_as_set).hops)
        × (classified.vf_status
            ≡ combined
                (is_invalid (spec_status b ev n))
                (classify_path rl ev.as_path ev.has_as_set)
                (length ev.as_path))
  unfolding classify
  classify-combines x a = (
    ground (arith, origin_status-spec x a, a.kind),
    ground arith,
    ground arith,
    ground arith,
    ground arith,
  )

  classified_iff :
      ((classified.vf_status ≡ VfStatus.hijack) ↔ (
        (ev.origin_as ≢ 0)
        × (rov b.seen (unmap ev.prefix.addr) n ev.origin_as ≡ RpkiStatus.invalid)))
      × ((classified.vf_status ≡ VfStatus.leak) ↔ (
          (classified.vf_status ≢ VfStatus.hijack)
          × (ev.has_as_set ≡ false)
          × (¬ IsValleyFree (path_moves rl ev.as_path))))
  unfolding resolve
  classified_iff = (
    ((λ y. ground arith), (λ y. ground arith)),
    (
      (λ y.
          let leaks = (is_leak_iff rl ev.as_path ev.has_as_set).0 (ground arith) in
          (ground arith, leaks.0, leaks.1)),
      (λ y. ground (arith, (is_leak_iff rl ev.as_path ev.has_as_set).1 (y.1, y.2))),
    ),
  )

  -- The verdict on an announcement is a hijack exactly when the origin is known and RFC 6811 over
  -- the added VRPs calls it Invalid; a leak exactly when it is no hijack, the path held no AS_SET
  -- and its moves leave the valley-free shape.
  pub classify_iff :
      (out : ClassifiedEvent)
      → IsIndex b
      → IsAnnounced ev n
      → classify rl (validate (build b)) ev ≡ some out
      → ((out.vf_status ≡ VfStatus.hijack) ↔ (
          (ev.origin_as ≢ 0)
          × (rov b.seen (unmap ev.prefix.addr) n ev.origin_as ≡ RpkiStatus.invalid)))
        × ((out.vf_status ≡ VfStatus.leak) ↔ (
            (out.vf_status ≢ VfStatus.hijack)
            × (ev.has_as_set ≡ false)
            × (¬ IsValleyFree (path_moves rl ev.as_path))))
  classify_iff out x a h =
      let e : classified ≡ out = ground (arith, (classify-combines x a).0, h) in
      subst
        (λ (o : ClassifiedEvent).
          ((o.vf_status ≡ VfStatus.hijack) ↔ (
            (ev.origin_as ≢ 0)
            × (rov b.seen (unmap ev.prefix.addr) n ev.origin_as ≡ RpkiStatus.invalid)))
          × ((o.vf_status ≡ VfStatus.leak) ↔ (
              (o.vf_status ≢ VfStatus.hijack)
              × (ev.has_as_set ≡ false)
              × (¬ IsValleyFree (path_moves rl ev.as_path)))))
        e classified_iff

-- A withdraw is passed on as it is, whatever the stores hold.
pub classify-withdraw :
    (rl : Asn → Asn → RelStatus) (vrp : Prefix → Asn → Option Validation) (ev : UpdateEvent)
    → ev.kind ≡ withdraw
    → classify rl vrp ev ≡ some (neutral ev)
unfolding classify
classify-withdraw rl vrp ev k = ground arith
