-- ===== src/Mrt/Aggregates.antt =====
-- The events of an UPDATE whose AS_PATH ends in an AS_SET (mrt/parser.go), as classify/classify.go
-- sees them: nobody can be blamed for them.
use bgpulse.Base.{
  ℕ, ◌≡◌, refl, arith, ap, ◌∙◌, true, false, Option, some, List, [], ◌∷◌, ◌⊎◌, inl, inr, All,
  All-imp, ◌||◌,
}
use bgpulse.Bgp.Types.{
  Asn, RelStatus, VfStatus, RpkiStatus, announce, withdraw, UpdateEvent, ClassifiedEvent,
}
use bgpulse.Bgp.Net.{Prefix}
use bgpulse.Rpki.{Validation}
use bgpulse.ValleyFree.{classify_path, classify_seq}
use bgpulse.Classify.{classify, resolve, origin_status, neutral}
use bgpulse.Classify.Precedence.{classify-withdraw}
use bgpulse.Mrt.{Segment, BgpUpdate, base_event, update_events}
use bgpulse.Mrt.Events.{ends_in_set, any_set, segments_of, IsParsed, or_true}
use bgpulse.Mrt.Decoded.{IsDecoded, update_events-Reports}

-- A verdict that blames no AS: the event passes as it is, with no leak and no hijack.
pub record IsBlameless (ev : UpdateEvent) (r : Option ClassifiedEvent) : Type 0 where
  pub out : ClassifiedEvent
  pub done : r ≡ some out
  pub same : out.event ≡ ev
  pub verdict : (out.vf_status ≡ VfStatus.valid) ⊎ (out.vf_status ≡ VfStatus.unknown)
  pub not_validated : out.rpki_status ≡ RpkiStatus.not_found
  pub nobody : out.offender_as ≡ 0

any_set-ends : (segs : List Segment) → ends_in_set false segs ≡ true → any_set segs ≡ true
any_set-ends [] h = cc
any_set-ends (seg ∷ []) h = rw h refl
any_set-ends (seg ∷ (s ∷ segs)) h =
    ap (λ b. seg.is_set || b) (any_set-ends (s ∷ segs) h) ∙ or_true seg.is_set

module _ (rl : Asn → Asn → RelStatus) (vrp : Prefix → Asn → Option Validation) where
  set_no_leak : (path : List Asn) → (classify_path rl path true).is_leak ≡ false
  unfolding classify_path classify_seq
  set_no_leak path = ground arith

  withdrawal-IsBlameless :
      (ev : UpdateEvent) → ev.kind ≡ withdraw → IsBlameless ev (classify rl vrp ev)
  withdrawal-IsBlameless ev h = record {
    out = neutral ev;
    done = classify-withdraw rl vrp ev h;
    same = refl;
    verdict = inl refl;
    not_validated = refl;
    nobody = refl;
  }

  aggregate-IsBlameless :
      (ev : UpdateEvent)
      → ev.kind ≡ announce
      → ev.has_as_set ≡ true
      → ev.origin_as ≡ 0
      → IsBlameless ev (classify rl vrp ev)
  unfolding classify origin_status resolve
  aggregate-IsBlameless ev k s o =
      let e = set_no_leak ev.as_path in
      record {
        out = resolve ev (classify_path rl ev.as_path true) RpkiStatus.not_found;
        done = ground arith;
        same = ground arith;
        verdict = ground arith;
        not_validated = ground arith;
        nobody = ground arith;
      }

module _ {N : Type 0} (parse : N → Option Prefix) where
  -- Where a text that parses as a prefix has an address with a length that lies in it, no event of
  -- an UPDATE whose AS_PATH ends in an AS_SET is a leak or a hijack to Classify, whatever the
  -- relationships and the VRPs: each passes as it is, not validated, as valid or unknown, with
  -- nobody to blame.
  pub update_events-IsBlameless :
      (rl : Asn → Asn → RelStatus) (vrp : Prefix → Asn → Option Validation)
      → ((n : N) (p : Prefix) → parse n ≡ some p → IsParsed p)
      → (seconds : ℕ) (peer : Asn) (upd : BgpUpdate N)
      → ends_in_set false (segments_of upd.path_attributes) ≡ true
      → All
          (λ ev. IsBlameless ev (classify rl vrp ev))
          (update_events parse (base_event seconds peer) upd)
  update_events-IsBlameless rl vrp ok seconds peer upd h =
      All-imp (IsDecoded seconds peer (segments_of upd.path_attributes))
        (λ ev. IsBlameless ev (classify rl vrp ev))
        (update_events parse (base_event seconds peer) upd)
        (λ ev d. elim d.is_kind [
          | inl w ↦ withdrawal-IsBlameless rl vrp ev w.kind
          | inr a ↦
              aggregate-IsBlameless rl vrp ev a.kind
                (a.aggregated ∙ any_set-ends (segments_of upd.path_attributes) h) (a.hidden h)
        ])
        (update_events-Reports parse ok seconds peer upd).0
