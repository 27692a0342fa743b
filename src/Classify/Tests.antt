-- ===== src/Classify/Tests.antt =====
-- Concrete events for classify/classify.go: AS65001 may announce 10.0.0.0/8 up to /16.
use bgpulse.Base.{◌≡◌, ◌≢◌, ◌↔◌, refl, arith, some, [], ◌∷◌, false}
use bgpulse.Bgp.Types.{Asn, RelStatus, unknown, VfStatus, RpkiStatus, announce, UpdateEvent}
use bgpulse.Bgp.Net.{ip4, invalid, masked, mask_bytes, prefix_from, unmap}
use bgpulse.Rpki.{Vrp, Builder, new_builder, Added, ok, refused, fault, add_vrp, bit_at}
use bgpulse.Base.Table.{member}
use bgpulse.Rpki.Spec.{IsIndex, rov, new_builder-IsIndex, add_vrp-IsIndex}
use bgpulse.ValleyFree.Shape.{IsValleyFree}
use bgpulse.ValleyFree.Verdicts.{path_moves}
use bgpulse.Classify.Precedence.{IsAnnounced, classified, classify-combines, classify_iff}

abbrev or_empty : Added → Builder
or_empty (ok b) = b
or_empty (refused e) = new_builder
or_empty fault = new_builder

abbrev home_vrp : Vrp
home_vrp = record {
  prefix = record { addr = ip4 (10 ∷ 0 ∷ 0 ∷ 0 ∷ []); bits = some 8 };
  max_length = 16;
  origin_as = 65001;
}

abbrev home : Builder
home = or_empty (add_vrp new_builder home_vrp)

home_made : add_vrp new_builder home_vrp ≡ ok home
unfolding add_vrp masked prefix_from mask_bytes unmap member bit_at
home_made = refl

home-IsIndex : IsIndex home
home-IsIndex =
    add_vrp-IsIndex new_builder home_vrp (refl, refl, omega arith) new_builder-IsIndex home_made

abbrev no_rel : Asn → Asn → RelStatus
no_rel a b = unknown

-- AS666 announces 10.1.0.0/16.
abbrev stolen : UpdateEvent
stolen = record {
  id = record { tag = "t"; seq = 1 };
  seq = 1;
  timestamp = 5000000000;
  kind = announce;
  prefix = record { addr = ip4 (10 ∷ 1 ∷ 0 ∷ 0 ∷ []); bits = some 16 };
  peer_as = 7;
  as_path = 7 ∷ 666 ∷ [];
  has_as_set = false;
  next_hop = invalid;
  communities = [];
  origin_as = 666;
}

stolen-IsAnnounced : IsAnnounced stolen 16
unfolding unmap
stolen-IsAnnounced = record {
  kind = refl;
  bits = refl;
  sized = refl;
  known = refl;
  fits = omega arith;
}

classify_iff_example :
    let out = classified no_rel home stolen 16 in
    ((out.vf_status ≡ VfStatus.hijack) ↔ (
      (stolen.origin_as ≢ 0)
      × (rov home.seen (unmap stolen.prefix.addr) 16 stolen.origin_as ≡ RpkiStatus.invalid)))
    × ((out.vf_status ≡ VfStatus.leak) ↔ (
        (out.vf_status ≢ VfStatus.hijack)
        × (stolen.has_as_set ≡ false)
        × (¬ IsValleyFree (path_moves no_rel stolen.as_path))))
classify_iff_example =
    classify_iff no_rel home stolen 16 (classified no_rel home stolen 16) home-IsIndex
      stolen-IsAnnounced (classify-combines no_rel home stolen 16 home-IsIndex stolen-IsAnnounced).0
