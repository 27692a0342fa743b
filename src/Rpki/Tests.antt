-- ===== src/Rpki/Tests.antt =====
-- A store of three VRPs for rpki/store.go: 10.0.0.0/8 up to /16 for AS65001, 10.1.0.0/16 for
-- AS65002, and the disavowed 192.0.2.0/24 of AS0.
use bgpulse.Base.{◌≡◌, refl, arith, true, Option, none, some, [], ◌∷◌, ℕ_discrete, ite, ◌↔◌, ◌≤◌}
use bgpulse.Base.Table.{member, add}
use bgpulse.Bgp.Types.{RpkiStatus}
use bgpulse.Bgp.Net.{ip4, ip6, Prefix, masked, mask_bytes, prefix_from, unmap, mask_addr}
use bgpulse.Rpki.{
  Vrp, Vrp-discrete, Validation, Builder, new_builder, Added, ok, refused, fault, add_vrp, mask_vrp,
  bit_at, build, validate, descend,
}
use bgpulse.Rpki.Covers.{covers_iff}
use bgpulse.Rpki.Spec.{covers, IsIndex, new_builder-IsIndex, add_vrp-IsIndex}
use bgpulse.Rpki.Answers.{Answers, validate-Answers}
use bgpulse.Rpki.Adds.{add_vrp_total}
use bgpulse.Rpki.Unordered.{IsSetAdd, add_vrp-IsSetAdd}
use bgpulse.Rpki.Mapped.{subtree, validate_panics}

abbrev net10 : Prefix
net10 = record { addr = ip4 (10 ∷ 0 ∷ 0 ∷ 0 ∷ []); bits = some 8 }

abbrev net10_1 : Prefix
net10_1 = record { addr = ip4 (10 ∷ 1 ∷ 0 ∷ 0 ∷ []); bits = some 16 }

abbrev net10_1_2 : Prefix
net10_1_2 = record { addr = ip4 (10 ∷ 1 ∷ 2 ∷ 0 ∷ []); bits = some 24 }

abbrev vrp10 : Vrp
vrp10 = record { prefix = net10; max_length = 16; origin_as = 65001 }

abbrev vrp10_1 : Vrp
vrp10_1 = record { prefix = net10_1; max_length = 16; origin_as = 65002 }

abbrev or_empty : Added → Builder
or_empty (ok b) = b
or_empty (refused e) = new_builder
or_empty fault = new_builder

abbrev one_vrp : Builder
one_vrp = or_empty (add_vrp new_builder vrp10)

abbrev two_vrps : Builder
two_vrps = or_empty (add_vrp one_vrp vrp10_1)

status_of : Option Validation → RpkiStatus
status_of none = RpkiStatus.not_found
status_of (some r) = r.status

exact_origin_is_valid : status_of (validate (build two_vrps) net10_1 65002) ≡ RpkiStatus.valid
unfolding validate build add_vrp masked prefix_from mask_bytes unmap member bit_at status_of descend
    add Vrp-discrete ℕ_discrete
exact_origin_is_valid = refl

more_specific_is_invalid :
    status_of (validate (build two_vrps) net10_1_2 65002) ≡ RpkiStatus.invalid
unfolding validate build add_vrp masked prefix_from mask_bytes unmap member bit_at status_of descend
    add Vrp-discrete ℕ_discrete
more_specific_is_invalid = refl

one_vrp_made : add_vrp new_builder vrp10 ≡ ok one_vrp
unfolding add_vrp masked prefix_from mask_bytes unmap member bit_at
one_vrp_made = refl

two_vrps_made : add_vrp one_vrp vrp10_1 ≡ ok two_vrps
unfolding add_vrp masked prefix_from mask_bytes unmap member bit_at Vrp-discrete ℕ_discrete add
two_vrps_made = refl

one_vrp-IsIndex : IsIndex one_vrp
one_vrp-IsIndex =
    add_vrp-IsIndex new_builder vrp10 (refl, refl, omega arith) new_builder-IsIndex one_vrp_made

add_vrp-IsIndex_example : IsIndex two_vrps
add_vrp-IsIndex_example =
    add_vrp-IsIndex one_vrp vrp10_1 (refl, refl, omega arith) one_vrp-IsIndex two_vrps_made

add_vrp-IsSetAdd_example : IsSetAdd one_vrp two_vrps vrp10_1
add_vrp-IsSetAdd_example =
    add_vrp-IsSetAdd one_vrp vrp10_1 (refl, refl, omega arith) one_vrp-IsIndex two_vrps_made

validate-Answers_example :
    (r : Validation) × (validate (build two_vrps) net10_1_2 65002 ≡ some r)
    × Answers two_vrps.seen (unmap net10_1_2.addr) 24 65002 r
unfolding unmap
validate-Answers_example =
    validate-Answers two_vrps net10_1_2 24 65002
      (add_vrp-IsIndex one_vrp vrp10_1 (refl, refl, omega arith) one_vrp-IsIndex two_vrps_made) refl
      refl refl (omega arith)

add_vrp_total_example :
    (b : Builder) × (add_vrp one_vrp vrp10_1 ≡ ok b)
    × ((w : Vrp)
        → member Vrp-discrete w b.seen
          ≡ ite (Vrp-discrete (mask_vrp vrp10_1) w) true (member Vrp-discrete w one_vrp.seen))
unfolding masked prefix_from mask_bytes unmap
add_vrp_total_example =
    add_vrp_total one_vrp vrp10_1 16 (refl, refl, omega arith) refl (omega arith) (omega arith)

abbrev vrp_host : Vrp
vrp_host = record {
  prefix = record { addr = ip4 (10 ∷ 1 ∷ 2 ∷ 3 ∷ []); bits = some 32 };
  max_length = 32;
  origin_as = 65001;
}

abbrev host_vrp : Builder
host_vrp = or_empty (add_vrp new_builder vrp_host)

-- ::ffff:10.1.2.3/128
abbrev mapped_host : Prefix
mapped_host = record {
  addr = ip6 (0 ∷ 0 ∷ 0 ∷ 0 ∷ 0 ∷ 0 ∷ 0 ∷ 0 ∷ 0 ∷ 0 ∷ 255 ∷ 255 ∷ 10 ∷ 1 ∷ 2 ∷ 3 ∷ []);
  bits = some 128;
}

validate_panics_example : validate (build host_vrp) mapped_host 65001 ≡ none
unfolding unmap build add_vrp masked prefix_from mask_bytes member bit_at subtree
validate_panics_example =
    validate_panics (build host_vrp) mapped_host 128 65001 (10 ∷ 1 ∷ 2 ∷ 3 ∷ []) refl (omega arith)
      refl refl (λ e. cc)

covers_iff_example :
    (covers net10_1.addr 16 vrp10 ≡ true)
    ↔ ((◌≤◌ 8 16) × (mask_addr 8 (unmap vrp10.prefix.addr) ≡ mask_addr 8 net10_1.addr))
unfolding unmap
covers_iff_example =
    covers_iff net10_1.addr 16 8 vrp10
      ((omega arith, (omega arith, (omega arith, (omega arith, tt)))), refl)
      ((omega arith, (omega arith, (omega arith, (omega arith, tt)))), refl) refl (omega arith)
