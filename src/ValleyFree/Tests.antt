-- ===== src/ValleyFree/Tests.antt =====
-- Concrete paths for valleyfree/classifier.go: AS2001 buys transit from AS1001 and AS1002, which
-- peer; AS3001 buys transit from AS2001.
use bgpulse.Base.{◌≡◌, refl, ◌↔◌, Bool, true, false, List, [], ◌∷◌, ◌==◌, if◌then◌else◌, ◌&&◌, ◌||◌}
use bgpulse.Bgp.Types.{Asn, RelStatus, unknown, customer, provider, peer}
use bgpulse.ValleyFree.{
  dedupe_from, dedupe_consecutive, walk, walk_path, find_valley, classify_path,
}
use bgpulse.ValleyFree.Shape.{IsValleyFree}
use bgpulse.ValleyFree.Verdicts.{path_moves, is_leak_iff}
use bgpulse.ValleyFree.Offender.{BlamesFirst, classify_path-BlamesFirst}

abbrev sample_rel : Asn → Asn → RelStatus
sample_rel a b =
    if a == 2001 && (b == 1001 || b == 1002)
    then provider
    else if b == 2001 && (a == 1001 || a == 1002)
    then customer
    else if a == 3001 && b == 2001
    then provider
    else if a == 2001 && b == 3001
    then customer
    else if (a == 1001 && b == 1002) || (a == 1002 && b == 1001)
    then peer
    else unknown

abbrev leak_wire : List Asn
leak_wire = 1002 ∷ 2001 ∷ 2001 ∷ 1001 ∷ []

abbrev clean_wire : List Asn
clean_wire = 1002 ∷ 1001 ∷ 2001 ∷ 3001 ∷ []

leak_wire_leaks :
    ((classify_path sample_rel leak_wire false).is_leak ≡ true)
    × ((classify_path sample_rel leak_wire false).offender_as ≡ 2001)
unfolding classify_path dedupe_consecutive dedupe_from find_valley walk_path walk
leak_wire_leaks = (refl, refl)

clean_wire_is_clean : (classify_path sample_rel clean_wire false).is_leak ≡ false
unfolding classify_path dedupe_consecutive dedupe_from find_valley walk_path walk
clean_wire_is_clean = refl

set_is_never_a_leak : (classify_path sample_rel leak_wire true).is_leak ≡ false
unfolding classify_path dedupe_consecutive dedupe_from find_valley walk_path walk
set_is_never_a_leak = refl

is_leak_iff_example :
    ((classify_path sample_rel leak_wire false).is_leak ≡ true)
    ↔ ((◌≡◌ {A = Bool} false false) × (¬ IsValleyFree (path_moves sample_rel leak_wire)))
is_leak_iff_example = is_leak_iff sample_rel leak_wire false

classify_path-BlamesFirst_example :
    BlamesFirst sample_rel (dedupe_consecutive leak_wire) (classify_path sample_rel leak_wire false)
classify_path-BlamesFirst_example =
    classify_path-BlamesFirst sample_rel leak_wire false leak_wire_leaks.0
