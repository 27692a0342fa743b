-- ===== src/Rtr/Session/Commit.antt =====
-- The store that `commit` of rtr/client.go swaps in.
use bgpulse.Base.{
  ◌≡◌, refl, arith, Bool, false, ◌||◌, some, List, [], ◌∷◌, if◌then◌else◌, ite, inl, inr,
}
use bgpulse.Base.Table.{member}
use bgpulse.Rpki.{Vrp, Vrp-discrete, Builder, new_builder, build, mask_vrp}
use bgpulse.Rpki.Spec.{IsIndex, IsPrefix, new_builder-IsIndex, add_vrp-IsIndex}
use bgpulse.Rpki.Accepts.{acceptable, add_vrp_cases}
use bgpulse.Rtr.Session.{Client, ChangeRec, apply_changes, add_all, commit}

-- Some VRP of the list is acceptable and, masked, is this one.
unfoldable pub backed : Vrp → List Vrp → Bool
backed w [] = false
backed w (v ∷ vs) = ite (Vrp-discrete (mask_vrp v) w) (acceptable v || backed w vs) (backed w vs)

abbrev pub AllPrefixes : List Vrp → Type 0
AllPrefixes [] = Unit
AllPrefixes (v ∷ vs) = IsPrefix v.prefix × AllPrefixes vs

add_all-IsIndex :
    (b : Builder) (vs : List Vrp)
    → IsIndex b
    → AllPrefixes vs
    → (b' : Builder) × (add_all b vs ≡ some b')
      × IsIndex b'
      × ((w : Vrp) → member Vrp-discrete w b'.seen ≡ (member Vrp-discrete w b.seen || backed w vs))
unfolding add_all backed
add_all-IsIndex b [] x p = (b, refl, x, λ w. ground arith)
add_all-IsIndex b (v ∷ vs) x p = elim (add_vrp_cases b v p.0) [
  | inl (e, made, bad) ↦
      let (b', all, index, knows) = add_all-IsIndex b vs x p.1 in
      (b', ground arith, index, λ w. ground (arith, knows w))
  | inr (b1, made, good, new) ↦
      let (b', all, index, knows) = add_all-IsIndex b1 vs (add_vrp-IsIndex b v p.0 x made) p.1 in
      (b', ground arith, index, λ w. ground (arith, knows w, new w))
]

-- When every VRP of the new set has a valid prefix, commit does not panic: the live store is then
-- an index of the VRPs of the new set that Add accepts, each masked, and the new set is the one
-- that the changes make.
pub commit-Answers :
    (c : Client) (full_sync : Bool) (changes : List ChangeRec)
    → AllPrefixes (apply_changes (if full_sync then [] else c.current) changes)
    → (b : Builder) × (commit c full_sync changes
        ≡ some (record c {
          current = apply_changes (if full_sync then [] else c.current) changes;
          live = build b;
        }))
      × IsIndex b
      × ((w : Vrp)
          → member Vrp-discrete w b.seen
            ≡ backed w (apply_changes (if full_sync then [] else c.current) changes))
unfolding commit member
commit-Answers c full_sync changes p =
    let (b, all, index, knows) =
      add_all-IsIndex new_builder (apply_changes (if full_sync then [] else c.current) changes)
        new_builder-IsIndex p in
    (b, ground arith, index, λ w. ground (arith, knows w))
