-- ===== src/Rtr/Session/Changes.antt =====
-- The VRP set that `commit` of rtr/client.go keeps, by the changes of a response.
use bgpulse.Base.{◌≡◌, refl, ap, ◌∙◌, arith, Bool, List, [], ◌∷◌, if◌then◌else◌, ite}
use bgpulse.Base.Table.{member, add, remove, member-add, member-remove}
use bgpulse.Rpki.{Vrp, Vrp-discrete}
use bgpulse.Rtr.Session.{ChangeRec, apply_changes}

-- What the last of the changes about a VRP says of it; `held` where there is none.
unfoldable pub last_word : Vrp → Bool → List ChangeRec → Bool
last_word v held [] = held
last_word v held (ch ∷ changes) = last_word v (ite (Vrp-discrete ch.vrp v) ch.announce held) changes

member_step :
    (v : Vrp) (current : List Vrp) (ch : ChangeRec)
    → member Vrp-discrete v (
        if ch.announce then add Vrp-discrete ch.vrp current else remove Vrp-discrete ch.vrp current)
      ≡ ite (Vrp-discrete ch.vrp v) ch.announce (member Vrp-discrete v current)
member_step v current ch =
    ground
      (arith, member-add Vrp-discrete ch.vrp v current, member-remove Vrp-discrete ch.vrp v current)

-- The set holds a VRP exactly when the last change about it announces it, or when it held it before
-- and no change is about it.
pub member-apply_changes :
    (v : Vrp) (current : List Vrp) (changes : List ChangeRec)
    → member Vrp-discrete v (apply_changes current changes)
      ≡ last_word v (member Vrp-discrete v current) changes
unfolding apply_changes last_word
member-apply_changes v current [] = refl
member-apply_changes v current (ch ∷ changes) =
    member-apply_changes v
      (if ch.announce then add Vrp-discrete ch.vrp current else remove Vrp-discrete ch.vrp current)
      changes
    ∙ ap (λ held. last_word v held changes) (member_step v current ch)
