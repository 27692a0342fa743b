-- ===== src/Synth/ValleyFreePaths.antt =====
-- validPath of synth/scenarios.go against ClassifyPath: the demo's ordinary paths are no leaks.

use bgpulse.Base.{
  ℕ, zero, suc, ◌≡◌, refl, ◌-◌, Bool, true, false, List, [], ◌∷◌, ◌++◌, All, if◌then◌else◌,
  ℕ_discrete,
}
use bgpulse.Base.Table.{member}
use bgpulse.Bgp.Types.{Asn, RelStatus, customer, provider, peer, sibling}
use bgpulse.ValleyFree.{classify_path}
use bgpulse.ValleyFree.Walk.{last_of}
use bgpulse.Synth.{Rng, Graph, draw}
use bgpulse.Synth.Hills.{AtMostOne, Steps, over-IsHill, up-IsHill, IsHill-not_leak}
use bgpulse.Synth.Draws.{draw-All}
use bgpulse.Synth.Paths.{
  Arm, stay, stepped, climb, step_to, across, go_down, descend_arm, valid_path, is_tier1, max_climb,
  max_descend, peer_at_apex, descend_prob,
}
use bgpulse.Synth.Adjacency.{IsAdjacent}

module _ (rl : Asn → Asn → RelStatus) where
  -- The arm's steps are moves of one kind from `u` to the AS where it ends.
  record IsArm {S : Type 0} (r : RelStatus) (u : Asn) (arm : Arm S) : Type 0 where
    moves : Steps rl r u arm.steps
    ends : last_of u arm.steps ≡ arm.cur

  module _ {S : Type 0} (rng : Rng S) (t : Graph) where
    stay-IsArm :
        (r : RelStatus) (u : Asn) (in_path : List Asn) (s : S) → IsArm r u (stay u in_path s)
    unfolding last_of
    stay-IsArm r u in_path s = record { moves = tt; ends = refl }

    stepped-IsArm :
        (r : RelStatus) (u v : Asn) (arm : Arm S)
        → rl u v ≡ r
        → IsArm r v arm
        → IsArm r u (stepped v arm)
    unfolding last_of
    stepped-IsArm r u v arm h w = record { moves = (h, w.moves); ends = w.ends }

    IsArm-if :
        (r : RelStatus) (u : Asn) (hit : Bool) {a b : Arm S}
        → IsArm r u a
        → IsArm r u b
        → IsArm r u (if hit then a else b)
    IsArm-if r u true p q = p
    IsArm-if r u false p q = q

    step_to-IsArm :
        (r : RelStatus) (ps : List Asn) (cur : Asn) (in_path : List Asn) (s : S)
        (more : Asn → S → Arm S)
        → All (λ c. rl cur c ≡ r) ps
        → ((next : Asn) (s' : S) → IsArm r next (more next s'))
        → IsArm r cur (step_to rng ps cur in_path s more)
    unfolding step_to
    step_to-IsArm r [] cur in_path s more h w = stay-IsArm r cur in_path s
    step_to-IsArm r (p ∷ ps) cur in_path s more h w =
        let (next, s') = draw rng p ps s in
        IsArm-if r cur (member ℕ_discrete next in_path) (stay-IsArm r cur in_path s') (
          stepped-IsArm r cur next (more next s') (draw-All rng (λ c. rl cur c ≡ r) p ps s h)
            (w next s'))

    climb-IsArm :
        (n : ℕ) (cur : Asn) (in_path : List Asn) (s : S)
        → IsAdjacent rl t
        → IsArm provider cur (climb rng t n cur in_path s)
    unfolding climb
    climb-IsArm zero cur in_path s w = stay-IsArm provider cur in_path s
    climb-IsArm (suc n) cur in_path s w =
        step_to-IsArm provider _ cur in_path s _ (w.providers cur) (λ next s'.
          IsArm-if provider next (is_tier1 next) (stay-IsArm provider next (next ∷ in_path) s')
            (climb-IsArm n next (next ∷ in_path) s' w))

    go_down-IsArm :
        (n : ℕ) (cur : Asn) (in_path : List Asn) (s : S)
        → IsAdjacent rl t
        → IsArm customer cur (go_down rng t n cur in_path s)
    unfolding go_down
    go_down-IsArm zero cur in_path s w = stay-IsArm customer cur in_path s
    go_down-IsArm (suc n) cur in_path s w =
        step_to-IsArm customer _ cur in_path s _ (w.customers cur)
          (λ next s'. go_down-IsArm n next (next ∷ in_path) s' w)

    descend_arm-IsArm :
        (cur : Asn) (in_path : List Asn) (s : S)
        → IsAdjacent rl t
        → IsArm customer cur (descend_arm rng t cur in_path s)
    unfolding descend_arm
    descend_arm-IsArm cur in_path s w =
        let (hit, s') = rng.below s descend_prob in
        IsArm-if customer cur hit (go_down-IsArm max_descend cur in_path s' w)
          (stay-IsArm customer cur in_path s')

    AtMostOne-if :
        (hit : Bool) (a b : Arm S)
        → AtMostOne a.steps
        → AtMostOne b.steps
        → AtMostOne (if hit then a else b).steps
    AtMostOne-if true a b p q = p
    AtMostOne-if false a b p q = q

    step_to-AtMostOne :
        (ps : List Asn) (cur : Asn) (in_path : List Asn) (s : S) (more : Asn → S → Arm S)
        → ((next : Asn) (s' : S) → (more next s').steps ≡ [])
        → AtMostOne (step_to rng ps cur in_path s more).steps
    unfolding step_to
    step_to-AtMostOne [] cur in_path s more h = refl
    step_to-AtMostOne (p ∷ ps) cur in_path s more h =
        let (next, s') = draw rng p ps s in
        AtMostOne-if (member ℕ_discrete next in_path) (stay cur in_path s')
          (stepped next (more next s')) refl (rw (h next s') refl)

    across-IsArm :
        (cur : Asn) (in_path : List Asn) (s : S)
        → IsAdjacent rl t
        → IsArm peer cur (across rng t cur in_path s) × AtMostOne (across rng t cur in_path s).steps
    unfolding across
    across-IsArm cur in_path s w =
        let (hit, s') = rng.below s peer_at_apex in
        (
          IsArm-if peer cur hit
              (step_to-IsArm peer _ cur in_path s' _ (w.peers cur)
                (λ pr s2. stay-IsArm peer pr (pr ∷ in_path) s2))
              (stay-IsArm peer cur in_path s'),
          AtMostOne-if hit _ (stay cur in_path s')
              (step_to-AtMostOne _ cur in_path s' _ (λ pr s2. refl)) refl,
        )

-- ClassifyPath finds no leak in a path that validPath builds, whatever the generator draws, where
-- the adjacency maps agree with the relationships and an AS is its own sibling.
pub valid_path-classify :
    {S : Type 0} (rng : Rng S) (rl : Asn → Asn → RelStatus) (t : Graph) (origin : Asn) (s : S)
    → ((v : Asn) → rl v v ≡ sibling)
    → IsAdjacent rl t
    → (classify_path rl (valid_path rng t origin s).0 false).is_leak ≡ false
unfolding valid_path
valid_path-classify rng rl t origin s self w =
    let up = climb rng t (max_climb - 1) origin (origin ∷ []) s in
    let climbed = climb-IsArm rl rng t (max_climb - 1) origin (origin ∷ []) s w in
    let over = across rng t up.cur up.in_path up.rng in
    let (crossed, once) = across-IsArm rl rng t up.cur up.in_path up.rng w in
    let tail = descend_arm rng t over.cur over.in_path over.rng in
    let fell = descend_arm-IsArm rl rng t over.cur over.in_path over.rng w in
    IsHill-not_leak rl origin (up.steps ++ (over.steps ++ tail.steps)) (
      up-IsHill rl origin up.steps (over.steps ++ tail.steps) self climbed.moves (
        rw climbed.ends (
          over-IsHill rl up.cur over.steps tail.steps self crossed.moves once
            (rw crossed.ends fell.moves))))
