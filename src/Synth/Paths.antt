-- ===== src/Synth/Paths.antt =====
-- backend/internal/synth/scenarios.go: the paths that the demo's announcements carry. A loop
-- returns the ASes that it appends to `prop`, whose members are the keys of `inPath`.
use bgpulse.Base.{
  ℕ, zero, suc, ◌+◌, ◌-◌, Bool, ◌&&◌, List, [], ◌∷◌, ◌++◌, reverse, leb, ltb, if◌then◌else◌,
  ℕ_discrete,
}
use bgpulse.Base.Table.{member}
use bgpulse.Bgp.Types.{Asn}
use bgpulse.Synth.{Rng, Graph, adjacent, draw, tier1_base, tier1_count}

abbrev pub max_climb : ℕ
max_climb = 4

abbrev pub peer_at_apex : ℕ
peer_at_apex = 40

abbrev pub descend_prob : ℕ
descend_prob = 35

abbrev pub max_descend : ℕ
max_descend = 2

abbrev pub is_tier1 : Asn → Bool
is_tier1 asn = leb tier1_base asn && ltb asn (tier1_base + tier1_count)

-- The ASes that a loop appends, the AS where it ends, `inPath`, and the generator's state.
pub record Arm (S : Type 0) : Type 0 where
  pub steps : List Asn
  pub cur : Asn
  pub in_path : List Asn
  pub rng : S

abbrev pub stay : {S : Type 0} → Asn → List Asn → S → Arm S
stay cur in_path s = record { steps = []; cur = cur; in_path = in_path; rng = s }

-- One step to `next`, and then the steps of `rest`.
abbrev pub stepped : {S : Type 0} → Asn → Arm S → Arm S
stepped next rest = record rest { steps = next ∷ rest.steps }

module _ {S : Type 0} (rng : Rng S) where
  -- One turn of a loop: a random neighbor, if there is one, ends the loop where it is on the path,
  -- and is appended otherwise; `more` is what follows it.
  unfoldable pub step_to : List Asn → Asn → List Asn → S → (Asn → S → Arm S) → Arm S
  step_to [] cur in_path s more = stay cur in_path s
  step_to (p ∷ ps) cur in_path s more =
      let (next, s') = draw rng p ps s in
      if member ℕ_discrete next in_path then stay cur in_path s' else stepped next (more next s')

module _ {S : Type 0} (rng : Rng S) (t : Graph) where
  -- The uphill loop; the number is `maxClimb - len(prop)`.
  unfoldable pub climb : ℕ → Asn → List Asn → S → Arm S
  climb zero cur in_path s = stay cur in_path s
  climb (suc n) cur in_path s = step_to rng (adjacent t.providers_of cur) cur in_path s (λ next s'.
      if is_tier1 next then stay next (next ∷ in_path) s' else climb n next (next ∷ in_path) s')

  -- The peer link at the apex.
  unfoldable pub across : Asn → List Asn → S → Arm S
  across cur in_path s =
      let (hit, s') = rng.below s peer_at_apex in
      if hit
      then step_to rng (adjacent t.peers_of cur) cur in_path s' (λ pr s2. stay pr (pr ∷ in_path) s2)
      else stay cur in_path s'

  -- The downhill loop; the number is `maxDescend - steps`.
  unfoldable pub go_down : ℕ → Asn → List Asn → S → Arm S
  go_down zero cur in_path s = stay cur in_path s
  go_down (suc n) cur in_path s =
      step_to rng (adjacent t.customers_of cur) cur in_path s
        (λ nx s'. go_down n nx (nx ∷ in_path) s')

  unfoldable pub descend_arm : Asn → List Asn → S → Arm S
  unfolding go_down
  descend_arm cur in_path s =
      let (hit, s') = rng.below s descend_prob in
      if hit then go_down max_descend cur in_path s' else stay cur in_path s'

  -- `validPath`, in wire order, with the generator's state after it.
  unfoldable pub valid_path : Asn → S → List Asn × S
  unfolding climb across descend_arm
  valid_path origin s =
      let up = climb (max_climb - 1) origin (origin ∷ []) s in
      let over = across up.cur up.in_path up.rng in
      let down = descend_arm over.cur over.in_path over.rng in
      (reverse (origin ∷ (up.steps ++ (over.steps ++ down.steps))), down.rng)
