-- ===== src/ValleyFree.antt =====
-- backend/internal/valleyfree/classifier.go: the Gao-Rexford walk over one AS path. The
-- relationship oracle (the interface RelLookup) is the function `rl`.
pub mod Shape
pub mod Walk
pub mod Verdicts
pub mod Offender
mod Tests
use Prim.Native.String.{String}
use bgpulse.Base.{
  ℕ, zero, suc, ◌+◌, Bool, true, false, ◌||◌, Option, none, some, List, [], ◌∷◌, reverse, length,
  leb, ◌==◌, if◌then◌else◌,
}
use bgpulse.Bgp.Types.{Asn, RelStatus, unknown, customer, provider, peer, sibling, PathHop}

pub record Verdict : Type 0 where
  pub is_leak : Bool
  pub offender_as : Asn
  pub reason : String
  pub hops : List PathHop
  pub had_unknown : Bool
  pub known_hops : ℕ

pub data WalkPhase : Type 0 where
  up down : WalkPhase

-- The loop of `dedupeConsecutive` after its first element; `last` is `out[n-1]`.
unfoldable pub dedupe_from : Asn → List Asn → List Asn
dedupe_from last [] = []
dedupe_from last (asn ∷ path) =
    let rest = dedupe_from asn path in if last == asn then rest else asn ∷ rest

unfoldable pub dedupe_consecutive : List Asn → List Asn
dedupe_consecutive [] = []
dedupe_consecutive (asn ∷ path) = asn ∷ dedupe_from asn path

abbrev pub reason_provider : String
reason_provider = "route leaked to a provider after peering or descending"

abbrev pub reason_peer : String
reason_peer = "route leaked to a second peer (or a peer after descending)"

-- `Hops[i].IsOffender = true`. Out of range, where Go panics, this changes nothing.
unfoldable pub mark_offender : ℕ → List PathHop → List PathHop
mark_offender i [] = []
mark_offender zero (h ∷ hops) = record h { is_offender = true } ∷ hops
mark_offender (suc i) (h ∷ hops) = h ∷ mark_offender i hops

-- `rel == RelUnknown`
abbrev pub is_unknown : RelStatus → Bool
is_unknown unknown = true
is_unknown customer = false
is_unknown provider = false
is_unknown peer = false
is_unknown sibling = false

module _ (rl : Asn → Asn → RelStatus) where
  -- The loop of `buildHops` from the hop that begins at `from`; the counts are those of the rest.
  unfoldable pub hops_from : Asn → List Asn → List PathHop × ℕ × Bool
  hops_from from [] = ([], 0, false)
  hops_from from (to ∷ seq) =
      let (hops, known, had) = hops_from to seq in
      let hop : PathHop = record { from = from; to = to; rel = rl from to; is_offender = false } in
      if is_unknown (rl from to) then (hop ∷ hops, known, true) else (hop ∷ hops, known + 1, had)

  unfoldable pub build_hops : List Asn → List PathHop × ℕ × Bool
  build_hops [] = ([], 0, false)
  build_hops (asn ∷ seq) = hops_from asn seq

  -- The loop of `findValley` at `u`; the list is what is left of the path towards the collector,
  -- so the wire index of the hop from `v` to `u` is the length of the rest.
  unfoldable pub walk : WalkPhase → Asn → List Asn → Option (ℕ × Asn × String)
  walk phase u [] = none
  walk phase u (v ∷ rest) = elim (rl u v) [
    | sibling ↦ walk phase v rest
    | unknown ↦ walk phase v rest
    | provider ↦ elim phase [ down ↦ some (length rest, u, reason_provider) | up ↦ walk up v rest ]
    | peer ↦ elim phase [ down ↦ some (length rest, u, reason_peer) | up ↦ walk down v rest ]
    | customer ↦ walk down v rest
  ]

  -- The walk starts at the origin, the last element of the wire order. `none` is `offHop < 0`.
  unfoldable pub walk_path : List Asn → Option (ℕ × Asn × String)
  walk_path [] = none
  walk_path (origin ∷ rest) = walk up origin rest

  unfoldable pub find_valley : List Asn → Option (ℕ × Asn × String)
  unfolding walk_path
  find_valley seq = walk_path (reverse seq)

  -- `ClassifyPath` after its first line.
  unfoldable pub classify_seq : List Asn → Bool → Verdict
  classify_seq seq has_as_set =
      let (hops, known_hops, had_unknown) = build_hops seq in
      let verdict : Verdict = record {
        is_leak = false;
        offender_as = 0;
        reason = "";
        hops = hops;
        had_unknown = had_unknown;
        known_hops = known_hops;
      } in
      if leb (length seq) 1 || has_as_set then verdict else elim (find_valley seq) [
        | none ↦ verdict
        | some (off_hop, offender, reason) ↦ record verdict {
          is_leak = true;
          offender_as = offender;
          reason = reason;
          hops = mark_offender off_hop hops;
        }
      ]

  unfoldable pub classify_path : List Asn → Bool → Verdict
  unfolding classify_seq
  classify_path path has_as_set = classify_seq (dedupe_consecutive path) has_as_set
