-- ===== src/Rpki/Accepts.antt =====
-- Add of rpki/store.go on a VRP with a valid prefix: what it accepts, and that it does not panic.
use bgpulse.Base.{
  ◌≡◌, arith, Bool, true, false, ◌&&◌, none, some, ite, leb, Bool-cases, Option-cases, inl, inr,
  ◌⊎◌,
}
use bgpulse.Base.Table.{member}
use bgpulse.Bgp.Net.{masked, unmap}
use bgpulse.Rpki.{
  Vrp, Vrp-discrete, Builder, ok, refused, add_vrp, mask_vrp, max_length_out_of_range,
  invalid_prefix, AddError,
}
use bgpulse.Rpki.Spec.{IsPrefix}
use bgpulse.Rpki.Adds.{max_bits, add_vrp_total}

-- The VRPs that Add does not refuse.
abbrev pub acceptable : Vrp → Bool
acceptable v = elim v.prefix.bits [
  | none ↦ false
  | some n ↦ leb n v.max_length && leb v.max_length (max_bits (unmap (masked v.prefix).addr))
]

pub add_vrp_cases :
    (b : Builder) (v : Vrp)
    → IsPrefix v.prefix
    → ((e : AddError) × (add_vrp b v ≡ refused e) × (acceptable v ≡ false))
      ⊎ ((b' : Builder) × (add_vrp b v ≡ ok b')
          × (acceptable v ≡ true)
          × ((w : Vrp)
              → member Vrp-discrete w b'.seen
                ≡ ite (Vrp-discrete (mask_vrp v) w) true (member Vrp-discrete w b.seen)))
unfolding add_vrp
add_vrp_cases b v p = elim (Option-cases v.prefix.bits) [
  | inl e ↦ inl (invalid_prefix, ground arith, ground arith)
  | inr (pl, e) ↦ elim (Bool-cases (acceptable v)) [
    | inl good ↦
        let (b', made, knows) = add_vrp_total b v pl p e (ground arith) (ground arith) in
        inr (b', ground arith, good, knows)
    | inr bad ↦ inl (max_length_out_of_range, ground arith, bad)
  ]
]
