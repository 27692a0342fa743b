-- ===== src/Rpki/Unordered.antt =====
-- The store of rpki/store.go as a set of VRPs: lists of VRPs up to order and repetition, a quotient.
use mathlib.Core.Path.{subst}
use mathlib.Core.Quot
use mathlib.Core.Quot.{Quot, Quot-set}
use bgpulse.Base.{
  ℕ, ◌≤◌, ◌<◌, ◌≡◌, ap, sym, ◌∙◌, arith, Bool, true, ◌&&◌, some, List, [], ◌∷◌, ltb, ite,
  Bool-cases, inl, inr,
}
use bgpulse.Base.Table.{member}
use bgpulse.Bgp.Types.{Asn, RpkiStatus, RpkiStatus-discrete}
use bgpulse.Bgp.Net.{Addr, Prefix, unmap, IsAddr, is_addr, bit_len}
use bgpulse.Rpki.{Vrp, Vrp-discrete, Validation, Builder, ok, add_vrp, build, validate, mask_vrp}
use bgpulse.Rpki.Inserts.{count}
use bgpulse.Rpki.Spec.{IsIndex, IsPrefix, covers, authorizes, rov, add_vrp-IsIndex}
use bgpulse.Rpki.Answers.{validate-Answers}
use bgpulse.Rpki.Accepts.{add_vrp_cases}

-- The same VRPs, in any order and as often as may be.
abbrev pub SameVrps : List Vrp → List Vrp → Type 0
SameVrps vs ws = (w : Vrp) → member Vrp-discrete w vs ≡ member Vrp-discrete w ws

abbrev pub VrpSet : Type 0
VrpSet = Quot SameVrps

pub SameVrps-cons : (v : Vrp) (vs ws : List Vrp) → SameVrps vs ws → SameVrps (v ∷ vs) (v ∷ ws)
unfolding member
SameVrps-cons v vs ws h w = ground (arith, h w)

unfoldable pub put : Vrp → VrpSet → VrpSet
put v =
    Quot.lift Quot-set (λ vs. Quot.mk (v ∷ vs)) (λ vs ws h. Quot.sound (SameVrps-cons v vs ws h))

-- The order of two insertions is forgotten, and so is the second of the same VRP.
put_comm : (v w : Vrp) (s : VrpSet) → put v (put w s) ≡ put w (put v s)
unfolding put member
put_comm v w = Quot.ind (λ s. Quot-set _ _) (λ vs. Quot.sound (λ u. ground arith))

put_idem : (v : Vrp) (s : VrpSet) → put v (put v s) ≡ put v s
unfolding put member
put_idem v = Quot.ind (λ s. Quot-set _ _) (λ vs. Quot.sound (λ u. ground arith))

-- A test that some VRP of the list passes.
some_member :
    (f : Vrp → Bool) (vs : List Vrp)
    → 0 < count f vs
    → (v : Vrp) × (member Vrp-discrete v vs ≡ true) × (f v ≡ true)
unfolding count member
some_member f [] h = elim h [ ]
some_member f (v ∷ vs) h = elim (Bool-cases (f v)) [
  | inl e ↦ (v, ground arith, e)
  | inr e ↦ let (w, m, g) = some_member f vs (ground arith) in (w, ground (arith, m), g)
]

member_some :
    (f : Vrp → Bool) (v : Vrp) (vs : List Vrp)
    → member Vrp-discrete v vs ≡ true
    → f v ≡ true
    → 0 < count f vs
unfolding count member
member_some f v [] m e = cc
member_some f v (w ∷ vs) m e = elim (Vrp-discrete w v) [
  | yes p ↦ (let g : f w ≡ true = ap f p ∙ e in ground (arith, g))
  | no n ↦ ground (arith, member_some f v vs (ground (arith, m, n)) e)
]

same_pos : (f : Vrp → Bool) (vs ws : List Vrp) → SameVrps vs ws → 0 < count f vs → 0 < count f ws
same_pos f vs ws h k = let (v, m, g) = some_member f vs k in member_some f v ws (sym (h v) ∙ m) g

pub same_test :
    (f : Vrp → Bool) (vs ws : List Vrp) → SameVrps vs ws → ltb 0 (count f vs) ≡ ltb 0 (count f ws)
same_test f vs ws h = elim (Bool-cases (ltb 0 (count f vs))) [
  | inl e ↦ ground (arith, same_pos f vs ws h (ground arith))
  | inr e ↦ elim (Bool-cases (ltb 0 (count f ws))) [
    | inl g ↦ ground (arith, same_pos f ws vs (λ w. sym (h w)) (ground arith))
    | inr g ↦ e ∙ sym g
  ]
]

-- RFC 6811 on a set.
unfoldable pub status_in : VrpSet → Addr → ℕ → Asn → RpkiStatus
unfolding rov
status_in s a n origin =
    Quot.lift (hlevel RpkiStatus-discrete) (λ vs. rov vs a n origin)
      (λ vs ws h. cc (
        same_test (λ v. covers a n v && authorizes n origin v) vs ws h,
        same_test (covers a n) vs ws h,
      ))
      s

-- The set of the VRPs of a builder.
abbrev pub view : Builder → VrpSet
view b = Quot.mk b.seen

-- An announced prefix of `n` bits that lie in its unmapped address.
abbrev pub Fits : Prefix → ℕ → Type 0
Fits p n =
    (p.bits ≡ some n)
    × IsAddr (unmap p.addr)
    × (is_addr (unmap p.addr) ≡ true)
    × (n ≤ bit_len (unmap p.addr))

-- Add inserts into the set, in which order and repetition are forgotten, and what Validate then
-- returns is read off the set alone.
pub record IsSetAdd (b b' : Builder) (v : Vrp) : Type 0 where
  pub inserted : view b' ≡ put (mask_vrp v) (view b)
  pub again : put (mask_vrp v) (view b') ≡ view b'
  pub unordered : (w : Vrp) → put w (view b') ≡ put (mask_vrp v) (put w (view b))
  pub status :
      (p : Prefix) (n : ℕ) (origin : Asn)
      → Fits p n
      → (r : Validation) × (validate (build b') p origin ≡ some r)
        × (r.status ≡ status_in (put (mask_vrp v) (view b)) (unmap p.addr) n origin)

view-add :
    (b b' : Builder) (v : Vrp)
    → IsPrefix v.prefix
    → add_vrp b v ≡ ok b'
    → view b' ≡ put (mask_vrp v) (view b)
unfolding put member
view-add b b' v p h = elim (add_vrp_cases b v p) [
  | inl (e, made, bad) ↦ absurd (ground arith)
  | inr (b1, made, good, knows) ↦ Quot.sound (λ w.
      (let same : b1 ≡ b' = ground arith in
        subst
          (λ c.
            member Vrp-discrete w c.seen
            ≡ ite (Vrp-discrete (mask_vrp v) w) true (member Vrp-discrete w b.seen))
          same (knows w)))
]

-- When Add returns on a builder whose tries are in step with its VRPs, and the prefix of the VRP
-- has a length that lies in its address, Add inserts the masked VRP into the set of the VRPs of the
-- builder, lists of VRPs up to order and repetition: the same VRP once more changes nothing, and
-- another may be put in before it or after it. The status that Validate then returns, for a prefix
-- whose length lies in its unmapped address, is what RFC 6811 reads off that set.
pub add_vrp-IsSetAdd :
    (b : Builder) (v : Vrp) {b' : Builder}
    → IsPrefix v.prefix
    → IsIndex b
    → add_vrp b v ≡ ok b'
    → IsSetAdd b b' v
unfolding status_in
add_vrp-IsSetAdd b v {b'} p x h =
    let e = view-add b b' v p h in
    record {
      inserted = e;
      again = ap (put (mask_vrp v)) e ∙ (put_idem (mask_vrp v) (view b) ∙ sym e);
      unordered = λ w. ap (put w) e ∙ put_comm w (mask_vrp v) (view b);
      status = λ q n origin (bits, sized, known, fits).
          let (r, done, answers) =
            validate-Answers b' q n origin (add_vrp-IsIndex b v p x h) bits sized known fits in
          (r, done, answers.by_rov ∙ ap (λ s. status_in s (unmap q.addr) n origin) e);
    }
