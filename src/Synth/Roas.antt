-- ===== src/Synth/Roas.antt =====
-- buildVRP of synth/prefixes.go: the VRP store of the demo, and what it says of a wrong origin.
use mathlib.Core.Path.{subst}
use bgpulse.Base.{
  ℕ, ◌<◌, ◌≤◌, ◌≡◌, refl, sym, ap, ◌∙◌, arith, ◌⊎◌, inl, inr, Bool, true, false, some, ite, List,
  [], ◌∷◌, All,
}
use bgpulse.Base.Table.{member}
use bgpulse.Bgp.Net.{Prefix, unmap, masked, prefix_from, mask_bytes}
use bgpulse.Rpki
use bgpulse.Rpki.{Vrp, Vrp-discrete, add_vrp, mask_vrp, ok}
use bgpulse.Rpki.Inserts.{count}
use bgpulse.Rpki.Spec.{IsIndex, IsPrefix, add_vrp-IsIndex}
use bgpulse.Rpki.Adds.{add_vrp_total}
use bgpulse.Synth.{Graph}
use bgpulse.Synth.Prefixes.{p16, p24, bits_of, roa_vrp, add_roas}
use bgpulse.Synth.Allocation.{IsBlock, in_11, in_12, in_100, in_101}

-- What a prefix of the blocks is to Add.
record IsPlain (g : Graph) (p : Prefix) : Type 0 where
  prefix : IsPrefix p
  bits : p.bits ≡ some (bits_of p)
  fits : bits_of p ≤ 32
  plain : mask_vrp (roa_vrp g p) ≡ roa_vrp g p
  v4 : Rpki.Adds.max_bits (unmap (masked p).addr) ≡ 32

p16-IsPlain : (g : Graph) (a b : ℕ) → IsPlain g (p16 a b)
unfolding masked prefix_from mask_bytes unmap
p16-IsPlain g a b = record {
  prefix = (refl, refl, omega arith);
  bits = refl;
  fits = omega arith;
  plain = refl;
  v4 = refl;
}

p24-IsPlain : (g : Graph) (a b c : ℕ) → IsPlain g (p24 a b c)
unfolding masked prefix_from mask_bytes unmap
p24-IsPlain g a b c = record {
  prefix = (refl, refl, omega arith);
  bits = refl;
  fits = omega arith;
  plain = refl;
  v4 = refl;
}

IsBlock-IsPlain : (g : Graph) (p : Prefix) → IsBlock p → IsPlain g p
IsBlock-IsPlain g p (in_11 i h) = p16-IsPlain g 11 i
IsBlock-IsPlain g p (in_12 i h) = p16-IsPlain g 12 i
IsBlock-IsPlain g p (in_100 i h) = p24-IsPlain g 100 0 i
IsBlock-IsPlain g p (in_101 i h) = p24-IsPlain g 101 0 i

-- The builder holds VRPs of the blocks, each for the owner of its prefix, in step with its tries.
pub record IsRoas (g : Graph) (vb : Rpki.Builder) : Type 0 where
  pub index : IsIndex vb
  pub owned :
      (w : Vrp) → member Vrp-discrete w vb.seen ≡ true → IsBlock w.prefix × (w ≡ roa_vrp g w.prefix)

-- From the one builder to the other no VRP is lost.
abbrev pub Keeps : Rpki.Builder → Rpki.Builder → Type 0
Keeps vb vb' =
    (w : Vrp) → member Vrp-discrete w vb.seen ≡ true → member Vrp-discrete w vb'.seen ≡ true

ite-true : {P : Type 0} (d : Dec P) (m : Bool) → ite d true m ≡ true → P ⊎ (m ≡ true)
ite-true (yes p) m h = inl p
ite-true (no n) m h = inr h

true-ite : {P : Type 0} (d : Dec P) (m : Bool) → P ⊎ (m ≡ true) → ite d true m ≡ true
true-ite (yes p) m h = refl
true-ite (no n) m (inl p) = absurd (n p)
true-ite (no n) m (inr h) = h

add_roa :
    (g : Graph) (p : Prefix) (vb : Rpki.Builder)
    → IsBlock p
    → IsRoas g vb
    → (vb' : Rpki.Builder) × (add_vrp vb (roa_vrp g p) ≡ ok vb')
      × IsRoas g vb'
      × Keeps vb vb'
      × (member Vrp-discrete (roa_vrp g p) vb'.seen ≡ true)
add_roa g p vb h w =
    let plain = IsBlock-IsPlain g p h in
    let v = roa_vrp g p in
    let (vb', made, knows) =
      add_vrp_total vb v (bits_of p) plain.prefix plain.bits (omega arith)
        (rw plain.v4 plain.fits) in
    let sees : (x : Vrp)
        → member Vrp-discrete x vb'.seen
          ≡ ite (Vrp-discrete v x) true (member Vrp-discrete x vb.seen) =
      λ x.
        subst
          (λ q.
            member Vrp-discrete x vb'.seen
            ≡ ite (Vrp-discrete q x) true (member Vrp-discrete x vb.seen))
          plain.plain (knows x) in
    (
      vb',
      made,
      record {
        index = add_vrp-IsIndex vb v plain.prefix w.index made;
        owned = λ x e. elim (ite-true (Vrp-discrete v x) _ (sym (sees x) ∙ e)) [
          | inl q ↦ subst (λ y. IsBlock y.prefix × (y ≡ roa_vrp g y.prefix)) q (h, refl)
          | inr m ↦ w.owned x m
        ];
      },
      (λ x e. sees x ∙ true-ite (Vrp-discrete v x) _ (inr e)),
      sees v ∙ true-ite (Vrp-discrete v v) _ (inl refl),
    )

add_roas_step :
    (g : Graph) (p : Prefix) (l : List Prefix) (vb vb' : Rpki.Builder)
    → add_vrp vb (roa_vrp g p) ≡ ok vb'
    → add_roas g (p ∷ l) vb ≡ add_roas g l vb'
unfolding add_roas
add_roas_step g p l vb vb' e = ground arith

pub add_roas_total :
    (g : Graph) (l : List Prefix) (vb : Rpki.Builder)
    → All IsBlock l
    → IsRoas g vb
    → (vb' : Rpki.Builder) × (add_roas g l vb ≡ some vb')
      × IsRoas g vb'
      × Keeps vb vb'
      × All (λ p. member Vrp-discrete (roa_vrp g p) vb'.seen ≡ true) l
unfolding add_roas
add_roas_total g [] vb h w = (vb, refl, w, (λ x e. e), tt)
add_roas_total g (p ∷ l) vb h w =
    let (vb1, made, w1, keeps1, has) = add_roa g p vb h.0 w in
    let (vb2, done, w2, keeps2, all) = add_roas_total g l vb1 h.1 w1 in
    (
      vb2,
      add_roas_step g p l vb vb1 made ∙ done,
      w2,
      (λ x e. keeps2 x (keeps1 x e)),
      (keeps2 (roa_vrp g p) has, all),
    )

-- A sum over the VRPs is 0 where no VRP counts, and positive where one does.
pub count-none :
    (f : Vrp → Bool) (vs : List Vrp)
    → ((v : Vrp) → member Vrp-discrete v vs ≡ true → f v ≡ false)
    → count f vs ≡ 0
unfolding count member
count-none f [] h = refl
count-none f (v ∷ vs) h = ground (
  arith,
  h v (true-ite (Vrp-discrete v v) (member Vrp-discrete v vs) (inl refl)),
  count-none f vs (λ w e. h w (true-ite (Vrp-discrete v w) (member Vrp-discrete w vs) (inr e))),
)

pub count-some :
    (f : Vrp → Bool) (v : Vrp) (vs : List Vrp)
    → member Vrp-discrete v vs ≡ true
    → f v ≡ true
    → 0 < count f vs
unfolding count member
count-some f v [] h e = cc
count-some f v (w ∷ vs) h e = elim (ite-true (Vrp-discrete w v) (member Vrp-discrete v vs) h) [
  | inl q ↦ (let hit : f w ≡ true = ap f q ∙ e in ground arith)
  | inr m ↦ (let more = count-some f v vs m e in ground arith)
]
