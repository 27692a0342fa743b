-- ===== src/Rpki/Spec.antt =====
-- RFC 6811 origin validation over a plain list of VRPs, and the proof that the tries of
-- rpki/store.go implement it.
use mathlib.Core.Path.{subst, fun_ext}
use bgpulse.Base.{
  ℕ, ◌+◌, ◌≤◌, ◌≡◌, Bool, true, false, ◌&&◌, none, some, List, [], ◌∷◌, leb, ltb, ◌==◌,
  if◌then◌else◌, arith, Bool-cases, Option-cases, inl, inr, ◌⊎◌,
}
use bgpulse.Base.Table.{member, add}
use bgpulse.Bgp.Types.{Asn, RpkiStatus}
use bgpulse.Bgp.Net.{
  Addr, ip4, ip6, invalid, Prefix, is6, unmap, IsAddr, bit_len, is_addr, masked, prefix_from,
  mask_addr,
}
use bgpulse.Rpki.{
  Vrp, Vrp-discrete, Trie, matches, Builder, new_builder, ok, add_vrp, add_masked, mask_vrp, place,
}
use bgpulse.Rpki.Paths.{path_vrps}
use bgpulse.Rpki.Inserts.{count, agree, count-place}

abbrev pub same_bool : Bool → Bool → Bool
same_bool true true = true
same_bool true false = false
same_bool false true = false
same_bool false false = true

-- The VRP's prefix contains the prefix of `n` bits at the address `a`.
abbrev pub covers : Addr → ℕ → Vrp → Bool
covers a n v = elim v.prefix.bits [
  | none ↦ false
  | some k ↦
      same_bool (is6 (unmap v.prefix.addr)) (is6 a)
      && (leb k n && agree k 0 (unmap v.prefix.addr) a)
]

-- The VRP allows the AS to originate a prefix of this length; AS 0 may originate none.
abbrev pub authorizes : ℕ → Asn → Vrp → Bool
authorizes n origin v = ltb 0 origin && (origin == v.origin_as && leb n v.max_length)

pub matches-eq : (n : ℕ) (origin : Asn) → matches n origin ≡ authorizes n origin
matches-eq n origin =
    fun_ext (λ v. (let q : matches n origin v ≡ authorizes n origin v = ground arith in q))

-- RFC 6811: Valid if some covering VRP matches, Invalid if some VRP covers, else NotFound.
unfoldable pub rov : List Vrp → Addr → ℕ → Asn → RpkiStatus
rov vs a n origin =
    if ltb 0 (count (λ v. covers a n v && authorizes n origin v) vs)
    then RpkiStatus.valid
    else if ltb 0 (count (covers a n) vs)
    then RpkiStatus.invalid
    else RpkiStatus.not_found

-- The tries hold the VRPs of `seen`, each where the way of a prefix meets it that it covers.
pub record IsIndex (b : Builder) : Type 0 where
  pub meets :
      (f : Vrp → Bool) (a : Addr) (n : ℕ)
      → count f (path_vrps a n 0 (if is6 a then b.v6 else b.v4))
        ≡ count (λ v. covers a n v && f v) b.seen

count-add :
    (f : Vrp → Bool) (v : Vrp) (vs : List Vrp)
    → member Vrp-discrete v vs ≡ false
    → count f (add Vrp-discrete v vs) ≡ count f vs + (if f v then 1 else 0)
unfolding count add member
count-add f v [] h = omega arith
count-add f v (w ∷ vs) h = ground (arith, count-add f v vs)

pub new_builder-IsIndex : IsIndex new_builder
unfolding path_vrps count
new_builder-IsIndex = record { meets = λ f a n. ground arith }

abbrev pub indexed : Builder → Vrp → Trie → Builder
indexed b v t = record {
  v4 = if is6 (unmap v.prefix.addr) then b.v4 else t;
  v6 = if is6 (unmap v.prefix.addr) then t else b.v6;
  size = b.size + 1;
  seen = add Vrp-discrete v b.seen;
}

add_masked_cases :
    (b : Builder) (v : Vrp) (pl : ℕ) {b' : Builder}
    → add_masked b v pl ≡ ok b'
    → (b' ≡ b)
      ⊎ ((t : Trie) × (member Vrp-discrete v b.seen ≡ false)
          × (place (unmap v.prefix.addr) v pl 0 (if is6 (unmap v.prefix.addr) then b.v6 else b.v4)
              ≡ some t)
          × (b' ≡ indexed b v t))
unfolding add_masked
add_masked_cases b v pl h = elim (Bool-cases (member Vrp-discrete v b.seen)) [
  | inl e ↦ inl (ground arith)
  | inr e ↦
      elim (Option-cases
        (place (unmap v.prefix.addr) v pl 0 (if is6 (unmap v.prefix.addr) then b.v6 else b.v4))) [
          | inl e' ↦ absurd (ground arith)
          | inr (t, e') ↦ inr (t, e, e', ground arith)
        ]
]

indexed-meets :
    (b : Builder) (v : Vrp) (pl : ℕ) (t : Trie) (f : Vrp → Bool) (a : Addr) (n : ℕ)
    → v.prefix.bits ≡ some pl
    → member Vrp-discrete v b.seen ≡ false
    → place (unmap v.prefix.addr) v pl 0 (if is6 (unmap v.prefix.addr) then b.v6 else b.v4) ≡ some t
    → IsIndex b
    → count f (path_vrps a n 0 (if is6 a then (indexed b v t).v6 else (indexed b v t).v4))
      ≡ count (λ w. covers a n w && f w) (indexed b v t).seen
indexed-meets b v pl t f a n e new p x = ground (
  arith,
  x.meets f a n,
  count-add (λ w. covers a n w && f w) v b.seen new,
  count-place f (unmap v.prefix.addr) a v pl n 0 (if is6 (unmap v.prefix.addr) then b.v6 else b.v4)
      p,
)

add_masked-IsIndex :
    (b : Builder) (v : Vrp) (pl : ℕ) {b' : Builder}
    → v.prefix.bits ≡ some pl
    → IsIndex b
    → add_masked b v pl ≡ ok b'
    → IsIndex b'
add_masked-IsIndex b v pl e x h = elim (add_masked_cases b v pl h) [
  | inl same ↦ rw same x
  | inr (t, new, p, made) ↦
      rw made (record { meets = λ f a n. indexed-meets b v pl t f a n e new p x })
]

-- A prefix as Go's constructors make it: its bits are in the range of its address.
abbrev pub IsPrefix : Prefix → Type 0
IsPrefix p =
    IsAddr p.addr
    × (is_addr p.addr ≡ true)
    × (elim p.bits [ none ↦ Unit {0} | some n ↦ n ≤ bit_len p.addr ])

pub masked-bits : (p : Prefix) (n : ℕ) → IsPrefix p → p.bits ≡ some n → (masked p).bits ≡ some n
unfolding masked prefix_from
masked-bits p n w e =
    rw e
      (go p.addr w.1 (subst (λ o. elim o [ none ↦ Unit {0} | some m ↦ m ≤ bit_len p.addr ]) e w.2))
  where
    go :
        (a : Addr)
        → is_addr a ≡ true
        → n ≤ bit_len a
        → (prefix_from (mask_addr n a) n).bits ≡ some n
    go (ip4 b) v h = ground arith
    go (ip6 b) v h = ground arith
    go invalid v h = cc

-- Every Add that returns, of a new VRP or a known one, keeps the tries in step with the list of the
-- VRPs added.
pub add_vrp-IsIndex :
    (b : Builder) (v : Vrp) {b' : Builder}
    → IsPrefix v.prefix
    → IsIndex b
    → add_vrp b v ≡ ok b'
    → IsIndex b'
unfolding add_vrp
add_vrp-IsIndex b v w x h = elim (Option-cases v.prefix.bits) [
  | inl e ↦ absurd (ground arith)
  | inr (pl, e) ↦
      add_masked-IsIndex b (mask_vrp v) pl (masked-bits v.prefix pl w e) x (ground arith)
]
