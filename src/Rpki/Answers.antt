-- ===== src/Rpki/Answers.antt =====
-- Validate of rpki/store.go against RFC 6811 on the list of the VRPs that were added.
use mathlib.Core.Option
use bgpulse.Base.{
  is_some, ℕ, ◌+◌, ◌<◌, ◌≤◌, ◌≡◌, refl, sym, ap, ◌∙◌, Bool, true, false, ◌&&◌, ◌||◌, Option, none,
  some, List, [], ◌∷◌, ltb, if◌then◌else◌, arith, Bool-cases, inl, inr, ◌⊎◌,
}
use bgpulse.Base.Table.{member}
use bgpulse.Bgp.Types.{Asn}
use bgpulse.Bgp.Net.{Addr, Prefix, is6, unmap, IsAddr, bit_len, is_addr}
use bgpulse.Rpki.{
  Vrp, Vrp-discrete, Validation, Trie, matches, scan_vrps, verdict, validate, Builder, build,
}
use bgpulse.Rpki.Paths.{path_vrps, descend-eq-scan, bit_at-in_range}
use bgpulse.Rpki.Inserts.{count}
use bgpulse.Rpki.Spec.{covers, authorizes, matches-eq, rov, IsIndex}

scan_vrps-covering :
    (n : ℕ) (origin : Asn) (vs : List Vrp) (acc : ℕ × Option Vrp)
    → (scan_vrps n origin vs acc).0 ≡ acc.0 + count (λ _. true) vs
unfolding scan_vrps count
scan_vrps-covering n origin [] acc = omega arith
scan_vrps-covering n origin (v ∷ vs) (c, m) =
    omega (arith, scan_vrps-covering n origin vs (c + 1, if matches n origin v then some v else m))

scan_vrps-matched :
    (n : ℕ) (origin : Asn) (vs : List Vrp) (acc : ℕ × Option Vrp)
    → is_some (scan_vrps n origin vs acc).1 ≡ (is_some acc.1 || ltb 0 (count (matches n origin) vs))
unfolding scan_vrps count
scan_vrps-matched n origin [] acc = ground arith
scan_vrps-matched n origin (v ∷ vs) (c, m) =
    ground (arith, scan_vrps-matched n origin vs (c + 1, if matches n origin v then some v else m))

abbrev pub report_ok : ℕ → Asn → Option Vrp → Bool
report_ok n origin none = true
report_ok n origin (some v) = authorizes n origin v

-- The match that Validate reports does match.
scan_vrps_sound :
    (n : ℕ) (origin : Asn) (vs : List Vrp) (acc : ℕ × Option Vrp)
    → report_ok n origin acc.1 ≡ true
    → report_ok n origin (scan_vrps n origin vs acc).1 ≡ true
unfolding scan_vrps
scan_vrps_sound n origin [] acc h = h
scan_vrps_sound n origin (x ∷ vs) (c, m) h =
    scan_vrps_sound n origin vs (c + 1, if matches n origin x then some x else m) (ground arith)

abbrev is_vrp : Vrp → Vrp → Bool
is_vrp m v = elim (Vrp-discrete v m) [ yes e ↦ true | no e ↦ false ]

-- The match that Validate reports is one of the VRPs that it has met.
scan_vrps_from :
    (m : Vrp) (n : ℕ) (origin : Asn) (vs : List Vrp) (acc : ℕ × Option Vrp)
    → (scan_vrps n origin vs acc).1 ≡ some m
    → (acc.1 ≡ some m) ⊎ (0 < count (is_vrp m) vs)
unfolding scan_vrps count
scan_vrps_from m n origin [] acc h = inl h
scan_vrps_from m n origin (x ∷ vs) (c, k) h =
    ground (arith, scan_vrps_from m n origin vs (c + 1, if matches n origin x then some x else k) h)

count-found :
    (m : Vrp) (f : Vrp → Bool) (vs : List Vrp)
    → 0 < count (λ v. f v && is_vrp m v) vs
    → (member Vrp-discrete m vs ≡ true) × (f m ≡ true)
unfolding count member
count-found m f [] h = absurd (omega arith)
count-found m f (v ∷ vs) h = elim (Vrp-discrete v m) [
  | yes p ↦ elim (Bool-cases (f v)) [
    | inl t ↦ (ground arith, sym (ap f p) ∙ t)
    | inr x ↦ (ground arith, (count-found m f vs (ground arith)).1)
  ]
  | no n ↦ let rest = count-found m f vs (ground arith) in (ground (arith, rest.0), rest.1)
]

-- What Validate answers, by the VRPs that were added.
pub record Answers (vs : List Vrp) (a : Addr) (n : ℕ) (origin : Asn) (r : Validation) : Type 0 where
  pub by_rov : r.status ≡ rov vs a n origin
  pub counts : r.covering ≡ count (covers a n) vs
  pub reports : report_ok n origin r.matched ≡ true
  pub found :
      (m : Vrp) → r.matched ≡ some m → (member Vrp-discrete m vs ≡ true) × (covers a n m ≡ true)

verdict-Answers :
    (vs path : List Vrp) (a : Addr) (n : ℕ) (origin : Asn)
    → count (λ _. true) path ≡ count (covers a n) vs
    → count (matches n origin) path ≡ count (λ v. covers a n v && matches n origin v) vs
    → ((m : Vrp) → count (is_vrp m) path ≡ count (λ v. covers a n v && is_vrp m v) vs)
    → Answers vs a n origin (verdict (scan_vrps n origin path (0, none)))
unfolding verdict rov
verdict-Answers vs path a n origin all some_match each = record {
  by_rov = ground (
    arith,
    ap (λ f. count (λ v. covers a n v && f v) vs) (matches-eq n origin),
    scan_vrps-covering n origin path (0, none),
    scan_vrps-matched n origin path (0, none),
  );
  counts = ground (
    arith,
    scan_vrps-covering n origin path (0, none),
    scan_vrps-matched n origin path (0, none),
  );
  reports = ground (arith, scan_vrps_sound n origin path (0, none));
  found = λ m e.
      count-found m (covers a n) vs
        (ground (arith, each m, scan_vrps_from m n origin path (0, none) (ground arith)));
}

count-and_true : (f : Vrp → Bool) (vs : List Vrp) → count (λ v. f v && true) vs ≡ count f vs
unfolding count
count-and_true f [] = refl
count-and_true f (v ∷ vs) = ground (arith, count-and_true f vs)

-- On a store whose tries are in step with the VRPs added, as Add keeps them, and for every prefix
-- whose length fits its unmapped address, Validate returns a result, and it is the one of RFC 6811
-- over the VRPs added: Valid exactly if some covering VRP matches, Invalid if some cover and none
-- matches, NotFound if none covers, with the number of covering VRPs and a matching VRP, which is
-- one of those added that cover.
pub validate-Answers :
    (b : Builder) (p : Prefix) (n : ℕ) (origin : Asn)
    → IsIndex b
    → p.bits ≡ some n
    → IsAddr (unmap p.addr)
    → is_addr (unmap p.addr) ≡ true
    → n ≤ bit_len (unmap p.addr)
    → (r : Validation) × (validate (build b) p origin ≡ some r)
      × Answers b.seen (unmap p.addr) n origin r
unfolding validate build
validate-Answers b p n origin x e w v h =
    let a = unmap p.addr in
    let root : Trie = if is6 a then b.v6 else b.v4 in
    let found =
      descend-eq-scan a n origin n 0 root (0, none) (omega arith)
        (λ i lt. bit_at-in_range a i w v (omega arith)) in
    (
      verdict (scan_vrps n origin (path_vrps a n 0 root) (0, none)),
      rw e (ap (Option.map verdict) found),
      verdict-Answers b.seen (path_vrps a n 0 root) a n origin
          (x.meets (λ _. true) a n ∙ count-and_true (covers a n) b.seen)
          (x.meets (matches n origin) a n) (λ m. x.meets (is_vrp m) a n),
    )
