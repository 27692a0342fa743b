-- ===== src/Rpki/Loading/Outcome.antt =====
-- rpki/jsonload.go: how LoadVRPsJSON ends, and what the store that it returns is made of.
use mathlib.Core.Path.{subst}
use Prim.Native.String.{String}
use bgpulse.Base.{
  ℕ, suc, ◌+◌, ◌≤◌, ◌≡◌, refl, ◌∙◌, arith, Bool, true, false, ◌||◌, Option, none, some, List, [],
  ◌∷◌, ◌++◌, length, ite, All, ◌⊎◌, inl, inr, Option-cases,
}
use bgpulse.Base.Table.{member}
use bgpulse.Bgp.Net.{
  Addr, ip4, ip6, invalid, Prefix, masked, mask_bytes, mask_addr, prefix_from, IsAddr, is_addr,
  bit_len,
}
use bgpulse.Rpki.{Vrp, Vrp-discrete, Builder, AddError, new_builder, build, mask_vrp}
use bgpulse.Rpki.Spec.{IsIndex, IsPrefix, new_builder-IsIndex, add_vrp-IsIndex}
use bgpulse.Rpki.Adds.{length-mask_bytes}
use bgpulse.Rpki.Accepts.{acceptable, add_vrp_cases}
use bgpulse.Rpki.Loading.{
  RoaValue, RoaJson, decode_export, Loaded, loaded, failed, panicked, bad_json, bad_prefix, bad_roa,
  vrp_of, load_roas, load_vrps_json,
}

-- What `netip.ParsePrefix` returns: an address with a length that lies in it.
abbrev pub IsParsed : Prefix → Type 0
IsParsed p = IsPrefix p × (n : ℕ) × (p.bits ≡ some n)

masked-IsPrefix : (p : Prefix) → IsParsed p → IsPrefix (masked p)
unfolding masked prefix_from
masked-IsPrefix p (w, n, e) =
    subst IsPrefix (let q : prefix_from (mask_addr n p.addr) n ≡ masked p = ground arith in q) (
      go p.addr w.0 w.1
        (subst (λ o. elim o [ none ↦ Unit {0} | some m ↦ m ≤ bit_len p.addr ]) e w.2))
  where
    go :
        (a : Addr)
        → IsAddr a
        → is_addr a ≡ true
        → n ≤ bit_len a
        → IsPrefix (prefix_from (mask_addr n a) n)
    go (ip4 b) s k h =
        subst IsPrefix
          (let q : record { addr = ip4 (mask_bytes n b); bits = some n }
                ≡ prefix_from (ip4 (mask_bytes n b)) n =
              ground arith in
            q)
          (length-mask_bytes n b ∙ s, refl, h)
    go (ip6 b) s k h =
        subst IsPrefix
          (let q : record { addr = ip6 (mask_bytes n b); bits = some n }
                ≡ prefix_from (ip6 (mask_bytes n b)) n =
              ground arith in
            q)
          (length-mask_bytes n b ∙ s, refl, h)
    go invalid s k h = cc

module _ (parse : String → Option Prefix) where
  -- The VRP, masked, is that of some entry.
  unfoldable pub listed : Vrp → List RoaJson → Bool
  listed w [] = false
  listed w (roa ∷ roas) = elim (parse roa.prefix) [
    | none ↦ listed w roas
    | some p ↦ ite (Vrp-discrete (mask_vrp (vrp_of p roa)) w) true (listed w roas)
  ]

  -- An entry with a prefix and with a maxLength in its range.
  abbrev pub IsGood : RoaJson → Type 0
  IsGood roa = (p : Prefix) × (parse roa.prefix ≡ some p) × (acceptable (vrp_of p roa) ≡ true)

  -- What stops the loading at an entry of index `i`.
  pub data Stops (i : ℕ) : RoaJson → Loaded → Type 0 where
    no_prefix : (roa : RoaJson) → parse roa.prefix ≡ none → Stops i roa (failed (bad_prefix i))
    no_roa :
        (roa : RoaJson) (p : Prefix) (e : AddError)
        → parse roa.prefix ≡ some p
        → acceptable (vrp_of p roa) ≡ false
        → Stops i roa (failed (bad_roa i e))

  -- All entries are good, and the store holds their VRPs and those of `b`, or one entry, behind
  -- good ones, stops the loading.
  pub data Ends (b : Builder) (i : ℕ) : List RoaJson → Loaded → Type 0 where
    all_added :
        (b' : Builder) (roas : List RoaJson)
        → IsIndex b'
        → All IsGood roas
        → ((w : Vrp)
            → member Vrp-discrete w b'.seen ≡ (member Vrp-discrete w b.seen || listed w roas))
        → Ends b i roas (loaded (build b'))
    stopped :
        (before after : List RoaJson) (roa : RoaJson) (r : Loaded)
        → All IsGood before
        → Stops (i + length before) roa r
        → Ends b i (before ++ (roa ∷ after)) r

  Stops-ne-panicked : (i : ℕ) (roa : RoaJson) → Stops i roa panicked → ⊥
  Stops-ne-panicked i roa s = elim s [ ]

  pub Ends-ne-panicked : (b : Builder) (i : ℕ) (roas : List RoaJson) → Ends b i roas panicked → ⊥
  Ends-ne-panicked b i _ (stopped before after roa _ goods s) =
      Stops-ne-panicked (i + length before) roa s

  Ends-stop :
      (b : Builder) (i : ℕ) (roa : RoaJson) (roas : List RoaJson) (r : Loaded)
      → Stops i roa r
      → Ends b i (roa ∷ roas) r
  Ends-stop b i roa roas r s =
      stopped [] roas roa r tt (subst (λ j. Stops j roa r) (let q : i ≡ i + 0 = omega arith in q) s)

  Ends-step :
      (b b1 : Builder) (i : ℕ) (roa : RoaJson) (p : Prefix) (roas : List RoaJson) (r : Loaded)
      → parse roa.prefix ≡ some p
      → acceptable (vrp_of p roa) ≡ true
      → ((w : Vrp)
          → member Vrp-discrete w b1.seen
            ≡ ite (Vrp-discrete (mask_vrp (vrp_of p roa)) w) true (member Vrp-discrete w b.seen))
      → Ends b1 (i + 1) roas r
      → Ends b i (roa ∷ roas) r
  unfolding listed
  Ends-step b b1 i roa p _ _ e good new (all_added b' roas x goods knows) =
      all_added b' (roa ∷ roas) x ((p, e, good), goods) (λ w. ground (arith, knows w, new w, e))
  Ends-step b b1 i roa p _ _ e good new (stopped before after last r goods s) =
      stopped (roa ∷ before) after last r ((p, e, good), goods)
        (subst (λ j. Stops j last r)
          (let q : (i + 1) + length before ≡ i + suc (length before) = omega arith in q) s)

  module _ (valid : (t : String) (p : Prefix) → parse t ≡ some p → IsParsed p) where
    load_roas-Ends :
        (b : Builder) (i : ℕ) (roas : List RoaJson)
        → IsIndex b
        → Ends b i roas (load_roas parse b i roas)
    unfolding load_roas listed
    load_roas-Ends b i [] x = all_added b [] x tt (λ w. ground arith)
    load_roas-Ends b i (roa ∷ roas) x = elim (Option-cases (parse roa.prefix)) [
      | inl e ↦ rw (e, load_roas) (Ends-stop b i roa roas (failed (bad_prefix i)) (no_prefix roa e))
      | inr (p, e) ↦
          let w = masked-IsPrefix p (valid roa.prefix p e) in
          elim (add_vrp_cases b (vrp_of p roa) w) [
            | inl (err, made, bad) ↦
                rw (e, made, load_roas)
                  (Ends-stop b i roa roas (failed (bad_roa i err)) (no_roa roa p err e bad))
            | inr (b1, made, good, new) ↦
                rw (e, made, load_roas)
                  (Ends-step b b1 i roa p roas (load_roas parse b1 (i + 1) roas) e good new
                    (load_roas-Ends b1 (i + 1) roas (add_vrp-IsIndex b (vrp_of p roa) w x made)))
          ]
    ]

    pub load_vrps_json-Ends :
        (rs : List RoaValue)
        → ((decode_export rs ≡ none) × (load_vrps_json parse (some rs) ≡ failed bad_json))
          ⊎ ((roas : List RoaJson) × (decode_export rs ≡ some roas)
              × Ends new_builder 0 roas (load_vrps_json parse (some rs)))
    unfolding load_vrps_json
    load_vrps_json-Ends rs = elim (Option-cases (decode_export rs)) [
      | inl e ↦ inl (e, ground arith)
      | inr (roas, e) ↦ inr (
        roas,
        e,
        (rw (e, load_vrps_json) (load_roas-Ends new_builder 0 roas new_builder-IsIndex)),
      )
    ]
