-- ===== src/Synth/Stream.antt =====
-- Next of synth/generator.go through Classify: every event of the demo is classified as meant.
use mathlib.Core.Path.{subst}
use bgpulse.Base.{
  ℕ, zero, suc, ◌+◌, ◌<◌, All-and, ◌≡◌, refl, sym, ap, ◌∙◌, arith, ◌≢◌, ◌⊎◌, inl, inr, Bool, true,
  false, Option, none, some, List, [], ◌∷◌, ◌==◌, if◌then◌else◌, All, Bool-cases,
}
use bgpulse.Base.Table.{lookup, member}
use bgpulse.Bgp.Types.{Asn, RelStatus, VfStatus, provider, customer, UpdateEvent, invert}
use bgpulse.Bgp.Net.{Prefix, Prefix-discrete}
use bgpulse.Rpki.{Vrp-discrete}
use bgpulse.Relationships.{rel_lookup}
use bgpulse.Relationships.Lookups.{rel_lookup-invert}
use bgpulse.ValleyFree.{
  classify_path, find_valley, walk_path, walk, dedupe_consecutive, dedupe_from,
}
use bgpulse.Synth.{Rng, SynthTopology, draw}
use bgpulse.Synth.Numbering.{numbered}
use bgpulse.Synth.Prefixes.{roa_vrp, owner_of, has_prefix}
use bgpulse.Synth.Paths.{valid_path}
use bgpulse.Synth.Draws.{draw-All, List-cases}
use bgpulse.Synth.Allocation.{IsBlock}
use bgpulse.Synth.World.{IsWorld}
use bgpulse.Synth.ValleyFreePaths.{valid_path-classify}
use bgpulse.Synth.Scenarios.{
  rl, IsHonest, IsForged, IsCaught, Carries, announce_own-IsOwn, origin_of-valid_path, own-IsNormal,
  own-IsLeak, other-IsHijack,
}
use bgpulse.Synth.Generator.{
  announce_event, origin_of, make_announce, make_leak, make_hijack, make_hijack_of, hijack_of,
  try_hijacker, hijack_tries, stamped,
}

Carries-stamped :
    (n c : ℕ) (p : Prefix) (path : List Asn)
    → IsBlock p
    → Carries (stamped n c (announce_event p path)) p path
unfolding announce_event
Carries-stamped n c p path h = record {
  kind = refl;
  prefix = refl;
  as_path = refl;
  plain = refl;
  origin = refl;
  block = h;
}

-- What a scenario returns, and that it is well whatever number and time Next gives it.
pub record Makes {S : Type 0} (well : UpdateEvent → Type 0) (r : Option (UpdateEvent × S))
    : Type 0 where
  pub ev : UpdateEvent
  pub rest : S
  pub made : r ≡ some (ev, rest)
  pub is_well : (n c : ℕ) → well (stamped n c ev)

abbrev leak_path : List Asn
leak_path = 1002 ∷ 2001 ∷ 1001 ∷ []

leak_path_leaks :
    (f : Asn → Asn → RelStatus)
    → f 1001 2001 ≡ customer
    → f 2001 1002 ≡ provider
    → ((classify_path f leak_path false).is_leak ≡ true)
      × ((classify_path f leak_path false).offender_as ≡ 2001)
unfolding classify_path find_valley walk_path walk dedupe_consecutive dedupe_from
leak_path_leaks f h k = (ground (arith), ground (arith))

module _ {S : Type 0} (rng : Rng S) (t : SynthTopology) (w : IsWorld t) where
  valid_path-not_leak :
      (a : Asn) (s : S)
      → (classify_path (rl t) (valid_path rng t.graph a s).0 false).is_leak ≡ false
  unfolding rel_lookup
  valid_path-not_leak a s =
      valid_path-classify rng (rl t) t.graph a s (λ v. ground arith) w.adjacent

  owner_eq :
      (p : Prefix) (a : Asn)
      → lookup Prefix-discrete p t.graph.prefix_owner ≡ some a
      → owner_of t.graph p ≡ a
  owner_eq p a h = ap (λ r. elim r as (λ _. Asn) [ none ↦ 0 | some x ↦ x ]) h

  pub make_announce-Makes : (s : S) → Makes (IsHonest t) (make_announce rng t.graph s)
  unfolding make_announce announce_event
  make_announce-Makes s = elim (List-cases t.graph.originables) [
    | inl e ↦ absurd (w.some_owner e)
    | inr (o, os, e) ↦
        let (a, s1) = draw rng o os s in
        let (path, s2) = valid_path rng t.graph a s1 in
        let owns : has_prefix t.graph a ≡ true =
          draw-All rng (λ x. has_prefix t.graph x ≡ true) o os s
            (subst (All (λ x. has_prefix t.graph x ≡ true)) e w.owners) in
        let own = announce_own-IsOwn rng t w a path s2 owns in
        record {
          ev = announce_event own.prefix path;
          rest = own.rest;
          made = ground (arith, own.made);
          is_well = λ n c. (
            owner_eq own.prefix a own.owned ∙ sym (origin_of-valid_path rng t w a s1),
            own-IsNormal t w (stamped n c (announce_event own.prefix path)) own.prefix path
                (Carries-stamped n c own.prefix path own.block) a
                (origin_of-valid_path rng t w a s1) own.owned (valid_path-not_leak a s1),
          );
        }
  ]

  leak_path_caught :
      ((classify_path (rl t) leak_path false).is_leak ≡ true)
      × ((classify_path (rl t) leak_path false).offender_as ≡ 2001)
  unfolding invert
  leak_path_caught =
      let down : rl t 1001 2001 ≡ customer =
        rel_lookup-invert t.rel 1001 2001 ∙ ap invert w.first in
      leak_path_leaks (rl t) down w.second

  pub make_leak-Makes :
      (s : S) → Makes (λ ev. IsCaught t ev VfStatus.leak 2001) (make_leak rng t.graph s)
  unfolding make_leak numbered origin_of
  make_leak-Makes s =
      let own = announce_own-IsOwn rng t w 1001 leak_path s w.first_owns in
      let (leaks, blamed) = leak_path_caught in
      record {
        ev = announce_event own.prefix leak_path;
        rest = own.rest;
        made = ground (arith, w.tier1, w.transit, own.made);
        is_well = λ n c.
            subst (IsCaught t (stamped n c (announce_event own.prefix leak_path)) VfStatus.leak)
              blamed
              (own-IsLeak t w (stamped n c (announce_event own.prefix leak_path)) own.prefix
                leak_path (Carries-stamped n c own.prefix leak_path own.block) 1001 refl own.owned
                leaks);
      }

  -- A hijacker is one of the stubs, unless every try drew the owner.
  try_hijacker-All :
      (P : Asn → Type 0) (tries : ℕ) (x : Asn) (xs : List Asn) (owner hijacker : Asn) (s : S)
      → All P (x ∷ xs)
      → (hijacker ≡ owner) ⊎ P hijacker
      → (((try_hijacker rng tries x xs owner hijacker s).0 ≡ owner)
          ⊎ P (try_hijacker rng tries x xs owner hijacker s).0)
  unfolding try_hijacker
  try_hijacker-All P zero x xs owner hijacker s h k = k
  try_hijacker-All P (suc tries) x xs owner hijacker s h k =
      let (other, s') = draw rng x xs s in
      let rest = try_hijacker-All P tries x xs owner other s' h (inr (draw-All rng P x xs s h)) in
      go other s' (hijacker == owner) rest
    where
      go :
          (other : Asn) (s' : S) (b : Bool)
          → ((try_hijacker rng tries x xs owner other s').0 ≡ owner)
            ⊎ P (try_hijacker rng tries x xs owner other s').0
          → ((if b then try_hijacker rng tries x xs owner other s' else (hijacker, s)).0 ≡ owner)
            ⊎ P (if b then try_hijacker rng tries x xs owner other s' else (hijacker, s)).0
      go other s' true r = r
      go other s' false r = k

  hijack_of-Makes :
      (victim : Prefix) (x : Asn) (xs : List Asn) (s : S)
      → IsBlock victim
      → member Vrp-discrete (roa_vrp t.graph victim) w.vb.seen ≡ true
      → All (λ a. a ≢ 0) (x ∷ xs)
      → Makes (λ ev. IsForged t ev ⊎ IsHonest t ev) (hijack_of rng t.graph victim x xs s)
  unfolding hijack_of announce_event
  hijack_of-Makes victim x xs s block m h =
      let owner = owner_of t.graph victim in
      let (hijacker, s1) = try_hijacker rng hijack_tries x xs owner owner s in
      let (path, s2) = valid_path rng t.graph hijacker s1 in
      let known = try_hijacker-All (λ a. a ≢ 0) hijack_tries x xs owner owner s h (inl refl) in
      let origin = origin_of-valid_path rng t w hijacker s1 in
      elim (Bool-cases (hijacker == owner)) [
        | inl e ↦
            (let fallback = make_announce-Makes s1 in
              record {
                ev = fallback.ev;
                rest = fallback.rest;
                made = ground (arith, fallback.made);
                is_well = λ n c. inr (fallback.is_well n c);
              })
        | inr e ↦
            (let wrong : hijacker ≢ owner = ground arith in
              record {
                ev = announce_event victim path;
                rest = s2;
                made = ground arith;
                is_well = λ n c. inl (
                  (λ q. wrong (sym origin ∙ sym q)),
                  subst (IsCaught t (stamped n c (announce_event victim path)) VfStatus.hijack)
                      (sym origin)
                      (other-IsHijack t w (stamped n c (announce_event victim path)) victim path
                        (Carries-stamped n c victim path block) hijacker origin
                        (nonzero hijacker owner wrong known) wrong m),
                );
              })
      ]
    where
      nonzero : (a owner : Asn) → a ≢ owner → (a ≡ owner) ⊎ (a ≢ 0) → a ≢ 0
      nonzero a owner n (inl e) = absurd (n e)
      nonzero a owner n (inr h) = h

  stub_list-nonzero : All (λ a. a ≢ 0) (numbered 3001 120)
  unfolding numbered
  stub_list-nonzero = numbered-nonzero 3001 120 (omega arith)
    where
      numbered-nonzero : (base n : ℕ) → 0 < base → All (λ a. a ≢ 0) (numbered base n)
      numbered-nonzero base zero h = tt
      numbered-nonzero base (suc n) h =
          ((λ e. ground arith), numbered-nonzero (base + 1) n (omega arith))

  make_hijack_drawn :
      (p : Prefix) (ps : List Prefix) (x : Asn) (xs : List Asn) (s : S)
      → t.graph.roa_prefixes ≡ p ∷ ps
      → t.graph.stubs ≡ x ∷ xs
      → make_hijack rng t.graph s
        ≡ hijack_of rng t.graph (draw rng p ps s).0 x xs (draw rng p ps s).1
  unfolding make_hijack
  make_hijack_drawn p ps x xs s e h =
      ap (λ roas. make_hijack_of rng t.graph roas t.graph.stubs s) e
      ∙ ap (λ stubs. make_hijack_of rng t.graph (p ∷ ps) stubs s) h

  pub make_hijack-Makes :
      (s : S) → Makes (λ ev. IsForged t ev ⊎ IsHonest t ev) (make_hijack rng t.graph s)
  unfolding make_hijack numbered
  make_hijack-Makes s = elim (List-cases t.graph.roa_prefixes) [
    | inl e ↦
        (let fallback = make_announce-Makes s in
          record {
            ev = fallback.ev;
            rest = fallback.rest;
            made = ap (λ roas. make_hijack_of rng t.graph roas t.graph.stubs s) e ∙ fallback.made;
            is_well = λ n c. inr (fallback.is_well n c);
          })
    | inr (p, ps, e) ↦
        let (victim, s') = draw rng p ps s in
        let (block, listed) =
          draw-All rng (λ x. IsBlock x × (member Vrp-discrete (roa_vrp t.graph x) w.vb.seen ≡ true))
            p ps s
            (subst
              (All (λ x. IsBlock x × (member Vrp-discrete (roa_vrp t.graph x) w.vb.seen ≡ true))) e
              (All-and _ _ t.graph.roa_prefixes w.blocks w.listed)) in
        let one =
          hijack_of-Makes victim 3001 (numbered 3002 119) s' block listed stub_list-nonzero in
        record {
          ev = one.ev;
          rest = one.rest;
          made = make_hijack_drawn p ps 3001 (numbered 3002 119) s e w.stubs ∙ one.made;
          is_well = one.is_well;
        }
  ]
