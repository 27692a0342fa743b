-- ===== src/Synth/Scenarios.antt =====
-- The scenarios of synth/scenarios.go through Classify: what the demo's events are classified as.
use mathlib.Core.Path.{subst}
use mathlib.Core.List.{reverse-cons}
use bgpulse.Base.{
  ◌≡◌, refl, sym, ap, ◌∙◌, arith, ◌≢◌, inl, inr, true, false, Option, none, some, List, [], ◌∷◌,
  ◌++◌, ◌==◌, All, Bool-cases,
}
use bgpulse.Base.Table.{lookup}
use bgpulse.Bgp.Types.{Asn, RelStatus, RpkiStatus, VfStatus, announce, UpdateEvent, ClassifiedEvent}
use bgpulse.Bgp.Net.{Prefix, Prefix-discrete, unmap}
use bgpulse.Base.Table.{member}
use bgpulse.Rpki.{validate, Vrp-discrete}
use bgpulse.Rpki.Spec.{rov}
use bgpulse.Relationships.{rel_lookup}
use bgpulse.ValleyFree.{Verdict, classify_path}
use bgpulse.Classify.{classify, resolve, is_invalid}
use bgpulse.Classify.Precedence.{IsAnnounced, classify-combines, spec_status}
use bgpulse.Synth.{Rng, SynthTopology, adjacent, draw}
use bgpulse.Synth.Prefixes.{roa_vrp, bits_of, owner_of, has_prefix}
use bgpulse.Synth.Paths.{valid_path}
use bgpulse.Synth.Draws.{draw-All, List-cases}
use bgpulse.Synth.Allocation.{IsBlock}
use bgpulse.Synth.Hijacks.{IsBlock-IsFour, rov-wrong_origin, rov-own_origin}
use bgpulse.Synth.World.{IsWorld}
use bgpulse.Synth.Generator.{announce_event, origin_of, pick_prefix, announce_own}

module _ (ev : UpdateEvent) (vf : Verdict) (st : RpkiStatus) where
  resolve_leak :
      is_invalid st ≡ false
      → vf.is_leak ≡ true
      → ((resolve ev vf st).vf_status ≡ VfStatus.leak)
        × ((resolve ev vf st).offender_as ≡ vf.offender_as)
  unfolding resolve
  resolve_leak h k = (ground arith, ground arith)

  resolve_hijack :
      ev.origin_as ≢ 0
      → st ≡ RpkiStatus.invalid
      → ((resolve ev vf st).vf_status ≡ VfStatus.hijack)
        × ((resolve ev vf st).offender_as ≡ ev.origin_as)
  unfolding resolve
  resolve_hijack h k = (ground arith, ground arith)

  resolve_normal :
      is_invalid st ≡ false
      → vf.is_leak ≡ false
      → ((resolve ev vf st).vf_status ≢ VfStatus.leak)
        × ((resolve ev vf st).vf_status ≢ VfStatus.hijack)
  unfolding resolve
  resolve_normal h k = (ground arith, ground arith)

not_invalid : (st : RpkiStatus) → st ≢ RpkiStatus.invalid → is_invalid st ≡ false
not_invalid RpkiStatus.valid n = refl
not_invalid RpkiStatus.not_found n = refl
not_invalid RpkiStatus.invalid n = absurd (n refl)

-- An announcement of a prefix of the blocks over a path, as the generator makes it.
pub record Carries (ev : UpdateEvent) (p : Prefix) (path : List Asn) : Type 0 where
  pub kind : ev.kind ≡ announce
  pub prefix : ev.prefix ≡ p
  pub as_path : ev.as_path ≡ path
  pub plain : ev.has_as_set ≡ false
  pub origin : ev.origin_as ≡ origin_of path
  pub block : IsBlock p

module _ (t : SynthTopology) where
  abbrev pub rl : Asn → Asn → RelStatus
  rl = rel_lookup t.rel

  -- What the demo's classifier says of an event.
  abbrev pub verdict_on : UpdateEvent → Option ClassifiedEvent
  verdict_on ev = classify rl (validate t.vrp) ev

  -- The demo's classifier calls the event a leak or a hijack by this AS.
  pub record IsCaught (ev : UpdateEvent) (status : VfStatus) (offender : Asn) : Type 0 where
    pub out : ClassifiedEvent
    pub returns : verdict_on ev ≡ some out
    pub caught : out.vf_status ≡ status
    pub blamed : out.offender_as ≡ offender

  -- The demo's classifier finds nothing wrong with the event.
  pub record IsNormal (ev : UpdateEvent) : Type 0 where
    pub out : ClassifiedEvent
    pub returns : verdict_on ev ≡ some out
    pub no_leak : out.vf_status ≢ VfStatus.leak
    pub no_hijack : out.vf_status ≢ VfStatus.hijack

  -- The origin owns the prefix, and the classifier finds nothing wrong.
  abbrev pub IsHonest : UpdateEvent → Type 0
  IsHonest ev = (owner_of t.graph ev.prefix ≡ ev.origin_as) × IsNormal ev

  -- The origin does not own the prefix, and the classifier blames it for a hijack.
  abbrev pub IsForged : UpdateEvent → Type 0
  IsForged ev =
      (owner_of t.graph ev.prefix ≢ ev.origin_as) × IsCaught ev VfStatus.hijack ev.origin_as

  module _ (w : IsWorld t) (ev : UpdateEvent) (p : Prefix) (path : List Asn)
      (c : Carries ev p path) where
    announced : IsAnnounced ev (bits_of p)
    announced =
        let four = IsBlock-IsFour c.block in
        record {
          kind = c.kind;
          bits = ap (λ q. q.bits) c.prefix ∙ four.bits;
          sized = rw c.prefix four.sized;
          known = rw c.prefix four.known;
          fits = rw c.prefix four.fits;
        }

    verdict_on-eq :
        verdict_on ev
        ≡ some (resolve ev (classify_path rl path false) (spec_status w.vb ev (bits_of p)))
    verdict_on-eq =
        rw (w.store, ← c.as_path, ← c.plain)
          (classify-combines rl w.vb ev (bits_of p) w.roas.index announced).0

    own_status :
        (a : Asn)
        → origin_of path ≡ a
        → lookup Prefix-discrete p t.graph.prefix_owner ≡ some a
        → is_invalid (spec_status w.vb ev (bits_of p)) ≡ false
    own_status a o h =
        let owner : owner_of t.graph p ≡ a =
          ap (λ r. elim r as (λ _. Asn) [ none ↦ 0 | some x ↦ x ]) h in
        elim (Bool-cases (ev.origin_as == 0)) [
          | inl e ↦ rw e refl
          | inr e ↦
              (let fine : rov w.vb.seen (unmap p.addr) (bits_of p) a ≢ RpkiStatus.invalid =
                  rov-own_origin t.graph w.vb w.roas p c.block a (ground (arith, c.origin)) owner in
                rw (e, c.prefix, c.origin, o) (not_invalid _ fine))
        ]

    -- An AS's own prefix over a path that is no leak.
    pub own-IsNormal :
        (a : Asn)
        → origin_of path ≡ a
        → lookup Prefix-discrete p t.graph.prefix_owner ≡ some a
        → (classify_path rl path false).is_leak ≡ false
        → IsNormal ev
    own-IsNormal a o h k =
        let (no_leak, no_hijack) =
          resolve_normal ev (classify_path rl path false) (spec_status w.vb ev (bits_of p))
            (own_status a o h) k in
        record {
          out = resolve ev (classify_path rl path false) (spec_status w.vb ev (bits_of p));
          returns = verdict_on-eq;
          no_leak = no_leak;
          no_hijack = no_hijack;
        }

    pub own-IsLeak :
        (a : Asn)
        → origin_of path ≡ a
        → lookup Prefix-discrete p t.graph.prefix_owner ≡ some a
        → (classify_path rl path false).is_leak ≡ true
        → IsCaught ev VfStatus.leak (classify_path rl path false).offender_as
    own-IsLeak a o h k =
        let (caught, blamed) =
          resolve_leak ev (classify_path rl path false) (spec_status w.vb ev (bits_of p))
            (own_status a o h) k in
        record {
          out = resolve ev (classify_path rl path false) (spec_status w.vb ev (bits_of p));
          returns = verdict_on-eq;
          caught = caught;
          blamed = blamed;
        }

    -- Another AS's prefix with a ROA.
    pub other-IsHijack :
        (other : Asn)
        → origin_of path ≡ other
        → other ≢ 0
        → other ≢ owner_of t.graph p
        → member Vrp-discrete (roa_vrp t.graph p) w.vb.seen ≡ true
        → IsCaught ev VfStatus.hijack other
    other-IsHijack other o known wrong m =
        let bad : rov w.vb.seen (unmap p.addr) (bits_of p) other ≡ RpkiStatus.invalid =
          rov-wrong_origin t.graph w.vb w.roas p c.block other m wrong in
        let nonzero : ev.origin_as ≢ 0 = λ e. known (sym o ∙ (sym c.origin ∙ e)) in
        let status : spec_status w.vb ev (bits_of p) ≡ RpkiStatus.invalid =
          let e : (ev.origin_as == 0) ≡ false = ground arith in rw (e, c.prefix, c.origin, o) bad in
        let (caught, blamed) =
          resolve_hijack ev (classify_path rl path false) (spec_status w.vb ev (bits_of p)) nonzero
            status in
        record {
          out = resolve ev (classify_path rl path false) (spec_status w.vb ev (bits_of p));
          returns = verdict_on-eq;
          caught = caught;
          blamed = blamed ∙ (c.origin ∙ o);
        }

origin_of-snoc : (l : List Asn) (a : Asn) → origin_of (l ++ (a ∷ [])) ≡ a
unfolding origin_of
origin_of-snoc [] a = refl
origin_of-snoc (x ∷ []) a = refl
origin_of-snoc (x ∷ (y ∷ l)) a = origin_of-snoc (y ∷ l) a

module _ {S : Type 0} (rng : Rng S) (t : SynthTopology) (w : IsWorld t) where
  pub origin_of-valid_path : (a : Asn) (s : S) → origin_of (valid_path rng t.graph a s).0 ≡ a
  unfolding valid_path
  origin_of-valid_path a s = rw (reverse-cons a _) (origin_of-snoc _ a)

  -- The announcement of an own prefix.
  pub record IsOwn (a : Asn) (path : List Asn) (r : Option (UpdateEvent × S)) : Type 0 where
    pub prefix : Prefix
    pub rest : S
    pub made : r ≡ some (announce_event prefix path, rest)
    pub block : IsBlock prefix
    pub owned : lookup Prefix-discrete prefix t.graph.prefix_owner ≡ some a

  pub announce_own-IsOwn :
      (a : Asn) (path : List Asn) (s : S)
      → has_prefix t.graph a ≡ true
      → IsOwn a path (announce_own rng t.graph a path s)
  unfolding announce_own pick_prefix
  announce_own-IsOwn a path s h = elim (List-cases (adjacent t.graph.owner_prefixes a)) [
    | inl e ↦ absurd (ground arith)
    | inr (p, ps, e) ↦
        let (q, rest) = draw rng p ps s in
        let (block, owned) =
          draw-All rng (λ x. IsBlock x × (lookup Prefix-discrete x t.graph.prefix_owner ≡ some a)) p
            ps s
            (subst (All (λ x. IsBlock x × (lookup Prefix-discrete x t.graph.prefix_owner ≡ some a)))
              e (w.held a)) in
        record { prefix = q; rest = rest; made = ground arith; block = block; owned = owned }
  ]
