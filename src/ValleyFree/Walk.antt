-- ===== src/ValleyFree/Walk.antt =====
-- findValley of valleyfree/classifier.go against the recogniser of the shape.
use Prim.Native.String.{String}
use bgpulse.Base.{
  ℕ, suc, ◌≡◌, refl, sym, ap, ◌↔◌, ◌≢◌, Option, none, some, List, [], ◌∷◌, ◌++◌, length, arith, ◌∙◌,
  reverse,
}
use bgpulse.Bgp.Types.{Asn, RelStatus, unknown, customer, provider, peer, sibling}
use bgpulse.ValleyFree.{WalkPhase, up, down, walk, walk_path, find_valley}
use bgpulse.ValleyFree.Shape.{scan, scan_iff, IsValleyFree}

module _ (rl : Asn → Asn → RelStatus) where
  abbrev pub moves_from : Asn → List Asn → List RelStatus
  moves_from u [] = []
  moves_from u (v ∷ rest) = rl u v ∷ moves_from v rest

  -- The moves of a path in the order of propagation, the origin first.
  abbrev pub moves : List Asn → List RelStatus
  moves [] = []
  moves (origin ∷ rest) = moves_from origin rest

  -- The wire index that the walk reports.
  abbrev pub hop_of : Option (ℕ × Asn × String) → Option ℕ
  hop_of none = none
  hop_of (some (i, _, _)) = some i

  pub length-moves_from : (u : Asn) (l : List Asn) → length (moves_from u l) ≡ length l
  length-moves_from u [] = refl
  length-moves_from u (v ∷ rest) = ap suc (length-moves_from v rest)

  pub hop_of-walk :
      (phase : WalkPhase) (u : Asn) (l : List Asn)
      → hop_of (walk rl phase u l) ≡ scan phase (moves_from u l)
  unfolding walk scan
  hop_of-walk up u [] = refl
  hop_of-walk down u [] = refl
  hop_of-walk up u (v ∷ rest) =
      ground (arith, hop_of-walk up v rest, hop_of-walk down v rest, length-moves_from v rest)
  hop_of-walk down u (v ∷ rest) =
      ground (arith, hop_of-walk up v rest, hop_of-walk down v rest, length-moves_from v rest)

  hop_of-none : (o : Option (ℕ × Asn × String)) → (hop_of o ≡ none) ↔ (o ≡ none)
  hop_of-none none = (λ _. refl, λ _. refl)
  hop_of-none (some t) = (λ h. cc, λ h. cc)

  walk_path_iff : (p : List Asn) → (walk_path rl p ≡ none) ↔ IsValleyFree (moves p)
  unfolding walk_path scan
  walk_path_iff [] = ((λ _. (scan_iff []).0 refl), (λ _. refl))
  walk_path_iff (origin ∷ rest) = (
    (λ h. (scan_iff (moves_from origin rest)).0 (sym (hop_of-walk up origin rest) ∙ ap hop_of h)),
    (λ s.
        (hop_of-none (walk rl up origin rest)).0
          (hop_of-walk up origin rest ∙ (scan_iff (moves_from origin rest)).1 s)),
  )

  -- findValley returns -1 exactly for the paths whose moves, in the order of propagation and less
  -- the transparent ones, are a climb, at most one turn and a descent.
  pub find_valley_iff :
      (seq : List Asn) → (find_valley rl seq ≡ none) ↔ IsValleyFree (moves (reverse seq))
  unfolding find_valley
  find_valley_iff seq = walk_path_iff (reverse seq)

some_hop_eq :
    {a i : ℕ} {b off : Asn} {c reason : String}
    → ◌≡◌ {A = Option (ℕ × Asn × String)} (some (a, b, c)) (some (i, off, reason))
    → (i ≡ a) × (b ≡ off)
some_hop_eq h = ground arith

unfoldable pub last_of : Asn → List Asn → Asn
last_of u [] = u
last_of u (v ∷ l) = last_of v l

module _ (rl : Asn → Asn → RelStatus) where
  -- The walk from `u` along `l` breaks the shape at the hop from `offender` to `v` and not before.
  pub record IsFirst (phase : WalkPhase) (u : Asn) (l : List Asn) (hop : ℕ) (offender : Asn)
      : Type 0 where
    pub mid : List Asn
    pub v : Asn
    pub post : List Asn
    pub splits : l ≡ mid ++ (v ∷ post)
    pub ends : last_of u mid ≡ offender
    pub index : hop ≡ length post
    pub before : scan phase (moves_from rl u mid) ≡ none
    pub after : scan phase (moves_from rl u (mid ++ (v ∷ []))) ≢ none

  IsFirst-cons :
      (phase phase' : WalkPhase) (u v : Asn) (rest : List Asn) {i : ℕ} {off : Asn}
      → ((ms : List RelStatus) → scan phase (rl u v ∷ ms) ≡ scan phase' ms)
      → IsFirst phase' v rest i off
      → IsFirst phase u (v ∷ rest) i off
  unfolding last_of
  IsFirst-cons phase phase' u v rest step f = record {
    mid = v ∷ f.mid;
    v = f.v;
    post = f.post;
    splits = ap (◌∷◌ v) f.splits;
    ends = f.ends;
    index = f.index;
    before = step _ ∙ f.before;
    after = λ h. f.after (sym (step _) ∙ h);
  }

  IsFirst-here :
      (u v : Asn) (rest : List Asn) (i : ℕ)
      → scan down (rl u v ∷ []) ≢ none
      → i ≡ length rest
      → IsFirst down u (v ∷ rest) i u
  unfolding last_of scan
  IsFirst-here u v rest i bad e = record {
    mid = [];
    v = v;
    post = rest;
    splits = refl;
    ends = refl;
    index = e;
    before = refl;
    after = bad;
  }

  walk_step :
      (phase : WalkPhase) (u v : Asn) (rest : List Asn) (i : ℕ) (off : Asn) (reason : String)
      (r : RelStatus)
      → rl u v ≡ r
      → ((q : WalkPhase) → walk rl q v rest ≡ some (i, off, reason) → IsFirst q v rest i off)
      → walk rl phase u (v ∷ rest) ≡ some (i, off, reason)
      → IsFirst phase u (v ∷ rest) i off
  unfolding walk scan
  walk_step phase u v rest i off reason sibling e ih h =
      IsFirst-cons phase phase u v rest (λ ms. rw e (skip phase ms)) (ih phase (rw (e, walk) at h))
    where
      skip : (q : WalkPhase) (ms : List RelStatus) → scan q (sibling ∷ ms) ≡ scan q ms
      skip up ms = refl
      skip down ms = refl
  walk_step phase u v rest i off reason unknown e ih h =
      IsFirst-cons phase phase u v rest (λ ms. rw e (skip phase ms)) (ih phase (rw (e, walk) at h))
    where
      skip : (q : WalkPhase) (ms : List RelStatus) → scan q (unknown ∷ ms) ≡ scan q ms
      skip up ms = refl
      skip down ms = refl
  walk_step phase u v rest i off reason customer e ih h =
      IsFirst-cons phase down u v rest (λ ms. rw e (skip phase ms)) (ih down (rw (e, walk) at h))
    where
      skip : (q : WalkPhase) (ms : List RelStatus) → scan q (customer ∷ ms) ≡ scan down ms
      skip up ms = refl
      skip down ms = refl
  walk_step up u v rest i off reason provider e ih h =
      IsFirst-cons up up u v rest (λ ms. rw e) (ih up (rw (e, walk) at h))
  walk_step up u v rest i off reason peer e ih h =
      IsFirst-cons up down u v rest (λ ms. rw e) (ih down (rw (e, walk) at h))
  walk_step down u v rest i off reason provider e ih h =
      let (ei, eo) = some_hop_eq (rw (e, walk) at h) in
      rw (← eo)
        (IsFirst-here u v rest i (λ n. absurd (cc (sym (ap (λ r. scan down (r ∷ [])) e) ∙ n))) ei)
  walk_step down u v rest i off reason peer e ih h =
      let (ei, eo) = some_hop_eq (rw (e, walk) at h) in
      rw (← eo)
        (IsFirst-here u v rest i (λ n. absurd (cc (sym (ap (λ r. scan down (r ∷ [])) e) ∙ n))) ei)

  pub walk-IsFirst :
      (phase : WalkPhase) (u : Asn) (l : List Asn) (i : ℕ) (off : Asn) (reason : String)
      → walk rl phase u l ≡ some (i, off, reason)
      → IsFirst phase u l i off
  unfolding walk
  walk-IsFirst phase u [] i off reason h = cc
  walk-IsFirst phase u (v ∷ rest) i off reason h =
      walk_step phase u v rest i off reason (rl u v) refl (λ q. walk-IsFirst q v rest i off reason)
        h
