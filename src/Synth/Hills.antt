-- ===== src/Synth/Hills.antt =====
-- Paths that climb, cross at most one peer link and descend, as validPath of synth/scenarios.go
-- builds them, against ClassifyPath.
use mathlib.Core.List.{reverse-cons, reverse-reverse}
use bgpulse.Base.{
  ◌≡◌, refl, sym, ap, ◌∙◌, arith, ◌≢◌, leb, length, inl, inr, true, false, none, List, [], ◌∷◌,
  ◌++◌, reverse, Bool-cases,
}
use bgpulse.Bgp.Types.{Asn, RelStatus, customer, provider, peer, sibling}
use bgpulse.ValleyFree.{up, down, dedupe_from, dedupe_consecutive, classify_path, WalkPhase}
use bgpulse.ValleyFree.Shape.{scan, scan_iff}
use bgpulse.ValleyFree.Walk.{moves_from, last_of}
use bgpulse.ValleyFree.Verdicts.{path_moves, is_leak_iff, dedupe-collapse}

-- Neighbours in a path are different ASes.
abbrev pub Apart : Asn → List Asn → Type 0
Apart u [] = Unit
Apart u (v ∷ l) = (u ≢ v) × Apart v l

dedupe_from-Apart : (u : Asn) (l : List Asn) → Apart u l → dedupe_from u l ≡ l
unfolding dedupe_from
dedupe_from-Apart u [] h = refl
dedupe_from-Apart u (v ∷ l) h = ground (arith, dedupe_from-Apart v l h.1, h.0)

Apart-snoc :
    (u : Asn) (l : List Asn) (v w : Asn)
    → Apart u (l ++ (v ∷ []))
    → v ≢ w
    → Apart u ((l ++ (v ∷ [])) ++ (w ∷ []))
Apart-snoc u [] v w h n = (h.0, (n, tt))
Apart-snoc u (x ∷ l) v w h n = (h.0, Apart-snoc x l v w h.1 n)

-- A path whose neighbours are different, whatever its first AS is.
abbrev IsApart : List Asn → Type 0
IsApart [] = Unit
IsApart (u ∷ l) = Apart u l

IsApart-snoc :
    (l : List Asn) (v w : Asn)
    → IsApart (l ++ (v ∷ []))
    → v ≢ w
    → IsApart ((l ++ (v ∷ [])) ++ (w ∷ []))
IsApart-snoc [] v w h n = (n, tt)
IsApart-snoc (x ∷ l) v w h n = Apart-snoc x l v w h n

reverse-IsApart : (u : Asn) (l : List Asn) → Apart u l → IsApart (reverse (u ∷ l))
reverse-IsApart u [] h = tt
reverse-IsApart u (v ∷ l) h =
    let before = reverse-IsApart v l h.1 in
    rw (reverse-cons u (v ∷ l), reverse-cons v l)
      (IsApart-snoc (reverse l) v u (rw (reverse-cons v l) at before) (λ e. h.0 (sym e)))

dedupe-IsApart : (l : List Asn) → IsApart l → dedupe_consecutive l ≡ l
unfolding dedupe_consecutive
dedupe-IsApart [] h = refl
dedupe-IsApart (u ∷ l) h = ap (◌∷◌ u) (dedupe_from-Apart u l h)

abbrev pub AtMostOne : List Asn → Type 0
AtMostOne l = leb (length l) 1 ≡ true

module _ (rl : Asn → Asn → RelStatus) where
  -- Every move from `u` along the list is of one kind.
  abbrev pub Steps : RelStatus → Asn → List Asn → Type 0
  Steps r u [] = Unit
  Steps r u (v ∷ l) = (rl u v ≡ r) × Steps r v l

  Apart-Steps :
      (r : RelStatus) (u : Asn) (l rest : List Asn)
      → ((v : Asn) → rl v v ≡ sibling)
      → r ≢ sibling
      → Steps r u l
      → Apart (last_of u l) rest
      → Apart u (l ++ rest)
  unfolding last_of
  Apart-Steps r u [] rest self n h a = a
  Apart-Steps r u (v ∷ l) rest self n h a =
      ((λ e. n (sym h.0 ∙ (ap (rl u) (sym e) ∙ self u))), Apart-Steps r v l rest self n h.1 a)

  scan-Steps :
      (phase : WalkPhase) (r : RelStatus) (u : Asn) (l rest : List Asn)
      → ((ms : List RelStatus) → scan phase (r ∷ ms) ≡ scan phase ms)
      → Steps r u l
      → scan phase (moves_from rl u (l ++ rest)) ≡ scan phase (moves_from rl (last_of u l) rest)
  unfolding last_of
  scan-Steps phase r u [] rest skip h = refl
  scan-Steps phase r u (v ∷ l) rest skip h =
      ap (λ q. scan phase (q ∷ moves_from rl v (l ++ rest))) h.0
      ∙ (skip (moves_from rl v (l ++ rest)) ∙ scan-Steps phase r v l rest skip h.1)

  scan-descent :
      (phase : WalkPhase) (u : Asn) (l : List Asn)
      → Steps customer u l
      → scan phase (moves_from rl u l) ≡ none
  unfolding scan
  scan-descent phase u [] h = refl
  scan-descent phase u (v ∷ l) h =
      ap (λ q. scan phase (q ∷ moves_from rl v l)) h.0 ∙ scan-descent down v l h.1

  Apart-descent :
      (u : Asn) (l : List Asn) → ((v : Asn) → rl v v ≡ sibling) → Steps customer u l → Apart u l
  Apart-descent u [] self h = tt
  Apart-descent u (v ∷ l) self h =
      ((λ e. cc (h.0, ap (rl u) e, self u)), Apart-descent v l self h.1)

  -- A climb, at most one peer link and a descent.
  pub record IsHill (origin : Asn) (l : List Asn) : Type 0 where
    pub passes : scan up (moves_from rl origin l) ≡ none
    pub apart : Apart origin l

  pub over-IsHill :
      (u : Asn) (over tail : List Asn)
      → ((v : Asn) → rl v v ≡ sibling)
      → Steps peer u over
      → AtMostOne over
      → Steps customer (last_of u over) tail
      → IsHill u (over ++ tail)
  unfolding last_of scan
  over-IsHill u [] tail self h e w = record {
    passes = scan-descent up u tail w;
    apart = Apart-descent u tail self w;
  }
  over-IsHill u (pr ∷ []) tail self h e w = record {
    passes = ap (λ q. scan up (q ∷ moves_from rl pr tail)) h.0 ∙ scan-descent down pr tail w;
    apart = ((λ e'. cc (h.0, ap (rl u) e', self u)), Apart-descent pr tail self w);
  }
  over-IsHill u (pr ∷ (x ∷ over)) tail self h e w = absurd (ground arith)

  pub up-IsHill :
      (u : Asn) (l rest : List Asn)
      → ((v : Asn) → rl v v ≡ sibling)
      → Steps provider u l
      → IsHill (last_of u l) rest
      → IsHill u (l ++ rest)
  unfolding scan
  up-IsHill u l rest self h w = record {
    passes = scan-Steps up provider u l rest (λ ms. refl) h ∙ w.passes;
    apart = Apart-Steps provider u l rest self (λ e. cc) h w.apart;
  }

  pub IsHill-not_leak :
      (origin : Asn) (l : List Asn)
      → IsHill origin l
      → (classify_path rl (reverse (origin ∷ l)) false).is_leak ≡ false
  IsHill-not_leak origin l w =
      elim (Bool-cases (classify_path rl (reverse (origin ∷ l)) false).is_leak) [
        | inr e ↦ e
        | inl e ↦
            let plain : path_moves rl (reverse (origin ∷ l)) ≡ moves_from rl origin l = rw (
              ← dedupe-collapse (reverse (origin ∷ l)),
              dedupe-IsApart _ (reverse-IsApart origin l w.apart),
              reverse-reverse (origin ∷ l),
            ) in
            absurd (
              (((is_leak_iff rl (reverse (origin ∷ l)) false).0 e).1)
                (rw plain ((scan_iff (moves_from rl origin l)).0 w.passes)))
      ]
