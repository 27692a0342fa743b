-- ===== src/ValleyFree/Verdicts.antt =====
-- ClassifyPath of valleyfree/classifier.go: when it reports a leak, and which hop it blames.

use bgpulse.Base.{
  ℕ, zero, suc, ◌-◌, ◌≤◌, ◌≡◌, refl, ap, inl, inr, ◌↔◌, ◌≢◌, none, List, [], ◌∷◌, ◌++◌, length,
  arith, reverse, Bool, true, false, ◌==◌, if◌then◌else◌, ltb, leb, Option-cases,
}
use bgpulse.Bgp.Types.{Asn, RelStatus, PathHop}
use bgpulse.ValleyFree.{
  walk, walk_path, find_valley, dedupe_from, dedupe_consecutive, hops_from, build_hops,
  mark_offender, classify_seq, classify_path,
}
use bgpulse.ValleyFree.Shape.{IsValleyFree}
use bgpulse.ValleyFree.Walk.{moves, find_valley_iff}

-- A path where an AS that repeats next to itself stands once.
unfoldable pub collapse : List Asn → List Asn
collapse [] = []
collapse (x ∷ xs) = elim (collapse xs) [
  | [] ↦ x ∷ []
  | y ∷ ys ↦ if x == y then y ∷ ys else x ∷ (y ∷ ys)
]

dedupe_from-collapse : (u : Asn) (l : List Asn) → u ∷ dedupe_from u l ≡ collapse (u ∷ l)
unfolding dedupe_from collapse
dedupe_from-collapse u [] = refl
dedupe_from-collapse u (v ∷ l) = rw (← dedupe_from-collapse v l) (ground arith)

pub dedupe-collapse : (l : List Asn) → dedupe_consecutive l ≡ collapse l
unfolding dedupe_consecutive collapse
dedupe-collapse [] = refl
dedupe-collapse (u ∷ l) = dedupe_from-collapse u l

module _ (rl : Asn → Asn → RelStatus) where
  -- The moves of the collapsed path in the order of propagation.
  abbrev pub path_moves : List Asn → List RelStatus
  path_moves path = moves rl (reverse (collapse path))

  find_valley_short : (seq : List Asn) → leb (length seq) 1 ≡ true → find_valley rl seq ≡ none
  unfolding find_valley walk_path walk
  find_valley_short [] h = refl
  find_valley_short (a ∷ []) h = refl
  find_valley_short (a ∷ b ∷ seq) h = absurd (ground arith)

  -- With the guard, the walk and the set flag put together.
  is_leak_cases :
      (path : List Asn) (has_as_set : Bool)
      → ((classify_path rl path has_as_set).is_leak ≡ true)
        ↔ ((has_as_set ≡ false) × (find_valley rl (dedupe_consecutive path) ≢ none))
  unfolding classify_path
  is_leak_cases path has_as_set = (
    (λ h. ground (arith)),
    (λ h. ground (arith, find_valley_short (dedupe_consecutive path), h.1)),
  )

  -- ClassifyPath reports a leak exactly when the path held no AS_SET and the moves of the path, its
  -- repeats collapsed, read from the origin to the collector, leave the valley-free shape: uphill
  -- moves, at most one peer move, downhill moves, with sibling and unknown links anywhere.
  pub is_leak_iff :
      (path : List Asn) (has_as_set : Bool)
      → ((classify_path rl path has_as_set).is_leak ≡ true)
        ↔ ((has_as_set ≡ false) × (¬ IsValleyFree (path_moves path)))
  is_leak_iff path has_as_set = rw (← dedupe-collapse path) (
    (λ h.
        let (s, n) = (is_leak_cases path has_as_set).0 h in
        (s, λ v. n ((find_valley_iff rl (dedupe_consecutive path)).1 v))),
    (λ h.
        (is_leak_cases path has_as_set).1
          (h.0, λ n. h.1 ((find_valley_iff rl (dedupe_consecutive path)).0 n))),
  )

-- Prepending anywhere in a path is invisible after deduplication.
dedupe_from-prepend :
    (last : Asn) (xs ys : List Asn) (x : Asn)
    → dedupe_from last (xs ++ (x ∷ (x ∷ ys))) ≡ dedupe_from last (xs ++ (x ∷ ys))
unfolding dedupe_from
dedupe_from-prepend last [] ys x = ground arith
dedupe_from-prepend last (y ∷ xs) ys x = rw (dedupe_from-prepend y xs ys x)

dedupe-prepend :
    (xs ys : List Asn) (x : Asn)
    → dedupe_consecutive (xs ++ (x ∷ (x ∷ ys))) ≡ dedupe_consecutive (xs ++ (x ∷ ys))
unfolding dedupe_consecutive dedupe_from
dedupe-prepend [] ys x = ground arith
dedupe-prepend (y ∷ xs) ys x = ap (◌∷◌ y) (dedupe_from-prepend y xs ys x)

module _ (rl : Asn → Asn → RelStatus) where
  -- Repeating an AS next to itself, at any place of the path, changes nothing of the verdict.
  classify_path-prepend :
      (xs ys : List Asn) (x : Asn) (has_as_set : Bool)
      → classify_path rl (xs ++ (x ∷ (x ∷ ys))) has_as_set
        ≡ classify_path rl (xs ++ (x ∷ ys)) has_as_set
  unfolding classify_path
  classify_path-prepend xs ys x has_as_set =
      ap (λ seq. classify_seq rl seq has_as_set) (dedupe-prepend xs ys x)

  hops_from_counts :
      (u : Asn) (seq : List Asn)
      → let (hops, known, had) = hops_from rl u seq in
        (length hops ≡ length seq) × (known ≤ length hops) × (had ≡ ltb known (length hops))
  unfolding hops_from
  hops_from_counts u [] = ground arith
  hops_from_counts u (v ∷ seq) = ground (arith, hops_from_counts v seq)

  length-mark_offender : (i : ℕ) (hops : List PathHop) → length (mark_offender i hops) ≡ length hops
  unfolding mark_offender
  length-mark_offender i [] = refl
  length-mark_offender zero (h ∷ hops) = refl
  length-mark_offender (suc i) (h ∷ hops) = ap suc (length-mark_offender i hops)

  build_hops_counts :
      (seq : List Asn)
      → let (hops, known, had) = build_hops rl seq in
        (length hops ≡ length seq - 1) × (known ≤ length hops) × (had ≡ ltb known (length hops))
  unfolding build_hops
  build_hops_counts [] = ground arith
  build_hops_counts (u ∷ seq) = ground (arith, hops_from_counts u seq)

  -- A verdict has one hop for each adjacency of the deduplicated path, leak or no leak; it counts
  -- the hops with a known relationship, and `had_unknown` says that some hop has none.
  pub classify_path_counts :
      (path : List Asn) (has_as_set : Bool)
      → let verdict = classify_path rl path has_as_set in
        (length verdict.hops ≡ length (dedupe_consecutive path) - 1)
        × (verdict.known_hops ≤ length verdict.hops)
        × (verdict.had_unknown ≡ ltb verdict.known_hops (length verdict.hops))
  unfolding classify_path
  classify_path_counts path has_as_set =
      elim (Option-cases (find_valley rl (dedupe_consecutive path))) [
        | inl e ↦ ground (arith, build_hops_counts (dedupe_consecutive path))
        | inr ((i, _, _), e) ↦ ground (
          arith,
          build_hops_counts (dedupe_consecutive path),
          length-mark_offender i (build_hops rl (dedupe_consecutive path)).0,
        )
      ]
