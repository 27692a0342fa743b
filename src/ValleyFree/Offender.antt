-- ===== src/ValleyFree/Offender.antt =====
-- The hop that ClassifyPath of valleyfree/classifier.go marks, and the AS that it names.
use mathlib.Core.List.{reverse-append, reverse-cons, reverse-reverse, append_assoc}
use Prim.Native.String.{String}
use bgpulse.Base.{
  ℕ, zero, suc, ◌≡◌, refl, sym, ap, inl, inr, some, List, [], ◌∷◌, ◌++◌, length, arith, ◌∙◌,
  reverse, length-append, get_elem?, Bool, true, false, Option-cases, All, ◌==◌,
}
use bgpulse.Bgp.Types.{Asn, RelStatus, PathHop}
use bgpulse.ValleyFree.{
  Verdict, up, walk_path, find_valley, dedupe_consecutive, hops_from, build_hops, mark_offender,
  classify_path,
}
use bgpulse.ValleyFree.Shape.{scan_iff, IsValleyFree}
use bgpulse.ValleyFree.Walk.{moves, moves_from, last_of, IsFirst, walk-IsFirst}

reverse-last_of :
    (u : Asn) (mid : List Asn) → (ys : List Asn) × (reverse (u ∷ mid) ≡ last_of u mid ∷ ys)
unfolding last_of
reverse-last_of u [] = ([], refl)
reverse-last_of u (v ∷ mid) =
    let (ys, e) = reverse-last_of v mid in
    (ys ++ (u ∷ []), reverse-cons u (v ∷ mid) ∙ ap (λ l. l ++ (u ∷ [])) e)

length-reverse : (l : List Asn) → length (reverse l) ≡ length l
length-reverse [] = refl
length-reverse (x ∷ l) =
    rw (reverse-cons x l) (omega (arith, length-append (reverse l) (x ∷ []), length-reverse l))

-- The path in wire order, from its split in the order of propagation.
wire_split :
    (seq : List Asn) (u : Asn) (mid post : List Asn) (v : Asn)
    → reverse seq ≡ u ∷ (mid ++ (v ∷ post))
    → (ys : List Asn) × (seq ≡ reverse post ++ (v ∷ (last_of u mid ∷ ys)))
wire_split seq u mid post v e =
    let (ys, last) = reverse-last_of u mid in
    (
      ys,
      sym (reverse-reverse seq)
          ∙ (ap reverse e
              ∙ (reverse-append (u ∷ mid) (v ∷ post)
                  ∙ (ap (λ l. l ++ reverse (u ∷ mid)) (reverse-cons v post)
                      ∙ (append_assoc (reverse post) (v ∷ []) (reverse (u ∷ mid))
                          ∙ ap (λ l. reverse post ++ (v ∷ l)) last)))),
    )

module _ (rl : Asn → Asn → RelStatus) where
  abbrev plain_hop : Asn → Asn → PathHop
  plain_hop v w = record { from = v; to = w; rel = rl v w; is_offender = false }

  hops_from-cons :
      (u v : Asn) (seq : List Asn)
      → (hops_from rl u (v ∷ seq)).0 ≡ plain_hop u v ∷ (hops_from rl v seq).0
  unfolding hops_from
  hops_from-cons u v seq = ground arith

  build_hops-get :
      (xs ys : List Asn) (v w : Asn)
      → get_elem? (build_hops rl (xs ++ (v ∷ (w ∷ ys)))).0 (length xs) ≡ some (plain_hop v w)
  unfolding build_hops
  build_hops-get [] ys v w = rw (hops_from-cons v w ys)
  build_hops-get (x ∷ []) ys v w = rw (hops_from-cons x v (w ∷ ys)) (build_hops-get [] ys v w)
  build_hops-get (x ∷ (y ∷ xs)) ys v w =
      rw (hops_from-cons x y (xs ++ (v ∷ (w ∷ ys)))) (build_hops-get (y ∷ xs) ys v w)

get_elem?-mark_self :
    (i : ℕ) (hops : List PathHop) (h : PathHop)
    → get_elem? hops i ≡ some h
    → get_elem? (mark_offender i hops) i ≡ some (record h { is_offender = true })
unfolding mark_offender
get_elem?-mark_self i [] h e = cc
get_elem?-mark_self zero (x ∷ hops) h e = ground arith
get_elem?-mark_self (suc i) (x ∷ hops) h e = get_elem?-mark_self i hops h e

abbrev AllPlain : List PathHop → Type 0
AllPlain hops = All (λ h. h.is_offender ≡ false) hops

plain_get :
    (hops : List PathHop) (j : ℕ) (h : PathHop)
    → AllPlain hops
    → get_elem? hops j ≡ some h
    → h.is_offender ≡ false
plain_get [] j h a e = cc
plain_get (x ∷ hops) zero h a e =
    (let q : x ≡ h = ground arith in sym (ap (λ y. y.is_offender) q) ∙ a.0)
plain_get (x ∷ hops) (suc j) h a e = plain_get hops j h a.1 e

-- Among hops without a mark, the one that is marked is the only one.
one_mark :
    (i : ℕ) (hops : List PathHop)
    → AllPlain hops
    → (j : ℕ) (h : PathHop) → get_elem? (mark_offender i hops) j ≡ some h
    → h.is_offender ≡ (j == i)
unfolding mark_offender
one_mark i [] a j h e = cc
one_mark zero (x ∷ hops) a zero h e =
    (let q : record x { is_offender = true } ≡ h = ground arith in
      sym (ap (λ y. y.is_offender) q) ∙ ground arith)
one_mark zero (x ∷ hops) a (suc j) h e = plain_get hops j h a.1 e ∙ ground arith
one_mark (suc i) (x ∷ hops) a zero h e =
    (let q : x ≡ h = ground arith in sym (ap (λ y. y.is_offender) q) ∙ (a.0 ∙ ground arith))
one_mark (suc i) (x ∷ hops) a (suc j) h e = one_mark i hops a.1 j h e ∙ ground arith

module _ (rl : Asn → Asn → RelStatus) where
  hops_from-AllPlain : (u : Asn) (seq : List Asn) → AllPlain (hops_from rl u seq).0
  unfolding hops_from
  hops_from-AllPlain u [] = tt
  hops_from-AllPlain u (v ∷ seq) = rw (hops_from-cons rl u v seq) (refl, hops_from-AllPlain v seq)

  build_hops-AllPlain : (seq : List Asn) → AllPlain (build_hops rl seq).0
  unfolding build_hops
  build_hops-AllPlain [] = tt
  build_hops-AllPlain (u ∷ seq) = hops_from-AllPlain u seq

module _ (rl : Asn → Asn → RelStatus) where
  -- In a path from its origin: the moves up to the offender keep the shape, the move from the
  -- offender to `v` breaks it, and that hop alone carries the mark.
  pub record BlamesFirst (seq : List Asn) (verdict : Verdict) : Type 0 where
    pub origin : Asn
    pub mid : List Asn
    pub v : Asn
    pub post : List Asn
    pub splits : reverse seq ≡ origin ∷ (mid ++ (v ∷ post))
    pub offends : last_of origin mid ≡ verdict.offender_as
    pub before : IsValleyFree (moves rl (origin ∷ mid))
    pub after : ¬ IsValleyFree (moves rl (origin ∷ (mid ++ (v ∷ []))))
    pub alone :
        (j : ℕ) (h : PathHop)
        → get_elem? verdict.hops j ≡ some h
        → h.is_offender ≡ (j == length post)
    pub marked :
        get_elem? verdict.hops (length post)
        ≡ some (record {
          from = v;
          to = verdict.offender_as;
          rel = rl v verdict.offender_as;
          is_offender = true;
        })

  -- The verdict when the walk has stopped.
  leak_of :
      (path : List Asn) (has_as_set : Bool)
      → (classify_path rl path has_as_set).is_leak ≡ true
      → let verdict = classify_path rl path has_as_set in
        (i : ℕ) × (reason : String) × (find_valley rl (dedupe_consecutive path)
          ≡ some (i, verdict.offender_as, reason))
        × (verdict.hops ≡ mark_offender i (build_hops rl (dedupe_consecutive path)).0)
  unfolding classify_path
  leak_of path has_as_set h = elim (Option-cases (find_valley rl (dedupe_consecutive path))) [
    | inl e ↦ ground arith
    | inr ((i, off, reason), e) ↦ (i, reason, ground arith, ground arith)
  ]

  walk_path_split :
      (p : List Asn) (i : ℕ) (off : Asn) (reason : String)
      → walk_path rl p ≡ some (i, off, reason)
      → (origin : Asn) × (rest : List Asn) × (p ≡ origin ∷ rest) × IsFirst rl up origin rest i off
  unfolding walk_path
  walk_path_split [] i off reason h = cc
  walk_path_split (origin ∷ rest) i off reason h =
      (origin, rest, refl, walk-IsFirst rl up origin rest i off reason h)

  blame :
      (seq : List Asn) (verdict : Verdict) (i : ℕ) (origin : Asn) (rest : List Asn)
      → reverse seq ≡ origin ∷ rest
      → verdict.hops ≡ mark_offender i (build_hops rl seq).0
      → IsFirst rl up origin rest i verdict.offender_as
      → BlamesFirst seq verdict
  blame seq verdict i origin rest split marks first =
      let whole : reverse seq ≡ origin ∷ (first.mid ++ (first.v ∷ first.post)) =
        split ∙ ap (◌∷◌ origin) first.splits in
      let (ys, wire) = wire_split seq origin first.mid first.post first.v whole in
      let at : length (reverse first.post) ≡ i = length-reverse first.post ∙ sym first.index in
      let plain : get_elem? (build_hops rl seq).0 i
          ≡ some (plain_hop rl first.v verdict.offender_as) =
        rw (← first.ends, ← at, wire)
          (build_hops-get rl (reverse first.post) ys first.v (last_of origin first.mid)) in
      record {
        origin = origin;
        mid = first.mid;
        v = first.v;
        post = first.post;
        splits = whole;
        offends = first.ends;
        before = (scan_iff (moves_from rl origin first.mid)).0 first.before;
        after =
            λ s. first.after ((scan_iff (moves_from rl origin (first.mid ++ (first.v ∷ [])))).1 s);
        alone = λ j h got. rw (← first.index) (
            one_mark i (build_hops rl seq).0 (build_hops-AllPlain rl seq) j h (
              let q : get_elem? (mark_offender i (build_hops rl seq).0) j ≡ some h =
                ap (λ l. get_elem? l j) (sym marks) ∙ got in
              q));
        marked =
            rw (← first.index, marks)
              (get_elem?-mark_self i (build_hops rl seq).0
                (plain_hop rl first.v verdict.offender_as) plain);
      }

  -- When ClassifyPath reports a leak, the AS that it names is where the walk from the origin first
  -- breaks the valley-free shape: the moves up to that AS keep it, the next move does not; the hop
  -- of that move, and no other, is marked.
  pub classify_path-BlamesFirst :
      (path : List Asn) (has_as_set : Bool)
      → (classify_path rl path has_as_set).is_leak ≡ true
      → BlamesFirst (dedupe_consecutive path) (classify_path rl path has_as_set)
  unfolding find_valley
  classify_path-BlamesFirst path has_as_set h =
      let (i, reason, found, marks) = leak_of path has_as_set h in
      let (origin, rest, split, first) =
        walk_path_split (reverse (dedupe_consecutive path)) i
          (classify_path rl path has_as_set).offender_as reason found in
      blame (dedupe_consecutive path) (classify_path rl path has_as_set) i origin rest split marks
        first
