-- ===== src/Relationships/Loading/Outcome.antt =====
-- relationships/caida.go: how LoadCAIDA ends, and which line stops it.
use mathlib.Core.Path.{subst}
use Prim.Native.String.{String}
use bgpulse.Base.{
  ℕ, suc, ◌+◌, ◌≡◌, ◌≢◌, refl, ◌∙◌, arith, Bool, true, false, Option, none, some, List, [], ◌∷◌,
  ◌++◌, length, ◌⊎◌, inl, inr, Option-cases, All,
}
use bgpulse.Bgp.Types.{Asn, RelStatus, unknown}
use bgpulse.Base.Table.{lookup}
use bgpulse.Relationships.{Builder, AddError, new_builder, add_rel, build, rel_lookup}
use bgpulse.Relationships.Loading.{
  LoadError, read_error, refused, bad, entry, parse_line, parse_caida, Loaded, loaded, failed,
  load_caida,
}
use bgpulse.Relationships.Loading.Caida.{
  IsDataLine, parse_line-IsDataLine, Says, Mentions, Parsed-cases, Answers, Answers-add,
  Answers-refl, Answers-skip,
}

-- The line that stops the loading is the first that is bad or that Add refuses.
pub data Stops (b : Builder) : String → LoadError → Type 0 where
  bad_line : (line : String) (e : LoadError) → parse_line line ≡ bad e → Stops b line e
  refused_line :
      (line : String) (a c : Asn) (rel : RelStatus) (e : AddError)
      → parse_line line ≡ entry (a, c, rel)
      → (add_rel b a c rel).1 ≡ some e
      → Stops b line (refused e)

-- How the loading from the builder `b` after `n` lines ends with the builder `b'`: with all that
-- the lines say; or at a line, behind lines that are in order; or, behind all lines, with the
-- error of the scanner.
pub data Ends (b : Builder) (n : ℕ)
    : List String → Bool → Builder → Option (ℕ × LoadError) → Type 0 where
  all_read :
      (b' : Builder) (lines : List String) → Answers b b' lines → Ends b n lines false b' none
  unread :
      (b' : Builder) (lines : List String)
      → Answers b b' lines
      → Ends b n lines true b' (some (n + length lines, read_error))
  stopped :
      (b' : Builder) (before after : List String) (line : String) (f : Bool) (e : LoadError)
      → Answers b b' before
      → Stops b' line e
      → Ends b n (before ++ (line ∷ after)) f b' (some (n + suc (length before), e))

Ends-step :
    (b b1 : Builder) (n : ℕ) (line : String) (rest : List String) (f : Bool) (b' : Builder)
    (r : Option (ℕ × LoadError))
    → ((b2 : Builder) (lines : List String) → Answers b1 b2 lines → Answers b b2 (line ∷ lines))
    → Ends b1 (n + 1) rest f b' r
    → Ends b n (line ∷ rest) f b' r
Ends-step b b1 n line _ _ _ _ k (all_read b' lines w) = all_read b' (line ∷ lines) (k b' lines w)
Ends-step b b1 n line _ _ _ _ k (unread b' lines w) =
    subst (λ m. Ends b n (line ∷ lines) true b' (some (m, read_error)))
      (let q : n + suc (length lines) ≡ (n + 1) + length lines = omega arith in q)
      (unread b' (line ∷ lines) (k b' lines w))
Ends-step b b1 n line _ _ _ _ k (stopped b' before after last f e w s) =
    subst (λ m. Ends b n (line ∷ (before ++ (last ∷ after))) f b' (some (m, e)))
      (let q : n + suc (suc (length before)) ≡ (n + 1) + suc (length before) = omega arith in q)
      (stopped b' (line ∷ before) after last f e (k b' before w) s)

Ends-stop :
    (b : Builder) (n : ℕ) (line : String) (rest : List String) (f : Bool) (e : LoadError)
    → Stops b line e
    → Ends b n (line ∷ rest) f b (some (n + 1, e))
Ends-stop b n line rest f e s =
    subst (λ m. Ends b n (line ∷ rest) f b (some (m, e)))
      (let q : n + suc 0 ≡ n + 1 = omega arith in q) (stopped b [] rest line f e (Answers-refl b) s)

parse_caida-Ends :
    (b : Builder) (n : ℕ) (lines : List String) (f : Bool)
    → Ends b n lines f (parse_caida b n lines f).0 (parse_caida b n lines f).1
unfolding parse_caida
parse_caida-Ends b n [] false = all_read b [] (Answers-refl b)
parse_caida-Ends b n [] true =
    subst (λ m. Ends b n [] true b (some (m, read_error))) (let q : n + 0 ≡ n = omega arith in q)
      (unread b [] (Answers-refl b))
parse_caida-Ends b n (line ∷ rest) f = elim (Parsed-cases (parse_line line)) [
  | inl p ↦
      rw (p, parse_caida)
        (Ends-step b b n line rest f (parse_caida b (n + 1) rest f).0
          (parse_caida b (n + 1) rest f).1 (λ b2 lines w. Answers-skip b b2 line lines p w)
          (parse_caida-Ends b (n + 1) rest f))
  | inr (inl (e, p)) ↦ rw (p, parse_caida) (Ends-stop b n line rest f e (bad_line line e p))
  | inr (inr ((a, c, rel), p)) ↦ elim (Option-cases (add_rel b a c rel).1) [
    | inl h ↦
        rw (p, h, parse_caida)
          (let b1 = (add_rel b a c rel).0 in
            Ends-step b b1 n line rest f (parse_caida b1 (n + 1) rest f).0
              (parse_caida b1 (n + 1) rest f).1
              (λ b2 lines w. Answers-add b b2 line lines a c rel p h w)
              (parse_caida-Ends b1 (n + 1) rest f))
    | inr (e, h) ↦
        rw (p, h, parse_caida)
          (Ends-stop b n line rest f (refused e) (refused_line line a c rel e p h))
  ]
]

-- How LoadCAIDA ends, the two branches.
abbrev pub IsOutcome : List String → Bool → Loaded → Type 0
IsOutcome lines f (loaded s) =
    (f ≡ false)
    × All (λ line. (e : LoadError) → parse_line line ≢ bad e) lines
    × ((a c : Asn) (rel : RelStatus) → Says lines a c rel → rel_lookup s a c ≡ rel)
    × ((x y : Asn) → x ≢ y → (rel_lookup s x y ≡ unknown) ⊎ Mentions lines x y)
    × ((line : String) (a c : Asn) (rel : RelStatus)
        → parse_line line ≡ entry (a, c, rel)
        → IsDataLine line a c rel)
IsOutcome lines f (failed n e) =
    ((f ≡ true) × (n ≡ length lines) × (e ≡ read_error))
    ⊎ ((b : Builder) × (before : List String) × (line : String) × (after : List String) × (lines
          ≡ before ++ (line ∷ after))
        × (n ≡ suc (length before))
        × Answers new_builder b before
        × Stops b line e)

new_builder-unknown : (x y : Asn) → x ≢ y → rel_lookup (build new_builder) x y ≡ unknown
unfolding rel_lookup build lookup
new_builder-unknown x y h = ground arith

Ends-IsOutcome :
    (lines : List String) (f : Bool) (b : Builder) (r : Option (ℕ × LoadError))
    → Ends new_builder 0 lines f b r
    → IsOutcome lines f (elim r [ none ↦ loaded (build b) | some (n, e) ↦ failed n e ])
Ends-IsOutcome lines f _ r (all_read b ls w) = (
  refl,
  w.none_bad,
  w.said,
  λ x y h. elim (w.only x y) [ inl e ↦ inl (e ∙ new_builder-unknown x y h) | inr m ↦ inr m ],
  parse_line-IsDataLine,
)
Ends-IsOutcome lines f _ r (unread b ls w) = inl (refl, omega arith, refl)
Ends-IsOutcome lines f _ r (stopped b before after line g e w s) =
    inr (b, before, line, after, refl, omega arith, w, s)

pub load_caida-IsOutcome : (lines : List String) (f : Bool) → IsOutcome lines f (load_caida lines f)
unfolding load_caida
load_caida-IsOutcome lines f =
    Ends-IsOutcome lines f (parse_caida new_builder 0 lines f).0
      (parse_caida new_builder 0 lines f).1 (parse_caida-Ends new_builder 0 lines f)
