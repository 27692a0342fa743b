-- ===== src/Relationships/Loading/Caida.antt =====
-- relationships/caida.go: what the store answers after the lines that are read.

use Prim.Native.String.{String}
use bgpulse.Base.{
  zero, suc, ◌≡◌, ◌≢◌, refl, sym, ap, false, Option-cases, ◌∙◌, arith, true, none, some, List, [],
  ◌∷◌, ◌⊎◌, inl, inr, Bool-cases, All,
}
use bgpulse.Base.Text.{ℤ, pos, negsuc, split_n, parse_uint32, atoi, trim_space}
use bgpulse.Bgp.Types.{Asn, RelStatus, unknown, customer, peer, provider}
use bgpulse.Relationships.{Builder, add_rel, build, rel_lookup}
use bgpulse.Relationships.Adds.{same_pair, rel_lookup-add, rel_lookup-add_known}
use bgpulse.Relationships.Loading.{
  caida_rel, LoadError, Parsed, skipped, bad, entry, says_nothing, line_text, parse_fields,
  parse_line,
}

-- Some line is the data line of `rel` for the pair `a`, `c`.
abbrev pub Says : List String → Asn → Asn → RelStatus → Type 0
Says [] a c rel = ⊥
Says (line ∷ lines) a c rel = (parse_line line ≡ entry (a, c, rel)) ⊎ Says lines a c rel

-- Some line is a data line for the pair, in either order.
abbrev pub Mentions : List String → Asn → Asn → Type 0
Mentions lines x y =
    (a : Asn) × (c : Asn) × (rel : RelStatus) × Says lines a c rel × (same_pair a c x y ≡ true)

caida_rel-known : (z : ℤ) {rel : RelStatus} → caida_rel z ≡ some rel → rel ≢ unknown
caida_rel-known (pos zero) h = λ e. cc
caida_rel-known (pos (suc zero)) h = λ e. cc
caida_rel-known (pos (suc (suc n))) h = λ e. cc
caida_rel-known (negsuc zero) h = λ e. cc
caida_rel-known (negsuc (suc n)) h = λ e. cc

parse_fields-known :
    (fields : List String) {a c : Asn} {rel : RelStatus}
    → parse_fields fields ≡ entry (a, c, rel)
    → rel ≢ unknown
unfolding parse_fields
parse_fields-known [] h = λ e. cc
parse_fields-known (f0 ∷ []) h = λ e. cc
parse_fields-known (f0 ∷ (f1 ∷ [])) h = λ e. cc
parse_fields-known (f0 ∷ (f1 ∷ (f2 ∷ more))) h = grind (arith, caida_rel-known)

parse_line-known :
    (line : String) {a c : Asn} {rel : RelStatus}
    → parse_line line ≡ entry (a, c, rel)
    → rel ≢ unknown
unfolding parse_line
parse_line-known line {a} {c} {rel} h = elim (Bool-cases (says_nothing (line_text line))) [
  | inl e ↦ ground arith
  | inr e ↦ parse_fields-known (split_n 124 3 (line_text line)) (
      let q : parse_fields (split_n 124 3 (line_text line)) ≡ entry (a, c, rel) = ground arith in q)
]

-- What the third field means for the second AS, seen from the first: -1 for a customer, 0 for a peer,
-- 1 for a provider.
abbrev pub CodeMeans : ℤ → RelStatus → Type 0
CodeMeans code rel =
    ((code ≡ negsuc 0) × (rel ≡ customer))
    ⊎ (((code ≡ pos 0) × (rel ≡ peer)) ⊎ ((code ≡ pos 1) × (rel ≡ provider)))

-- A data line: at least three fields between pipes, two AS numbers and a code.
pub record IsDataLine (line : String) (a c : Asn) (rel : RelStatus) : Type 0 where
  pub first : String
  pub second : String
  pub third : String
  pub more : List String
  pub code : ℤ
  pub data_line : says_nothing (line_text line) ≡ false
  pub fields : split_n 124 3 (line_text line) ≡ first ∷ (second ∷ (third ∷ more))
  pub as1 : parse_uint32 (trim_space first) ≡ some a
  pub as2 : parse_uint32 (trim_space second) ≡ some c
  pub number : atoi (trim_space third) ≡ some code
  pub means : CodeMeans code rel

caida_rel-CodeMeans : (z : ℤ) {rel : RelStatus} → caida_rel z ≡ some rel → CodeMeans z rel
caida_rel-CodeMeans (negsuc zero) h = inl (refl, ground arith)
caida_rel-CodeMeans (pos zero) h = inr (inl (refl, ground arith))
caida_rel-CodeMeans (pos (suc zero)) h = inr (inr (refl, ground arith))
caida_rel-CodeMeans (pos (suc (suc n))) h = cc
caida_rel-CodeMeans (negsuc (suc n)) h = cc

parse_fields-IsDataLine :
    (line : String) (fields : List String) {a c : Asn} {rel : RelStatus}
    → says_nothing (line_text line) ≡ false
    → split_n 124 3 (line_text line) ≡ fields
    → parse_fields fields ≡ entry (a, c, rel)
    → IsDataLine line a c rel
unfolding parse_fields
parse_fields-IsDataLine line [] n s h = cc
parse_fields-IsDataLine line (f0 ∷ []) n s h = cc
parse_fields-IsDataLine line (f0 ∷ (f1 ∷ [])) n s h = cc
parse_fields-IsDataLine line (f0 ∷ (f1 ∷ (f2 ∷ more))) {a} {c} {rel} n s h =
    elim (Option-cases (parse_uint32 (trim_space f0))) [
      | inl e ↦ absurd (ground arith)
      | inr (x, e) ↦ elim (Option-cases (parse_uint32 (trim_space f1))) [
        | inl f ↦ absurd (ground arith)
        | inr (y, f) ↦ elim (Option-cases (atoi (trim_space f2))) [
          | inl g ↦ absurd (ground arith)
          | inr (z, g) ↦ elim (Option-cases (caida_rel z)) [
            | inl k ↦ absurd (ground arith)
            | inr (r, k) ↦
                let same : r ≡ rel = ground arith in
                record {
                  first = f0;
                  second = f1;
                  third = f2;
                  more = more;
                  code = z;
                  data_line = n;
                  fields = s;
                  as1 = ground arith;
                  as2 = ground arith;
                  number = g;
                  means = caida_rel-CodeMeans z (k ∙ ap some same);
                }
          ]
        ]
      ]
    ]

-- The line that the parser takes is a data line of what it gives.
pub parse_line-IsDataLine :
    (line : String) (a c : Asn) (rel : RelStatus)
    → parse_line line ≡ entry (a, c, rel)
    → IsDataLine line a c rel
unfolding parse_line
parse_line-IsDataLine line a c rel h = elim (Bool-cases (says_nothing (line_text line))) [
  | inl e ↦ absurd (ground arith)
  | inr e ↦
      let q : parse_fields (split_n 124 3 (line_text line)) ≡ entry (a, c, rel) = ground arith in
      parse_fields-IsDataLine line (split_n 124 3 (line_text line)) e refl q
]

pub Parsed-cases :
    {A : Type 0} (p : Parsed A)
    → (p ≡ skipped) ⊎ (((e : LoadError) × (p ≡ bad e)) ⊎ ((a : A) × (p ≡ entry a)))
Parsed-cases skipped = inl refl
Parsed-cases (bad e) = inr (inl (e, refl))
Parsed-cases (entry a) = inr (inr (a, refl))

-- What the store that is built of `b'` answers: all that the builder `b` and the lines say, and
-- nothing else.
pub record Answers (b b' : Builder) (lines : List String) : Type 0 where
  pub kept :
      (x y : Asn)
      → rel_lookup (build b) x y ≢ unknown
      → rel_lookup (build b') x y ≡ rel_lookup (build b) x y
  pub said : (a c : Asn) (rel : RelStatus) → Says lines a c rel → rel_lookup (build b') a c ≡ rel
  pub none_bad : All (λ line. (e : LoadError) → parse_line line ≢ bad e) lines
  pub only :
      (x y : Asn) → (rel_lookup (build b') x y ≡ rel_lookup (build b) x y) ⊎ Mentions lines x y

pub Answers-add :
    (b b' : Builder) (line : String) (lines : List String) (a c : Asn) (rel : RelStatus)
    → parse_line line ≡ entry (a, c, rel)
    → (add_rel b a c rel).1 ≡ none
    → Answers (add_rel b a c rel).0 b' lines
    → Answers b b' (line ∷ lines)
Answers-add b b' line lines a c rel p h w =
    let known : rel ≢ unknown = parse_line-known line p in
    let b1 = (add_rel b a c rel).0 in
    let now : rel_lookup (build b1) a c ≡ rel = ground (arith, rel_lookup-add b a c rel a c h) in
    let stays : rel_lookup (build b') a c ≡ rel = w.kept a c (λ e. known (sym now ∙ e)) ∙ now in
    record {
      kept = λ x y n.
          let q = rel_lookup-add_known b a c rel (rel_lookup (build b) x y) x y n refl in
          w.kept x y (λ e. n (sym q ∙ e)) ∙ q;
      said = λ a' c' rel' s. elim s [ inl e ↦ cc | inr s ↦ w.said a' c' rel' s ];
      none_bad = ((λ e q. cc), w.none_bad);
      only = λ x y. elim (w.only x y) [
        | inr (a', c', rel', s, m) ↦ inr (a', c', rel', inr s, m)
        | inl e ↦ elim (Bool-cases (same_pair a c x y)) [
          | inl m ↦ inr (a, c, rel, inl p, m)
          | inr m ↦ inl (ground (arith, rel_lookup-add b a c rel x y h))
        ]
      ];
    }

pub Answers-refl : (b : Builder) → Answers b b []
Answers-refl b = record {
  kept = λ x y n. refl;
  said = λ a c rel s. elim s [ ];
  none_bad = tt;
  only = λ x y. inl refl;
}

pub Answers-skip :
    (b b' : Builder) (line : String) (lines : List String)
    → parse_line line ≡ skipped
    → Answers b b' lines
    → Answers b b' (line ∷ lines)
Answers-skip b b' line lines p w = record {
  kept = w.kept;
  said = λ a c rel s. elim s [ inl e ↦ absurd (ground arith) | inr s ↦ w.said a c rel s ];
  none_bad = ((λ e q. cc), w.none_bad);
  only = λ x y. elim (w.only x y) [
    | inl e ↦ inl e
    | inr (a, c, rel, s, m) ↦ inr (a, c, rel, inr s, m)
  ];
}
