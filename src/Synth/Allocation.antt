-- ===== src/Synth/Allocation.antt =====
-- The allocation of one prefix and of a family in synth/prefixes.go: who owns what.
use mathlib.Core.Path.{subst}
use bgpulse.Base.{
  ℕ, ◌<◌, ◌+◌, ◌%◌, ◌^◌, ◌≡◌, refl, ap, ◌∙◌, arith, ◌⊎◌, Bool, true, false, Option, none, some, ite,
  if_pos, if_neg, List, [], ◌∷◌, ◌++◌, ◌==◌, if◌then◌else◌, inl, inr, ℕ_discrete, All, All-append,
  All-imp,
}
use bgpulse.Base.Table.{lookup, insert, lookup-insert}
use bgpulse.Bgp.Types.{Asn}
use bgpulse.Bgp.Net.{Prefix, Prefix-discrete}
use bgpulse.Synth.{Graph, adjacent, link}
use bgpulse.Synth.Prefixes.{p16, p24, alloc, alloc_16, has_prefix, some_prefix, roa_skip_every}

-- The blocks that the demo's prefixes come from.
pub data IsBlock : Prefix → Type 0 where
  in_11 : (i : ℕ) → i < 256 → IsBlock (p16 11 i)
  in_12 : (i : ℕ) → i < 256 → IsBlock (p16 12 i)
  in_100 : (i : ℕ) → i < 256 → IsBlock (p24 100 0 i)
  in_101 : (i : ℕ) → i < 256 → IsBlock (p24 101 0 i)

-- What an allocation keeps: the edges and the tiers.
abbrev pub frame :
    Graph
    → (List (Asn × List Asn) × List (Asn × List Asn) × List (Asn × List Asn))
      × (List Asn × List Asn × List Asn)
frame g = ((g.providers_of, g.customers_of, g.peers_of), (g.tier1, g.transit, g.stubs))

-- What each AS owns is of the blocks, and recorded as its own.
abbrev pub Held : Graph → Type 0
Held g =
    (a : Asn)
    → All (λ p. IsBlock p × (lookup Prefix-discrete p g.prefix_owner ≡ some a))
        (adjacent g.owner_prefixes a)

-- The prefixes that have a ROA are of the blocks.
pub record IsAllocated (g g' : Graph) : Type 0 where
  pub frames : frame g' ≡ frame g
  pub owns : (a : Asn) → has_prefix g a ≡ true → has_prefix g' a ≡ true
  pub held : Held g → Held g'
  pub blocks : All IsBlock g.roa_prefixes → All IsBlock g'.roa_prefixes

adjacent-link :
    (a : Asn) (c : Prefix) (m : List (Asn × List Prefix)) (x : Asn)
    → adjacent (link a c m) x ≡ ite (ℕ_discrete a x) (adjacent m a ++ (c ∷ [])) (adjacent m x)
unfolding link
adjacent-link a c m x = ground (arith, lookup-insert ℕ_discrete a x (adjacent m a ++ (c ∷ [])) m)

some_prefix-append : (l : List Prefix) (p : Prefix) → some_prefix (l ++ (p ∷ [])) ≡ true
some_prefix-append [] p = refl
some_prefix-append (q ∷ l) p = refl

abbrev linked : Graph → Asn → Prefix → Graph
linked g owner p = record g { owner_prefixes = link owner p g.owner_prefixes }

pub owns-link :
    (g : Graph) (owner : Asn) (p : Prefix) (a : Asn)
    → (owner ≡ a) ⊎ (has_prefix g a ≡ true)
    → has_prefix (linked g owner p) a ≡ true
owns-link g owner p a e =
    ap some_prefix (adjacent-link owner p g.owner_prefixes a) ∙ go (ℕ_discrete owner a) e
  where
    go :
        (d : Dec (owner ≡ a))
        → (owner ≡ a) ⊎ (has_prefix g a ≡ true)
        → some_prefix
            (ite d (adjacent g.owner_prefixes owner ++ (p ∷ [])) (adjacent g.owner_prefixes a))
          ≡ true
    go (yes q) h = some_prefix-append (adjacent g.owner_prefixes owner) p
    go (no n) (inl q) = absurd (n q)
    go (no n) (inr h) = h

Held-alloc :
    (g : Graph) (owner : Asn) (p : Prefix)
    → IsBlock p
    → lookup Prefix-discrete p g.prefix_owner ≡ none
    → Held g
    → (a : Asn)
    → All
        (λ q.
          IsBlock q
          × (lookup Prefix-discrete q (insert Prefix-discrete p owner g.prefix_owner) ≡ some a))
        (adjacent (link owner p g.owner_prefixes) a)
Held-alloc g owner p h new w a =
    rw (adjacent-link owner p g.owner_prefixes a) (go (ℕ_discrete owner a))
  where
    older :
        (c : Asn) (q : Prefix)
        → IsBlock q × (lookup Prefix-discrete q g.prefix_owner ≡ some c)
        → IsBlock q
          × (lookup Prefix-discrete q (insert Prefix-discrete p owner g.prefix_owner) ≡ some c)
    older c q (b, e) = (
      b,
      lookup-insert Prefix-discrete p q owner g.prefix_owner ∙ elim (Prefix-discrete p q) [
        | yes same ↦ absurd (cc (new, e, ap (λ x. lookup Prefix-discrete x g.prefix_owner) same))
        | no n ↦ if_neg (Prefix-discrete p q) n _ _ ∙ e
      ],
    )

    newest :
        (a' : Asn)
        → owner ≡ a'
        → lookup Prefix-discrete p (insert Prefix-discrete p owner g.prefix_owner) ≡ some a'
    newest a' e =
        lookup-insert Prefix-discrete p p owner g.prefix_owner
        ∙ (if_pos (Prefix-discrete p p) refl _ _ ∙ ap some e)

    go :
        (d : Dec (owner ≡ a))
        → All
            (λ q.
              IsBlock q
              × (lookup Prefix-discrete q (insert Prefix-discrete p owner g.prefix_owner) ≡ some a))
            (ite d (adjacent g.owner_prefixes owner ++ (p ∷ [])) (adjacent g.owner_prefixes a))
    go (yes e) =
        All-append _ (adjacent g.owner_prefixes owner) (p ∷ [])
          (All-imp _ _ _ (older a) (
            subst
              (λ x.
                All (λ q. IsBlock q × (lookup Prefix-discrete q g.prefix_owner ≡ some x))
                  (adjacent g.owner_prefixes owner))
              e (w owner)))
          ((h, newest a e), tt)
    go (no n) = All-imp _ _ _ (older a) (w a)

pub alloc-IsAllocated :
    (idx : ℕ) (g : Graph) (owner : Asn) (p : Prefix)
    → IsBlock p
    → IsAllocated g (alloc (idx, g) owner p).1
unfolding alloc
alloc-IsAllocated idx g owner p h = go (lookup Prefix-discrete p g.prefix_owner) refl
  where
    added :
        (b : Bool)
        → All IsBlock g.roa_prefixes
        → All IsBlock (if b then g.roa_prefixes else g.roa_prefixes ++ (p ∷ []))
    added true w = w
    added false w = All-append IsBlock g.roa_prefixes (p ∷ []) w (h, tt)

    go :
        (o : Option Asn)
        → lookup Prefix-discrete p g.prefix_owner ≡ o
        → IsAllocated g
            (elim o as (λ o. ℕ × Graph) [
              | some _ ↦ (idx, g)
              | none ↦ (
                idx + 1,
                record g {
                  prefix_owner = insert Prefix-discrete p owner g.prefix_owner;
                  owner_prefixes = link owner p g.owner_prefixes;
                  roa_prefixes =
                      if idx % roa_skip_every == 4
                      then g.roa_prefixes
                      else g.roa_prefixes ++ (p ∷ []);
                },
              )
            ]).1
    go (some x) e = record { frames = refl; owns = λ a e. e; held = λ w. w; blocks = λ w. w }
    go none e = record {
      frames = refl;
      owns = λ a k. owns-link g owner p a (inr k);
      held = Held-alloc g owner p h e;
      blocks = added (idx % roa_skip_every == 4);
    }

pub IsAllocated-trans : {a b c : Graph} → IsAllocated a b → IsAllocated b c → IsAllocated a c
IsAllocated-trans p q = record {
  frames = q.frames ∙ p.frames;
  owns = λ x e. q.owns x (p.owns x e);
  held = λ w. q.held (p.held w);
  blocks = λ w. q.blocks (p.blocks w);
}

pub byte_lt : (i : ℕ) → i % 2 ^ 8 < 256
byte_lt i = omega arith

pub alloc_16-IsAllocated :
    (a i : ℕ) (l : List Asn) (st : ℕ × Graph)
    → ((j : ℕ) → j < 256 → IsBlock (p16 a j))
    → IsAllocated st.1 (alloc_16 a i l st).1
unfolding alloc_16
alloc_16-IsAllocated a i [] st h = record {
  frames = refl;
  owns = λ x e. e;
  held = λ w. w;
  blocks = λ w. w;
}
alloc_16-IsAllocated a i (asn ∷ rest) st h =
    IsAllocated-trans
      (alloc-IsAllocated st.0 st.1 asn (p16 a (i % 2 ^ 8)) (h (i % 2 ^ 8) (byte_lt i)))
      (alloc_16-IsAllocated a (i + 1) rest (alloc st asn (p16 a (i % 2 ^ 8))) h)

pub IsAllocated-if :
    (b : Bool) (g : Graph) (st st' : ℕ × Graph)
    → IsAllocated g st.1
    → IsAllocated g st'.1
    → IsAllocated g (if b then st else st').1
IsAllocated-if true g st st' p q = p
IsAllocated-if false g st st' p q = q
