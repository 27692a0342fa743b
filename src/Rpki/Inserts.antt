-- ===== src/Rpki/Inserts.antt =====
-- The way that Add of rpki/store.go makes through a trie, against the way that Validate takes.
use bgpulse.Base.{
  ℕ, zero, suc, ◌+◌, ◌≡◌, refl, ◌∙◌, Bool, true, false, ◌&&◌, Option, none, some, List, [], ◌∷◌,
  ◌++◌, leb, if◌then◌else◌, arith, Option-cases, inl, inr,
}
use bgpulse.Bgp.Net.{Addr}
use bgpulse.Rpki.{Vrp, Trie, nil, node, child, with_child, bit_at, place}
use bgpulse.Rpki.Paths.{path_vrps}

-- How many VRPs of a list pass a test.
unfoldable pub count : (Vrp → Bool) → List Vrp → ℕ
count f [] = 0
count f (v ∷ vs) = (if f v then 1 else 0) + count f vs

pub count-append :
    (f : Vrp → Bool) (vs ws : List Vrp) → count f (vs ++ ws) ≡ count f vs + count f ws
unfolding count
count-append f [] ws = omega arith
count-append f (v ∷ vs) ws = omega (arith, count-append f vs ws)

abbrev pub same_bit : Option ℕ → Option ℕ → Bool
same_bit none x = false
same_bit (some a) none = false
same_bit (some zero) (some zero) = true
same_bit (some zero) (some (suc _)) = false
same_bit (some (suc _)) (some zero) = false
same_bit (some (suc _)) (some (suc _)) = true

-- Two addresses agree in `k` bits from bit `d` on.
unfoldable pub agree : ℕ → ℕ → Addr → Addr → Bool
agree zero d a b = true
agree (suc k) d a b = same_bit (bit_at a d) (bit_at b d) && agree k (d + 1) a b

abbrev gain : (Vrp → Bool) → ℕ → ℕ → Addr → Addr → Vrp → ℕ → ℕ
gain f k n w a v d = if leb k n && agree k d w a && f v then 1 else 0

-- One step of the way, the rest being given for the child.
count-with_child :
    (f : Vrp → Bool) (w a : Addr) (v : Vrp) (k n d : ℕ) (t c : Trie) (b : ℕ)
    → bit_at w d ≡ some b
    → count f (path_vrps a n (d + 1) c)
      ≡ count f (path_vrps a n (d + 1) (child t b)) + gain f k n w a v (d + 1)
    → count f (path_vrps a (suc n) d (with_child t b c))
      ≡ count f (path_vrps a (suc n) d t) + gain f (suc k) (suc n) w a v d
unfolding path_vrps count agree
count-with_child f w a v k n d nil c zero e ih = ground (arith)
count-with_child f w a v k n d nil c (suc b) e ih = ground (arith)
count-with_child f w a v k n d (node vs l r) c zero e ih = ground (
  arith,
  count-append f vs [],
  count-append f vs (path_vrps a n (d + 1) l),
  count-append f vs (path_vrps a n (d + 1) r),
  count-append f vs (path_vrps a n (d + 1) c),
)
count-with_child f w a v k n d (node vs l r) c (suc b) e ih = ground (
  arith,
  count-append f vs [],
  count-append f vs (path_vrps a n (d + 1) l),
  count-append f vs (path_vrps a n (d + 1) r),
  count-append f vs (path_vrps a n (d + 1) c),
)

-- With no bits left the way ends above the children.
count-with_child_end :
    (f : Vrp → Bool) (a : Addr) (d : ℕ) (t c : Trie) (b : ℕ)
    → count f (path_vrps a zero d (with_child t b c)) ≡ count f (path_vrps a zero d t)
unfolding path_vrps count
count-with_child_end f a d nil c zero = refl
count-with_child_end f a d nil c (suc b) = refl
count-with_child_end f a d (node vs l r) c zero = refl
count-with_child_end f a d (node vs l r) c (suc b) = refl

count-leaf :
    (f : Vrp → Bool) (a : Addr) (n d : ℕ) (vs : List Vrp)
    → count f (path_vrps a (suc n) d (node vs nil nil)) ≡ count f vs
unfolding path_vrps count
count-leaf f a n d vs = elim (Option-cases (bit_at a d)) [
  | inl e ↦ ground (arith, count-append f vs [])
  | inr (zero, e) ↦ ground (arith, count-append f vs [])
  | inr (suc b, e) ↦ ground (arith, count-append f vs [])
]

count-node :
    (f : Vrp → Bool) (a : Addr) (n d : ℕ) (vs : List Vrp) (l r : Trie)
    → count f (path_vrps a (suc n) d (node vs l r))
      ≡ count f vs + count f (path_vrps a (suc n) d (node [] l r))
unfolding path_vrps
count-node f a n d vs l r = count-append f vs _

place_step :
    (w : Addr) (v : Vrp) (k d : ℕ) (t : Trie) {t' : Trie}
    → place w v (suc k) d t ≡ some t'
    → (b : ℕ) × (c : Trie) × (bit_at w d ≡ some b)
      × (place w v k (d + 1) (child t b) ≡ some c)
      × (t' ≡ with_child t b c)
unfolding place
place_step w v k d t h = elim (Option-cases (bit_at w d)) [
  | inl e ↦ absurd (ground arith)
  | inr (b, e) ↦ elim (Option-cases (place w v k (d + 1) (child t b))) [
    | inl e' ↦ absurd (ground arith)
    | inr (c, e') ↦ (b, c, e, e', ground arith)
  ]
]

-- A way of `n` bits along `a` after the placing of a VRP `k` bits down along `w` meets what it met
-- before, and the VRP if it goes as far and the addresses agree so far.
pub count-place :
    (f : Vrp → Bool) (w a : Addr) (v : Vrp) (k n d : ℕ) (t : Trie) {t' : Trie}
    → place w v k d t ≡ some t'
    → count f (path_vrps a n d t')
      ≡ count f (path_vrps a n d t) + (if leb k n && agree k d w a && f v then 1 else 0)
unfolding place path_vrps count agree
count-place f w a v zero zero d nil h = ground arith
count-place f w a v zero (suc n) d nil {t'} h =
    let e : t' ≡ node (v ∷ []) nil nil = ground arith in
    rw e (count-leaf f a n d (v ∷ []) ∙ ground arith)
count-place f w a v zero zero d (node vs l r) h = ground (arith, count-append f vs (v ∷ []))
count-place f w a v zero (suc n) d (node vs l r) {t'} h =
    let e : t' ≡ node (vs ++ (v ∷ [])) l r = ground arith in
    rw e (
      omega (
        arith,
        count-node f a n d (vs ++ (v ∷ [])) l r,
        count-node f a n d vs l r,
        count-append f vs (v ∷ []),
        gain_zero,
      ))
  where
    gain_zero : count f (v ∷ []) ≡ (if leb 0 (suc n) && agree 0 d w a && f v then 1 else 0)
    gain_zero = ground arith
count-place f w a v (suc k) zero d t h =
    let (b, c, e, p, split) = place_step w v k d t h in
    rw split (count-with_child_end f a d t c b ∙ ground arith)
count-place f w a v (suc k) (suc n) d t h =
    let (b, c, e, p, split) = place_step w v k d t h in
    rw split
      (count-with_child f w a v k n d t c b e (count-place f w a v k n (d + 1) (child t b) p))
