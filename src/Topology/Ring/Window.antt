-- ===== src/Topology/Ring/Window.antt =====
-- topology/ring.go against the plain history of the events, newest first.
use native.Mathlib.Nat.{mod-lt, mod-eq_of_lt, add-mod_right, mod_self}
use bgpulse.Base.{
  ℕ, zero, suc, ◌+◌, ◌-◌, ◌*◌, ◌%◌, ◌≡◌, ◌≢◌, ◌<◌, min, refl, sym, ap, ◌∙◌, arith, inl, inr, List,
  [], ◌∷◌, length, get_elem?, replicate, ltb, ◌==◌, if◌then◌else◌, length-set, get_elem?-set_self,
  get_elem?-set_ne, Bool-cases, dec_lt,
}
use bgpulse.Topology.Ring.{EventRing, new_event_ring, push, index}

-- The index without its reduction.
abbrev slot : ℕ → ℕ → ℕ → ℕ
slot cap head i = if ltb i head then head - 1 - i else head + cap - 1 - i

mod_twice : (a cap : ℕ) → a < cap → (a + 2 * cap) % cap ≡ a
mod_twice a cap h =
    let e : a + 2 * cap ≡ (a + cap) + cap = omega arith in
    ap (λ n. n % cap) e ∙ (add-mod_right (a + cap) cap ∙ (add-mod_right a cap ∙ mod-eq_of_lt h))

mod_once : (a cap : ℕ) → a < cap → (a + cap) % cap ≡ a
mod_once a cap h = add-mod_right a cap ∙ mod-eq_of_lt h

index-eq-slot :
    (cap head i : ℕ) → head < cap → i < cap → (head + 2 * cap - 1 - i) % cap ≡ slot cap head i
index-eq-slot cap head i h k = elim (dec_lt i head) [
  | yes lt ↦
      let e : head + 2 * cap - 1 - i ≡ (head - 1 - i) + 2 * cap = omega arith in
      ap (λ n. n % cap) e ∙ (mod_twice (head - 1 - i) cap (omega arith) ∙ ground arith)
  | no ge ↦
      let e : head + 2 * cap - 1 - i ≡ (head + cap - 1 - i) + cap = omega arith in
      ap (λ n. n % cap) e ∙ (mod_once (head + cap - 1 - i) cap (omega arith) ∙ ground arith)
]

next_head :
    (cap head : ℕ) → head < cap → (head + 1) % cap ≡ (if head + 1 == cap then 0 else head + 1)
next_head cap head h = elim (Bool-cases (head + 1 == cap)) [
  | inl e ↦ rw e (ap (λ n. n % cap) (let q : head + 1 ≡ cap = ground arith in q) ∙ mod_self cap)
  | inr e ↦ rw e (mod-eq_of_lt (ground arith))
]

module _ {ℓ} {A : Type ℓ} where
  -- The ring holds the history's newest events, each where `recent` looks for it.
  pub record Holds (r : EventRing A) (h : List A) : Type ℓ where
    pub cap_pos : 0 < r.cap
    pub head_lt : r.head < r.cap
    pub sized : length r.buf ≡ r.cap
    pub size_eq : r.size ≡ min (length h) r.cap
    pub newest : (i : ℕ) → i < r.size → get_elem? r.buf (index r i) ≡ get_elem? h i

  length-replicate : (n : ℕ) (a : A) → length (replicate n a) ≡ n
  length-replicate zero a = refl
  length-replicate (suc n) a = ap suc (length-replicate n a)

  -- A new ring, of any capacity that is asked for, holds the empty history.
  pub new_event_ring-Holds : (a : A) (capacity : ℕ) → Holds (new_event_ring a capacity) []
  unfolding new_event_ring
  new_event_ring-Holds a capacity = record {
    cap_pos = ground arith;
    head_lt = ground arith;
    sized = length-replicate _ a;
    size_eq = ground arith;
    newest = λ i lt. elim lt [ ];
  }

  push_newest :
      (r : EventRing A) (h : List A) (x : A) (i : ℕ)
      → Holds r h
      → i < (push r x).size
      → get_elem? (push r x).buf (index (push r x) i) ≡ get_elem? (x ∷ h) i
  unfolding push
  push_newest r h x zero v lt =
      let cap = r.cap in
      let head' = if r.head + 1 == cap then 0 else r.head + 1 in
      let pos = v.cap_pos in
      let hd = v.head_lt in
      let e : ((r.head + 1) % cap + 2 * cap - 1 - 0) % cap ≡ r.head =
        ap (λ (n : ℕ). (n + 2 * cap - 1 - 0) % cap) (next_head cap r.head hd)
        ∙ (index-eq-slot cap head' 0 (ground arith) pos ∙ ground arith) in
      rw e (get_elem?-set_self r.buf r.head x (omega (arith, v.sized)))
  push_newest r h x (suc i) v lt =
      let cap = r.cap in
      let head' = if r.head + 1 == cap then 0 else r.head + 1 in
      let hd = v.head_lt in
      let small : i < r.size = ground arith in
      let fits : suc i < cap = ground (arith, v.size_eq) in
      let e : ((r.head + 1) % cap + 2 * cap - 1 - suc i) % cap ≡ slot cap r.head i =
        ap (λ (n : ℕ). (n + 2 * cap - 1 - suc i) % cap) (next_head cap r.head hd)
        ∙ (index-eq-slot cap head' (suc i) (ground arith) fits ∙ ground arith) in
      let other : r.head ≢ slot cap r.head i = ground arith in
      rw e (
        get_elem?-set_ne r.buf x other
        ∙ (ap (get_elem? r.buf) (sym (index-eq-slot cap r.head i hd (omega arith)))
            ∙ v.newest i small))

  -- Every push keeps the ring in step with the history, below its capacity and at it.
  pub push-Holds : (r : EventRing A) (h : List A) (x : A) → Holds r h → Holds (push r x) (x ∷ h)
  push-Holds r h x v = record {
    cap_pos = unfold push in v.cap_pos;
    head_lt = unfold push in mod-lt (r.head + 1) v.cap_pos;
    sized = unfold push in length-set r.buf r.head x ∙ v.sized;
    size_eq = unfold push in ground (arith, v.size_eq);
    newest = λ i lt. push_newest r h x i v lt;
  }
