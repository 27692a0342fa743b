-- ===== src/Topology/Ring/Recent.antt =====
-- What `recent` and `byEdge` of topology/ring.go return, by the history of the pushed events.
use mathlib.Core.Option
use mathlib.Core.List.{reverse_aux}
use bgpulse.Base.{
  ℕ, zero, suc, ◌+◌, ◌≡◌, ◌<◌, ◌≤◌, min, max, refl, sym, ap, ◌∙◌, arith, ◌⊎◌, inl, inr, Bool, true,
  false, some, List, [], ◌∷◌, length, get_elem?, take, drop, ◌==◌, if◌then◌else◌, Bool-cases,
  dec_lt, reverse,
}
use bgpulse.Topology.Ring.{
  EventRing, new_event_ring, push, index, recent, recent_from, clamp_limit, by_edge, select_from,
}
use bgpulse.Topology.Ring.Window.{Holds, new_event_ring-Holds, push-Holds}

-- How many events `recent` may return: a limit that is not positive counts as the capacity.
abbrev pub window : ℕ → ℕ → ℕ
window capacity limit = if limit == 0 then capacity else min limit capacity

module _ {ℓ} {A : Type ℓ} where
  drop-cons :
      (h : List A) (i : ℕ)
      → i < length h
      → (x : A) × (get_elem? h i ≡ some x) × (drop i h ≡ x ∷ drop (suc i) h)
  drop-cons [] i lt = elim lt [ ]
  drop-cons (x ∷ h) zero lt = (x, refl, refl)
  drop-cons (x ∷ h) (suc i) lt = drop-cons h i (omega arith)

  take_all : (h : List A) → take (length h) h ≡ h
  take_all [] = refl
  take_all (x ∷ h) = ap (◌∷◌ x) (take_all h)

  take_beyond : (n : ℕ) (h : List A) → length h ≤ n → take n h ≡ h
  take_beyond zero [] le = refl
  take_beyond zero (x ∷ h) le = absurd (omega arith)
  take_beyond (suc n) [] le = refl
  take_beyond (suc n) (x ∷ h) le = ap (◌∷◌ x) (take_beyond n h (omega arith))

  take_clamp : (n : ℕ) (h : List A) → take (min (length h) n) h ≡ take n h
  take_clamp n h = elim (dec_lt (length h) n) [
    | yes lt ↦
        ap (λ k. take k h) (let q : min (length h) n ≡ length h = omega arith in q)
        ∙ (take_all h ∙ sym (take_beyond n h (omega arith)))
    | no ge ↦ ap (λ k. take k h) (let q : min (length h) n ≡ n = omega arith in q)
  ]

  recent_step :
      (r : EventRing A) (i k : ℕ) (x : A)
      → get_elem? r.buf (index r i) ≡ some x
      → recent_from r i (suc k) ≡ Option.map (λ out. x ∷ out) (recent_from r (suc i) k)
  unfolding recent_from
  recent_step r i k x e = let n : i + 1 ≡ suc i = omega arith in rw (← n) (ground arith)

  recent_from-eq :
      (r : EventRing A) (h : List A) (k i : ℕ)
      → Holds r h
      → i + k ≤ r.size
      → recent_from r i k ≡ some (take k (drop i h))
  unfolding recent_from
  recent_from-eq r h zero i v le = refl
  recent_from-eq r h (suc k) i v le =
      let (x, at, split) = drop-cons h i (omega (arith, v.size_eq)) in
      recent_step r i k x (v.newest i (omega arith) ∙ at)
      ∙ (ap (Option.map (λ out. x ∷ out)) (recent_from-eq r h k (suc i) v (omega arith))
          ∙ ap (λ l. some (take (suc k) l)) (sym split))

  clamp-take :
      (r : EventRing A) (h : List A) (limit : ℕ)
      → Holds r h
      → take (clamp_limit r limit) h ≡ take (window r.cap limit) h
  clamp-take r h limit v =
      sym (take_clamp (clamp_limit r limit) h)
      ∙ (ap (λ k. take k h)
            (let q : min (length h) (clamp_limit r limit) ≡ min (length h) (window r.cap limit) =
                ground (arith, v.size_eq) in
              q)
          ∙ take_clamp (window r.cap limit) h)

  recent-eq-take :
      (r : EventRing A) (h : List A) (limit : ℕ)
      → Holds r h
      → recent r limit ≡ some (take (window r.cap limit) h)
  unfolding recent
  recent-eq-take r h limit v =
      recent_from-eq r h (clamp_limit r limit) 0 v (ground arith) ∙ ap some (clamp-take r h limit v)

  -- The pushes of a list of events, the first one first.
  unfoldable pub push_all : EventRing A → List A → EventRing A
  push_all r [] = r
  push_all r (ev ∷ evs) = push_all (push r ev) evs

  push_all-Holds :
      (r : EventRing A) (h evs : List A) → Holds r h → Holds (push_all r evs) (reverse_aux evs h)
  unfolding push_all
  push_all-Holds r h [] v = v
  push_all-Holds r h (ev ∷ evs) v = push_all-Holds (push r ev) (ev ∷ h) evs (push-Holds r h ev v)

  cap-push_all : (r : EventRing A) (evs : List A) → (push_all r evs).cap ≡ r.cap
  unfolding push_all push
  cap-push_all r [] = refl
  cap-push_all r (ev ∷ evs) = cap-push_all (push r ev) evs

  cap-new : (a : A) (capacity : ℕ) → (new_event_ring a capacity).cap ≡ max 1 capacity
  unfolding new_event_ring
  cap-new a capacity = ground arith

  -- After any pushes on a new ring of any requested capacity, `recent` reads no slot out of range
  -- and returns the newest events, newest first: as many as the limit says, or, when the limit is
  -- not positive, as the capacity (at least 1) says.
  pub recent-push_all :
      (a : A) (capacity limit : ℕ) (evs : List A)
      → recent (push_all (new_event_ring a capacity) evs) limit
        ≡ some (take (window (max 1 capacity) limit) (reverse evs))
  recent-push_all a capacity limit evs =
      recent-eq-take (push_all (new_event_ring a capacity) evs) (reverse evs) limit
        (push_all-Holds (new_event_ring a capacity) [] evs (new_event_ring-Holds a capacity))
      ∙ ap (λ c. some (take (window c limit) (reverse evs)))
          (cap-push_all (new_event_ring a capacity) evs ∙ cap-new a capacity)

  -- The elements that pass a test, in order.
  unfoldable pub select : (A → Bool) → List A → List A
  select f [] = []
  select f (x ∷ xs) = if f x then x ∷ select f xs else select f xs

  take-zero-select : (f : A → Bool) (h : List A) → take zero (select f h) ≡ []
  take-zero-select f h = refl

  select_step :
      (f : A → Bool) (r : EventRing A) (i k want : ℕ) (x : A)
      → get_elem? r.buf (index r i) ≡ some x
      → select_from f r i (suc k) (suc want) ≡ (
          if f x
          then Option.map (λ out. x ∷ out) (select_from f r (suc i) k want)
          else select_from f r (suc i) k (suc want))
  unfolding select_from
  select_step f r i k want x e = let n : i + 1 ≡ suc i = omega arith in rw (← n) (ground arith)

  take-suc-select :
      (f : A → Bool) (x : A) (xs : List A) (want : ℕ)
      → take (suc want) (select f (x ∷ xs))
        ≡ (if f x then x ∷ take want (select f xs) else take (suc want) (select f xs))
  unfolding select
  take-suc-select f x xs want = elim (Bool-cases (f x)) [ inl e ↦ rw e | inr e ↦ rw e ]

  select_join :
      (f : A → Bool) (r : EventRing A) (i k want : ℕ) (x : A) (rest : List A)
      → get_elem? r.buf (index r i) ≡ some x
      → select_from f r (suc i) k want ≡ some (take want (select f rest))
      → select_from f r (suc i) k (suc want) ≡ some (take (suc want) (select f rest))
      → select_from f r i (suc k) (suc want) ≡ some (take (suc want) (select f (x ∷ rest)))
  select_join f r i k want x rest at hit miss =
      select_step f r i k want x at
      ∙ (split (Bool-cases (f x)) ∙ ap some (sym (take-suc-select f x rest want)))
    where
      split :
          (f x ≡ true) ⊎ (f x ≡ false)
          → (if f x
              then Option.map (λ out. x ∷ out) (select_from f r (suc i) k want)
              else select_from f r (suc i) k (suc want))
            ≡ some (if f x then x ∷ take want (select f rest) else take (suc want) (select f rest))
      split (inl e) = rw (e, hit)
      split (inr e) = rw (e, miss)

  select_from-eq :
      (f : A → Bool) (r : EventRing A) (h : List A) (k i want : ℕ)
      → Holds r h
      → i + k ≤ r.size
      → select_from f r i k want ≡ some (take want (select f (take k (drop i h))))
  unfolding select_from select
  select_from-eq f r h zero i zero v le = refl
  select_from-eq f r h zero i (suc want) v le = refl
  select_from-eq f r h (suc k) i zero v le = refl
  select_from-eq f r h (suc k) i (suc want) v le =
      let (x, at, split) = drop-cons h i (omega (arith, v.size_eq)) in
      select_join f r i k want x (take k (drop (suc i) h)) (v.newest i (omega arith) ∙ at)
        (select_from-eq f r h k (suc i) want v (omega arith))
        (select_from-eq f r h k (suc i) (suc want) v (omega arith))
      ∙ ap (λ l. some (take (suc want) (select f (take (suc k) l)))) (sym split)

  by_edge-eq :
      (f : A → Bool) (r : EventRing A) (h : List A) (limit : ℕ)
      → Holds r h
      → by_edge f r limit ≡ some (take limit (select f (take r.cap h)))
  unfolding by_edge
  by_edge-eq f r h limit v =
      select_from-eq f r h r.size 0 limit v (omega arith)
      ∙ ap (λ l. some (take limit (select f l))) (ap (λ k. take k h) v.size_eq ∙ take_clamp r.cap h)

  -- After any pushes on a new ring, the search behind `byEdge` returns the newest of the events
  -- that traverse the edge among those that the ring keeps, newest first and at most `limit`.
  pub by_edge-push_all :
      (a : A) (f : A → Bool) (capacity limit : ℕ) (evs : List A)
      → by_edge f (push_all (new_event_ring a capacity) evs) limit
        ≡ some (take limit (select f (take (max 1 capacity) (reverse evs))))
  by_edge-push_all a f capacity limit evs =
      by_edge-eq f (push_all (new_event_ring a capacity) evs) (reverse evs) limit
        (push_all-Holds (new_event_ring a capacity) [] evs (new_event_ring-Holds a capacity))
      ∙ ap (λ c. some (take limit (select f (take c (reverse evs)))))
          (cap-push_all (new_event_ring a capacity) evs ∙ cap-new a capacity)
