-- ===== src/Topology/Series/Counted.antt =====
-- The series of topology/series.go against the times of all events.
use bgpulse.Base.{
  ℕ, zero, suc, ◌+◌, ◌-◌, ◌*◌, ◌/◌, ◌%◌, ◌^◌, ◌≤◌, ◌<◌, ◌≡◌, refl, sym, ap, ◌∙◌, arith, true, false,
  List, [], ◌∷◌, get_elem?, leb, ltb, ◌==◌, some, if◌then◌else◌, inc64, Bool-cases, inl, inr, All,
}
use bgpulse.Topology.Series.{
  RingCounters, new_ring_counters, bump, advance, advance_by, begun, elapsed, add, series,
  spark_buckets,
}
use bgpulse.Topology.Series.Shift.{IsRing, bucket, add-IsRing, bucket-add, series-get}

-- The counters after events at these times, the newest first.
unfoldable pub add_all : List ℕ → RingCounters
add_all [] = new_ring_counters
add_all (t ∷ ts) = add (add_all ts) t

-- Where the bucket of an event at `t` begins, behind one whose bucket begins at `s`: whole widths of
-- two seconds later, or, a minute later or more, at the event itself.
abbrev pub begins : ℕ → ℕ → ℕ
begins s t = if leb (s + 60000000000) t then t else s + (t - s) / 2000000000 * 2000000000

-- The beginnings of the buckets of the events.
unfoldable pub beginnings : List ℕ → List ℕ
beginnings [] = []
beginnings (t ∷ ts) = elim (beginnings ts) [ [] ↦ t ∷ [] | s ∷ rest ↦ begins s t ∷ (s ∷ rest) ]

-- The events whose bucket begins `ago` widths before the newest one.
unfoldable pub events_at : ℕ → ℕ → List ℕ → ℕ
events_at newest ago [] = 0
events_at newest ago (x ∷ xs) =
    (if x + ago * 2000000000 == newest then 1 else 0) + events_at newest ago xs

abbrev pub events_ago : ℕ → List ℕ → ℕ
events_ago ago [] = 0
events_ago ago (newest ∷ xs) = events_at newest ago (newest ∷ xs)

-- No event is in a bucket that begins behind the newest.
abbrev NoneLater : ℕ → List ℕ → Type 0
NoneLater newest xs = All (λ x. x ≤ newest) xs

NoneLater-mono : (s n : ℕ) (xs : List ℕ) → s ≤ n → NoneLater s xs → NoneLater n xs
NoneLater-mono s n [] h a = tt
NoneLater-mono s n (x ∷ xs) h a = (omega (arith, a.0), NoneLater-mono s n xs h a.1)

-- What the counters hold when the buckets of the events begin there.
abbrev Holds : RingCounters → List ℕ → Type 0
Holds rc [] = (rc.started ≡ false) × ((i : ℕ) → bucket rc i ≡ 0)
Holds rc (s ∷ xs) =
    (rc.started ≡ true)
    × (rc.cur_start ≡ s)
    × NoneLater s xs
    × ((i : ℕ) → i < 30 → bucket rc i ≡ events_ago (29 - i) (s ∷ xs) % 2 ^ 64)

cur_start-advance_by :
    (n : ℕ) (rc : RingCounters)
    → ((advance_by n rc).cur_start ≡ rc.cur_start + n * 2000000000)
      × ((advance_by n rc).started ≡ rc.started)
unfolding advance_by advance
cur_start-advance_by zero rc = (omega arith, refl)
cur_start-advance_by (suc n) rc =
    let (e, f) = cur_start-advance_by n (advance rc) in (omega (arith, e), f)

-- The start of the current bucket behind an event.
cur_start-add :
    (rc : RingCounters) (t : ℕ)
    → ((add rc t).started ≡ true)
      × ((add rc t).cur_start ≡ (if rc.started then begins rc.cur_start t else t))
unfolding add bump
cur_start-add rc t = elim (Bool-cases (leb spark_buckets (elapsed rc t))) [
  | inl e ↦ rw e (refl, ground arith)
  | inr e ↦
      let (start, on) = cur_start-advance_by (elapsed rc t) (begun rc t) in
      rw e (on ∙ ground arith, start ∙ ground arith)
]

-- The events of older buckets are those of the same buckets before, and none a minute later.
events_at-moved :
    (s n ago gone : ℕ) (xs : List ℕ)
    → NoneLater s xs
    → n ≡ s + gone * 2000000000
    → events_at n (ago + gone) xs ≡ events_at s ago xs
unfolding events_at
events_at-moved s n ago gone [] a e = refl
events_at-moved s n ago gone (x ∷ xs) a e = ground (arith, events_at-moved s n ago gone xs a.1 e, e)

events_at-none :
    (s n ago : ℕ) (xs : List ℕ) → NoneLater s xs → s + ago * 2000000000 < n → events_at n ago xs ≡ 0
unfolding events_at
events_at-none s n ago [] a h = refl
events_at-none s n ago (x ∷ xs) a h = ground (arith, events_at-none s n ago xs a.1 h, a.0)

-- What moves to a bucket is what its events were before.
older :
    (rc : RingCounters) (s : ℕ) (xs : List ℕ) (t i : ℕ)
    → Holds rc (s ∷ xs)
    → i < 30
    → bucket rc (i + (t - s) / 2000000000) ≡ events_at (begins s t) (29 - i) (s ∷ xs) % 2 ^ 64
older rc s xs t i (on, start, early, holds) h =
    let gone = (t - s) / 2000000000 in
    let all : NoneLater s (s ∷ xs) = (omega arith, early) in
    elim (Bool-cases (ltb (i + gone) 30)) [
      | inl near ↦
          let near' : i + gone < 30 = ground arith in
          let moves : begins s t ≡ s + gone * 2000000000 = ground arith in
          holds (i + gone) near'
          ∙ ap (λ n. n % 2 ^ 64)
              (sym (
                ap (λ k. events_at (begins s t) k (s ∷ xs))
                  (let q : 29 - i ≡ (29 - (i + gone)) + gone = omega (arith, near') in q)
                ∙ events_at-moved s (begins s t) (29 - (i + gone)) gone (s ∷ xs) all moves))
      | inr far ↦
          let past : bucket rc (i + gone) ≡ 0 = ground (arith, far) in
          let later : s + (29 - i) * 2000000000 < begins s t = ground arith in
          past
          ∙ ap (λ n. n % 2 ^ 64) (sym (events_at-none s (begins s t) (29 - i) (s ∷ xs) all later))
    ]

-- The event itself is in the newest bucket.
with_event :
    (n i old : ℕ) (xs : List ℕ)
    → i < 30
    → old ≡ events_at n (29 - i) xs % 2 ^ 64
    → (if i == 29 then inc64 old else old) ≡ events_at n (29 - i) (n ∷ xs) % 2 ^ 64
unfolding events_at
with_event n i old xs h e = elim (Bool-cases (i == 29)) [
  | inl q ↦ ground (arith, e)
  | inr q ↦ ground (arith, e)
]

add-Holds :
    (rc : RingCounters) (xs : List ℕ) (t : ℕ)
    → IsRing rc
    → Holds rc xs
    → Holds (add rc t) (elim xs [ [] ↦ t ∷ [] | s ∷ rest ↦ begins s t ∷ (s ∷ rest) ])
unfolding events_at
add-Holds rc [] t v (off, empty) =
    let (on, start) = cur_start-add rc t in
    (
      on,
      start ∙ ground arith,
      tt,
      λ i h.
          bucket-add rc t i v h
          ∙ with_event t i (bucket rc (i + elapsed rc t)) [] h (empty (i + elapsed rc t)),
    )
add-Holds rc (s ∷ xs) t v (lit, began, early, holds) =
    let (on, start) = cur_start-add rc t in
    let later : s ≤ begins s t = ground arith in
    let same : elapsed rc t ≡ (t - s) / 2000000000 = ground (arith, lit, began) in
    (
      on,
      start ∙ ground (arith, lit, began),
      (later, NoneLater-mono s (begins s t) xs later early),
      λ i h.
          bucket-add rc t i v h
          ∙ with_event (begins s t) i (bucket rc (i + elapsed rc t)) (s ∷ xs) h
              (ap (λ k. bucket rc (i + k)) same ∙ older rc s xs t i (lit, began, early, holds) h),
    )

add_all-Holds : (ts : List ℕ) → IsRing (add_all ts) × Holds (add_all ts) (beginnings ts)
unfolding add_all beginnings
add_all-Holds [] = (record { sized = refl; current = omega arith }, (refl, λ i. ground arith))
add_all-Holds (t ∷ ts) =
    let (ring, holds) = add_all-Holds ts in
    (add-IsRing (add_all ts) t ring, add-Holds (add_all ts) (beginnings ts) t ring holds)

-- After any events, the series has in its last place the events of the newest bucket, and in the
-- place `k` before it those of the bucket that begins `k` times 2 seconds earlier, each number
-- modulo 2^64. The bucket of the first event begins at it. The bucket of a later event begins a
-- whole number of times 2 seconds after the beginning of the bucket of the event before: the
-- greatest number that does not pass the event, and 0 for an event that lies earlier; but at the
-- event itself, if this is a minute or more after that beginning.
pub series-add_all :
    (ts : List ℕ) (i : ℕ)
    → i < 30
    → get_elem? (series (add_all ts)) i ≡ some (events_ago (29 - i) (beginnings ts) % 2 ^ 64)
series-add_all ts i h =
    let (ring, holds) = add_all-Holds ts in
    series-get (add_all ts) i h ∙ ap some (held (beginnings ts) holds)
  where
    held :
        (xs : List ℕ)
        → Holds (add_all ts) xs
        → bucket (add_all ts) i ≡ events_ago (29 - i) xs % 2 ^ 64
    held [] (off, empty) = empty i
    held (s ∷ xs) (on, start, early, holds) = holds i h
