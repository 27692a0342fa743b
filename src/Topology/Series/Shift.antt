-- ===== src/Topology/Series/Shift.antt =====
-- What `add` of topology/series.go does to the series, bucket by bucket.
use bgpulse.Base.{
  ℕ, zero, suc, ◌+◌, ◌%◌, ◌≡◌, ◌<◌, ◌⊎◌, refl, ap, ◌∙◌, arith, true, false, List, [], ◌∷◌, set,
  get_or, get_elem?, replicate, leb, ltb, ◌==◌, some, if◌then◌else◌, inc64, length, length-set,
  Bool-cases, inl, inr,
}
use bgpulse.Topology.Series.{
  RingCounters, bump, advance, advance_by, begun, elapsed, add, series_from, series, spark_buckets,
}

-- 30 buckets, and the current one among them.
pub record IsRing (rc : RingCounters) : Type 0 where
  pub sized : length rc.buckets ≡ spark_buckets
  pub current : rc.cur_idx < spark_buckets

-- The i-th bucket of the series, the oldest first; 0 past the end.
abbrev pub bucket : RingCounters → ℕ → ℕ
bucket rc i =
    if ltb i spark_buckets then get_or rc.buckets ((rc.cur_idx + 1 + i) % spark_buckets) 0 else 0

get_or-set :
    (xs : List ℕ) (i j v : ℕ)
    → i < length xs
    → get_or (set xs i v) j 0 ≡ (if i == j then v else get_or xs j 0)
get_or-set [] i j v h = elim h [ ]
get_or-set (x ∷ xs) zero zero v h = refl
get_or-set (x ∷ xs) zero (suc j) v h = ground arith
get_or-set (x ∷ xs) (suc i) zero v h = ground arith
get_or-set (x ∷ xs) (suc i) (suc j) v h = ground (arith, get_or-set xs i j v (omega arith))

advance-IsRing : (rc : RingCounters) → IsRing rc → IsRing (advance rc)
unfolding advance
advance-IsRing rc v = record {
  sized = length-set rc.buckets ((rc.cur_idx + 1) % spark_buckets) 0 ∙ v.sized;
  current = omega arith;
}

bucket-advance :
    (rc : RingCounters) (i : ℕ)
    → IsRing rc
    → i < spark_buckets
    → bucket (advance rc) i ≡ bucket rc (i + 1)
unfolding advance
bucket-advance rc i v h =
    let idx = (rc.cur_idx + 1) % spark_buckets in
    let e : (idx + 1 + i) % spark_buckets ≡ (rc.cur_idx + 1 + (i + 1)) % spark_buckets =
      omega arith in
    ground (
      arith,
      get_or-set rc.buckets idx ((idx + 1 + i) % spark_buckets) 0 (omega (arith, v.sized)),
      ap (λ k. get_or rc.buckets k 0) e,
      v.current,
    )

advance_by-IsRing : (adv : ℕ) (rc : RingCounters) → IsRing rc → IsRing (advance_by adv rc)
unfolding advance_by
advance_by-IsRing zero rc v = v
advance_by-IsRing (suc adv) rc v = advance_by-IsRing adv (advance rc) (advance-IsRing rc v)

bucket-advance_by :
    (adv : ℕ) (rc : RingCounters) (i : ℕ)
    → IsRing rc
    → i < spark_buckets
    → bucket (advance_by adv rc) i ≡ bucket rc (i + adv)
unfolding advance_by
bucket-advance_by zero rc i v h = ap (bucket rc) (let q : i ≡ i + zero = omega arith in q)
bucket-advance_by (suc adv) rc i v h =
    bucket-advance_by adv (advance rc) i (advance-IsRing rc v) h
    ∙ further (Bool-cases (ltb (i + adv) 30))
  where
    further :
        (ltb (i + adv) 30 ≡ true) ⊎ (ltb (i + adv) 30 ≡ false)
        → bucket (advance rc) (i + adv) ≡ bucket rc (i + suc adv)
    further (inl lt) =
        bucket-advance rc (i + adv) v (ground arith)
        ∙ ap (bucket rc) (let q : (i + adv) + 1 ≡ i + suc adv = omega arith in q)
    further (inr ge) = ground arith

bucket-bump :
    (rc : RingCounters) (i : ℕ)
    → IsRing rc
    → i < spark_buckets
    → bucket (bump rc) i ≡ (if i == 29 then inc64 (bucket rc i) else bucket rc i)
unfolding bump
bucket-bump rc i v h = ground (
  arith,
  get_or-set rc.buckets rc.cur_idx ((rc.cur_idx + 1 + i) % spark_buckets)
      (inc64 (get_or rc.buckets rc.cur_idx 0)) (omega (arith, v.sized, v.current)),
  v.current,
)

begun-IsRing : (rc : RingCounters) (t : ℕ) → IsRing rc → IsRing (begun rc t)
begun-IsRing rc t v = record {
  sized = ground (arith, v.sized);
  current = ground (arith, v.current);
}

bucket-begun : (rc : RingCounters) (t i : ℕ) → bucket (begun rc t) i ≡ bucket rc i
bucket-begun rc t i = ground arith

bump-IsRing : (rc : RingCounters) → IsRing rc → IsRing (bump rc)
unfolding bump
bump-IsRing rc v = record {
  sized = length-set rc.buckets rc.cur_idx _ ∙ v.sized;
  current = v.current;
}

abbrev cleared : ℕ → RingCounters
cleared t = record {
  buckets = replicate spark_buckets 0;
  cur_idx = 0;
  cur_start = t;
  started = true;
}

cleared-IsRing : (t : ℕ) → IsRing (cleared t)
cleared-IsRing t = record { sized = refl; current = omega arith }

get_or-replicate : (n i : ℕ) → get_or {A = ℕ} (replicate n 0) i 0 ≡ 0
get_or-replicate zero i = refl
get_or-replicate (suc n) zero = refl
get_or-replicate (suc n) (suc i) = get_or-replicate n i

bucket-cleared : (t i : ℕ) → bucket (cleared t) i ≡ 0
bucket-cleared t i = ground (arith, get_or-replicate 30 ((0 + 1 + i) % spark_buckets))

-- Every event keeps 30 buckets with the current one among them.
pub add-IsRing : (rc : RingCounters) (t : ℕ) → IsRing rc → IsRing (add rc t)
unfolding add
add-IsRing rc t v = elim (Bool-cases (leb spark_buckets (elapsed rc t))) [
  | inl e ↦ rw e (bump-IsRing (cleared t) (cleared-IsRing t))
  | inr e ↦ rw e (
      bump-IsRing (advance_by (elapsed rc t) (begun rc t))
        (advance_by-IsRing (elapsed rc t) (begun rc t) (begun-IsRing rc t v)))
]

pub bucket-add :
    (rc : RingCounters) (t i : ℕ)
    → IsRing rc
    → i < spark_buckets
    → bucket (add rc t) i
      ≡ (if i == 29 then inc64 (bucket rc (i + elapsed rc t)) else bucket rc (i + elapsed rc t))
unfolding add
bucket-add rc t i v h = elim (Bool-cases (leb spark_buckets (elapsed rc t))) [
  | inl e ↦
      let past : bucket rc (i + elapsed rc t) ≡ 0 = ground arith in
      rw (e, past) (bucket-bump (cleared t) i (cleared-IsRing t) h ∙ rw (bucket-cleared t i))
  | inr e ↦
      let moved = advance_by (elapsed rc t) (begun rc t) in
      let same =
        bucket-advance_by (elapsed rc t) (begun rc t) i (begun-IsRing rc t v) h
        ∙ bucket-begun rc t (i + elapsed rc t) in
      rw e (
        bucket-bump moved i (advance_by-IsRing (elapsed rc t) (begun rc t) (begun-IsRing rc t v)) h
        ∙ rw same)
]

series_from-get :
    (rc : RingCounters) (i j k : ℕ)
    → j < k
    → get_elem? (series_from rc i k) j
      ≡ some (get_or rc.buckets ((rc.cur_idx + 1 + (i + j)) % spark_buckets) 0)
unfolding series_from
series_from-get rc i j zero h = elim h [ ]
series_from-get rc i zero (suc k) h =
    ap (λ n. some (get_or rc.buckets ((rc.cur_idx + 1 + n) % spark_buckets) 0))
      (let q : i ≡ i + zero = omega arith in q)
series_from-get rc i (suc j) (suc k) h =
    series_from-get rc (i + 1) j k (omega arith)
    ∙ ap (λ n. some (get_or rc.buckets ((rc.cur_idx + 1 + n) % spark_buckets) 0))
        (let q : (i + 1) + j ≡ i + suc j = omega arith in q)

pub series-get :
    (rc : RingCounters) (i : ℕ) → i < spark_buckets → get_elem? (series rc) i ≡ some (bucket rc i)
unfolding series
series-get rc i h = series_from-get rc 0 i 30 h ∙ ground arith
