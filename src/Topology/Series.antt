-- ===== src/Topology/Series.antt =====
-- backend/internal/topology/series.go: the time-bucketed counters of one origin. Times are in
-- nanoseconds since the source's epoch. A subtraction that is negative in the source ends in
-- `adv = 0`, as it does here.
pub mod Shift
pub mod Counted
use bgpulse.Base.{
  ℕ, zero, suc, ◌+◌, ◌-◌, ◌*◌, ◌/◌, ◌%◌, Bool, true, false, List, [], ◌∷◌, set, get_or, replicate,
  leb, if◌then◌else◌, inc64,
}

abbrev pub spark_buckets : ℕ
spark_buckets = 30

abbrev pub bucket_width : ℕ
bucket_width = 2000000000

pub record RingCounters : Type 0 where
  pub buckets : List ℕ
  pub cur_idx : ℕ
  pub cur_start : ℕ
  pub started : Bool

abbrev pub new_ring_counters : RingCounters
new_ring_counters = record {
  buckets = replicate spark_buckets 0;
  cur_idx = 0;
  cur_start = 0;
  started = false;
}

-- `buckets[curIdx]++`
unfoldable pub bump : RingCounters → RingCounters
bump rc = record rc { buckets = set rc.buckets rc.cur_idx (inc64 (get_or rc.buckets rc.cur_idx 0)) }

-- One round of the loop that moves the window.
unfoldable pub advance : RingCounters → RingCounters
advance rc =
    let idx = (rc.cur_idx + 1) % spark_buckets in
    record rc {
      cur_idx = idx;
      buckets = set rc.buckets idx 0;
      cur_start = rc.cur_start + bucket_width;
    }

unfoldable pub advance_by : ℕ → RingCounters → RingCounters
advance_by zero rc = rc
advance_by (suc adv) rc = advance_by adv (advance rc)

-- The first two lines of `add`.
abbrev pub begun : RingCounters → ℕ → RingCounters
begun rc t = if rc.started then rc else record rc { cur_start = t; started = true }

-- `adv` for a time.
abbrev pub elapsed : RingCounters → ℕ → ℕ
elapsed rc t = (t - (begun rc t).cur_start) / bucket_width

unfoldable pub add : RingCounters → ℕ → RingCounters
unfolding bump advance_by
add rc t =
    if leb spark_buckets (elapsed rc t)
    then bump
        (record { buckets = replicate spark_buckets 0; cur_idx = 0; cur_start = t; started = true })
    else bump (advance_by (elapsed rc t) (begun rc t))

-- The loop of `series` from bucket `i` with `k` rounds left.
unfoldable pub series_from : RingCounters → ℕ → ℕ → List ℕ
series_from rc i zero = []
series_from rc i (suc k) =
    get_or rc.buckets ((rc.cur_idx + 1 + i) % spark_buckets) 0 ∷ series_from rc (i + 1) k

unfoldable pub series : RingCounters → List ℕ
unfolding series_from
series rc = series_from rc 0 spark_buckets
