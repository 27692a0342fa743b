-- ===== src/Topology/Stats.antt =====
-- backend/internal/topology/stats.go: the running counters. A counter is the bit pattern of the
-- source's int64. The smoothed rate is a float64: its type and operations are a parameter.
pub mod Counts
use bgpulse.Base.{ℕ, ◌+◌, ◌%◌, ◌^◌, inc64}
use bgpulse.Bgp.Types.{UpdateKind, announce, withdraw, VfStatus, RpkiStatus, ClassifiedEvent}

-- What stats.go uses of float64: the two weights, the conversion of a counter, `*` and `+`.
pub record Floats : Type 1 where
  pub Float : Type 0
  pub zero_rate : Float
  pub alpha : Float
  pub one_minus_alpha : Float
  pub from_int : ℕ → Float
  pub times : Float → Float → Float
  pub plus : Float → Float → Float

module _ (fl : Floats) where
  open fl use {Float, zero_rate, alpha, one_minus_alpha, from_int, times, plus}

  pub record Stats : Type 0 where
    pub total_events : ℕ
    pub announces : ℕ
    pub withdraws : ℕ
    pub leaks : ℕ
    pub hijacks : ℕ
    pub rpki_valid : ℕ
    pub rpki_invalid : ℕ
    pub rpki_not_found : ℕ
    pub events_per_sec : Float
    pub tick_events : ℕ

  abbrev pub new_stats : Stats
  new_stats = record {
    total_events = 0;
    announces = 0;
    withdraws = 0;
    leaks = 0;
    hijacks = 0;
    rpki_valid = 0;
    rpki_invalid = 0;
    rpki_not_found = 0;
    events_per_sec = zero_rate;
    tick_events = 0;
  }

  unfoldable pub count_kind : Stats → UpdateKind → Stats
  count_kind s announce = record s { announces = inc64 s.announces }
  count_kind s withdraw = record s { withdraws = inc64 s.withdraws }

  unfoldable pub count_status : Stats → VfStatus → Stats
  count_status s VfStatus.leak = record s { leaks = inc64 s.leaks }
  count_status s VfStatus.hijack = record s { hijacks = inc64 s.hijacks }
  count_status s VfStatus.valid = s
  count_status s VfStatus.unknown = s

  -- The third `switch` of `record`, which runs for announcements only.
  unfoldable pub count_rpki : Stats → UpdateKind → RpkiStatus → Stats
  count_rpki s withdraw status = s
  count_rpki s announce RpkiStatus.valid = record s { rpki_valid = inc64 s.rpki_valid }
  count_rpki s announce RpkiStatus.invalid = record s { rpki_invalid = inc64 s.rpki_invalid }
  count_rpki s announce RpkiStatus.not_found = record s { rpki_not_found = inc64 s.rpki_not_found }

  unfoldable pub record_event : Stats → ClassifiedEvent → Stats
  unfolding count_kind count_status count_rpki
  record_event s ev =
      let s' : Stats = record s {
        total_events = inc64 s.total_events;
        tick_events = inc64 s.tick_events;
      } in
      count_rpki (count_status (count_kind s' ev.event.kind) ev.vf_status) ev.event.kind
        ev.rpki_status

  unfoldable pub tick : Stats → Stats
  tick s = record s {
    events_per_sec =
        plus (times alpha (from_int s.tick_events)) (times one_minus_alpha s.events_per_sec);
    tick_events = 0;
  }
