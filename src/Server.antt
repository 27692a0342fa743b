-- ===== src/Server.antt =====
-- New of backend/internal/server/server.go: the system that it makes of the sources, as Pipeline has
-- it. With the client of a cache the store of the validator changes later.
pub mod Demo
mod Tests
use bgpulse.Base.{ℕ, ◌≡◌, Bool, true, false, Option, none, some, List}
use bgpulse.Base.Text.{ℤ, pos, negsuc}
use bgpulse.Bgp.Types.{UpdateEvent, ClassifiedEvent}
use bgpulse.Bgp.Net.{Prefix}
use bgpulse.Relationships.{rel_lookup, name}
use bgpulse.Rpki.{validate}
use bgpulse.Classify.{classify}
use bgpulse.Topology.Stats.{Floats}
use bgpulse.Pipeline.{Setup, System, start}
use bgpulse.Mrt.{replay_passes}
use bgpulse.Synth.{Rng}
use bgpulse.Synth.Events.{events}
use bgpulse.Config.{Config, classified_buf_size, broadcast_buf_size}
use bgpulse.Sources.{Source, synthetic, replay, Sources}

-- What a source sends in `n` rounds: events of the generator, or passes of a replay.
unfoldable pub source_events : {S : Type 0} → Rng S → ℕ → Source S → Option (List UpdateEvent)
unfolding events
source_events rng n (synthetic t cfg g) = events rng t cfg n g
source_events rng n (replay evs true) = some (replay_passes n 0 evs)
source_events rng n (replay evs false) = some (replay_passes 1 0 evs)

-- A capacity that is not positive is one event, as for 0.
abbrev pub ring_size : ℤ → ℕ
ring_size (pos n) = n
ring_size (negsuc n) = 0

module _ (fl : Floats) (text_before : Prefix → Prefix → Bool) where
  -- Neither source has an error at its end.
  unfoldable pub setup_of : {S : Type 0} → Sources S → Setup fl
  setup_of src = record {
    classify_event = classify (rel_lookup src.rel) (validate src.validator);
    source_err = false;
    names = name src.rel;
    text_before = text_before;
    classified_buf = classified_buf_size;
    broadcast_buf = some broadcast_buf_size;
  }

  unfoldable pub new_server :
      {F : Type 0} → Config F → ClassifiedEvent → List UpdateEvent → System fl
  new_server cfg zero_event evs = start fl zero_event (ring_size cfg.ring_capacity) evs
