-- ===== src/Server/Demo.antt =====
-- The demo from its configuration to the end of its events.

use bgpulse.Base.{
  ℕ, ◌≡◌, refl, arith, Bool, Option, some, List, length, All, All-imp, if◌then◌else◌, ◌==◌,
}
use bgpulse.Bgp.Types.{UpdateEvent, ClassifiedEvent}
use bgpulse.Bgp.Net.{Prefix}
use bgpulse.Topology.Stats.{Floats}
use bgpulse.Pipeline.{here, start}
use bgpulse.Pipeline.Progress.{Completes, start-Completes}
use bgpulse.Synth.{IsRng, SynthTopology}
use bgpulse.Synth.Built.{IsVaried}
use bgpulse.Synth.World.{IsWorld, build_default_total}
use bgpulse.Synth.Generator.{GenConfig, new_generator}
use bgpulse.Synth.Next.{IsGenerated}
use bgpulse.Synth.Events.{events_total, IsGenerated-returns}
use bgpulse.Sources.{Inputs, Sources, synthetic, ok, period, default_seed, health_of, demo_sources}
use bgpulse.Server.{source_events, setup_of, new_server, ring_size}

module _ {S N F : Type 0} (inputs : Inputs S N F) where
  open inputs use {rng, seeded, fuel, cfg}

  abbrev demo_seed : ℕ
  demo_seed = if cfg.seed == 0 then default_seed else cfg.seed

  abbrev periods : GenConfig
  periods = record {
    leak_every = period cfg.leak_every;
    hijack_every = period cfg.hijack_every;
    withdraw_prob = 8;
  }

  -- The sources of the demo on a topology.
  abbrev pub demo_of : SynthTopology → Sources S
  demo_of t = record {
    source = synthetic t periods (new_generator (seeded.events demo_seed));
    rel = t.rel;
    validator = t.vrp;
    rtr = Option.none;
    health = health_of inputs "synthetic" "synthetic" "synthetic";
  }

  demo_sources_total :
      IsRng rng
      → IsVaried rng fuel
      → (t : SynthTopology) × IsWorld t × (demo_sources inputs ≡ ok (demo_of t))
  unfolding demo_sources
  demo_sources_total w v =
      let (t, built, world) = build_default_total rng fuel (seeded.topology demo_seed) w v in
      (t, world, ground arith)

  -- What a run of `n` events is.
  pub record Runs (fl : Floats) (text_before : Prefix → Prefix → Bool)
      (zero_event : ClassifiedEvent) (n : ℕ) : Type 1 where
    pub topology : SynthTopology
    pub built : demo_sources inputs ≡ ok (demo_of topology)
    pub evs : List UpdateEvent
    pub sent : source_events rng n (demo_of topology).source ≡ some evs
    pub count : length evs ≡ n
    pub generated : All (IsGenerated rng topology) evs
    pub completes :
        Completes fl
          (setup_of fl text_before (demo_of topology))
          (new_server fl text_before cfg zero_event evs)
          (new_server fl text_before cfg zero_event evs)

  -- When `IntN` stays in its range and enough draws hold two tier-1 ASes, demoSources returns, for
  -- every configuration, and its generator sends, for every `n`, `n` events, each a leak by AS
  -- 2001, a hijack, an honest announcement or a withdrawal to the classifier of the sources. The
  -- system that New makes of these sources has steps from its start to the end of these events, at
  -- which the aggregator has the graph, the ring and the counters of all of them, classified, once
  -- and in order.
  pub demo_Runs :
      (fl : Floats) (text_before : Prefix → Prefix → Bool) (zero_event : ClassifiedEvent) (n : ℕ)
      → IsRng rng
      → IsVaried rng fuel
      → Runs fl text_before zero_event n
  unfolding source_events setup_of new_server start
  demo_Runs fl text_before zero_event n w v =
      let (t, world, built) = demo_sources_total w v in
      let (evs, sent, count, good) =
        events_total rng t periods world n (new_generator (seeded.events demo_seed)) in
      let u = setup_of fl text_before (demo_of t) in
      record {
        topology = t;
        built = built;
        evs = evs;
        sent = sent;
        count = count;
        generated = good;
        completes =
            start-Completes fl u zero_event (ring_size cfg.ring_capacity) evs
              (new_server fl text_before cfg zero_event evs) (omega arith) (here _) refl
              (All-imp (IsGenerated rng t)
                (λ ev. (c : ClassifiedEvent) × (u.classify_event ev ≡ some c)) evs
                (IsGenerated-returns rng t) good);
      }
