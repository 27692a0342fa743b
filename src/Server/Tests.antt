-- ===== src/Server/Tests.antt =====
-- A demo of three events with a generator that goes back and forth.

use bgpulse.Base.{
  ℕ, ◌-◌, ◌*◌, ◌+◌, refl, arith, Bool, true, false, not, none, [], ℕ_discrete, if◌then◌else◌,
}
use bgpulse.Base.Table.{member}
use bgpulse.Base.Text.{pos}
use bgpulse.Bgp.Types.{announce, ClassifiedEvent}
use bgpulse.Bgp.Net.{zero_prefix, invalid}
use bgpulse.Classify.{neutral}
use bgpulse.Topology.Stats.{Floats}
use bgpulse.Synth.{Rng, IsRng, draw}
use bgpulse.Synth.Numbering.{numbered}
use bgpulse.Synth.Built.{drawn, IsVaried}
use bgpulse.Config.{level_info}
use bgpulse.Sources.{Inputs}
use bgpulse.Server.Demo.{Runs, demo_Runs}

abbrev swing : Rng Bool
swing = record { int_n = λ s n. (if s then 0 else n - 1, not s); below = λ s p. (s, not s) }

swing-IsRng : IsRng swing
swing-IsRng = record { in_range = λ s n h. ground arith }

swing-IsVaried : IsVaried swing 2
unfolding drawn draw numbered member ℕ_discrete
swing-IsVaried true = refl
swing-IsVaried false = refl

-- A rate that is a whole number.
abbrev whole : Floats
whole = record {
  Float = ℕ;
  zero_rate = 0;
  alpha = 1;
  one_minus_alpha = 0;
  from_int = λ n. n;
  times = λ x y. x * y;
  plus = λ x y. x + y;
}

abbrev inputs : Inputs Bool ℕ ℕ
inputs = record {
  rng = swing;
  seeded = record { topology = λ n. true; events = λ n. true };
  fuel = 2;
  parse_nlri = λ n. none;
  parse_prefix = λ s. none;
  files = record {
    mrt = λ path. none;
    asrel = λ path. none;
    vrps = λ path. none;
    sample_mrt = (false, []);
    sample_asrel = ([], false);
    sample_vrps = none;
  };
  cfg = record {
    mode = "demo";
    listen_addr = ":8080";
    cors_origin = "";
    static_dir = "";
    mrt_file = "";
    asrel_file = "";
    vrp_file = "";
    rtr_addr = "";
    seed = 0;
    replay_speed = 18;
    leak_every = pos 12;
    hijack_every = pos 19;
    ring_capacity = pos 5000;
    log_format = "text";
    log_level = level_info;
    version = "dev";
  };
}

abbrev blank : ClassifiedEvent
blank = neutral (record {
  id = record { tag = ""; seq = 0 };
  seq = 0;
  timestamp = 0;
  kind = announce;
  prefix = zero_prefix;
  peer_as = 0;
  as_path = [];
  has_as_set = false;
  next_hop = invalid;
  communities = [];
  origin_as = 0;
})

demo_Runs_example : Runs inputs whole (λ p q. false) blank 3
demo_Runs_example = demo_Runs inputs whole (λ p q. false) blank 3 swing-IsRng swing-IsVaried
