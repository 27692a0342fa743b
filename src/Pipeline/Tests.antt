-- ===== src/Pipeline/Tests.antt =====
-- One event through the pipeline.
use bgpulse.Base.{ℕ, refl, false, some, [], ◌∷◌, arith, ◌+◌, ◌*◌}
use bgpulse.Bgp.Types.{announce, UpdateEvent}
use bgpulse.Bgp.Net.{zero_prefix, invalid}
use bgpulse.Classify.{neutral}
use bgpulse.Topology.Stats.{Floats}
use bgpulse.Pipeline.{System, Setup, start, Steps, here, and_then, read, sending}
use bgpulse.Pipeline.InOrder.{InOrder, Steps-InOrder}
use bgpulse.Pipeline.Progress.{Completes, start-Completes}

-- A rate that is a whole number.
abbrev whole : Floats
whole = record {
  Float = ℕ;
  zero_rate = 0;
  alpha = 1;
  one_minus_alpha = 0;
  from_int = λ n. n;
  times = λ x y. x * y;
  plus = λ x y. x + y;
}

abbrev seen : UpdateEvent
seen = record {
  id = record { tag = "synth"; seq = 1 };
  seq = 1;
  timestamp = 5;
  kind = announce;
  prefix = zero_prefix;
  peer_as = 7;
  as_path = 7 ∷ 1 ∷ [];
  has_as_set = false;
  next_hop = invalid;
  communities = [];
  origin_as = 1;
}

abbrev setup : Setup whole
setup = record {
  classify_event = λ ev. some (neutral ev);
  source_err = false;
  names = λ a. "";
  text_before = λ p q. false;
  classified_buf = 1024;
  broadcast_buf = some 256;
}

abbrev system : System whole
system = start whole (neutral seen) 16 (seen ∷ [])

read_one : Steps whole setup system (record system { ahead = []; stage = sending (neutral seen) })
unfolding start
read_one = and_then (here system) (read system seen [] (neutral seen) refl refl refl)

Steps-InOrder_example :
    InOrder whole setup system (record system { ahead = []; stage = sending (neutral seen) })
Steps-InOrder_example = Steps-InOrder whole setup (neutral seen) 16 (seen ∷ []) read_one

start-Completes_example : Completes whole setup system system
unfolding start
start-Completes_example =
    start-Completes whole setup (neutral seen) 16 (seen ∷ []) system (omega arith) (here system)
      refl ((neutral seen, refl), tt)
