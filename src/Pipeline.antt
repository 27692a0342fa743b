-- ===== src/Pipeline.antt =====
-- backend/internal/pipeline/pipeline.go, with the goroutines that it feeds: Run of
-- topology/aggregator.go and forwardBroadcasts of server/server.go. A select that may choose is a
-- step for each choice, so a sequence of steps is one interleaving.
pub mod InOrder
pub mod Progress
mod Tests
use Prim.Native.String.{String}
use bgpulse.Base.{
  ℕ, zero, suc, ◌+◌, ◌%◌, ◌^◌, ◌<◌, ◌≡◌, Bool, true, false, Option, none, some, List, [], ◌∷◌, ◌++◌,
  length, inc64,
}
use bgpulse.Bgp.Types.{Asn, UpdateEvent, ClassifiedEvent}
use bgpulse.Bgp.Net.{Prefix}
use bgpulse.Topology.Stats.{Floats, tick}
use bgpulse.Topology.Apply.{State, apply}
use bgpulse.Topology.Views.{StatsView}
use bgpulse.Topology.Aggregator.{
  SnapReq, snap_stats, Reply, handle, stats_of, new_aggregator, broadcast_copy,
}

-- What Run of the pipeline returns: nil, the source's error, or the error of the context.
pub data RunResult : Type 0 where
  exhausted source_failed cancelled : RunResult

-- Where Run of the pipeline is: before its first select, before the second with a classified event,
-- or back from its loop, with `out` closed.
pub data Stage : Type 0 where
  reading : Stage
  sending : ClassifiedEvent → Stage
  ended : RunResult → Stage

module _ (fl : Floats) where
  -- The messages that forwardBroadcasts makes frames of.
  pub data Message : Type 0 where
    event_message : ℕ → ClassifiedEvent → Message
    stats_message : ℕ → StatsView fl → Message

  pub record System : Type 0 where
    pub ahead : List UpdateEvent  -- what the source has yet to send, if the context goes on
    pub stage : Stage
    pub queue : List ClassifiedEvent  -- in the channel to the aggregator
    pub agg : State fl
    pub running : Bool  -- Run of the aggregator has not returned
    pub copies : List ClassifiedEvent  -- in the broadcast channel
    pub seq : ℕ
    pub messages : List Message  -- made for the hub, the oldest first
    pub forwarding : Bool  -- forwardBroadcasts has not returned
    pub done : Bool  -- the context is cancelled

  -- What the system is built of: the classifier, where `none` is a panic, whether the source fails
  -- at its end, the names, the order of prefix texts, the two capacities.
  pub record Setup : Type 0 where
    pub classify_event : UpdateEvent → Option ClassifiedEvent
    pub source_err : Bool
    pub names : Asn → String
    pub text_before : Prefix → Prefix → Bool
    pub classified_buf : ℕ
    pub broadcast_buf : Option ℕ

  unfoldable pub start : ClassifiedEvent → ℕ → List UpdateEvent → System
  unfolding new_aggregator
  start zero_event ring_cap evs = record {
    ahead = evs;
    stage = reading;
    queue = [];
    agg = new_aggregator fl zero_event ring_cap;
    running = true;
    copies = [];
    seq = 0;
    messages = [];
    forwarding = true;
    done = false;
  }

  -- The result at the end of the source.
  abbrev pub result_of : Bool → RunResult
  result_of true = source_failed
  result_of false = exhausted

  -- `a.apply(ev)` and `a.broadcast(ev)`
  abbrev pub take_event : Setup → System → ClassifiedEvent → List ClassifiedEvent → System
  take_event u s c rest = record s {
    queue = rest;
    agg = apply fl u.names s.agg c;
    copies = broadcast_copy u.broadcast_buf s.copies c;
  }

  abbrev pub sent_message : System → Message → System
  sent_message s m = record s { seq = inc64 s.seq; messages = s.messages ++ (m ∷ []) }

  -- The statistics that forwardBroadcasts is given: the reply of an aggregator that runs.
  abbrev pub stats_now : Setup → System → ℕ → StatsView fl
  stats_now u s now =
      stats_of fl
        (elim s.running [ true ↦ handle fl u.text_before now s.agg snap_stats | false ↦ none ])

  -- One step of one goroutine, or of the context. A source that closes its channel before its end,
  -- once the context has ended, has no step: Run may then return as at the end of the source.
  pub data Step (u : Setup) : System → System → Type 0 where
    read :
        (s : System) (ev : UpdateEvent) (rest : List UpdateEvent) (c : ClassifiedEvent)
        → s.stage ≡ reading
        → s.ahead ≡ ev ∷ rest
        → u.classify_event ev ≡ some c
        → Step u s (record s { ahead = rest; stage = sending c })
    send :
        (s : System) (c : ClassifiedEvent)
        → s.stage ≡ sending c
        → length s.queue < u.classified_buf
        → Step u s (record s { stage = reading; queue = s.queue ++ (c ∷ []) })
    drain :
        (s : System)
        → s.stage ≡ reading
        → s.ahead ≡ []
        → Step u s (record s { stage = ended (result_of u.source_err) })
    stop_reading :
        (s : System)
        → s.done ≡ true
        → s.stage ≡ reading
        → Step u s (record s { stage = ended cancelled })
    stop_sending :
        (s : System) (c : ClassifiedEvent)
        → s.done ≡ true
        → s.stage ≡ sending c
        → Step u s (record s { stage = ended cancelled })
    take :
        (s : System) (c : ClassifiedEvent) (rest : List ClassifiedEvent)
        → s.running ≡ true
        → s.queue ≡ c ∷ rest
        → Step u s (take_event u s c rest)
    answer :
        (s : System) (req : SnapReq) (now : ℕ) (r : Reply fl)
        → s.running ≡ true
        → handle fl u.text_before now s.agg req ≡ some r
        → Step u s s
    tick_rate :
        (s : System)
        → s.running ≡ true
        → Step u s (record s { agg = record s.agg { stats = tick fl s.agg.stats } })
    close_agg :
        (s : System) (r : RunResult)
        → s.running ≡ true
        → s.stage ≡ ended r
        → s.queue ≡ []
        → Step u s (record s { running = false })
    stop_agg :
        (s : System) → s.running ≡ true → s.done ≡ true → Step u s (record s { running = false })
    forward :
        (s : System) (c : ClassifiedEvent) (rest : List ClassifiedEvent)
        → s.forwarding ≡ true
        → s.copies ≡ c ∷ rest
        → Step u s (sent_message (record s { copies = rest }) (event_message (inc64 s.seq) c))
    forward_stats :
        (s : System) (now : ℕ)
        → s.forwarding ≡ true
        → Step u s (sent_message s (stats_message (inc64 s.seq) (stats_now u s now)))
    stop_forwarding : (s : System) → s.done ≡ true → Step u s (record s { forwarding = false })
    cancel : (s : System) → Step u s (record s { done = true })

  -- Any number of steps.
  pub data Steps (u : Setup) : System → System → Type 0 where
    here : (s : System) → Steps u s s
    and_then : {s t v : System} → Steps u s t → Step u t v → Steps u s v
