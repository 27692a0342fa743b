-- ===== src/Pipeline/InOrder.antt =====
-- The pipeline and the aggregator as one machine: whatever the interleaving, the aggregator's state
-- is that of a prefix of the source's events, classified, in the order of the source.
use mathlib.Core.Path.{subst}
use mathlib.Core.List.{append_assoc, append-nil}
use Prim.Native.String.{String}
use bgpulse.Base.{
  ℕ, ◌≡◌, refl, sym, ap, ◌∙◌, arith, ◌⊎◌, ◌≢◌, inl, inr, Bool, true, Option, some, List, [], ◌∷◌,
  ◌++◌, length,
}
use bgpulse.Bgp.Types.{Asn, UpdateEvent, ClassifiedEvent}
use bgpulse.Topology.Graph.{TopologyGraph}
use bgpulse.Topology.Ring
use bgpulse.Topology.Ring.{EventRing, new_event_ring}
use bgpulse.Topology.Ring.Recent.{push_all}
use bgpulse.Topology.Stats.{Floats, Stats, record_event, tick}
use bgpulse.Topology.Stats.Counts.{record_all}
use bgpulse.Topology.Apply.{State, apply, apply_graph}
use bgpulse.Topology.Apply.Rib.{apply_all}
use bgpulse.Pipeline.{
  Stage, reading, sending, ended, cancelled, System, Setup, start, Step, read, send, drain,
  stop_reading, stop_sending, take, answer, tick_rate, close_agg, stop_agg, forward, forward_stats,
  stop_forwarding, cancel, Steps, here, and_then,
}

-- The events of the list, each classified.
abbrev pub Classified :
    (UpdateEvent → Option ClassifiedEvent) → List UpdateEvent → List ClassifiedEvent → Type 0
Classified f [] [] = Unit
Classified f (e ∷ es) (c ∷ cs) = (f e ≡ some c) × Classified f es cs
Classified f [] (c ∷ cs) = ⊥
Classified f (e ∷ es) [] = ⊥

pub Classified-snoc :
    (f : UpdateEvent → Option ClassifiedEvent) (es : List UpdateEvent) (cs : List ClassifiedEvent)
    (e : UpdateEvent) (c : ClassifiedEvent)
    → Classified f es cs
    → f e ≡ some c
    → Classified f (es ++ (e ∷ [])) (cs ++ (c ∷ []))
Classified-snoc f [] [] e c h k = (k, tt)
Classified-snoc f (x ∷ es) (y ∷ cs) e c h k = (h.0, Classified-snoc f es cs e c h.1 k)
Classified-snoc f [] (y ∷ cs) e c h k = absurd h
Classified-snoc f (x ∷ es) [] e c h k = absurd h

-- The event that the pipeline holds between its two selects.
abbrev pub in_flight : Stage → List ClassifiedEvent
in_flight reading = []
in_flight (sending c) = c ∷ []
in_flight (ended r) = []

apply_all-snoc :
    (names : Asn → String) (g : TopologyGraph) (cs : List ClassifiedEvent) (c : ClassifiedEvent)
    → apply_all names g (cs ++ (c ∷ [])) ≡ apply_graph names (apply_all names g cs) c
unfolding apply_all
apply_all-snoc names g [] c = refl
apply_all-snoc names g (x ∷ cs) c = apply_all-snoc names (apply_graph names g x) cs c

push_all-snoc :
    (r : EventRing ClassifiedEvent) (cs : List ClassifiedEvent) (c : ClassifiedEvent)
    → push_all r (cs ++ (c ∷ [])) ≡ Ring.push (push_all r cs) c
unfolding push_all
push_all-snoc r [] c = refl
push_all-snoc r (x ∷ cs) c = push_all-snoc (Ring.push r x) cs c

module _ (fl : Floats) where
  -- What is counted, without the rate.
  abbrev pub counters : Stats fl → ℕ × ℕ × ℕ × ℕ × ℕ × ℕ × ℕ × ℕ
  counters s = (
    s.total_events, s.announces, s.withdraws, s.leaks, s.hijacks, s.rpki_valid, s.rpki_invalid,
    s.rpki_not_found,
  )

  record_all-snoc :
      (s : Stats fl) (cs : List ClassifiedEvent) (c : ClassifiedEvent)
      → record_all fl s (cs ++ (c ∷ [])) ≡ record_event fl (record_all fl s cs) c
  unfolding record_all
  record_all-snoc s [] c = refl
  record_all-snoc s (x ∷ cs) c = record_all-snoc (record_event fl s x) cs c

  counters-record :
      (s s' : Stats fl) (c : ClassifiedEvent)
      → counters s ≡ counters s'
      → counters (record_event fl s c) ≡ counters (record_event fl s' c)
  unfolding record_event
  counters-record s s' c h = ground arith

  -- The state is that after these events, but for the rate.
  pub record Folded (names : Asn → String) (s0 s : State fl) (cs : List ClassifiedEvent)
      : Type 0 where
    pub graph : s.graph ≡ apply_all names s0.graph cs
    pub ring : s.ring ≡ push_all s0.ring cs
    pub stats : counters s.stats ≡ counters (record_all fl s0.stats cs)

  Folded-same :
      (names : Asn → String) (s0 s : State fl) (cs : List ClassifiedEvent)
      → Folded names s0 s cs
      → Folded names s0 (record s { stats = tick fl s.stats }) cs
  unfolding tick
  Folded-same names s0 s cs w = record { graph = w.graph; ring = w.ring; stats = w.stats }

  Folded-snoc :
      (names : Asn → String) (s0 s : State fl) (cs : List ClassifiedEvent) (c : ClassifiedEvent)
      → Folded names s0 s cs
      → Folded names s0 (apply fl names s c) (cs ++ (c ∷ []))
  unfolding apply
  Folded-snoc names s0 s cs c w = record {
    graph = ap (λ g. apply_graph names g c) w.graph ∙ sym (apply_all-snoc names s0.graph cs c);
    ring = ap (λ r. Ring.push r c) w.ring ∙ sym (push_all-snoc s0.ring cs c);
    stats =
        counters-record s.stats (record_all fl s0.stats cs) c w.stats
        ∙ ap counters (sym (record_all-snoc s0.stats cs c));
  }

  module _ (u : Setup fl) (s0 : System fl) where
    -- The events applied, with those under way, are the first ones of the source, in its order; a
    -- context that ends may lose the one between the two selects.
    pub record Ordered (ahead : List UpdateEvent) (stage : Stage) (queue : List ClassifiedEvent)
        (agg : State fl) (done : Bool) : Type 0 where
      pub sent : List UpdateEvent
      pub applied : List ClassifiedEvent
      pub lost : List ClassifiedEvent
      pub splits : s0.ahead ≡ sent ++ ahead
      pub in_order :
          Classified u.classify_event sent (applied ++ (queue ++ (in_flight stage ++ lost)))
      pub folded : Folded u.names s0.agg agg applied
      pub few : (lost ≡ []) ⊎ ((stage ≡ ended cancelled) × (done ≡ true) × (length lost ≡ 1))

    abbrev pub InOrder : System fl → Type 0
    InOrder s = Ordered s.ahead s.stage s.queue s.agg s.done

    -- Before the context ends nothing is lost.
    pub live :
        (s : System fl) (w : InOrder s) (stage : Stage)
        → s.stage ≡ stage
        → stage ≢ ended cancelled
        → Classified u.classify_event w.sent (w.applied ++ (s.queue ++ (in_flight stage ++ [])))
    live s w stage e n = elim w.few [
      | inl none_lost ↦
          subst
            (λ p.
              Classified u.classify_event w.sent (w.applied ++ (s.queue ++ (in_flight p.0 ++ p.1))))
            (ap2 e none_lost) w.in_order
      | inr (gone, _, _) ↦ absurd (n (sym e ∙ gone))
    ]
      where
        ap2 :
            {st st' : Stage} {l l' : List ClassifiedEvent}
            → st ≡ st'
            → l ≡ l'
            → ◌≡◌ {A = Stage × List ClassifiedEvent} (st, l) (st', l')
        ap2 p q = cc (p, q)

    Step-InOrder : {s t : System fl} → InOrder s → Step fl u s t → InOrder t
    Step-InOrder w (read s ev rest c a b e) = record {
      sent = w.sent ++ (ev ∷ []);
      applied = w.applied;
      lost = [];
      splits = w.splits ∙ (ap (λ l. w.sent ++ l) b ∙ sym (append_assoc w.sent (ev ∷ []) rest));
      in_order =
          subst (Classified u.classify_event (w.sent ++ (ev ∷ [])))
            (append_assoc w.applied s.queue (c ∷ []))
            (Classified-snoc u.classify_event w.sent (w.applied ++ s.queue) ev c
              (subst (λ q. Classified u.classify_event w.sent (w.applied ++ q)) (append-nil s.queue)
                (live s w reading a (λ x. cc x)))
              e);
      folded = w.folded;
      few = inl refl;
    }
    Step-InOrder w (send s c a b) = record {
      sent = w.sent;
      applied = w.applied;
      lost = [];
      splits = w.splits;
      in_order =
          subst (λ l. Classified u.classify_event w.sent (w.applied ++ l))
            (sym (append_assoc s.queue (c ∷ []) [])) (live s w (sending c) a (λ x. cc x));
      folded = w.folded;
      few = inl refl;
    }
    Step-InOrder w (drain s a b) = record {
      sent = w.sent;
      applied = w.applied;
      lost = [];
      splits = w.splits;
      in_order = live s w reading a (λ x. cc x);
      folded = w.folded;
      few = inl refl;
    }
    Step-InOrder w (stop_reading s d a) = record {
      sent = w.sent;
      applied = w.applied;
      lost = [];
      splits = w.splits;
      in_order = live s w reading a (λ x. cc x);
      folded = w.folded;
      few = inl refl;
    }
    Step-InOrder w (stop_sending s c d a) = record {
      sent = w.sent;
      applied = w.applied;
      lost = c ∷ [];
      splits = w.splits;
      in_order = live s w (sending c) a (λ x. cc x);
      folded = w.folded;
      few = inr (refl, d, refl);
    }
    Step-InOrder w (take s c rest a b) = record {
      sent = w.sent;
      applied = w.applied ++ (c ∷ []);
      lost = w.lost;
      splits = w.splits;
      in_order =
          subst (Classified u.classify_event w.sent)
            (sym (append_assoc w.applied (c ∷ []) (rest ++ (in_flight s.stage ++ w.lost))))
            (subst
              (λ q.
                Classified u.classify_event w.sent
                  (w.applied ++ (q ++ (in_flight s.stage ++ w.lost))))
              b w.in_order);
      folded = Folded-snoc u.names s0.agg s.agg w.applied c w.folded;
      few = w.few;
    }
    Step-InOrder w (answer s req now r a b) = w
    Step-InOrder w (tick_rate s a) = record {
      sent = w.sent;
      applied = w.applied;
      lost = w.lost;
      splits = w.splits;
      in_order = w.in_order;
      folded = Folded-same u.names s0.agg s.agg w.applied w.folded;
      few = w.few;
    }
    Step-InOrder w (close_agg s r a b c) = w
    Step-InOrder w (stop_agg s a b) = w
    Step-InOrder w (forward s c rest a b) = w
    Step-InOrder w (forward_stats s now a) = w
    Step-InOrder w (stop_forwarding s a) = w
    Step-InOrder w (cancel s) = record {
      sent = w.sent;
      applied = w.applied;
      lost = w.lost;
      splits = w.splits;
      in_order = w.in_order;
      folded = w.folded;
      few = elim w.few [ inl e ↦ inl e | inr (e, _, l) ↦ inr (e, refl, l) ];
    }

    Steps-from : {s t : System fl} → InOrder s → Steps fl u s t → InOrder t
    Steps-from w (here s) = w
    Steps-from w (and_then p q) = Step-InOrder (Steps-from w p) q

-- After any steps of the pipeline, the aggregator and the broadcaster, in any interleaving, the
-- graph, the ring and the counters are those of a list of classified events, and this list, with
-- the events that wait, is the classification of the first events of the source, in its order; only
-- the end of the context can lose an event, one at most.
pub Steps-InOrder :
    (fl : Floats) (u : Setup fl) (zero_event : ClassifiedEvent) (ring_cap : ℕ)
    (evs : List UpdateEvent) {s : System fl}
    → Steps fl u (start fl zero_event ring_cap evs) s
    → InOrder fl u (start fl zero_event ring_cap evs) s
unfolding start apply_all push_all record_all
Steps-InOrder fl u zero_event ring_cap evs p =
    Steps-from fl u (start fl zero_event ring_cap evs)
      (record {
        sent = [];
        applied = [];
        lost = [];
        splits = refl;
        in_order = tt;
        folded = record { graph = refl; ring = refl; stats = refl };
        few = inl refl;
      })
      p
