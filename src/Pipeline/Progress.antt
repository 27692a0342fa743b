-- ===== src/Pipeline/Progress.antt =====
-- Run of pipeline/pipeline.go and of the aggregator come to an end: from every state before the
-- context ends, the goroutines can take what is left in order and stop.
use mathlib.Core.Path.{subst}
use mathlib.Core.List.{append-nil}
use bgpulse.Base.{
  ℕ, ◌<◌, ◌≡◌, refl, sym, ap, ◌∙◌, arith, ◌≢◌, ◌⊎◌, inl, inr, Bool, true, false, some, List, [],
  ◌∷◌, ◌++◌, length, All, Bool-cases,
}
use bgpulse.Bgp.Types.{UpdateEvent, ClassifiedEvent}
use bgpulse.Topology.Stats.{Floats}
use bgpulse.Pipeline.{
  RunResult, answer, tick_rate, stop_agg, stop_reading, stop_sending, forward, forward_stats,
  stop_forwarding, cancel, Stage, reading, sending, ended, cancelled, result_of, System, Setup,
  start, Step, read, send, drain, take, close_agg, Steps, here, and_then, take_event,
}
use bgpulse.Pipeline.InOrder.{live, Classified, Folded, Steps-InOrder}

module _ (fl : Floats) (u : Setup fl) where
  Steps-trans : {s t v : System fl} → Steps fl u s t → Steps fl u t v → Steps fl u s v
  Steps-trans p (here t) = p
  Steps-trans p (and_then q r) = and_then (Steps-trans p q) r

  -- The aggregator empties its channel.
  record Emptied (s t : System fl) : Type 0 where
    run : Steps fl u s t
    ahead : t.ahead ≡ s.ahead
    stage : t.stage ≡ s.stage
    empty : t.queue ≡ []
    running : t.running ≡ true
    done : t.done ≡ s.done

  empty_queue :
      (q : List ClassifiedEvent) (s : System fl)
      → s.queue ≡ q
      → s.running ≡ true
      → (t : System fl) × Emptied s t
  empty_queue [] s e r =
      (s, record { run = here s; ahead = refl; stage = refl; empty = e; running = r; done = refl })
  empty_queue (c ∷ q) s e r =
      let (t, w) = empty_queue q (take_event fl u s c q) refl r in
      (
        t,
        record {
          run = Steps-trans (and_then (here s) (take s c q r e)) w.run;
          ahead = w.ahead;
          stage = w.stage;
          empty = w.empty;
          running = w.running;
          done = w.done;
        },
      )

  -- The pipeline is before its first select with an empty channel, and the aggregator runs.
  record Idle (t : System fl) (evs : List UpdateEvent) : Type 0 where
    ahead : t.ahead ≡ evs
    stage : t.stage ≡ reading
    empty : t.queue ≡ []
    running : t.running ≡ true
    undone : t.done ≡ false

  -- The event between the two selects goes to the aggregator.
  finish_sending :
      (s : System fl) (c : ClassifiedEvent) (evs : List UpdateEvent)
      → 0 < u.classified_buf
      → s.stage ≡ sending c
      → s.ahead ≡ evs
      → s.running ≡ true
      → s.done ≡ false
      → (t : System fl) × Steps fl u s t × Idle t evs
  finish_sending s c evs cap e a r d =
      let (s1, w1) = empty_queue s.queue s refl r in
      let at : s1.stage ≡ sending c = w1.stage ∙ e in
      let s2 : System fl = record s1 { stage = reading; queue = s1.queue ++ (c ∷ []) } in
      let room : length s1.queue < u.classified_buf = ground (arith, w1.empty, cap) in
      let (s3, w3) = empty_queue s2.queue s2 refl w1.running in
      (
        s3,
        Steps-trans (and_then w1.run (send s1 c at room)) w3.run,
        record {
          ahead = w3.ahead ∙ (w1.ahead ∙ a);
          stage = w3.stage;
          empty = w3.empty;
          running = w3.running;
          undone = w3.done ∙ (w1.done ∙ d);
        },
      )

  -- Every event of the list is classified without a panic.
  abbrev pub AllClassify : List UpdateEvent → Type 0
  AllClassify evs = All (λ ev. (c : ClassifiedEvent) × (u.classify_event ev ≡ some c)) evs

  -- The end: the source is exhausted, both Runs have returned, and nothing is left.
  pub record IsOver (t : System fl) : Type 0 where
    pub all_read : t.ahead ≡ []
    pub returned : t.stage ≡ ended (result_of fl u.source_err)
    pub all_taken : t.queue ≡ []
    pub stopped : t.running ≡ false
    pub undone : t.done ≡ false

  run-Idle :
      (evs : List UpdateEvent) (s : System fl)
      → 0 < u.classified_buf
      → Idle s evs
      → AllClassify evs
      → (t : System fl) × Steps fl u s t × IsOver t
  run-Idle [] s cap w h =
      let s1 : System fl = record s { stage = ended (result_of fl u.source_err) } in
      (
        record s1 { running = false },
        and_then (and_then (here s) (drain s w.stage w.ahead))
            (close_agg s1 (result_of fl u.source_err) w.running refl w.empty),
        record {
          all_read = w.ahead;
          returned = refl;
          all_taken = w.empty;
          stopped = refl;
          undone = w.undone;
        },
      )
  run-Idle (ev ∷ evs) s cap w h =
      let (c, k) = h.0 in
      let s1 : System fl = record s { ahead = evs; stage = sending c } in
      let (s2, sent, idle) = finish_sending s1 c evs cap refl refl w.running w.undone in
      let (t, rest, over) = run-Idle evs s2 cap idle h.1 in
      (
        t,
        Steps-trans (Steps-trans (and_then (here s) (read s ev evs c w.stage w.ahead k)) sent) rest,
        over,
      )

  abbrev OkStage : List UpdateEvent → Stage → Type 0
  OkStage ahead reading = Unit
  OkStage ahead (sending c) = Unit
  OkStage ahead (ended r) = (r ≡ result_of fl u.source_err) × (ahead ≡ [])

  -- Before the context ends: the aggregator runs and the pipeline has not given up, or all is over.
  abbrev Sound : System fl → Type 0
  Sound s = (s.done ≡ true) ⊎ (((s.running ≡ true) × OkStage s.ahead s.stage) ⊎ IsOver s)

  done-Step : {s t : System fl} → Step fl u s t → s.done ≡ true → t.done ≡ true
  done-Step (read s ev rest c a b e) d = d
  done-Step (send s c a b) d = d
  done-Step (drain s a b) d = d
  done-Step (stop_reading s x a) d = d
  done-Step (stop_sending s c x a) d = d
  done-Step (take s c rest a b) d = d
  done-Step (answer s req now r a b) d = d
  done-Step (tick_rate s a) d = d
  done-Step (close_agg s r a b c) d = d
  done-Step (stop_agg s a b) d = d
  done-Step (forward s c rest a b) d = d
  done-Step (forward_stats s now a) d = d
  done-Step (stop_forwarding s a) d = d
  done-Step (cancel s) d = refl

  OkStage-ended :
      (ahead : List UpdateEvent) (stage : Stage) (r : RunResult)
      → stage ≡ ended r
      → OkStage ahead stage
      → (r ≡ result_of fl u.source_err) × (ahead ≡ [])
  OkStage-ended ahead stage r e h = subst (OkStage ahead) e h

  over_reads : {s : System fl} → IsOver s → s.stage ≢ reading
  over_reads w e = cc (sym w.returned ∙ e)

  over_runs : {s : System fl} → IsOver s → s.running ≢ true
  over_runs w e = cc (sym w.stopped ∙ e)

  Step-Sound : {s t : System fl} → Step fl u s t → Sound s → Sound t
  Step-Sound step (inl d) = inl (done-Step step d)
  Step-Sound (read s ev rest c a b e) (inr (inl (r, o))) = inr (inl (r, tt))
  Step-Sound (read s ev rest c a b e) (inr (inr w)) = absurd (over_reads w a)
  Step-Sound (send s c a b) (inr (inl (r, o))) = inr (inl (r, tt))
  Step-Sound (send s c a b) (inr (inr w)) = absurd (cc (sym w.returned ∙ a))
  Step-Sound (drain s a b) (inr (inl (r, o))) = inr (inl (r, (refl, b)))
  Step-Sound (drain s a b) (inr (inr w)) = absurd (over_reads w a)
  Step-Sound (stop_reading s d a) (inr h) = inl d
  Step-Sound (stop_sending s c d a) (inr h) = inl d
  Step-Sound (take s c rest a b) (inr (inl (r, o))) = inr (inl (r, o))
  Step-Sound (take s c rest a b) (inr (inr w)) = absurd (over_runs w a)
  Step-Sound (answer s req now r a b) (inr h) = inr h
  Step-Sound (tick_rate s a) (inr (inl h)) = inr (inl h)
  Step-Sound (tick_rate s a) (inr (inr w)) = absurd (over_runs w a)
  Step-Sound (close_agg s r a b c) (inr (inl (x, o))) =
      let (result, empty) = OkStage-ended s.ahead s.stage r b o in
      elim (Bool-cases s.done) [
        | inl d ↦ inl d
        | inr d ↦ inr (
            inr (record {
              all_read = empty;
              returned = b ∙ ap ended result;
              all_taken = c;
              stopped = refl;
              undone = d;
            }))
      ]
  Step-Sound (close_agg s r a b c) (inr (inr w)) = absurd (over_runs w a)
  Step-Sound (stop_agg s a d) (inr h) = inl d
  Step-Sound (forward s c rest a b) (inr (inl h)) = inr (inl h)
  Step-Sound (forward s c rest a b) (inr (inr w)) = inr (
      inr (record {
        all_read = w.all_read;
        returned = w.returned;
        all_taken = w.all_taken;
        stopped = w.stopped;
        undone = w.undone;
      }))
  Step-Sound (forward_stats s now a) (inr (inl h)) = inr (inl h)
  Step-Sound (forward_stats s now a) (inr (inr w)) = inr (
      inr (record {
        all_read = w.all_read;
        returned = w.returned;
        all_taken = w.all_taken;
        stopped = w.stopped;
        undone = w.undone;
      }))
  Step-Sound (stop_forwarding s d) (inr h) = inl d
  Step-Sound (cancel s) (inr h) = inl refl

  Steps-Sound : {s t : System fl} → Sound s → Steps fl u s t → Sound t
  Steps-Sound w (here s) = w
  Steps-Sound w (and_then p q) = Step-Sound q (Steps-Sound w p)

  finish :
      (s : System fl)
      → 0 < u.classified_buf
      → s.running ≡ true
      → s.done ≡ false
      → OkStage s.ahead s.stage
      → AllClassify s.ahead
      → (stage : Stage) → s.stage ≡ stage
      → (t : System fl) × Steps fl u s t × IsOver t
  finish s cap r d o h reading e =
      let (s1, w) = empty_queue s.queue s refl r in
      let (t, rest, over) =
        run-Idle s.ahead s1 cap
          (record {
            ahead = w.ahead;
            stage = w.stage ∙ e;
            empty = w.empty;
            running = w.running;
            undone = w.done ∙ d;
          })
          h in
      (t, Steps-trans w.run rest, over)
  finish s cap r d o h (sending c) e =
      let (s1, sent, idle) = finish_sending s c s.ahead cap e refl r d in
      let (t, rest, over) = run-Idle s.ahead s1 cap idle h in (t, Steps-trans sent rest, over)
  finish s cap r d o h (ended x) e =
      let (result, empty) = OkStage-ended s.ahead s.stage x e o in
      let (s1, w) = empty_queue s.queue s refl r in
      (
        record s1 { running = false },
        and_then w.run (close_agg s1 x w.running (w.stage ∙ e) w.empty),
        record {
          all_read = w.ahead ∙ empty;
          returned = w.stage ∙ (e ∙ ap ended result);
          all_taken = w.empty;
          stopped = refl;
          undone = w.done ∙ d;
        },
      )

-- Everything is applied, once and in order.
pub record Completes (fl : Floats) (u : Setup fl) (s0 s : System fl) : Type 0 where
  pub final : System fl
  pub steps : Steps fl u s final
  pub over : IsOver fl u final
  pub all : List ClassifiedEvent
  pub classified : Classified u.classify_event s0.ahead all
  pub folded : Folded fl u.names s0.agg final.agg all

-- From every state that is reached before the context ends, with room for an event in the channel
-- and no panic in the classifier, there are steps to the end: the source is read up, both loops
-- have returned, and the aggregator has the graph, the ring and the counters of all events of the
-- source, classified, once and in order.
pub start-Completes :
    (fl : Floats) (u : Setup fl) (zero_event : ClassifiedEvent) (ring_cap : ℕ)
    (evs : List UpdateEvent) (s : System fl)
    → 0 < u.classified_buf
    → Steps fl u (start fl zero_event ring_cap evs) s
    → s.done ≡ false
    → AllClassify fl u s.ahead
    → Completes fl u (start fl zero_event ring_cap evs) s
unfolding start
start-Completes fl u zero_event ring_cap evs s buf p d h =
    let s0 = start fl zero_event ring_cap evs in
    let ends : (t : System fl) × Steps fl u s t × IsOver fl u t =
      elim (Steps-Sound fl u (inr (inl (refl, tt))) p) [
        | inl gone ↦ absurd (cc (d, gone))
        | inr (inl (r, o)) ↦ finish fl u s buf r d o h s.stage refl
        | inr (inr w) ↦ (s, here s, w)
      ] in
    let (t, run, over) = ends in
    let w = Steps-InOrder fl u zero_event ring_cap evs (Steps-trans fl u p run) in
    let all_sent : w.sent ≡ evs =
      sym (w.splits ∙ (ap (λ l. w.sent ++ l) over.all_read ∙ append-nil w.sent)) in
    let all_applied : w.applied ++ (t.queue ++ []) ≡ w.applied =
      ap (λ q. w.applied ++ (q ++ [])) over.all_taken ∙ append-nil w.applied in
    record {
      final = t;
      steps = run;
      over = over;
      all = w.applied;
      classified =
          subst (λ es. Classified u.classify_event es w.applied) all_sent
            (subst (Classified u.classify_event w.sent) all_applied (
              live fl u s0 t w (ended (result_of fl u.source_err)) over.returned
                (kept_going u.source_err)));
      folded = w.folded;
    }
  where
    kept_going : (b : Bool) → ended (result_of fl b) ≢ ended cancelled
    kept_going true e = cc
    kept_going false e = cc
