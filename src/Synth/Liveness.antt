-- ===== src/Synth/Liveness.antt =====
-- Calls of Next of synth/generator.go in a row.
use native.Mathlib.Nat.{mod-lt, mod_self, mod-add-mod}
use bgpulse.Base.{
  ℕ, zero, suc, ◌+◌, ◌-◌, ◌^◌, ◌%◌, ◌<◌, ◌≡◌, sym, ap, ◌∙◌, arith, ◌⊎◌, inl, inr, true, false,
  Option, none, some,
}
use bgpulse.Bgp.Types.{VfStatus, UpdateEvent}
use bgpulse.Synth.{Rng, SynthTopology}
use bgpulse.Synth.World.{IsWorld}
use bgpulse.Synth.Scenarios.{IsCaught}
use bgpulse.Synth.Generator.{GenConfig, Generator, next}
use bgpulse.Synth.Next.{leak_turn, next-Emits}

module _ {S : Type 0} (rng : Rng S) (t : SynthTopology) (cfg : GenConfig) where
  -- The event of the call of Next after `n` others.
  unfoldable pub nth_event : ℕ → Generator S → Option (UpdateEvent × Generator S)
  nth_event zero g = next rng t.graph cfg g
  nth_event (suc n) g = elim (next rng t.graph cfg g) [
    | none ↦ none
    | some (_, g') ↦ nth_event n g'
  ]

  nth_event_after :
      (n : ℕ) (g g' : Generator S) (ev : UpdateEvent)
      → next rng t.graph cfg g ≡ some (ev, g')
      → nth_event (suc n) g ≡ nth_event n g'
  unfolding nth_event
  nth_event_after n g g' ev h = ground arith

  module _ (w : IsWorld t) where
    nth_event_total :
        (n : ℕ) (g : Generator S)
        → g.seq + n + 1 < 2 ^ 64
        → (ev : UpdateEvent) × (g' : Generator S) × (nth_event n g ≡ some (ev, g'))
          × (g'.seq ≡ g.seq + n + 1)
          × ((leak_turn cfg g'.seq ≡ false) ⊎ IsCaught t ev VfStatus.leak 2001)
    unfolding nth_event
    nth_event_total zero g h =
        let e = next-Emits rng t w cfg g in
        (e.ev, e.after, e.made, omega (arith, e.counted.0), e.on_turn)
    nth_event_total (suc n) g h =
        let e = next-Emits rng t w cfg g in
        let one : e.after.seq ≡ g.seq + 1 = omega (arith, e.counted.0) in
        let (ev, g', made, seq, turn) = nth_event_total n e.after (omega (arith, one)) in
        (ev, g', nth_event_after n g e.after e.ev e.made ∙ made, omega (arith, seq, one), turn)

    turn_at : (seq k : ℕ) → 0 < k → (n : ℕ) × (n < k) × ((seq + n + 1) % k ≡ 0)
    turn_at seq k h =
        let r = seq % k in
        let small : r < k = mod-lt seq h in
        let n = k - 1 - r in
        let whole : r + (n + 1) ≡ k = omega (arith, small) in
        (
          n,
          omega (arith, small),
          ap (λ x. x % k) (let q : seq + n + 1 ≡ seq + (n + 1) = omega arith in q)
              ∙ (sym (mod-add-mod seq k (n + 1)) ∙ (ap (λ x. x % k) whole ∙ mod_self k)),
        )

    -- With a positive period for leaks and a sequence number that does not wrap within it, Next
    -- makes, within one period of calls, an event that the demo's classifier calls a leak by AS
    -- 2001.
    pub leak_eventually :
        (g : Generator S)
        → 0 < cfg.leak_every
        → g.seq + cfg.leak_every < 2 ^ 64
        → (n : ℕ) × (n < cfg.leak_every)
          × (ev : UpdateEvent) × (g' : Generator S) × (nth_event n g ≡ some (ev, g'))
          × IsCaught t ev VfStatus.leak 2001
    leak_eventually g h k =
        let (n, soon, turn) = turn_at g.seq cfg.leak_every h in
        let (ev, g', made, seq, caught) = nth_event_total n g (omega (arith, soon)) in
        let on : leak_turn cfg g'.seq ≡ true =
          let at : g'.seq % cfg.leak_every ≡ 0 = ap (λ x. x % cfg.leak_every) seq ∙ turn in
          ground (arith, at) in
        (n, soon, ev, g', made, sure ev g' on caught)
      where
        sure :
            (ev : UpdateEvent) (g' : Generator S)
            → leak_turn cfg g'.seq ≡ true
            → (leak_turn cfg g'.seq ≡ false) ⊎ IsCaught t ev VfStatus.leak 2001
            → IsCaught t ev VfStatus.leak 2001
        sure ev g' on (inl off) = absurd (cc (on, off))
        sure ev g' on (inr c) = c
