-- ===== src/Synth/Events.antt =====
-- Events of synth/generator.go: what its goroutine sends, without the pauses.
use bgpulse.Base.{
  ℕ, zero, suc, ◌≡◌, refl, ap, arith, inl, inr, Option, none, some, List, [], ◌∷◌, length, All,
}
use bgpulse.Bgp.Types.{UpdateEvent, ClassifiedEvent}
use bgpulse.Classify.{neutral}
use bgpulse.Synth.{Rng, SynthTopology}
use bgpulse.Synth.World.{IsWorld}
use bgpulse.Synth.Scenarios.{verdict_on}
use bgpulse.Synth.Generator.{GenConfig, Generator, next}
use bgpulse.Synth.Next.{IsGenerated, next-Emits}

module _ {S : Type 0} (rng : Rng S) (t : SynthTopology) (cfg : GenConfig) where
  -- The events of the first `n` rounds of the loop.
  unfoldable pub events : ℕ → Generator S → Option (List UpdateEvent)
  events zero g = some []
  events (suc n) g = elim (next rng t.graph cfg g) [
    | none ↦ none
    | some (ev, g') ↦ elim (events n g') [ none ↦ none | some evs ↦ some (ev ∷ evs) ]
  ]

  events_step :
      (n : ℕ) (g g' : Generator S) (ev : UpdateEvent) (evs : List UpdateEvent)
      → next rng t.graph cfg g ≡ some (ev, g')
      → events n g' ≡ some evs
      → events (suc n) g ≡ some (ev ∷ evs)
  unfolding events
  events_step n g g' ev evs h k = ground arith

  module _ (w : IsWorld t) where
    -- Each round sends an event, which is one of the four kinds.
    pub events_total :
        (n : ℕ) (g : Generator S)
        → (evs : List UpdateEvent) × (events n g ≡ some evs)
          × (length evs ≡ n)
          × All (IsGenerated rng t) evs
    unfolding events
    events_total zero g = ([], refl, refl, tt)
    events_total (suc n) g =
        let e = next-Emits rng t w cfg g in
        let (evs, made, count, good) = events_total n e.after in
        (
          e.ev ∷ evs,
          events_step n g e.after e.ev evs e.made made,
          ap suc count,
          (e.generated, good),
        )

-- The demo's classifier does not panic on such an event.
pub IsGenerated-returns :
    {S : Type 0} (rng : Rng S) (t : SynthTopology) (ev : UpdateEvent)
    → IsGenerated rng t ev
    → (c : ClassifiedEvent) × (verdict_on t ev ≡ some c)
IsGenerated-returns rng t ev (inl c) = (c.out, c.returns)
IsGenerated-returns rng t ev (inr (inl (own, c))) = (c.out, c.returns)
IsGenerated-returns rng t ev (inr (inr (inl (own, c)))) = (c.out, c.returns)
IsGenerated-returns rng t ev (inr (inr (inr (k, e)))) = (neutral ev, e)
