-- ===== src/Synth/Tests.antt =====
-- The synth package on a generator that draws the first and the last element in turn.
use bgpulse.Base.{
  ℕ, ◌-◌, ◌<◌, ◌≡◌, refl, Bool, true, false, not, some, arith, ℕ_discrete, if◌then◌else◌,
}
use bgpulse.Base.Table.{member}
use bgpulse.Bgp.Types.{VfStatus, UpdateEvent}
use bgpulse.ValleyFree.{classify_path}
use bgpulse.Synth.{Rng, IsRng, SynthTopology, draw}
use bgpulse.Synth.Numbering.{numbered}
use bgpulse.Synth.Paths.{valid_path}
use bgpulse.Synth.Prefixes.{build_default}
use bgpulse.Synth.Built.{drawn, IsVaried}
use bgpulse.Synth.World.{IsWorld, build_default_total}
use bgpulse.Synth.ValleyFreePaths.{valid_path-classify}
use bgpulse.Synth.Scenarios.{IsCaught, rl}
use bgpulse.Synth.Generator.{default_gen_config, Generator, new_generator, next}
use bgpulse.Synth.Next.{Emits, next-Emits}
use bgpulse.Synth.Liveness.{nth_event, leak_eventually}
use bgpulse.Relationships.{rel_lookup}

abbrev swing : Rng Bool
swing = record { int_n = λ s n. (if s then 0 else n - 1, not s); below = λ s p. (s, not s) }

swing-IsRng : IsRng swing
swing-IsRng = record { in_range = λ s n h. ground arith }

swing-IsVaried : IsVaried swing 2
unfolding drawn draw numbered member ℕ_discrete
swing-IsVaried true = refl
swing-IsVaried false = refl

build_default_total_example :
    (t : SynthTopology) × (build_default swing 2 true ≡ some t) × IsWorld t
build_default_total_example = build_default_total swing 2 true swing-IsRng swing-IsVaried

abbrev demo : SynthTopology
demo = build_default_total_example.0

demo-IsWorld : IsWorld demo
demo-IsWorld = build_default_total_example.2

next-Emits_example :
    Emits swing demo demo-IsWorld default_gen_config
      (new_generator true)
      (next swing demo.graph default_gen_config (new_generator true))
next-Emits_example = next-Emits swing demo demo-IsWorld default_gen_config (new_generator true)

leak_eventually_example :
    (n : ℕ) × (n < 12)
    × (ev : UpdateEvent) × (g' : Generator Bool) × (nth_event swing demo default_gen_config n
          (new_generator true)
        ≡ some (ev, g'))
    × IsCaught demo ev VfStatus.leak 2001
leak_eventually_example =
    leak_eventually swing demo default_gen_config demo-IsWorld (new_generator true) (omega arith)
      (omega arith)

valid_path-classify_example :
    (classify_path (rl demo) (valid_path swing demo.graph 3001 true).0 false).is_leak ≡ false
unfolding rel_lookup
valid_path-classify_example =
    valid_path-classify swing (rl demo) demo.graph 3001 true (λ v. ground arith)
      demo-IsWorld.adjacent
