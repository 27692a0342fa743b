-- ===== src/Sources.antt =====
-- backend/internal/server/sources.go: the data sources of a mode, from the loaders. The files, the
-- bundled ones included, are what their decoding leaves.
pub mod Built
pub mod Assembled
mod Tests
use Prim.Native.String.{String, ◌++◌}
use text.Mathlib.Text.{◌==◌ as same_text}
use bgpulse.Base.{ℕ, zero, suc, Bool, true, false, Option, none, some, List, if◌then◌else◌, ◌==◌}
use bgpulse.Base.Text.{ℤ, pos, negsuc, is_empty}
use bgpulse.Bgp.Types.{UpdateEvent}
use bgpulse.Bgp.Net.{Prefix}
use bgpulse.Relationships.{RelStore}
use bgpulse.Relationships.Loading as Caida
use bgpulse.Relationships.Loading.{load_caida}
use bgpulse.Rpki.{VrpStore}
use bgpulse.Rpki.Loading as Vrps
use bgpulse.Rpki.Loading.{RoaValue, load_vrps_json, new_live}
use bgpulse.Rtr.Session.{Client, new_client}
use bgpulse.Synth.{Rng, SynthTopology}
use bgpulse.Synth.Prefixes.{build_default}
use bgpulse.Synth.Generator.{GenConfig, Generator, new_generator}
use bgpulse.Mrt.{MrtMessage, decode_stream, new_replay}
use bgpulse.Api.{HealthInfo}
use bgpulse.Config.{Config}

-- Each file, and `none` for one that cannot be opened; the samples are in the binary.
pub record Files (N : Type 0) : Type 0 where
  pub mrt : String → Option (Bool × List (Option (MrtMessage N)))
  pub asrel : String → Option (List String × Bool)
  pub vrps : String → Option (Option (List RoaValue))
  pub sample_mrt : Bool × List (Option (MrtMessage N))
  pub sample_asrel : List String × Bool
  pub sample_vrps : Option (List RoaValue)

-- The generator with its topology, or a replay of events, once or over and over.
pub data Source (S : Type 0) : Type 0 where
  synthetic : SynthTopology → GenConfig → Generator S → Source S
  replay : List UpdateEvent → Bool → Source S

-- `sources`; the client has the address of its cache, and the validator is what its Live holds.
pub record Sources (S : Type 0) : Type 0 where
  pub source : Source S
  pub rel : RelStore
  pub validator : VrpStore
  pub rtr : Option (String × Client)
  pub health : HealthInfo

pub data SourceError : Type 0 where
  unknown_mode bad_mrt no_asrel_file no_vrp_file : SourceError
  bad_asrel : ℕ → Caida.LoadError → SourceError
  bad_vrps : Vrps.LoadError → SourceError

-- A value, an error, or no return: a panic, or the draws of BuildDefault without an end.
pub data Result (A : Type 0) : Type 0 where
  ok : A → Result A
  err : SourceError → Result A
  lost : Result A

infixl 5 ◌>>=◌
abbrev pub ◌>>=◌ : {A B : Type 0} → Result A → (A → Result B) → Result B
ok a >>= f = f a
err e >>= f = err e
lost >>= f = lost

-- A period as Next tests it: one that is not positive is 0.
abbrev pub period : ℤ → ℕ
period (pos n) = n
period (negsuc n) = 0

abbrev pub default_seed : ℕ
default_seed = 0x6267_7075_6c73_65

-- What the seed gives: the states of the two generators of math/rand/v2.
pub record Seeded (S : Type 0) : Type 0 where
  pub topology : ℕ → S
  pub events : ℕ → S

-- What the sources are built from: the two parsers of prefixes, the generators, with as many draws as
-- BuildDefault may take, the files and the configuration.
pub record Inputs (S N F : Type 0) : Type 0 where
  pub rng : Rng S
  pub seeded : Seeded S
  pub fuel : ℕ
  pub parse_nlri : N → Option Prefix
  pub parse_prefix : String → Option Prefix
  pub files : Files N
  pub cfg : Config F

module _ {S N F : Type 0} (inputs : Inputs S N F) where
  open inputs use {rng, seeded, fuel, parse_nlri, parse_prefix, files, cfg}

  abbrev pub health_of : String → String → String → HealthInfo
  health_of bgp rel rpki = record {
    mode = cfg.mode;
    version = cfg.version;
    bgp_source = bgp;
    rel_source = rel;
    rpki_source = rpki;
    live_fell_back = false;
  }

  unfoldable pub demo_sources : Result (Sources S)
  demo_sources =
      let seed = if cfg.seed == 0 then default_seed else cfg.seed in
      elim (build_default rng fuel (seeded.topology seed)) [
        | none ↦ lost
        | some topo ↦ ok (record {
          source =
              synthetic topo
                (record {
                  leak_every = period cfg.leak_every;
                  hijack_every = period cfg.hijack_every;
                  withdraw_prob = 8;
                })
                (new_generator (seeded.events seed));
          rel = topo.rel;
          validator = topo.vrp;
          rtr = none;
          health = health_of "synthetic" "synthetic" "synthetic";
        })
      ]

  -- The two constructors of the replay on what the file holds.
  abbrev pub replay_of :
      Bool × List (Option (MrtMessage N)) → Bool → String → Result (Source S × String)
  replay_of (failed, records) loop desc =
      elim (new_replay (decode_stream parse_nlri failed records)) [
        | none ↦ err bad_mrt
        | some evs ↦ ok (replay evs loop, desc)
      ]

  unfoldable pub replay_source : Result (Source S × String)
  replay_source =
      if is_empty cfg.mrt_file
      then replay_of files.sample_mrt true "mrt:bundled-sample"
      else elim (files.mrt cfg.mrt_file) [
        | none ↦ err bad_mrt
        | some dump ↦ replay_of dump false ("mrt:" ++ cfg.mrt_file)
      ]

  abbrev pub rel_of : List String × Bool → String → Result (RelStore × String)
  rel_of (lines, failed) desc = elim (load_caida lines failed) [
    | Caida.loaded s ↦ ok (s, desc)
    | Caida.failed line e ↦ err (bad_asrel line e)
  ]

  unfoldable pub rel_store : Result (RelStore × String)
  rel_store =
      if is_empty cfg.asrel_file
      then rel_of files.sample_asrel "bundled"
      else elim (files.asrel cfg.asrel_file) [
        | none ↦ err no_asrel_file
        | some file ↦ rel_of file ("caida:" ++ cfg.asrel_file)
      ]

  abbrev pub vrps_of :
      Option (List RoaValue) → String → Result (VrpStore × Option (String × Client) × String)
  vrps_of entries desc = elim (load_vrps_json parse_prefix entries) [
    | Vrps.loaded s ↦ ok (s, none, desc)
    | Vrps.failed e ↦ err (bad_vrps e)
    | Vrps.panicked ↦ lost
  ]

  -- A live validator starts without a VRP.
  unfoldable pub vrp_validator : Result (VrpStore × Option (String × Client) × String)
  vrp_validator =
      if is_empty cfg.rtr_addr
      then (if is_empty cfg.vrp_file
          then vrps_of files.sample_vrps "bundled"
          else elim (files.vrps cfg.vrp_file) [
            | none ↦ err no_vrp_file
            | some entries ↦ vrps_of entries ("vrp:" ++ cfg.vrp_file)
          ])
      else ok
          (new_live none, some (cfg.rtr_addr, new_client (new_live none)), "rtr:" ++ cfg.rtr_addr)

  unfoldable pub replay_sources : Result (Sources S)
  unfolding replay_source rel_store vrp_validator
  replay_sources = do
    (source, bgp_desc) ← replay_source
    (rel, rel_desc) ← rel_store
    (validator, client, rpki_desc) ← vrp_validator
    ok (record {
      source = source;
      rel = rel;
      validator = validator;
      rtr = client;
      health = health_of bgp_desc rel_desc rpki_desc;
    })

  unfoldable pub build_sources : Result (Sources S)
  unfolding demo_sources replay_sources
  build_sources =
      if same_text cfg.mode "demo"
      then demo_sources
      else if same_text cfg.mode "replay"
      then replay_sources
      else err unknown_mode
