-- ===== src/Sources/Tests.antt =====
-- A replay of a dump of one announcement, with the other files bundled.
use mathlib.Core.Path.{subst}
use Prim.Native.String.{String}
use text.Mathlib.Text.{◌==◌ as same_text}
use bgpulse.Base.{
  ℕ, ◌≡◌, refl, arith, Bool, true, false, Option, none, some, [], ◌∷◌, ◌⊎◌, inr, if◌then◌else◌,
}
use bgpulse.Base.Text.{pos, cut}
use bgpulse.Bgp.Net.{Prefix, ip4}
use bgpulse.Rpki.Loading.Outcome.{IsParsed}
use bgpulse.Synth.{Rng}
use bgpulse.Mrt.{bgp4mp_update}
use bgpulse.Mrt.Events as Events
use bgpulse.Config.{Config, Speeds, level_info, splits_host_port}
use bgpulse.Config.Accepted.{IsValid}
use bgpulse.Sources.{Inputs, Files, Seeded, build_sources, demo_sources}
use bgpulse.Sources.Built.{Returns}
use bgpulse.Sources.Assembled.{Fails, AreSources, build_sources-Returns}

abbrev ten : Prefix
ten = record { addr = ip4 (10 ∷ 0 ∷ 0 ∷ 0 ∷ []); bits = some 8 }

-- A parser that knows one text, and NLRIs that are that prefix.
abbrev parse : String → Option Prefix
parse s = if same_text s "10.0.0.0/8" then some ten else none

abbrev nlri : Bool → Option Prefix
nlri b = some ten

parse-IsParsed : (t : String) (p : Prefix) → parse t ≡ some p → IsParsed p
parse-IsParsed t p e =
    subst IsParsed (let q : ten ≡ p = ground arith in q) ((refl, refl, omega arith), 8, refl)

nlri-IsParsed : (n : Bool) (p : Prefix) → nlri n ≡ some p → Events.IsParsed p
nlri-IsParsed n p e = subst Events.IsParsed (let q : ten ≡ p = cc in q) (8, refl, refl, omega arith)

abbrev least : Rng ℕ
least = record { int_n = λ s n. (0, s); below = λ s p. (false, s) }

abbrev seeded : Seeded ℕ
seeded = record { topology = λ n. n; events = λ n. n }

abbrev files : Files Bool
files = record {
  mrt = λ path. none;
  asrel = λ path. none;
  vrps = λ path. none;
  sample_mrt = (
    false,
    some (record {
      timestamp = 5;
      body =
          bgp4mp_update 7
            (record { withdrawn_routes = []; nlri = true ∷ []; path_attributes = [] });
    })
        ∷ [],
  );
  sample_asrel = ("1|2|-1" ∷ [], false);
  sample_vrps = some [];
}

abbrev whole : Speeds ℕ
whole = record { parse_float = λ s. none; eighteen = 18; below_zero = λ n. false }

abbrev cfg : Config ℕ
cfg = record {
  mode = "replay";
  listen_addr = ":8080";
  cors_origin = "";
  static_dir = "";
  mrt_file = "";
  asrel_file = "";
  vrp_file = "";
  rtr_addr = "";
  seed = 0;
  replay_speed = 18;
  leak_every = pos 12;
  hijack_every = pos 19;
  ring_capacity = pos 5000;
  log_format = "text";
  log_level = level_info;
  version = "dev";
}

abbrev inputs : Inputs ℕ Bool ℕ
inputs = record {
  rng = least;
  seeded = seeded;
  fuel = 9;
  parse_nlri = nlri;
  parse_prefix = parse;
  files = files;
  cfg = cfg;
}

abbrev readable : String → Bool
readable path = false

listens : splits_host_port ":8080" ≡ true
unfolding splits_host_port cut
listens = refl

cfg-IsValid : IsValid whole readable cfg
cfg-IsValid = record {
  known_mode = inr refl;
  listens = listens;
  big_ring = (5000, refl, omega arith);
  paced = refl;
  leak_period = (12, refl);
  hijack_period = (19, refl);
  has_file = λ m e. absurd (ground arith);
}

build_sources-Returns_example :
    ((cfg.mode ≡ "demo") × (build_sources inputs ≡ demo_sources inputs))
    ⊎ ((cfg.mode ≡ "replay")
        × Returns
            (AreSources inputs nlri-IsParsed parse-IsParsed)
            (Fails inputs nlri-IsParsed parse-IsParsed)
            (build_sources inputs))
build_sources-Returns_example =
    build_sources-Returns inputs nlri-IsParsed parse-IsParsed whole readable cfg-IsValid
