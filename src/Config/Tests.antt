-- ===== src/Config/Tests.antt =====
-- A start with one flag, in an environment that sets the ring.
use Prim.Native.String.{String}
use text.Mathlib.Text.{◌==◌ as same_text}
use bgpulse.Base.{ℕ, ◌≡◌, ◌↔◌, refl, Bool, true, false, none, some, inl, if◌then◌else◌}
use bgpulse.Base.Text.{pos, parse_digits, digits_value, atoi, cut}
use bgpulse.Config.{
  level_info, Speeds, Flags, env, env_int, env_float, splits_host_port, merged, load,
}
use bgpulse.Config.Accepted.{IsConfig, load_iff}

-- Speeds in whole events.
abbrev whole : Speeds ℕ
whole = record { parse_float = λ s. none; eighteen = 18; below_zero = λ n. false }

abbrev getenv : String → String
getenv key = if same_text key "BGPULSE_RING" then "200" else ""

abbrev unreadable : String → Bool
unreadable path = false

abbrev flags : Flags ℕ
flags = record {
  mode = none;
  listen = some "[::1]:8080";
  cors = none;
  static = none;
  mrt_file = none;
  asrel_file = none;
  vrp_file = none;
  rtr_addr = none;
  seed = none;
  speed = none;
  leak = none;
  hijack = none;
  ring = none;
  log_format = none;
  log_level = none;
}

ring_read : (merged whole getenv "dev" flags level_info).ring_capacity ≡ pos 200
unfolding merged env env_int env_float atoi parse_digits digits_value
ring_read = refl

two_ports : splits_host_port "::1:8080" ≡ false
unfolding splits_host_port cut
two_ports = refl

bracketed : splits_host_port "[::1]:8080" ≡ true
unfolding splits_host_port cut
bracketed = refl

load_iff_example :
    (load whole getenv "dev" unreadable (some flags)
      ≡ inl (merged whole getenv "dev" flags level_info))
    ↔ IsConfig whole unreadable getenv "dev" flags (merged whole getenv "dev" flags level_info)
load_iff_example =
    load_iff whole unreadable getenv "dev" flags (merged whole getenv "dev" flags level_info)
