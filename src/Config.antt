-- ===== src/Config.antt =====
-- backend/internal/config/config.go and limits.go: the defaults from the environment, the log level
-- and the validation. The parsing of the flags is the standard library's: it leaves the values that
-- were given. A float is of a type `F`; which files can be read is a parameter.
pub mod Chosen
pub mod Settings
pub mod Accepted
mod Tests
use Prim.Native.String.{String}
use text.Mathlib.Text.{◌==◌ as same_text}
use bgpulse.Base.{
  ℕ, ◌-◌, ◌*◌, ◌^◌, Bool, true, false, ◌&&◌, ◌||◌, not, Option, none, some, ltb, if◌then◌else◌, ◌⊎◌,
  inl, inr,
}
use bgpulse.Base.Text.{ℤ, pos, negsuc, is_empty, starts_with, cut, atoi}

-- `ShutdownTimeout` is in nanoseconds.
abbrev pub classified_buf_size : ℕ
classified_buf_size = 1024

abbrev pub broadcast_buf_size : ℕ
broadcast_buf_size = 256

abbrev pub shutdown_timeout : ℕ
shutdown_timeout = 5 * 10 ^ 9

pub data LogLevel : Type 0 where
  level_debug level_info level_warn level_error : LogLevel

-- The first check that fails; `bad_flags` is the error of the flag package.
pub data ConfigError : Type 0 where
  bad_flags bad_log_level bad_mode bad_listen small_ring negative_speed : ConfigError
  negative_period no_mrt_file : ConfigError

-- `os.Getenv`, where an unset variable is empty.
abbrev pub Environment : Type 0
Environment = String → String

unfoldable pub env : Environment → String → String → String
env getenv key def = if is_empty (getenv key) then def else getenv key

unfoldable pub env_int : Environment → String → ℤ → ℤ
env_int getenv key def =
    if is_empty (getenv key) then def else elim (atoi (getenv key)) [ none ↦ def | some n ↦ n ]

-- `uint64(n)`
abbrev pub to_uint64 : ℤ → ℕ
to_uint64 (pos n) = n
to_uint64 (negsuc n) = 2 ^ 64 - 1 - n

-- The text holds the character.
abbrev pub has : ℕ → String → Bool
has n s = elim (cut n s).1 [ none ↦ false | some rest ↦ true ]

abbrev pub no_brackets : String → Bool
no_brackets s = not (has 91 s) && not (has 93 s)

-- Whether `net.SplitHostPort` succeeds: a port behind the only colon, or behind a bracketed host.
unfoldable pub splits_host_port : String → Bool
splits_host_port String.[] = false
splits_host_port (String.◌∷◌ c s) =
    if starts_with 91 (String.◌∷◌ c s)
    then elim (cut 93 s).1 [
      | none ↦ false
      | some after ↦ not (has 91 (cut 93 s).0) && starts_with 58 after && (elim (cut 58 after).1 [
        | none ↦ false
        | some port ↦ not (has 58 port) && no_brackets port
      ])
    ]
    else elim (cut 58 (String.◌∷◌ c s)).1 [
      | none ↦ false
      | some port ↦ not (has 58 port) && no_brackets (String.◌∷◌ c s)
    ]

unfoldable pub parse_level : String → Option LogLevel
parse_level s =
    if same_text s "debug"
    then some level_debug
    else if same_text s "info"
    then some level_info
    else if same_text s "warn"
    then some level_warn
    else if same_text s "error"
    then some level_error
    else none

abbrev pub is_negative : ℤ → Bool
is_negative (pos n) = false
is_negative (negsuc n) = true

-- `n < 100`
abbrev pub below_100 : ℤ → Bool
below_100 (pos n) = ltb n 100
below_100 (negsuc n) = true

-- What config.go does with a float64: its text, the default of 18, and `< 0`.
pub record Speeds (F : Type 0) : Type 0 where
  pub parse_float : String → Option F
  pub eighteen : F
  pub below_zero : F → Bool

module _ (F : Type 0) where
  pub record Config : Type 0 where
    pub mode : String
    pub listen_addr : String
    pub cors_origin : String
    pub static_dir : String
    pub mrt_file : String
    pub asrel_file : String
    pub vrp_file : String
    pub rtr_addr : String
    pub seed : ℕ
    pub replay_speed : F
    pub leak_every : ℤ
    pub hijack_every : ℤ
    pub ring_capacity : ℤ
    pub log_format : String
    pub log_level : LogLevel
    pub version : String

  -- The values of the flags that were given; one that was not is `none`.
  pub record Flags : Type 0 where
    pub mode : Option String
    pub listen : Option String
    pub cors : Option String
    pub static : Option String
    pub mrt_file : Option String
    pub asrel_file : Option String
    pub vrp_file : Option String
    pub rtr_addr : Option String
    pub seed : Option ℕ
    pub speed : Option F
    pub leak : Option ℤ
    pub hijack : Option ℤ
    pub ring : Option ℤ
    pub log_format : Option String
    pub log_level : Option String

abbrev pub given_or : {A : Type 0} → Option A → A → A
given_or none def = def
given_or (some a) def = a

module _ {F : Type 0} (speeds : Speeds F) where
  unfoldable pub env_float : Environment → String → F → F
  env_float getenv key def =
      if is_empty (getenv key)
      then def
      else elim (speeds.parse_float (getenv key)) [ none ↦ def | some x ↦ x ]

  -- The configuration of Load before it is validated.
  unfoldable pub merged : Environment → String → Flags F → LogLevel → Config F
  unfolding env env_int env_float
  merged getenv version f level = record {
    mode = given_or f.mode (env getenv "BGPULSE_MODE" "demo");
    listen_addr = given_or f.listen (env getenv "BGPULSE_LISTEN" ":8080");
    cors_origin = given_or f.cors (env getenv "BGPULSE_CORS_ORIGIN" "");
    static_dir = given_or f.static (env getenv "BGPULSE_STATIC_DIR" "");
    mrt_file = given_or f.mrt_file (env getenv "BGPULSE_MRT_FILE" "");
    asrel_file = given_or f.asrel_file (env getenv "BGPULSE_ASREL_FILE" "");
    vrp_file = given_or f.vrp_file (env getenv "BGPULSE_VRP_FILE" "");
    rtr_addr = given_or f.rtr_addr (env getenv "BGPULSE_RTR_ADDR" "");
    seed = given_or f.seed (to_uint64 (env_int getenv "BGPULSE_SEED" (pos 0)));
    replay_speed = given_or f.speed (env_float getenv "BGPULSE_REPLAY_SPEED" speeds.eighteen);
    leak_every = given_or f.leak (env_int getenv "BGPULSE_LEAK_EVERY" (pos 12));
    hijack_every = given_or f.hijack (env_int getenv "BGPULSE_HIJACK_EVERY" (pos 19));
    ring_capacity = given_or f.ring (env_int getenv "BGPULSE_RING" (pos 5000));
    log_format = given_or f.log_format (env getenv "BGPULSE_LOG_FORMAT" "text");
    log_level = level;
    version = version;
  }

  -- `validate`, where `none` is a nil error; `readable` is `os.Stat` without an error.
  unfoldable pub validate : (String → Bool) → Config F → Option ConfigError
  unfolding splits_host_port
  validate readable c =
      if not (same_text c.mode "demo") && not (same_text c.mode "replay")
      then some bad_mode
      else if not (splits_host_port c.listen_addr)
      then some bad_listen
      else if below_100 c.ring_capacity
      then some small_ring
      else if speeds.below_zero c.replay_speed
      then some negative_speed
      else if is_negative c.leak_every || is_negative c.hijack_every
      then some negative_period
      else if (same_text c.mode "replay" && not (is_empty c.mrt_file)) && not (readable c.mrt_file)
      then some no_mrt_file
      else none

  -- `Load`: the flags that the flag package has parsed, or `none` for its error.
  unfoldable pub load :
      Environment → String → (String → Bool) → Option (Flags F) → Config F ⊎ ConfigError
  unfolding merged validate parse_level
  load getenv version readable none = inr bad_flags
  load getenv version readable (some f) =
      elim (parse_level (given_or f.log_level (env getenv "BGPULSE_LOG_LEVEL" "info"))) [
        | none ↦ inr bad_log_level
        | some level ↦
            let c = merged getenv version f level in
            elim (validate readable c) [ none ↦ inl c | some e ↦ inr e ]
      ]
