-- ===== src/Config/Settings.antt =====
-- The settings of config/config.go with their flags, variables and defaults.
use Prim.Native.String.{String}
use mathlib.Core.Path.{subst}
use bgpulse.Base.{ℕ, ◌≡◌, ◌↔◌, refl, sym, ap, ◌∙◌, arith, Option, some, inl, inr, Bool-cases}
use bgpulse.Base.Text.{ℤ, pos, atoi}
use text.Mathlib.Text.{◌==◌ as same_text}
use text.Mathlib.TextEquality.{eq_iff}
use bgpulse.Config.{
  parse_level, level_debug, level_info, level_warn, level_error, LogLevel, Environment, env,
  env_int, env_float, to_uint64, Speeds, Config, Flags, given_or, merged,
}
use bgpulse.Config.Chosen.{
  Chosen, TextOf, ParsedOf, parsed_env, parsed_env-ParsedOf, parsed_env_unique, Chosen-iff,
  text_iff, int_iff,
}

-- The seed is a text of an int, taken modulo 2^64.
abbrev pub SeedOf : Environment → ℕ → Type 0
SeedOf getenv n = (z : ℤ) × ParsedOf atoi getenv "BGPULSE_SEED" (pos 0) z × (n ≡ to_uint64 z)

seed_iff :
    (getenv : Environment) (given : Option ℕ) (a : ℕ)
    → (given_or given (to_uint64 (env_int getenv "BGPULSE_SEED" (pos 0))) ≡ a)
      ↔ Chosen given (SeedOf getenv) a
unfolding env_int
seed_iff getenv given a =
    let read = parsed_env atoi getenv "BGPULSE_SEED" (pos 0) in
    Chosen-iff given (SeedOf getenv) (to_uint64 read)
      (read, parsed_env-ParsedOf atoi getenv "BGPULSE_SEED" (pos 0), refl)
      (λ b (z, w, e).
        ap to_uint64 (parsed_env_unique atoi getenv "BGPULSE_SEED" (pos 0) z w) ∙ sym e)
      a

-- The text of the level that Load reads.
abbrev pub level_text : {F : Type 0} → Environment → Flags F → String
level_text getenv f = given_or f.log_level (env getenv "BGPULSE_LOG_LEVEL" "info")

abbrev pub level_name : LogLevel → String
level_name level_debug = "debug"
level_name level_info = "info"
level_name level_warn = "warn"
level_name level_error = "error"

named_of : (s : String) (level : LogLevel) → parse_level s ≡ some level → s ≡ level_name level
unfolding parse_level
named_of s level h = elim (Bool-cases (same_text s "debug")) [
  | inl a ↦ (let q : level_debug ≡ level = ground arith in (eq_iff s "debug").0 a ∙ ap level_name q)
  | inr a ↦ elim (Bool-cases (same_text s "info")) [
    | inl b ↦ (let q : level_info ≡ level = ground arith in (eq_iff s "info").0 b ∙ ap level_name q)
    | inr b ↦ elim (Bool-cases (same_text s "warn")) [
      | inl c ↦
          (let q : level_warn ≡ level = ground arith in (eq_iff s "warn").0 c ∙ ap level_name q)
      | inr c ↦ elim (Bool-cases (same_text s "error")) [
        | inl d ↦
            (let q : level_error ≡ level = ground arith in (eq_iff s "error").0 d ∙ ap level_name q)
        | inr d ↦ absurd (ground arith)
      ]
    ]
  ]
]

of_named : (s : String) (level : LogLevel) → s ≡ level_name level → parse_level s ≡ some level
unfolding parse_level
of_named s level_debug e = rw e refl
of_named s level_info e = rw e refl
of_named s level_warn e = rw e refl
of_named s level_error e = rw e refl

module _ {F : Type 0} (speeds : Speeds F) (getenv : Environment) (version : String)
    (f : Flags F) where
  float_iff :
      (key : String) (def : F) (given : Option F) (a : F)
      → (given_or given (env_float speeds getenv key def) ≡ a)
        ↔ Chosen given (ParsedOf speeds.parse_float getenv key def) a
  unfolding env_float
  float_iff key def given a =
      Chosen-iff given (ParsedOf speeds.parse_float getenv key def)
        (parsed_env speeds.parse_float getenv key def)
        (parsed_env-ParsedOf speeds.parse_float getenv key def)
        (parsed_env_unique speeds.parse_float getenv key def) a

  abbrev Text : Option String → String → String → String → Type 0
  Text given key def = Chosen given (TextOf getenv key def)

  abbrev Number : Option ℤ → String → ℤ → ℤ → Type 0
  Number given key def = Chosen given (ParsedOf atoi getenv key def)

  -- Each setting with its flag, its variable and its default.
  pub record AreSettings (c : Config F) : Type 0 where
    pub mode : Text f.mode "BGPULSE_MODE" "demo" c.mode
    pub listen : Text f.listen "BGPULSE_LISTEN" ":8080" c.listen_addr
    pub cors : Text f.cors "BGPULSE_CORS_ORIGIN" "" c.cors_origin
    pub static : Text f.static "BGPULSE_STATIC_DIR" "" c.static_dir
    pub mrt : Text f.mrt_file "BGPULSE_MRT_FILE" "" c.mrt_file
    pub asrel : Text f.asrel_file "BGPULSE_ASREL_FILE" "" c.asrel_file
    pub vrp : Text f.vrp_file "BGPULSE_VRP_FILE" "" c.vrp_file
    pub rtr : Text f.rtr_addr "BGPULSE_RTR_ADDR" "" c.rtr_addr
    pub seed : Chosen f.seed (SeedOf getenv) c.seed
    pub speed :
        Chosen f.speed
          (ParsedOf speeds.parse_float getenv "BGPULSE_REPLAY_SPEED" speeds.eighteen)
          c.replay_speed
    pub leak : Number f.leak "BGPULSE_LEAK_EVERY" (pos 12) c.leak_every
    pub hijack : Number f.hijack "BGPULSE_HIJACK_EVERY" (pos 19) c.hijack_every
    pub ring : Number f.ring "BGPULSE_RING" (pos 5000) c.ring_capacity
    pub format : Text f.log_format "BGPULSE_LOG_FORMAT" "text" c.log_format
    pub built : c.version ≡ version

  merged-AreSettings : (level : LogLevel) → AreSettings (merged speeds getenv version f level)
  unfolding merged
  merged-AreSettings level = record {
    mode = (text_iff getenv "BGPULSE_MODE" "demo" f.mode _).0 refl;
    listen = (text_iff getenv "BGPULSE_LISTEN" ":8080" f.listen _).0 refl;
    cors = (text_iff getenv "BGPULSE_CORS_ORIGIN" "" f.cors _).0 refl;
    static = (text_iff getenv "BGPULSE_STATIC_DIR" "" f.static _).0 refl;
    mrt = (text_iff getenv "BGPULSE_MRT_FILE" "" f.mrt_file _).0 refl;
    asrel = (text_iff getenv "BGPULSE_ASREL_FILE" "" f.asrel_file _).0 refl;
    vrp = (text_iff getenv "BGPULSE_VRP_FILE" "" f.vrp_file _).0 refl;
    rtr = (text_iff getenv "BGPULSE_RTR_ADDR" "" f.rtr_addr _).0 refl;
    seed = (seed_iff getenv f.seed _).0 refl;
    speed = (float_iff "BGPULSE_REPLAY_SPEED" speeds.eighteen f.speed _).0 refl;
    leak = (int_iff getenv "BGPULSE_LEAK_EVERY" (pos 12) f.leak _).0 refl;
    hijack = (int_iff getenv "BGPULSE_HIJACK_EVERY" (pos 19) f.hijack _).0 refl;
    ring = (int_iff getenv "BGPULSE_RING" (pos 5000) f.ring _).0 refl;
    format = (text_iff getenv "BGPULSE_LOG_FORMAT" "text" f.log_format _).0 refl;
    built = refl;
  }

  Config-ext :
      (c d : Config F)
      → c.mode ≡ d.mode
      → c.listen_addr ≡ d.listen_addr
      → c.cors_origin ≡ d.cors_origin
      → c.static_dir ≡ d.static_dir
      → c.mrt_file ≡ d.mrt_file
      → c.asrel_file ≡ d.asrel_file
      → c.vrp_file ≡ d.vrp_file
      → c.rtr_addr ≡ d.rtr_addr
      → c.seed ≡ d.seed
      → c.replay_speed ≡ d.replay_speed
      → c.leak_every ≡ d.leak_every
      → c.hijack_every ≡ d.hijack_every
      → c.ring_capacity ≡ d.ring_capacity
      → c.log_format ≡ d.log_format
      → c.log_level ≡ d.log_level
      → c.version ≡ d.version
      → c ≡ d
  Config-ext c d a0 a1 a2 a3 a4 a5 a6 a7 a8 a9 b0 b1 b2 b3 b4 b5 = cc

  settings_unique : (c : Config F) → AreSettings c → merged speeds getenv version f c.log_level ≡ c
  unfolding merged
  settings_unique c w =
      Config-ext (merged speeds getenv version f c.log_level) c
        ((text_iff getenv "BGPULSE_MODE" "demo" f.mode c.mode).1 w.mode)
        ((text_iff getenv "BGPULSE_LISTEN" ":8080" f.listen c.listen_addr).1 w.listen)
        ((text_iff getenv "BGPULSE_CORS_ORIGIN" "" f.cors c.cors_origin).1 w.cors)
        ((text_iff getenv "BGPULSE_STATIC_DIR" "" f.static c.static_dir).1 w.static)
        ((text_iff getenv "BGPULSE_MRT_FILE" "" f.mrt_file c.mrt_file).1 w.mrt)
        ((text_iff getenv "BGPULSE_ASREL_FILE" "" f.asrel_file c.asrel_file).1 w.asrel)
        ((text_iff getenv "BGPULSE_VRP_FILE" "" f.vrp_file c.vrp_file).1 w.vrp)
        ((text_iff getenv "BGPULSE_RTR_ADDR" "" f.rtr_addr c.rtr_addr).1 w.rtr)
        ((seed_iff getenv f.seed c.seed).1 w.seed)
        ((float_iff "BGPULSE_REPLAY_SPEED" speeds.eighteen f.speed c.replay_speed).1 w.speed)
        ((int_iff getenv "BGPULSE_LEAK_EVERY" (pos 12) f.leak c.leak_every).1 w.leak)
        ((int_iff getenv "BGPULSE_HIJACK_EVERY" (pos 19) f.hijack c.hijack_every).1 w.hijack)
        ((int_iff getenv "BGPULSE_RING" (pos 5000) f.ring c.ring_capacity).1 w.ring)
        ((text_iff getenv "BGPULSE_LOG_FORMAT" "text" f.log_format c.log_format).1 w.format) refl
        (sym w.built)

  -- What Load merges is the one configuration with these settings and the level.
  pub merged_iff : (c : Config F) → (c ≡ merged speeds getenv version f c.log_level) ↔ AreSettings c
  merged_iff c = (
    (λ e. subst AreSettings (sym e) (merged-AreSettings c.log_level)),
    λ w. sym (settings_unique c w),
  )

  -- The level is that of the text.
  pub level_iff :
      (level : LogLevel)
      → (parse_level (level_text getenv f) ≡ some level) ↔ (
          (text : String) × Text f.log_level "BGPULSE_LOG_LEVEL" "info" text
          × (text ≡ level_name level))
  level_iff level = (
    (λ h. (
      level_text getenv f,
      (text_iff getenv "BGPULSE_LOG_LEVEL" "info" f.log_level _).0 refl,
      named_of (level_text getenv f) level h,
    )),
    λ (text, w, e).
        of_named (level_text getenv f) level
          ((text_iff getenv "BGPULSE_LOG_LEVEL" "info" f.log_level text).1 w ∙ e),
  )
