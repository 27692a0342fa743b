-- ===== src/Config/Accepted.antt =====
-- Which configurations Load of config/config.go returns.
use mathlib.Core.Path.{subst}
use Prim.Native.String.{String}
use text.Mathlib.Text.{◌==◌ as same_text}
use text.Mathlib.TextEquality.{eq_iff}
use bgpulse.Base.{
  ℕ, ◌≤◌, ◌≡◌, ◌↔◌, refl, arith, Bool, true, false, ◌⊎◌, inl, inr, none, some, Option-cases,
}
use bgpulse.Base.Text.{ℤ, pos, negsuc, is_empty}
use bgpulse.Config.Chosen.{Chosen, TextOf}
use bgpulse.Config.Settings.{AreSettings, level_text, level_name, merged_iff, level_iff}
use bgpulse.Config.{
  LogLevel, Environment, is_negative, below_100, splits_host_port, parse_level, Speeds, Config,
  Flags, merged, validate, load,
}

-- The ranges of the values, and a dump that can be read where one is named for a replay.
pub record IsValid {F : Type 0} (speeds : Speeds F) (readable : String → Bool) (c : Config F)
    : Type 0 where
  pub known_mode : (c.mode ≡ "demo") ⊎ (c.mode ≡ "replay")
  pub listens : splits_host_port c.listen_addr ≡ true
  pub big_ring : (n : ℕ) × (c.ring_capacity ≡ pos n) × (100 ≤ n)
  pub paced : speeds.below_zero c.replay_speed ≡ false
  pub leak_period : (n : ℕ) × (c.leak_every ≡ pos n)
  pub hijack_period : (n : ℕ) × (c.hijack_every ≡ pos n)
  pub has_file : c.mode ≡ "replay" → is_empty c.mrt_file ≡ false → readable c.mrt_file ≡ true

pos_of : (z : ℤ) → is_negative z ≡ false → (n : ℕ) × (z ≡ pos n)
pos_of (pos n) h = (n, refl)
pos_of (negsuc n) h = cc

ring_of : (z : ℤ) → below_100 z ≡ false → (n : ℕ) × (z ≡ pos n) × (100 ≤ n)
ring_of (pos n) h = (n, refl, ground arith)
ring_of (negsuc n) h = cc

module _ {F : Type 0} (speeds : Speeds F) (readable : String → Bool) where
  validate-IsValid : (c : Config F) → validate speeds readable c ≡ none → IsValid speeds readable c
  unfolding validate
  validate-IsValid c h = record {
    known_mode = ground (arith, eq_iff c.mode "demo", eq_iff c.mode "replay");
    listens = ground arith;
    big_ring = ring_of c.ring_capacity (ground arith);
    paced = ground arith;
    leak_period = pos_of c.leak_every (ground arith);
    hijack_period = pos_of c.hijack_every (ground arith);
    has_file = λ m e. ground (arith, (eq_iff c.mode "replay").1 m);
  }

  IsValid-validate : (c : Config F) → IsValid speeds readable c → validate speeds readable c ≡ none
  unfolding validate
  IsValid-validate c w =
      let (r, ring, large) = w.big_ring in
      let (l, leak) = w.leak_period in
      let (k, hijack) = w.hijack_period in
      let is_demo = (eq_iff c.mode "demo").1 in
      let is_replay = eq_iff c.mode "replay" in
      let exists : same_text c.mode "replay" ≡ true
          → is_empty c.mrt_file ≡ false
          → readable c.mrt_file ≡ true =
        λ e. w.has_file (is_replay.0 e) in
      elim w.known_mode [
        | inl m ↦ ground (arith, is_demo m, exists)
        | inr m ↦ ground (arith, is_replay.1 m, exists)
      ]

  merged-level :
      (getenv : Environment) (version : String) (f : Flags F) (level : LogLevel)
      → (merged speeds getenv version f level).log_level ≡ level
  unfolding merged
  merged-level getenv version f level = refl

  -- The settings, and the level that the text for it names.
  abbrev pub IsConfig : Environment → String → Flags F → Config F → Type 0
  IsConfig getenv version f c =
      AreSettings speeds getenv version f c
      × ((text : String) × Chosen f.log_level (TextOf getenv "BGPULSE_LOG_LEVEL" "info") text
          × (text ≡ level_name c.log_level))
      × IsValid speeds readable c

  load-merged :
      (getenv : Environment) (version : String) (f : Flags F) (c : Config F)
      → (load speeds getenv version readable (some f) ≡ inl c) ↔ (
          (parse_level (level_text getenv f) ≡ some c.log_level)
          × (c ≡ merged speeds getenv version f c.log_level)
          × IsValid speeds readable c)
  unfolding load
  load-merged getenv version f c = (
    (λ h. elim (Option-cases (parse_level (level_text getenv f))) [
      | inl e ↦ absurd (ground arith)
      | inr (level, e) ↦
          let m = merged speeds getenv version f level in
          elim (Option-cases (validate speeds readable m)) [
            | inl v ↦
                (let same : m ≡ c = ground arith in
                  subst
                    (λ d.
                      (parse_level (level_text getenv f) ≡ some d.log_level)
                      × (d ≡ merged speeds getenv version f d.log_level)
                      × IsValid speeds readable d)
                    same (rw (merged-level getenv version f level) (e, refl, validate-IsValid m v)))
            | inr (err, v) ↦ absurd (ground arith)
          ]
    ]),
    λ h.
        let (p, e, w) = h in
        let m = merged speeds getenv version f c.log_level in
        let v : validate speeds readable m ≡ none =
          subst (λ d. validate speeds readable d ≡ none) e (IsValid-validate c w) in
        ground arith,
  )

  -- On flags that the flag package has parsed, Load returns a configuration exactly when each of
  -- its settings is the value of its flag, or, without that flag, of its variable where this is set
  -- (to a text that parses, for a number), or else its default; its log level is the one that the
  -- text for it, found in the same way, names; and it has the mode demo or replay, an address that
  -- splits into host and port, a ring of at least 100 events, a speed and two periods that are not
  -- negative, and, for a replay of a named dump, a dump that can be read.
  pub load_iff :
      (getenv : Environment) (version : String) (f : Flags F) (c : Config F)
      → (load speeds getenv version readable (some f) ≡ inl c) ↔ IsConfig getenv version f c
  load_iff getenv version f c =
      let (to, back) = load-merged getenv version f c in
      let settings = merged_iff speeds getenv version f c in
      let level = level_iff speeds getenv version f c.log_level in
      (
        (λ h. let (l, e, w) = to h in (settings.0 e, level.0 l, w)),
        λ (s, l, w). back (level.1 l, settings.1 s, w),
      )
