-- ===== src/Config/Chosen.antt =====
-- Where a setting of config/config.go comes from: the flag, else the environment, else the default.
use Prim.Native.String.{String}
use mathlib.Core.Path.{subst}
use bgpulse.Base.{
  ◌≡◌, ◌↔◌, refl, ap, arith, true, false, if◌then◌else◌, Option, none, some, ◌⊎◌, inl, inr,
  Bool-cases, Option-cases,
}
use bgpulse.Base.Text.{ℤ, is_empty, atoi}
use bgpulse.Config.{Environment, env, env_int, given_or}

-- A value given by a flag, and one that is the setting where there is no flag.
abbrev pub Chosen : {A : Type 0} → Option A → (A → Type 0) → A → Type 0
Chosen given Otherwise a = (given ≡ some a) ⊎ ((given ≡ none) × Otherwise a)

-- The variable where it is set, else the default.
abbrev pub TextOf : Environment → String → String → String → Type 0
TextOf getenv key def a =
    ((is_empty (getenv key) ≡ false) × (a ≡ getenv key))
    ⊎ ((is_empty (getenv key) ≡ true) × (a ≡ def))

-- The variable where it is set to a text that the parser takes, else the default.
abbrev pub ParsedOf : {A : Type 0} → (String → Option A) → Environment → String → A → A → Type 0
ParsedOf parse getenv key def a =
    ((is_empty (getenv key) ≡ false) × (parse (getenv key) ≡ some a))
    ⊎ (((is_empty (getenv key) ≡ true) ⊎ (parse (getenv key) ≡ none)) × (a ≡ def))

-- A variable that a parser reads.
abbrev pub parsed_env : {A : Type 0} → (String → Option A) → Environment → String → A → A
parsed_env parse getenv key def =
    if is_empty (getenv key) then def else elim (parse (getenv key)) [ none ↦ def | some x ↦ x ]

module _ {A : Type 0} (parse : String → Option A) (getenv : Environment) (key : String)
    (def : A) where
  pub parsed_env-ParsedOf : ParsedOf parse getenv key def (parsed_env parse getenv key def)
  parsed_env-ParsedOf = elim (Bool-cases (is_empty (getenv key))) [
    | inl e ↦ inr (inl e, ground arith)
    | inr e ↦ elim (Option-cases (parse (getenv key))) [
      | inl p ↦ inr (inr p, ground arith)
      | inr (x, p) ↦ inl (e, ground arith)
    ]
  ]

  pub parsed_env_unique :
      (a : A) → ParsedOf parse getenv key def a → parsed_env parse getenv key def ≡ a
  parsed_env_unique a (inl (e, p)) = ground arith
  parsed_env_unique a (inr (inl e, p)) = ground arith
  parsed_env_unique a (inr (inr e, p)) = elim (Bool-cases (is_empty (getenv key))) [
    | inl q ↦ ground arith
    | inr q ↦ ground arith
  ]

-- A setting that is the flag, or the one value that the rest allows.
pub Chosen-iff :
    {A : Type 0} (given : Option A) (Otherwise : A → Type 0) (def : A)
    → Otherwise def
    → ((a : A) → Otherwise a → def ≡ a)
    → (a : A) → (given_or given def ≡ a) ↔ Chosen given Otherwise a
Chosen-iff (some x) Otherwise def ok unique a = (
  (λ h. inl (ap some h)),
  λ h. elim h [ inl e ↦ ground arith | inr (e, w) ↦ absurd (ground arith) ],
)
Chosen-iff none Otherwise def ok unique a = (
  (λ h. inr (refl, subst Otherwise h ok)),
  λ h. elim h [ inl e ↦ absurd (ground arith) | inr (e, w) ↦ unique a w ],
)

module _ (getenv : Environment) (key def : String) where
  env-TextOf : TextOf getenv key def (env getenv key def)
  unfolding env
  env-TextOf = elim (Bool-cases (is_empty (getenv key))) [
    | inl e ↦ inr (e, ground arith)
    | inr e ↦ inl (e, ground arith)
  ]

  env_unique : (a : String) → TextOf getenv key def a → env getenv key def ≡ a
  unfolding env
  env_unique a (inl (e, p)) = ground arith
  env_unique a (inr (e, p)) = ground arith

  pub text_iff :
      (given : Option String) (a : String)
      → (given_or given (env getenv key def) ≡ a) ↔ Chosen given (TextOf getenv key def) a
  text_iff given a =
      Chosen-iff given (TextOf getenv key def) (env getenv key def) env-TextOf env_unique a

pub int_iff :
    (getenv : Environment) (key : String) (def : ℤ) (given : Option ℤ) (a : ℤ)
    → (given_or given (env_int getenv key def) ≡ a) ↔ Chosen given (ParsedOf atoi getenv key def) a
unfolding env_int
int_iff getenv key def given a =
    Chosen-iff given (ParsedOf atoi getenv key def) (parsed_env atoi getenv key def)
      (parsed_env-ParsedOf atoi getenv key def) (parsed_env_unique atoi getenv key def) a
