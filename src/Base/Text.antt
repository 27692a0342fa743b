-- ===== src/Base/Text.antt =====
-- The part of Go's strings and strconv that the loaders use, on texts of code points.
use Prim.Native.Nat.{ℕ, zero, suc, ◌+◌, ◌-◌, ◌*◌, ◌^◌}
use Prim.Native.Char.{Char, code}
use Prim.Native.String.{String}
use mathlib.Core.Bool.{Bool, true, false, ◌&&◌, ◌||◌}
use mathlib.Core.Option.{Option, none, some}
use mathlib.Core.List.{List, [], ◌∷◌}
use bgpulse.Base.Tests.{ltb, leb, ◌==◌, if◌then◌else◌}

-- The library's integers, over the native numbers.
pub data ℤ : Type 0 where
  pos negsuc : ℕ → ℤ

abbrev pub between : ℕ → ℕ → ℕ → Bool
between lo hi n = leb lo n && leb n hi

-- `unicode.IsSpace`
abbrev pub is_space : Char → Bool
is_space c =
    let n = code c in
    between 9 13 n
    || (n == 32
        || (n == 133
            || (n == 160
                || (n == 5760
                    || (between 8192 8202 n
                        || (between 8232 8233 n || (n == 8239 || (n == 8287 || n == 12288))))))))

abbrev pub is_return : Char → Bool
is_return c = code c == 13

unfoldable pub trim_left : (Char → Bool) → String → String
trim_left p String.[] = String.[]
trim_left p (String.◌∷◌ c s) = let rest = trim_left p s in if p c then rest else String.◌∷◌ c s

unfoldable pub trim_right : (Char → Bool) → String → String
trim_right p String.[] = String.[]
trim_right p (String.◌∷◌ c s) = elim (trim_right p s) [
  | String.[] ↦ if p c then String.[] else String.◌∷◌ c String.[]
  | String.◌∷◌ d rest ↦ String.◌∷◌ c (String.◌∷◌ d rest)
]

-- `strings.TrimSpace`
unfoldable pub trim_space : String → String
unfolding trim_left trim_right
trim_space s = trim_right is_space (trim_left is_space s)

-- The text before the first separator, and the text behind it, if there is one.
unfoldable pub cut : ℕ → String → String × Option String
cut sep String.[] = (String.[], none)
cut sep (String.◌∷◌ c s) =
    let (before, after) = cut sep s in
    if code c == sep then (String.[], some s) else (String.◌∷◌ c before, after)

-- `strings.SplitN` for a separator of one character and at least one part.
unfoldable pub split_n : ℕ → ℕ → String → List String
unfolding cut
split_n sep zero s = s ∷ []
split_n sep (suc n) s =
    let (before, after) = cut sep s in
    elim after [ none ↦ before ∷ [] | some rest ↦ before ∷ split_n sep n rest ]

-- `s == ""`
abbrev pub is_empty : String → Bool
is_empty String.[] = true
is_empty (String.◌∷◌ c s) = false

-- `strings.HasPrefix` for one character.
abbrev pub starts_with : ℕ → String → Bool
starts_with n String.[] = false
starts_with n (String.◌∷◌ c s) = code c == n

-- The value of decimal digits after those of value `acc`.
unfoldable pub digits_value : ℕ → String → Option ℕ
digits_value acc String.[] = some acc
digits_value acc (String.◌∷◌ c s) =
    let value = digits_value (acc * 10 + (code c - 48)) s in
    if between 48 57 (code c) then value else none

-- Digits, at least one, of a value below the limit.
unfoldable pub parse_digits : ℕ → String → Option ℕ
unfolding digits_value
parse_digits limit s =
    if is_empty s
    then none
    else elim (digits_value 0 s) [ none ↦ none | some n ↦ if ltb n limit then some n else none ]

-- `strconv.ParseUint(s, 10, 32)`
unfoldable pub parse_uint32 : String → Option ℕ
unfolding parse_digits
parse_uint32 s = parse_digits (2 ^ 32) s

abbrev pub negated : ℕ → ℤ
negated zero = pos 0
negated (suc n) = negsuc n

-- `strconv.Atoi` where an int has 64 bits.
unfoldable pub atoi : String → Option ℤ
unfolding parse_digits
atoi String.[] = none
atoi (String.◌∷◌ c s) =
    if code c == 45
    then elim (parse_digits (2 ^ 63 + 1) s) [ none ↦ none | some n ↦ some (negated n) ]
    else if code c == 43
    then elim (parse_digits (2 ^ 63) s) [ none ↦ none | some n ↦ some (pos n) ]
    else elim (parse_digits (2 ^ 63) (String.◌∷◌ c s)) [ none ↦ none | some n ↦ some (pos n) ]

-- `strings.TrimPrefix(s, "AS")`
unfoldable pub trim_as : String → String
trim_as String.[] = String.[]
trim_as (String.◌∷◌ c String.[]) = String.◌∷◌ c String.[]
trim_as (String.◌∷◌ c (String.◌∷◌ d s)) =
    if code c == 65 && code d == 83 then s else String.◌∷◌ c (String.◌∷◌ d s)
