-- ===== src/Relationships/Loading.antt =====
-- backend/internal/relationships/caida.go and names.go: the two parsers, line by line. What the
-- scanner delivers is a list of lines, with a flag for a scanner that stops at an error.
pub mod Caida
pub mod Outcome
mod Tests
use Prim.Native.Char.{code}
use Prim.Native.String.{String}
use bgpulse.Base.{
  ℕ, zero, suc, ◌+◌, Bool, true, false, ◌||◌, ◌&&◌, Option, none, some, List, [], ◌∷◌,
  if◌then◌else◌, ◌==◌,
}
use bgpulse.Base.Text.{
  ℤ, pos, negsuc, is_return, trim_right, trim_space, cut, split_n, is_empty, starts_with,
  parse_uint32, atoi, trim_as,
}
use bgpulse.Bgp.Types.{Asn, RelStatus, customer, peer, provider}
use bgpulse.Relationships.{RelStore, Builder, AddError, new_builder, add_rel, set_name, build}

-- `caidaRel`, where `none` is its error.
abbrev pub caida_rel : ℤ → Option RelStatus
caida_rel (negsuc zero) = some customer
caida_rel (negsuc (suc n)) = none
caida_rel (pos zero) = some peer
caida_rel (pos (suc zero)) = some provider
caida_rel (pos (suc (suc n))) = none

-- What is wrong with a line, or `read_error` for the scanner.
pub data LoadError : Type 0 where
  malformed bad_as1 bad_as2 bad_rel bad_asn read_error : LoadError
  unsupported_rel : ℤ → LoadError
  refused : AddError → LoadError

-- A line says nothing, is an error, or is the arguments of a call.
pub data Parsed (A : Type 0) : Type 0 where
  skipped : Parsed A
  bad : LoadError → Parsed A
  entry : A → Parsed A

-- A line without its line end and its outer spaces.
unfoldable pub line_text : String → String
unfolding trim_right
line_text line = trim_space (trim_right is_return line)

-- A blank line or a comment.
abbrev pub says_nothing : String → Bool
says_nothing text = is_empty text || starts_with 35 text

-- The fields of a data line: the arguments of `b.Add`.
unfoldable pub parse_fields : List String → Parsed (Asn × Asn × RelStatus)
parse_fields (f0 ∷ (f1 ∷ (f2 ∷ more))) = elim (parse_uint32 (trim_space f0)) [
  | none ↦ bad bad_as1
  | some as1 ↦ elim (parse_uint32 (trim_space f1)) [
    | none ↦ bad bad_as2
    | some as2 ↦ elim (atoi (trim_space f2)) [
      | none ↦ bad bad_rel
      | some code ↦ elim (caida_rel code) [
        | none ↦ bad (unsupported_rel code)
        | some rel ↦ entry (as1, as2, rel)
      ]
    ]
  ]
]
parse_fields [] = bad malformed
parse_fields (f0 ∷ []) = bad malformed
parse_fields (f0 ∷ (f1 ∷ [])) = bad malformed

unfoldable pub parse_line : String → Parsed (Asn × Asn × RelStatus)
unfolding line_text parse_fields
parse_line line =
    let text = line_text line in
    if says_nothing text then skipped else parse_fields (split_n 124 3 text)

-- `ParseCAIDA` after `line` lines: the builder, and the error with its line number.
unfoldable pub parse_caida : Builder → ℕ → List String → Bool → Builder × Option (ℕ × LoadError)
parse_caida b line [] read_failed = (b, if read_failed then some (line, read_error) else none)
parse_caida b line (text ∷ rest) read_failed = elim (parse_line text) [
  | skipped ↦ parse_caida b (line + 1) rest read_failed
  | bad e ↦ (b, some (line + 1, e))
  | entry (as1, as2, rel) ↦ elim (add_rel b as1 as2 rel).1 [
    | none ↦ parse_caida (add_rel b as1 as2 rel).0 (line + 1) rest read_failed
    | some e ↦ (b, some (line + 1, refused e))
  ]
]

pub data Loaded : Type 0 where
  loaded : RelStore → Loaded
  failed : ℕ → LoadError → Loaded

-- `LoadCAIDA`
unfoldable pub load_caida : List String → Bool → Loaded
unfolding parse_caida
load_caida lines read_failed =
    let (b, err) = parse_caida new_builder 0 lines read_failed in
    elim err [ none ↦ loaded (build b) | some (line, e) ↦ failed line e ]

-- `splitASNName` at the first separator that the line holds: a pipe, a tab or a space.
unfoldable pub split_at : List ℕ → String → String × String
split_at [] line = (trim_space line, "")
split_at (sep ∷ seps) line =
    let rest = split_at seps line in
    elim (cut sep line).1 [
      | none ↦ rest
      | some after ↦ (trim_space (cut sep line).0, trim_space after)
    ]

unfoldable pub split_asn_name : String → String × String
unfolding split_at
split_asn_name line = split_at (124 ∷ 9 ∷ 32 ∷ []) line

-- A line of the name table: the arguments of `b.SetName`.
unfoldable pub parse_name_line : String → Parsed (Asn × String)
unfolding line_text split_asn_name trim_as
parse_name_line line =
    let text = line_text line in
    if says_nothing text
    then skipped
    else let (asn_field, name) = split_asn_name text in
      elim (parse_uint32 (trim_as asn_field)) [ none ↦ bad bad_asn | some asn ↦ entry (asn, name) ]

-- `ParseNames` after `line` lines.
unfoldable pub parse_names : Builder → ℕ → List String → Bool → Builder × Option (ℕ × LoadError)
parse_names b line [] read_failed = (b, if read_failed then some (line, read_error) else none)
parse_names b line (text ∷ rest) read_failed = elim (parse_name_line text) [
  | skipped ↦ parse_names b (line + 1) rest read_failed
  | bad e ↦ (b, some (line + 1, e))
  | entry (asn, name) ↦ parse_names (set_name b asn name) (line + 1) rest read_failed
]
