-- ===== src/Conf/Ini.antt =====
-- internal/conf/ini.go: a configuration file with sections, from its text, which is ASCII.
use cubrid_testkit.Prelude.{
  leb, length, ℕ, ◌+◌, ◌-◌, true, false, ◌||◌, List, [], ◌∷◌, Option, none, some, if◌then◌else◌,
  ◌==◌, nat_eq, Bytes, bytes_eq, take,
}
use cubrid_testkit.Prelude.Dict.{Dict, lookup, insert, or_default}
use cubrid_testkit.Prelude.Trim.{trim_space}
use cubrid_testkit.Conf.Text.{substitute}
use cubrid_testkit.Conf.Parse.{max_token, drop_cr, lines_of}

-- `Ini`, by its field `sections`.
abbrev pub Ini : Type 0
Ini = Dict Bytes (Dict Bytes Bytes)

-- The section that is open, and what was read; an unterminated section ends the reading.
pub record Place : Type 0 where
  pub section : Bytes
  pub read : Ini

-- strings.IndexByte
unfoldable pub index_byte : ℕ → Bytes → Option ℕ
index_byte c [] = none
index_byte c (x ∷ s) = elim (x == c) [
  | true ↦ some 0
  | false ↦ elim (index_byte c s) [ none ↦ none | some i ↦ some (i + 1) ]
]

-- strings.Cut(line, "="), and the whole line with no value where there is no separator.
unfoldable pub cut_value : Bytes → Bytes × Bytes
cut_value [] = ([], [])
cut_value (c ∷ s) =
    let (key, value) = cut_value s in if c == b'=' then ([], s) else (c ∷ key, value)

-- A key of a section, in a map that is made where the section has none.
unfoldable pub store : Bytes → Bytes → Bytes → Ini → Ini
unfolding lookup insert
store section key value ini =
    insert section (insert key value (or_default [] (lookup section ini))) ini

unfoldable pub ini_entry : Option Bytes → Bytes → Bytes → Place → Place
unfolding store cut_value substitute
ini_entry user home line p =
    let (key, value) = cut_value line in
    record p {
      read = store p.section (trim_space key) (substitute user home (trim_space value)) p.read;
    }

-- A line of the file (`user` is what os.UserHomeDir answers), less its white space.
unfoldable pub ini_line : Option Bytes → Bytes → Bytes → Place → Option Place
unfolding ini_entry index_byte
ini_line user home [] p = some p
ini_line user home (c ∷ s) p =
    if c == b'#' || c == b';'
    then some p
    else if c == b'['
    then elim (index_byte b']' (c ∷ s)) [
      | none ↦ none
      | some end ↦ some (record p { section = trim_space (take (end - 1) s) })
    ]
    else some (ini_entry user home (c ∷ s) p)

-- The loop over the lines that the scanner gives, which is stopped by a line that is too long.
unfoldable pub ini_lines : Option Bytes → Bytes → List Bytes → Place → Option Place
unfolding ini_line
ini_lines user home [] p = some p
ini_lines user home (line ∷ lines) p = elim (leb max_token (length line)) [
  | true ↦ none
  | false ↦ elim (ini_line user home (trim_space (drop_cr line)) p) [
    | none ↦ none
    | some p' ↦ ini_lines user home lines p'
  ]
]

-- `LoadIni`, from the text of the file; none is the error of an unterminated section or of a line that
-- is too long.
unfoldable pub load_ini : Option Bytes → Bytes → Bytes → Option Ini
unfolding ini_lines lines_of
load_ini user home text =
    elim (ini_lines user home (lines_of text) (record { section = []; read = [] })) [
      | none ↦ none
      | some p ↦ some p.read
    ]

-- `Get`
unfoldable pub ini_get : Bytes → Bytes → Ini → Option Bytes
unfolding lookup
ini_get section key ini = lookup key (or_default [] (lookup section ini))

-- `GetOr`
unfoldable pub ini_get_or : Bytes → Bytes → Bytes → Ini → Bytes
unfolding ini_get
ini_get_or section key fallback ini = or_default fallback (ini_get section key ini)
