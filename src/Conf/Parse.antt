-- ===== src/Conf/Parse.antt =====
-- internal/conf/config.go: `parse` and `ParseText`. The text that a reader gives is its bytes, and
-- what os.UserHomeDir answers is `home`.
use cubrid_testkit.Prelude.{
  ℕ, suc, ◌%◌, ◌*◌, Bool, true, false, not, ◌&&◌, ◌||◌, List, [], ◌∷◌, ◌++◌, Option, none, some,
  leb, ltb, nat_beq, if◌then◌else◌, Bytes, length,
}
use mathlib.Core.List.{reverse}
use cubrid_testkit.Prelude.Strings.{codes, has_prefix, trim_left}
use cubrid_testkit.Conf.Text.{
  is_blank, is_gap, trailing_backslashes, split_entry, unescape, substitute,
}
use cubrid_testkit.Conf.Config.{Config, empty_config, set_value}

pub data ParseError : Type 0 where
  bad_escape : ℕ → ParseError
  token_too_long : ParseError
  ends_in_continuation : ParseError

pub data Parsed : Type 0 where
  parsed : Config → Parsed
  failed : ParseError → Parsed

-- The size that `sc.Buffer` allows a line and its newline.
abbrev pub max_token : ℕ
max_token = 4 * 1024 * 1024

-- bufio.ScanLines drops one carriage return at the end of a line.
abbrev pub drop_cr : Bytes → Bytes
drop_cr s = elim (reverse s) [ [] ↦ [] | c ∷ front ↦ if nat_beq c 0x0d then reverse front else s ]

-- The lines of a text, their newlines removed; a last line needs none.
unfoldable pub lines_of : Bytes → List Bytes
lines_of [] = []
lines_of (c ∷ s) =
    let rest = lines_of s in
    if nat_beq c 0x0a
    then [] ∷ rest
    else elim rest [ [] ↦ (c ∷ []) ∷ [] | line ∷ more ↦ (c ∷ line) ∷ more ]

-- A line joined to what the lines before it left open.
abbrev pub joined : Bytes → Bytes → Bytes
joined pending line =
    if ltb 0 (length pending) then pending ++ trim_left is_blank line else trim_left is_gap line

-- A blank line or a comment, where no line is open.
abbrev pub is_ignored : Bytes → Bytes → Bool
is_ignored pending line =
    not (ltb 0 (length pending))
    && (not (ltb 0 (length line)) || has_prefix line (codes "#") || has_prefix line (codes "!"))

-- strings.TrimSuffix(line, `\`) of a line that ends so.
abbrev without_last : Bytes → Bytes
without_last line = elim (reverse line) [ [] ↦ [] | c ∷ front ↦ reverse front ]

-- How the loop goes on: with a line left open and a configuration, or not at all.
pub data Step : Type 0 where
  goes_on : Bytes → Config → Step
  stops : ParseError → Step

module _ (home : Option Bytes) (ctp_home : Bytes) where
  -- An entry that is complete.
  unfoldable pub take_entry : ℕ → Bytes → Config → Step
  unfolding unescape split_entry substitute set_value
  take_entry line_no line c = elim (unescape (split_entry line).1) [
    | none ↦ stops (bad_escape line_no)
    | some value ↦ goes_on [] (set_value (split_entry line).0 (substitute home ctp_home value) c)
  ]

  -- The body of the loop.
  unfoldable pub take_line : ℕ → Bytes → Bytes → Config → Step
  unfolding take_entry trailing_backslashes trim_left has_prefix
  take_line line_no pending text c =
      let line = joined pending text in
      if is_ignored pending line
      then goes_on [] c
      else if nat_beq (trailing_backslashes line % 2) 1
      then goes_on (without_last line) c
      else take_entry line_no line c

  unfoldable pub parse_from : ℕ → Bytes → Config → List Bytes → Parsed
  unfolding take_line
  parse_from line_no pending c [] =
      if ltb 0 (length pending) then failed ends_in_continuation else parsed c
  parse_from line_no pending c (line ∷ rest) = elim (leb max_token (length line)) [
    | true ↦ failed token_too_long
    | false ↦ elim (take_line (suc line_no) pending (drop_cr line) c) [
      | stops e ↦ failed e
      | goes_on pending' c' ↦ parse_from (suc line_no) pending' c' rest
    ]
  ]

  -- `parse`
  unfoldable pub parse : Bytes → Parsed
  unfolding parse_from lines_of
  parse text = parse_from 0 [] empty_config (lines_of text)

  -- `ParseText`
  unfoldable pub parse_text : Bytes → Bytes → Parsed
  unfolding parse
  parse_text name text = elim (parse text) [
    | failed e ↦ failed e
    | parsed c ↦ parsed (record c { path = name })
  ]
