-- ===== src/Harepl/Batch.antt =====
-- internal/runner/hareplsuite/batch.go: statements sent to csql in one call, and its output taken
-- apart again at the result markers. The text is ASCII, and no line number is above the 64-bit int.
use cubrid_testkit.Prelude.{
  ℕ, suc, ◌+◌, Bool, true, false, ◌&&◌, ◌||◌, List, [], ◌∷◌, ◌++◌, map, Option, none, some, ltb,
  if◌then◌else◌, ◌==◌, nat_eq, Bytes, bytes_eq, length, drop,
}
use mathlib.Core.List.{reverse}
use cubrid_testkit.Prelude.Strings.{
  codes, has_prefix, split_on, join, span_digits, number_of, to_lower, index,
}
use cubrid_testkit.Prelude.Dict.{Dict, insert, read}
use cubrid_testkit.Prelude.Trim.{trim_space}
use cubrid_testkit.Harepl.Statements.{is_read, is_directive, contains}

abbrev pub newline : ℕ
newline = 0x0a

-- strings.Count(s, "\n")
unfoldable pub newlines : Bytes → ℕ
newlines [] = 0
newlines (c ∷ s) = let rest = newlines s in if c == newline then suc rest else rest

-- A statement as it stands in the script, and the lines it takes.
abbrev pub terminated : Bytes → Bytes
terminated s = s ++ b';' ∷ newline ∷ []

abbrev pub lines_of : Bytes → ℕ
lines_of s = newlines s + 1

pub record Batch : Type 0 where
  pub script : Bytes
  pub line : List ℕ

unfoldable pub script_of : List Bytes → Bytes
script_of [] = []
script_of (s ∷ stmts) = terminated s ++ script_of stmts

-- The line behind the statements, where the first of them begins at `at`.
unfoldable pub line_behind : ℕ → List Bytes → ℕ
unfolding newlines
line_behind at [] = at
line_behind at (s ∷ stmts) = line_behind (at + lines_of s) stmts

unfoldable pub lines_from : ℕ → List Bytes → List ℕ
unfolding newlines
lines_from at [] = []
lines_from at (s ∷ stmts) = at ∷ lines_from (at + lines_of s) stmts

-- `newBatchWith`
unfoldable pub new_batch_with : List Bytes → List Bytes → Batch
unfolding script_of lines_from line_behind
new_batch_with prelude stmts = record {
  script = script_of prelude ++ script_of stmts;
  line = lines_from (line_behind 1 prelude) stmts;
}

-- `newBatch`
unfoldable pub new_batch : List Bytes → Batch
unfolding new_batch_with
new_batch = new_batch_with []

-- `IsSessionStatement`
unfoldable pub is_session_statement : Bytes → Bool
unfolding to_lower index has_prefix
is_session_statement stmt =
    let s = to_lower (trim_space stmt) in
    has_prefix s (codes "set system parameters")
    || has_prefix s (codes "call login")
    || has_prefix s (codes "call ") && contains s (codes " login ") && contains s (codes "db_user")

abbrev pub result_of : Bytes
result_of = codes "=== <Result of "

abbrev pub in_line_words : Bytes
in_line_words = codes "Command in Line "

abbrev pub marker_end : Bytes
marker_end = codes "> ==="

-- The text before the first `>`, and the text from it on.
unfoldable pub until_bracket : Bytes → Bytes × Bytes
until_bracket [] = ([], [])
until_bracket (c ∷ s) =
    let (before, rest) = until_bracket s in if c == b'>' then ([], c ∷ s) else (c ∷ before, rest)

-- The number at the end of `Command in Line 12`, read from the reversed text.
unfoldable pub line_at_end : Bytes → Option ℕ
unfolding span_digits number_of has_prefix
line_at_end reversed =
    let (digits, before) = span_digits reversed in
    if ltb 0 (length digits) && has_prefix before (reverse in_line_words)
    then some (number_of 0 (reverse digits))
    else none

-- `resultMarker`, on a line less its white space: the line number of a marker. No `>` stands before
-- the one behind the number, so the expression matches in one way at most.
unfoldable pub marked_line : Bytes → Option ℕ
unfolding has_prefix until_bracket line_at_end
marked_line t =
    let (label, rest) = until_bracket (drop (length result_of) t) in
    if has_prefix t result_of && has_prefix rest marker_end
    then line_at_end (reverse label)
    else none

-- The variables of the loop; 0 for a `curLine` of -1, which is treated alike.
pub record Split : Type 0 where
  pub blocks : Dict ℕ Bytes
  pub cur : List Bytes
  pub cur_line : ℕ

-- The closure `flush`.
unfoldable pub flush_block : Split → Split
unfolding join
flush_block st = record {
  blocks =
      if ltb 0 st.cur_line
      then insert st.cur_line (join st.cur (newline ∷ [])) st.blocks
      else st.blocks;
  cur = [];
  cur_line = 0;
}

unfoldable pub split_line : Bytes → Option ℕ → Split → Split
unfolding flush_block
split_line line (some n) st = record (flush_block st) { cur_line = n }
split_line line none st = if ltb 0 st.cur_line then record st { cur = st.cur ++ line ∷ [] } else st

unfoldable pub split_lines : List Bytes → Split → Split
unfolding split_line marked_line
split_lines [] st = st
split_lines (line ∷ lines) st =
    split_lines lines (split_line line (marked_line (trim_space line)) st)

-- `splitResults`
unfoldable pub split_results : Bytes → Dict ℕ Bytes
unfolding split_lines flush_block split_on
split_results out =
    (flush_block
      (split_lines (split_on newline out) (record { blocks = []; cur = []; cur_line = 0 }))).blocks

-- `run`, from what csql prints for a script; its exit code is passed on as it is.
unfoldable pub run_batch : (Bytes → Bytes) → Batch → List Bytes
unfolding split_results
run_batch csql b = elim b.script [
  | [] ↦ []
  | c ∷ s ↦ let by_line = split_results (csql (c ∷ s)) in map (λ ln. read [] ln by_line) b.line
]

-- A run of statements of one kind, with their places in the case.
pub record Segment : Type 0 where
  pub reads : Bool
  pub stmts : List Bytes
  pub idx : List ℕ

-- A statement put behind the segments: into the last one where that is of its kind.
unfoldable pub add_statement : Bool → ℕ → Bytes → List Segment → List Segment
add_statement r i s [] = record { reads = r; stmts = s ∷ []; idx = i ∷ [] } ∷ []
add_statement r i s (g ∷ []) =
    if (if g.reads then r else if r then false else true)
    then record g { stmts = g.stmts ++ s ∷ []; idx = g.idx ++ i ∷ [] } ∷ []
    else g ∷ record { reads = r; stmts = s ∷ []; idx = i ∷ [] } ∷ []
add_statement r i s (g ∷ h ∷ rest) = g ∷ add_statement r i s (h ∷ rest)

unfoldable pub segments_from : ℕ → List Bytes → List Segment → List Segment
unfolding add_statement is_directive is_read
segments_from i [] out = out
segments_from i (s ∷ stmts) out =
    segments_from (i + 1) stmts (if is_directive s then out else add_statement (is_read s) i s out)

-- `segments`
unfoldable pub segments : List Bytes → List Segment
unfolding segments_from
segments stmts = segments_from 0 stmts []
