-- ===== src/Harepl/Inserts.antt =====
-- internal/runner/hareplsuite/convert.go: convertCreate, nameColumns, insertHeadAt and Apply.
use cubrid_testkit.Prelude.{
  ℕ, zero, suc, ◌+◌, ◌-◌, Bool, true, false, not, ◌&&◌, ◌||◌, List, [], ◌∷◌, ◌++◌, Option, none,
  some, ltb, if◌then◌else◌, ◌==◌, nat_eq, Bytes, bytes_eq, length, take, drop, elem,
}
use cubrid_testkit.Prelude.Strings.{codes, index, to_lower, join}
use cubrid_testkit.Prelude.Dict.{lookup, insert}
use cubrid_testkit.Harepl.Statements.{is_word_rune, to_upper, word, word_at, skip_space, contains}
use cubrid_testkit.Harepl.Convert.{
  Conversion, index_at_depth, column_names, table_name_of, subclass_of, is_create_table,
}

-- What a statement becomes, and whether it was changed; a CREATE may be recorded without a change.
pub record Converted : Type 0 where
  pub cols : Conversion
  pub out : Bytes
  pub changed : Bool

abbrev pub unchanged : Conversion → Bytes → Converted
unchanged c stmt = record { cols = c; out = stmt; changed = false }

-- The text that makes the key column, and the one constraint that a table may not have twice.
abbrev pub primary_key : Bytes
primary_key = codes "PRIMARY KEY"

abbrev pub key_column : Bytes
key_column = codes "tk_repl_key"

abbrev pub key_text : Bytes
key_text = codes ", " ++ (key_column ++ codes " INT AUTO_INCREMENT PRIMARY KEY")

-- The text between the first parenthesis and its end, with the place where the text ends.
unfoldable pub column_list : Bytes → Option (ℕ × Bytes)
unfolding index_at_depth
column_list stmt = elim (index_at_depth stmt b'(') [
  | none ↦ none
  | some at ↦
      let inner = drop (at + 1) stmt in
      elim (index_at_depth inner b')') [
        | none ↦ none
        | some end ↦ some (at + 1 + end, take end inner)
      ]
]

own_columns : Option (ℕ × Bytes) → List Bytes
own_columns none = []
own_columns (some (at, list)) = column_names list

-- A subclass has its parent's columns, where the parent was converted, and is not changed.
unfoldable pub convert_subclass : Conversion → Bytes → Bytes → Converted
unfolding own_columns column_list table_name_of to_lower lookup insert
convert_subclass c stmt parent = elim (lookup (to_lower parent) c) [
  | none ↦ unchanged c stmt
  | some inherited ↦
      let table = table_name_of stmt in
      if length table == 0
      then unchanged c stmt
      else unchanged (insert (to_lower table) (inherited ++ own_columns (column_list stmt)) c) stmt
]

-- A table of its own: the key column goes behind its columns, which are recorded.
unfoldable pub add_key : Conversion → Bytes → Option (ℕ × Bytes) → Converted
unfolding table_name_of column_names to_lower insert
add_key c stmt none = unchanged c stmt
add_key c stmt (some (at, list)) =
    let table = table_name_of stmt in
    let cols = column_names list in
    if length table == 0 || length cols == 0 then unchanged c stmt else record {
      cols = insert (to_lower table) cols c;
      out = take at stmt ++ (key_text ++ drop at stmt);
      changed = true;
    }

unfoldable pub takes_key : Bytes → Bool
unfolding is_create_table to_upper index
takes_key stmt =
    let upper = to_upper stmt in
    is_create_table stmt
    && not (contains upper primary_key)
    && not (contains upper (codes "AUTO_INCREMENT"))

-- `convertCreate`
unfoldable pub convert_create : Conversion → Bytes → Converted
unfolding takes_key convert_subclass add_key column_list subclass_of
convert_create c stmt =
    if not (takes_key stmt)
    then unchanged c stmt
    else if ltb 0 (length (subclass_of stmt))
    then convert_subclass c stmt (subclass_of stmt)
    else add_key c stmt (column_list stmt)

-- What stands behind INSERT or REPLACE, the runes `s` of the whole head: its table, and its length.
unfoldable pub head_at : Bytes → Bytes → Option (Bytes × ℕ)
unfolding word word_at skip_space elem
head_at s name_on =
    let behind = skip_space (drop (length (word name_on)) name_on) in
    if length (word name_on) == 0
    then none
    else if elem (word_at behind) (codes "VALUES" ∷ codes "SELECT" ∷ [])
    then some (word name_on, length s - length behind)
    else none

-- `insertHeadAt`, from the rune before the position and the runes from it on.
unfoldable pub insert_head_at : ℕ → Bytes → Option (Bytes × ℕ)
unfolding head_at word_at skip_space elem
insert_head_at before s =
    let kw = word_at s in
    let behind = skip_space (drop (length kw) s) in
    if is_word_rune before
    then none
    else if not (elem kw (codes "INSERT" ∷ codes "REPLACE" ∷ []))
    then none
    else if word_at behind == codes "INTO"
    then head_at s (skip_space (drop 4 behind))
    else if kw == codes "REPLACE"
    then none
    else head_at s behind

abbrev pub column_text : List Bytes → Bytes
column_text cols = b'(' ∷ (join cols (codes ", ") ++ codes ") ")

-- What is written behind a head: the columns of a table that was converted.
abbrev pub named : Option (List Bytes) → Bytes
named none = []
named (some cols) = column_text cols

abbrev pub last_of : ℕ → Bytes → ℕ
last_of before [] = before
last_of before (c ∷ s) = last_of c s

-- The loop of `nameColumns`: the text, and whether it was changed. Each turn takes a rune.
unfoldable pub name_from : Conversion → ℕ → ℕ → Bytes → Bytes × Bool
unfolding insert_head_at to_lower lookup join
name_from cols zero before s = ([], false)
name_from cols (suc fuel) before [] = ([], false)
name_from cols (suc fuel) before (c ∷ s) = elim (insert_head_at before (c ∷ s)) [
  | none ↦ let (out, changed) = name_from cols fuel c s in (c ∷ out, changed)
  | some (table, n) ↦
      let head = take n (c ∷ s) in
      let found = lookup (to_lower table) cols in
      let (out, changed) = name_from cols fuel (last_of before head) (drop n (c ∷ s)) in
      (head ++ (named found ++ out), elim found [ none ↦ changed | some list ↦ true ])
]

-- `nameColumns`
unfoldable pub name_columns : Conversion → Bytes → Bytes × Bool
unfolding name_from
name_columns c stmt =
    if length c == 0 then (stmt, false) else name_from c (suc (length stmt)) 0 stmt

-- `Apply`
unfoldable pub apply_conversion : Conversion → Bytes → Converted
unfolding convert_create name_columns
apply_conversion c stmt =
    let created = convert_create c stmt in
    let (out, changed) = name_columns created.cols stmt in
    if created.changed
    then created
    else record { cols = created.cols; out = out; changed = changed }
