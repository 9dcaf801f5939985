-- ===== src/Harepl/Convert.antt =====
-- internal/runner/hareplsuite/convert.go: the key column that a case's tables are given, and its
-- INSERT statements around it. The text is ASCII, so that a rune is a byte.
use cubrid_testkit.Prelude.{
  ℕ, zero, suc, ◌+◌, Bool, false, not, ◌&&◌, ◌||◌, List, [], ◌∷◌, ◌++◌, Option, none, some,
  if◌then◌else◌, ◌==◌, nat_eq, Bytes, bytes_eq, length, take, drop, elem,
}
use cubrid_testkit.Prelude.Strings.{codes, has_prefix, index, trim_left, trim_right}
use cubrid_testkit.Prelude.Dict.{Dict}
use cubrid_testkit.Prelude.Trim.{is_white, trim_space}
use cubrid_testkit.Harepl.Statements.{to_upper, word, word_at, skip_space, contains}

-- `Conversion`, by its field `cols`.
abbrev pub Conversion : Type 0
Conversion = Dict Bytes (List Bytes)

-- The place that `indexAtDepth` has come to: the open quote or 0, and how many parentheses have
-- opened and closed, whose difference is the depth.
pub record Depth : Type 0 where
  pub quote : ℕ
  pub opened : ℕ
  pub closed : ℕ

abbrev pub top_level : Depth
top_level = record { quote = 0; opened = 0; closed = 0 }

-- A byte behind which the search goes on.
unfoldable pub deeper : ℕ → Depth → Depth
deeper ch at =
    if not (at.quote == 0)
    then record at { quote = if ch == at.quote then 0 else at.quote }
    else if ch == 39 || ch == 34
    then record at { quote = ch }
    else if ch == b'('
    then record at { opened = at.opened + 1 }
    else if ch == b')'
    then record at { closed = at.closed + 1 }
    else at

-- Whether a byte is the one that is looked for, outside of quotes and at depth 0. All callers of
-- `indexAtDepth` ask for depth 0.
unfoldable pub found_here : ℕ → ℕ → Depth → Bool
found_here c ch at =
    if not (at.quote == 0)
    then false
    else if ch == 39 || ch == 34
    then false
    else ch == c && at.opened == at.closed

abbrev pub one_more : Option ℕ → Option ℕ
one_more none = none
one_more (some i) = some (suc i)

unfoldable pub index_from : ℕ → Depth → Bytes → Option ℕ
unfolding deeper found_here
index_from c at [] = none
index_from c at (ch ∷ s) =
    let rest = index_from c (deeper ch at) s in if found_here c ch at then some 0 else one_more rest

-- `indexAtDepth(s, c, 0)`
unfoldable pub index_at_depth : Bytes → ℕ → Option ℕ
unfolding index_from
index_at_depth s c = index_from c top_level s

-- The loop of `splitTopLevel`; each piece takes a byte of the text, so its length is fuel enough.
unfoldable pub split_top_from : ℕ → Bytes → List Bytes
unfolding index_at_depth
split_top_from zero s = s ∷ []
split_top_from (suc fuel) s = elim (index_at_depth s b',') [
  | none ↦ s ∷ []
  | some i ↦ take i s ∷ split_top_from fuel (drop (suc i) s)
]

-- `splitTopLevel`
unfoldable pub split_top_level : Bytes → List Bytes
unfolding split_top_from
split_top_level s = split_top_from (length s) s

-- strings.Trim
abbrev trimmed_of : Bytes → Bytes → Bytes
trimmed_of cutset s = trim_right (λ c. elem c cutset) (trim_left (λ c. elem c cutset) s)

-- The cutset of a name: brackets, double quotes and backquotes.
abbrev name_quotes : Bytes
name_quotes = codes "[]" ++ 34 ∷ 96 ∷ []

-- The bytes before the first white space.
unfoldable pub until_white : Bytes → Bytes
until_white [] = []
until_white (c ∷ s) = let rest = until_white s in if is_white c then [] else c ∷ rest

-- `f[0]` of strings.Fields, empty where there is no field.
unfoldable pub first_field : Bytes → Bytes
unfolding until_white trim_left
first_field s = until_white (trim_left is_white s)

abbrev constraint_words : List Bytes
constraint_words =
    codes "PRIMARY"
    ∷ codes "FOREIGN"
    ∷ codes "UNIQUE"
    ∷ codes "INDEX"
    ∷ codes "KEY"
    ∷ codes "CONSTRAINT"
    ∷ codes "CHECK"
    ∷ codes "SHARED"
    ∷ []

unfoldable pub names_of : List Bytes → List Bytes
unfolding first_field to_upper trim_left trim_right elem
names_of [] = []
names_of (item ∷ items) =
    let f = first_field (trim_space item) in
    let rest = names_of items in
    if length f == 0
    then rest
    else if elem (to_upper f) constraint_words
    then rest
    else trimmed_of (name_quotes ++ b',' ∷ []) f ∷ rest

-- `columnNames`
unfoldable pub column_names : Bytes → List Bytes
unfolding names_of split_top_level
column_names list = names_of (split_top_level list)

-- The name behind IF NOT EXISTS, whose words stand in any number there.
unfoldable pub named_at : ℕ → Bytes → Bytes
unfolding word_at word skip_space trim_left trim_right elem
named_at zero s = []
named_at (suc fuel) s =
    let w = word_at s in
    let rest = named_at fuel (skip_space (drop (length w) s)) in
    if elem w (codes "IF" ∷ codes "NOT" ∷ codes "EXISTS" ∷ [])
    then rest
    else trimmed_of name_quotes (word s)

-- `tableNameOf`; each turn takes a byte.
unfoldable pub table_from : ℕ → Bytes → Bytes
unfolding word_at skip_space named_at elem
table_from zero s = []
table_from (suc fuel) s =
    let kw = word_at s in
    let behind = skip_space (drop (length kw) s) in
    let on = table_from fuel (if length kw == 0 then drop 1 s else behind) in
    if length s == 0
    then []
    else if elem kw (codes "TABLE" ∷ codes "CLASS" ∷ [])
    then named_at (suc (length behind)) behind
    else on

unfoldable pub table_name_of : Bytes → Bytes
unfolding table_from
table_name_of stmt = table_from (suc (length stmt)) stmt

-- What stands behind SUBCLASS.
unfoldable pub parent_at : Bytes → Bytes
unfolding word_at word skip_space trim_left trim_right elem
parent_at s =
    if word_at s == codes "OF" then trimmed_of name_quotes (word (skip_space (drop 2 s))) else []

-- `subclassOf`; each turn takes a byte.
unfoldable pub parent_from : ℕ → Bytes → Bytes
unfolding word_at skip_space parent_at
parent_from zero s = []
parent_from (suc fuel) s =
    let kw = word_at s in
    let behind = skip_space (drop (length kw) s) in
    let on = parent_from fuel (if length kw == 0 then drop 1 s else behind) in
    if length s == 0 then [] else if kw == codes "SUBCLASS" then parent_at behind else on

unfoldable pub subclass_of : Bytes → Bytes
unfolding parent_from
subclass_of stmt = parent_from (suc (length stmt)) stmt

-- `isCreateTable`
unfoldable pub is_create_table : Bytes → Bool
unfolding to_upper has_prefix index
is_create_table stmt =
    let s = to_upper (trim_space stmt) in
    if not (has_prefix s (codes "CREATE"))
    then false
    else contains s (codes " TABLE ") || contains s (codes " CLASS ")
