-- ===== src/Plan/Sizes.antt =====
-- internal/plan/sizes.go: how many megabytes each case directory holds. A map is an association
-- list; a record is a step at a time, as its mutex makes it. No number is below zero.
use cubrid_testkit.Prelude.{
  ℕ, zero, Bool, true, false, ◌&&◌, ◌||◌, List, [], ◌∷◌, ◌++◌, Option, none, some, nat_beq,
  if◌then◌else◌, Bytes, bytes_eq, length, map,
}
use cubrid_testkit.Prelude.Dict.{Dict, insert, read}
use cubrid_testkit.Prelude.Trim.{trim_space}
use cubrid_testkit.Prelude.Strings.{
  codes, has_prefix, trim_left, trim_right, decimal, is_digit, atoi_digits,
}
use cubrid_testkit.Plan.Order.{copied, written_names}

-- `Sizes`: its map `mb`; `none` stands for the nil record.
abbrev pub Sizes : Type 0
Sizes = Option (Dict Bytes ℕ)

-- `ContinueSizes`
unfoldable pub continue_sizes : Dict Bytes ℕ → Sizes
unfolding copied
continue_sizes prior = some (copied [] prior)

-- `Sizes.Add`
unfoldable pub add_size : Bytes → ℕ → Sizes → Sizes
add_size dir mb none = none
add_size dir mb (some sizes) =
    if nat_beq (length dir) 0 || nat_beq mb 0 then some sizes else some (insert dir mb sizes)

-- `Merge`, over the entries in the order in which the map gives them.
unfoldable pub merge_sizes : Dict Bytes ℕ → Sizes → Sizes
unfolding add_size
merge_sizes [] s = s
merge_sizes (entry ∷ rest) s = merge_sizes rest (add_size entry.0 entry.1 s)

-- `%d %s`
abbrev pub size_line : ℕ → Bytes → Bytes
size_line mb dir = decimal mb ++ b' ' ∷ dir

-- The lines that `Write` writes, from the order in which the map gives the directories.
unfoldable pub size_lines : Dict Bytes ℕ → List Bytes → List Bytes
unfolding written_names decimal
size_lines sizes dirs = map (λ dir. size_line (read 0 dir sizes) dir) (written_names sizes dirs)

-- `line[:at]` and `line[at+1:]` for the first space.
unfoldable pub cut_space : Bytes → Option (Bytes × Bytes)
cut_space [] = none
cut_space (c ∷ s) = elim (nat_beq c b' ') [
  | true ↦ some ([], s)
  | false ↦ elim (cut_space s) [ none ↦ none | some (before, after) ↦ some (c ∷ before, after) ]
]

abbrev pub all_digits : Bytes → Bool
all_digits [] = true
all_digits (c ∷ s) = is_digit c && all_digits s

unfoldable pub unsigned : Bytes → Option ℕ
unfolding atoi_digits
unsigned s = if all_digits s then atoi_digits s else none

zero_only : Option ℕ → Option ℕ
zero_only (some zero) = some 0
zero_only _ = none

-- strconv.Atoi, where it gives a number that is not negative.
unfoldable pub atoi_positive : Bytes → Option ℕ
unfolding unsigned zero_only
atoi_positive [] = none
atoi_positive (c ∷ s) =
    if nat_beq c b'+'
    then unsigned s
    else if nat_beq c b'-'
    then zero_only (unsigned s)
    else unsigned (c ∷ s)

abbrev pub stored : Bytes → ℕ → Dict Bytes ℕ → Dict Bytes ℕ
stored dir mb out = if nat_beq (length dir) 0 then out else insert dir mb out

-- What the loop of `ReadSizes` does with a trimmed line that is neither empty nor a comment.
unfoldable pub read_entry : Bytes → Dict Bytes ℕ → Dict Bytes ℕ
unfolding cut_space atoi_positive trim_left trim_right
read_entry line out = elim (cut_space line) [
  | none ↦ out
  | some (number, dir) ↦ elim (atoi_positive number) [
    | none ↦ out
    | some mb ↦ stored (trim_space dir) mb out
  ]
]

-- The body of the loop of `ReadSizes`.
unfoldable pub read_size : Bytes → Dict Bytes ℕ → Dict Bytes ℕ
unfolding read_entry trim_left trim_right has_prefix
read_size text out =
    let line = trim_space text in
    if nat_beq (length line) 0 || has_prefix line (codes "#") then out else read_entry line out

-- The loop of `ReadSizes` over the lines of the file.
unfoldable pub read_sizes : List Bytes → Dict Bytes ℕ → Dict Bytes ℕ
unfolding read_size
read_sizes [] out = out
read_sizes (line ∷ rest) out = read_sizes rest (read_size line out)
