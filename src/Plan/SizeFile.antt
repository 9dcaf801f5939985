-- ===== src/Plan/SizeFile.antt =====
-- A file of sizes that is written is read back.
use cubrid_testkit.Prelude.{
  ℕ, ◌≤◌, ◌<◌, ◌≡◌, refl, sym, ap, ◌∙◌, List, [], ◌∷◌, none, some, if◌then◌else◌, Bytes, bytes_eq,
  bytes_beq_iff, elem, count, count_self, elem-count, count-elem, map, arith, Bool-cases, inl, inr,
}
use cubrid_testkit.Prelude.Dict.{Dict, lookup, insert, read, lookup-insert}
use cubrid_testkit.Prelude.Strings.{max_int}
use cubrid_testkit.Prelude.Sort.{sort, count-sort}
use cubrid_testkit.Plan.Order.{written_before, written_names}
use cubrid_testkit.Plan.Sizes.{size_line, size_lines, read_sizes}
use cubrid_testkit.Prelude.Trim.{IsTrimmed}
use cubrid_testkit.Plan.SizeLines.{read_size-size_line}

-- Every one of the directories can be written: its name has no white space at its ends, and its size
-- is an int.
abbrev pub AreWritable : Dict Bytes ℕ → List Bytes → Type 0
AreWritable sizes dirs =
    (dir : Bytes) → 0 < count dir dirs → IsTrimmed dir × (read 0 dir sizes ≤ max_int)

AreWritable-tail :
    (sizes : Dict Bytes ℕ) (dir : Bytes) (dirs : List Bytes)
    → AreWritable sizes (dir ∷ dirs)
    → AreWritable sizes dirs
unfolding count
AreWritable-tail sizes dir dirs w other h = w other (ground (arith, h))

abbrev lines_for : Dict Bytes ℕ → List Bytes → List Bytes
lines_for sizes dirs = map (λ dir. size_line (read 0 dir sizes) dir) dirs

read_sizes-lookup :
    (sizes : Dict Bytes ℕ) (dirs : List Bytes) (out : Dict Bytes ℕ) (k : Bytes)
    → AreWritable sizes dirs
    → lookup k (read_sizes (lines_for sizes dirs) out)
      ≡ (if elem k dirs then some (read 0 k sizes) else lookup k out)
unfolding read_sizes elem
read_sizes-lookup sizes [] out k w = refl
read_sizes-lookup sizes (dir ∷ dirs) out k w =
    let (trimmed, fits) = w dir (omega (arith, count_self dir dirs)) in
    ap (λ z. lookup k (read_sizes (lines_for sizes dirs) z))
      (read_size-size_line (read 0 dir sizes) dir out fits trimmed)
    ∙ read_sizes-lookup sizes dirs (insert dir (read 0 dir sizes) out) k
        (AreWritable-tail sizes dir dirs w)
    ∙ ground (arith, lookup-insert dir k (read 0 dir sizes) out, bytes_beq_iff dir k)

elem-written_names :
    (sizes : Dict Bytes ℕ) (dirs : List Bytes) (k : Bytes)
    → elem k (written_names sizes dirs) ≡ elem k dirs
unfolding written_names
elem-written_names sizes dirs k =
    let same = count-sort (written_before sizes) k dirs in
    elim (Bool-cases (elem k dirs)) [
      | inl there ↦
          count-elem k (sort (written_before sizes) dirs)
            (omega (arith, same, elem-count k dirs there))
          ∙ sym there
      | inr absent ↦ elim (Bool-cases (elem k (sort (written_before sizes) dirs))) [
        | inl there ↦
            there
            ∙ sym (
                count-elem k dirs
                  (omega (arith, same, elem-count k (sort (written_before sizes) dirs) there)))
        | inr absent' ↦ absent' ∙ sym absent
      ]
    ]

written_names-AreWritable :
    (sizes : Dict Bytes ℕ) (dirs : List Bytes)
    → AreWritable sizes dirs
    → AreWritable sizes (written_names sizes dirs)
unfolding written_names
written_names-AreWritable sizes dirs w dir h =
    w dir (omega (arith, h, count-sort (written_before sizes) dir dirs))

-- Reading the lines that `Write` writes gives back the size of each directory, where the names have
-- no white space at their ends and the sizes are ints; no other directory has one.
pub read_sizes-size_lines :
    (sizes : Dict Bytes ℕ) (dirs : List Bytes) (k : Bytes)
    → AreWritable sizes dirs
    → lookup k (read_sizes (size_lines sizes dirs) [])
      ≡ (if elem k dirs then some (read 0 k sizes) else none)
unfolding size_lines lookup
read_sizes-size_lines sizes dirs k w =
    read_sizes-lookup sizes (written_names sizes dirs) [] k (written_names-AreWritable sizes dirs w)
    ∙ ap (λ z. if z then some (read 0 k sizes) else none) (elem-written_names sizes dirs k)
