-- ===== src/Shell/Tree.antt =====
-- internal/runner/shellsuite/corpus.go: what a directory has added to the repository's copy, and its
-- removal. A tree is what os.ReadDir and os.Lstat say of it: a directory is its entries, all else is
-- a file with the blocks that it takes. A directory that cannot be read has no entries here.
use cubrid_testkit.Prelude.{
  ℕ, ◌+◌, ◌*◌, ◌/◌, ◌^◌, Option, none, some, if◌then◌else◌, ◌==◌, Bytes, bytes_eq,
}

mutual
  pub data Node : Type 0 where
    file : ℕ → Node
    dir : Entries → Node

  pub data Entries : Type 0 where
    no_entry : Entries
    entry : Bytes → Node → Entries → Entries

-- os.Lstat on an entry of a directory
unfoldable pub find : Bytes → Entries → Option Node
find name no_entry = none
find name (entry x n rest) = if x == name then some n else find name rest

-- treeBytes: the allocated blocks of every file below.
unfoldable mutual
  pub tree_bytes : Node → ℕ
  tree_bytes (file blocks) = blocks * 512
  tree_bytes (dir entries) = entries_bytes entries

  pub entries_bytes : Entries → ℕ
  entries_bytes no_entry = 0
  entries_bytes (entry x n rest) = tree_bytes n + entries_bytes rest

unfoldable pub keep : Bytes → Option Node → Entries → Entries
keep x none rest = rest
keep x (some n) rest = entry x n rest

-- dropAdditions: an entry that the pristine directory lacks goes with all below it; a directory that
-- both have is walked; what else both have stays.
unfoldable mutual
  unfolding keep find

  pub drop_additions : Entries → Entries → Entries
  drop_additions no_entry pristine = no_entry
  drop_additions (entry x n rest) pristine =
      keep x (drop_node n (find x pristine)) (drop_additions rest pristine)

  pub drop_node : Node → Option Node → Option Node
  drop_node (file blocks) none = none
  drop_node (file blocks) (some p) = some (file blocks)
  drop_node (dir entries) none = none
  drop_node (dir entries) (some (file blocks)) = some (dir entries)
  drop_node (dir entries) (some (dir pristine)) = some (dir (drop_additions entries pristine))

-- addedBytes: the same walk, counting.
unfoldable mutual
  unfolding find tree_bytes

  pub added_bytes : Entries → Entries → ℕ
  added_bytes no_entry pristine = 0
  added_bytes (entry x n rest) pristine = added_node n (find x pristine) + added_bytes rest pristine

  pub added_node : Node → Option Node → ℕ
  added_node (file blocks) none = tree_bytes (file blocks)
  added_node (file blocks) (some p) = 0
  added_node (dir entries) none = tree_bytes (dir entries)
  added_node (dir entries) (some (file blocks)) = 0
  added_node (dir entries) (some (dir pristine)) = added_bytes entries pristine

-- dropAdditions on a directory of the run, whose pristine one may be unknown.
unfoldable pub drop_from : Entries → Option Entries → Entries
unfolding drop_additions
drop_from live none = live
drop_from live (some pristine) = drop_additions live pristine

-- addedMB
unfoldable pub added_mb : Entries → Option Entries → ℕ
unfolding added_bytes
added_mb live none = 0
added_mb live (some pristine) = added_bytes live pristine / 2 ^ 20
