-- ===== src/Shell/Tests.antt =====
-- The cases of a run and their tree on concrete ones.
use cubrid_testkit.Prelude.{
  ◌+◌, ◌≡◌, refl, true, false, List, [], ◌∷◌, none, some, nat_eq, Bytes, bytes_eq, bytes_beq, count,
}
use cubrid_testkit.Prelude.Strings.{onto_first, split_on, codes, join, has_suffix, has_prefix}
use cubrid_testkit.Prelude.Dict.{lookup, insert, delete}
use cubrid_testkit.Shell.Case.{Case, trim_suffix, cut_cases, case_of, split}
use cubrid_testkit.Dispatch.Lanes.{dir_of}
use cubrid_testkit.Shell.Directories.{dir_of-split}
use cubrid_testkit.Shell.Tree.{
  file, dir, Entries, no_entry, entry, find, entries_bytes, keep, drop_additions, added_bytes,
}
use cubrid_testkit.Shell.Reclaim.{kind_at, is_added, drop_additions-is_added, drop_additions-bytes}
use cubrid_testkit.Shell.Corpus.{
  Corpus, Reading, plan, plan_pending, retire, retired, reclaimed_slot, sampled, recorded,
}
use cubrid_testkit.Shell.Retirement.{Retiring, retire_all, retire_last}

abbrev bug_path : Bytes
bug_path = codes "s/bug_cases/cases/bug.sh"

abbrev bug_case : Case
bug_case = record {
  path = bug_path;
  dir = codes "s/bug_cases/cases";
  script = codes "bug.sh";
  result = codes "bug.result";
}

splits : Unit {0}
unfolding split case_of cut_cases split_on onto_first join trim_suffix has_suffix has_prefix
    bytes_beq
splits = tt

bug_split : split bug_path ≡ some bug_case
unfolding splits
bug_split = refl

dir_of-split_example : dir_of bug_path ≡ codes "s/bug_cases/cases"
unfolding splits
dir_of-split_example = dir_of-split bug_path bug_case bug_split refl

-- The repository has a script in a directory; the case has edited it, and left a volume beside it and
-- a database in the directory.
abbrev pristine_tree : Entries
pristine_tree = entry (codes "cases") (dir (entry (codes "bug.sh") (file 8) no_entry)) no_entry

abbrev live_tree : Entries
live_tree =
    entry (codes "cases")
      (dir (
        entry (codes "bug.sh") (file 16)
          (entry (codes "db") (dir (entry (codes "vol") (file 1048576) no_entry)) no_entry)))
      (entry (codes "core") (file 24) no_entry)

dropped_tree :
    drop_additions live_tree pristine_tree
    ≡ entry (codes "cases") (dir (entry (codes "bug.sh") (file 16) no_entry)) no_entry
unfolding drop_additions find keep bytes_beq
dropped_tree = refl

drop_additions-is_added_example :
    kind_at (codes "cases" ∷ codes "db" ∷ []) (some (dir (drop_additions live_tree pristine_tree)))
    ≡ none
unfolding is_added find bytes_beq
drop_additions-is_added_example =
    drop_additions-is_added (codes "cases" ∷ codes "db" ∷ []) live_tree pristine_tree

drop_additions-bytes_example :
    (entries_bytes (drop_additions live_tree pristine_tree) + added_bytes live_tree pristine_tree
      ≡ entries_bytes live_tree)
    × (added_bytes (drop_additions live_tree pristine_tree) pristine_tree ≡ 0)
drop_additions-bytes_example = drop_additions-bytes live_tree pristine_tree

-- Two cases of one directory, and a slot in memory.
abbrev pair : List Bytes
pair = codes "s/cases/a.sh" ∷ codes "s/cases/b.sh" ∷ []

abbrev idle : Corpus
idle = record {
  shared = false;
  slots = (codes "slot0", true) ∷ [];
  pending = [];
  freed = 0;
  held = [];
  peak = 0;
}

abbrev reading : Reading
reading = record { before = 531; after = 20; own = 512 }

-- The first of the two has retired.
abbrev one_done : List Retiring
one_done = (reading, codes "slot0", codes "s/cases") ∷ []

retire_last_example :
    (retire reading (codes "slot0") (codes "s/cases") (retire_all one_done (plan pair idle))).1
    ≡ true
unfolding splits retire retired reclaimed_slot sampled recorded plan plan_pending lookup insert
    delete count
retire_last_example =
    retire_last pair one_done idle reading (codes "slot0") (codes "s/cases") refl refl
