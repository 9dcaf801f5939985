-- ===== src/Harepl/Ledger.antt =====
-- internal/runner/hareplsuite/ledger.go: Write, parseLedgerLine and Judged, on the lines of the file
-- without their newline. A Verdict is what the ledger keeps of a Result; its time is in milliseconds
-- and not negative. No line reaches the 4 MiB at which the scanner stops.
use cubrid_testkit.Prelude.{
  ℕ, Bool, ◌||◌, List, [], ◌∷◌, ◌++◌, Option, none, some, if◌then◌else◌, ◌==◌, nat_eq, Bytes,
  bytes_eq, length,
}
use cubrid_testkit.Prelude.Strings.{codes, decimal, split_on}
use cubrid_testkit.Prelude.Dict.{Dict, insert, delete}
use cubrid_testkit.Plan.Sizes.{atoi_positive}

pub record Verdict : Type 0 where
  pub test_case : Bytes
  pub outcome : Bytes
  pub detail : Bytes
  pub took : ℕ

abbrev pub tab : ℕ
tab = 9

abbrev pub wait_timeout : Bytes
wait_timeout = codes "wait_timeout"

abbrev pub case_failed : Bytes
case_failed = codes "case_failed"

-- strings.ReplaceAll(s, c, " ") for a byte
unfoldable pub spaced : ℕ → Bytes → Bytes
spaced c [] = []
spaced c (x ∷ s) = (if x == c then 32 else x) ∷ spaced c s

-- `Write`
unfoldable pub ledger_line : Verdict → Bytes
unfolding spaced decimal
ledger_line r =
    r.test_case
    ++ tab ∷ (r.outcome ++ tab ∷ (spaced 10 (spaced tab r.detail) ++ tab ∷ decimal r.took))

abbrev pub read_ms : Option ℕ → ℕ
read_ms none = 0
read_ms (some ms) = ms

unfoldable pub verdict_of : List Bytes → Option Verdict
unfolding atoi_positive
verdict_of (c ∷ o ∷ rest) =
    if length c == 0 || length o == 0
    then none
    else some (elim rest [
      | [] ↦ record { test_case = c; outcome = o; detail = []; took = 0 }
      | d ∷ [] ↦ record { test_case = c; outcome = o; detail = d; took = 0 }
      | d ∷ ms ∷ _ ↦ record {
        test_case = c;
        outcome = o;
        detail = d;
        took = read_ms (atoi_positive ms);
      }
    ])
verdict_of _ = none

-- `parseLedgerLine`
unfoldable pub parse_ledger_line : Bytes → Option Verdict
unfolding verdict_of split_on
parse_ledger_line line = verdict_of (split_on tab line)

-- A verdict about the run, and not about the case.
unfoldable pub is_about_run : Verdict → Bool
is_about_run r = r.outcome == wait_timeout || r.outcome == case_failed

unfoldable pub judge : Option Verdict → Dict Bytes Verdict → Dict Bytes Verdict
unfolding is_about_run
judge none out = out
judge (some r) out = if is_about_run r then delete r.test_case out else insert r.test_case r out

-- `Judged`
unfoldable pub judged : List Bytes → Dict Bytes Verdict → Dict Bytes Verdict
unfolding judge parse_ledger_line
judged [] out = out
judged (line ∷ lines) out = judged lines (judge (parse_ledger_line line) out)
