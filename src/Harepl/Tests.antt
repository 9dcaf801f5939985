-- ===== src/Harepl/Tests.antt =====
-- A ledger on concrete verdicts.
use cubrid_testkit.Prelude.{
  ◌≤◌, ◌≡◌, refl, List, [], ◌∷◌, map, none, arith, Bytes, bytes_eq, bytes_beq, elem,
}
use cubrid_testkit.Prelude.Strings.{codes}
use cubrid_testkit.Prelude.Dict.{lookup}
use cubrid_testkit.Harepl.Ledger.{Verdict, wait_timeout, ledger_line, judged, is_about_run}
use cubrid_testkit.Harepl.Resume.{AllRecorded, judged-latest}

abbrev verdict : Bytes → Bytes → Verdict
verdict c o = record { test_case = c; outcome = o; detail = codes "no rows"; took = 512 }

-- The first case was judged and then judged again in a run that was interrupted.
abbrev verdicts : List Verdict
verdicts =
    verdict (codes "a.sql") (codes "same")
    ∷ verdict (codes "b.sql") (codes "differ")
    ∷ verdict (codes "a.sql") wait_timeout
    ∷ []

verdict-IsRecorded : AllRecorded verdicts
unfolding elem
verdict-IsRecorded =
    let bounded : 512 ≤ 9223372036854775807 = omega arith in
    (
      record {
        named = refl;
        case_plain = refl;
        judged_as = refl;
        outcome_plain = refl;
        in_range = bounded;
      },
      (
        record {
          named = refl;
          case_plain = refl;
          judged_as = refl;
          outcome_plain = refl;
          in_range = bounded;
        },
        (
          record {
            named = refl;
            case_plain = refl;
            judged_as = refl;
            outcome_plain = refl;
            in_range = bounded;
          },
          tt,
        ),
      ),
    )

judged-latest_example : lookup (codes "a.sql") (judged (map ledger_line verdicts) []) ≡ none
unfolding bytes_beq is_about_run
judged-latest_example = judged-latest verdicts (codes "a.sql") verdict-IsRecorded
