-- ===== src/Isolation/Tests.antt =====
-- The verdict on concrete outputs.
use cubrid_testkit.Prelude.{
  ◌≡◌, refl, true, false, ◌&&◌, not, [], ◌∷◌, ◌++◌, Bytes, bytes_eq, bytes_beq, elem,
}
use cubrid_testkit.Prelude.Strings.{codes, has_prefix, index, last_index, trim_left, trim_right}
use cubrid_testkit.Prelude.Dict.{is_some}
use cubrid_testkit.Isolation.Verdict.{
  ok_marker, nok_marker, core_marker, fatal_marker, item, rest_of_line, without_quotes, add_line,
  extract_from, extract_items, is_after, judge,
}
use cubrid_testkit.Isolation.Passing.{judge_lem}
use cubrid_testkit.Isolation.Feedback.{item_lines, result_text, with_returns, crlf}

abbrev failed_then_passed : Bytes
failed_then_passed = codes "flag: NOK " ++ 0x0a ∷ codes "flag: OK"

abbrev traced_core : Bytes
traced_core =
    codes "found core file on h"
    ++ 0x0a ∷ codes "+ out='found core file on h'"
    ++ 0x0a ∷ codes "flag: OK"

retry_passes : judge failed_then_passed ≡ record { ok = true; has_core = false; items = [] }
unfolding judge extract_items extract_from index last_index has_prefix
retry_passes = refl

core_fails :
    judge traced_core
    ≡ record { ok = false; has_core = true; items = codes " : NOK found core file on h" ∷ [] }
unfolding judge item extract_items extract_from add_line rest_of_line without_quotes elem bytes_beq
    index last_index has_prefix trim_left trim_right
core_fails = refl

nothing_fails :
    judge []
    ≡ record { ok = false; has_core = false; items = codes " : NOK Not found OK word." ∷ [] }
unfolding judge item extract_items extract_from last_index has_prefix
nothing_fails = refl

judge_lem_example :
    (judge failed_then_passed).ok
    ≡ is_some (last_index failed_then_passed ok_marker)
      && not (
          is_after
            (last_index failed_then_passed nok_marker)
            (last_index failed_then_passed ok_marker))
      && (not (is_some (index failed_then_passed core_marker))
          && not (is_some (index failed_then_passed fatal_marker)))
judge_lem_example = judge_lem failed_then_passed

passing_text : result_text (record { ok = true; has_core = false; items = [] }) (codes "d") ≡ []
unfolding result_text item_lines
passing_text = refl

returns_put : crlf (0x61 ∷ 0x0a ∷ 0x62 ∷ []) ≡ 0x61 ∷ 0x0d ∷ 0x0a ∷ 0x62 ∷ []
unfolding crlf with_returns index has_prefix
returns_put = refl
