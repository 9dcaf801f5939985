-- ===== src/Isolation/Verdict.antt =====
-- internal/runner/isolationsuite/verdict.go: the verdict on what runone.sh printed, in ASCII text.
use cubrid_testkit.Prelude.{
  ℕ, Bool, true, false, ◌&&◌, not, List, [], ◌∷◌, ◌++◌, Option, none, some, if◌then◌else◌, ◌==◌,
  nat_eq, Bytes, bytes_eq, ltb, elem, map,
}
use cubrid_testkit.Prelude.Strings.{codes, has_prefix, last_index}
use cubrid_testkit.Prelude.Dict.{is_some}
use cubrid_testkit.Prelude.Trim.{trim_space}

pub record Verdict : Type 0 where
  pub ok : Bool
  pub has_core : Bool
  pub items : List Bytes

abbrev pub ok_marker : Bytes
ok_marker = codes "flag: OK"

abbrev pub nok_marker : Bytes
nok_marker = codes "flag: NOK"

abbrev pub core_marker : Bytes
core_marker = codes "found core file"

abbrev pub fatal_marker : Bytes
fatal_marker = codes "found fatal error"

-- `item`
unfoldable pub item : Bytes → Bytes → Bytes
item flag msg = codes " : " ++ (flag ++ codes " " ++ msg)

-- The text to the end of its line.
unfoldable pub rest_of_line : Bytes → Bytes
rest_of_line [] = []
rest_of_line (c ∷ s) = let rest = rest_of_line s in if c == 0x0a then [] else c ∷ rest

unfoldable pub without_quotes : Bytes → Bytes
without_quotes [] = []
without_quotes (c ∷ s) = let rest = without_quotes s in if c == 0x27 then rest else c ∷ rest

-- An item's line, once.
unfoldable pub add_line : Bytes → List Bytes → List Bytes
unfolding rest_of_line without_quotes elem
add_line source out =
    let line = trim_space (without_quotes (trim_space (rest_of_line source))) in
    if elem line out then out else out ++ line ∷ []

-- `extractItems`, byte by byte; `within` says that the line has been taken, so that the search goes on
-- at the newline that ends it. What is looked for has no newline.
unfoldable pub extract_from : Bytes → Bool → Bytes → List Bytes → List Bytes
unfolding has_prefix add_line
extract_from find within [] out = out
extract_from find within (c ∷ s) out =
    let skipped = extract_from find true s out in
    let searched = extract_from find false s out in
    let taken = extract_from find true s (add_line (c ∷ s) out) in
    if within && not (c == 0x0a)
    then skipped
    else if has_prefix (c ∷ s) find
    then taken
    else searched

unfoldable pub extract_items : Bytes → Bytes → List Bytes
unfolding extract_from
extract_items source find = extract_from find false source []

-- lastNOK > lastOK, none being -1.
abbrev pub is_after : Option ℕ → Option ℕ → Bool
is_after none last_ok = false
is_after (some i) none = true
is_after (some i) (some j) = ltb j i

abbrev pub is_nil : List Bytes → Bool
is_nil [] = true
is_nil (x ∷ xs) = false

-- `judge`
unfoldable pub judge : Bytes → Verdict
unfolding item extract_items last_index
judge output =
    let last_nok = last_index output nok_marker in
    let last_ok = last_index output ok_marker in
    let errs = extract_items output core_marker ++ extract_items output fatal_marker in
    let ok = not (is_after last_nok last_ok) && is_nil errs in
    let items = map (item (codes "NOK")) errs in
    if ok && not (is_some last_ok)
    then record {
      ok = false;
      has_core = not (is_nil errs);
      items = items ++ item (codes "NOK") (codes "Not found OK word.") ∷ [];
    }
    else record { ok = ok; has_core = not (is_nil errs); items = items }
