-- ===== src/Shell/Case.antt =====
-- internal/runner/shellsuite/discover.go: Case and Split.
use cubrid_testkit.Prelude.{
  ℕ, ◌-◌, List, [], ◌∷◌, ◌++◌, Option, none, some, if◌then◌else◌, ◌==◌, nat_eq, Bytes, bytes_eq,
  length, take,
}
use cubrid_testkit.Prelude.Strings.{codes, has_suffix, join, split_on}

pub record Case : Type 0 where
  pub path : Bytes
  pub dir : Bytes
  pub script : Bytes
  pub result : Bytes

abbrev pub slash : ℕ
slash = 47

abbrev pub cases_name : Bytes
cases_name = codes "cases"

abbrev pub segments : Bytes → List Bytes
segments p = split_on slash p

-- strings.TrimSuffix(s, suffix)
unfoldable pub trim_suffix : Bytes → Bytes → Bytes
unfolding has_suffix
trim_suffix s suffix = if has_suffix s suffix then take (length s - length suffix) s else s

-- The loop over `parts` from the end: the parts up to the last that is `cases`, and the others.
unfoldable pub cut_cases : List Bytes → Option (List Bytes × List Bytes)
cut_cases [] = none
cut_cases (s ∷ rest) = elim (cut_cases rest) [
  | some (up_to, others) ↦ some (s ∷ up_to, others)
  | none ↦ if s == cases_name then some (s ∷ [], rest) else none
]

unfoldable pub case_of : Bytes → Option (List Bytes × List Bytes) → Option Case
unfolding join trim_suffix
case_of p none = none
case_of p (some (up_to, [])) = none
case_of p (some (up_to, s ∷ rest)) = some (record {
  path = p;
  dir = join up_to (codes "/");
  script = join (s ∷ rest) (codes "/");
  result = trim_suffix (join (s ∷ rest) (codes "/")) (codes ".sh") ++ codes ".result";
})

-- `Split`, none for its error
unfoldable pub split : Bytes → Option Case
unfolding case_of cut_cases split_on
split p = case_of p (cut_cases (segments p))
