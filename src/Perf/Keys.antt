-- ===== src/Perf/Keys.antt =====
-- The key of a case and the fixtures of a list of cases.
use cubrid_testkit.Prelude.{
  ℕ, ◌≤◌, ◌≡◌, refl, ap, ◌∙◌, Bool, true, false, List, [], ◌∷◌, ◌++◌, if◌then◌else◌, Bytes,
  bytes_eq, bytes_beq, bytes_beq_iff, elem, count, count-append, elem-count, count-elem, arith,
  ◌||◌, Bool-cases, inl, inr,
}
use cubrid_testkit.Prelude.Dict.{Dict}
use cubrid_testkit.Prelude.Strings.{codes, join, bytes_ltb}
use cubrid_testkit.Prelude.StringOrder.{bytes_order}
use cubrid_testkit.Prelude.Sort.{IsSorted, sort-same, sort-IsSorted, count-sort}
use cubrid_testkit.Perf.Schedule.{
  Case, is_ha, topology_ha, conf_parts, conf_key, fixtures_from, fixtures_of,
}

-- The key of a case does not depend on the order in which the map gives its overrides.
pub conf_key_same :
    (c : Case) (conf other : Dict Bytes Bytes)
    → ((part : Bytes) → count part (conf_parts conf) ≡ count part (conf_parts other))
    → conf_key (record c { conf = conf }) ≡ conf_key (record c { conf = other })
unfolding conf_key
conf_key_same c conf other h =
    ap
      (λ parts.
        join
          (if is_ha c
            then (topology_ha ++ (codes "(" ++ (c.fixture ++ codes ")"))) ∷ parts
            else parts)
          (codes ";"))
      (sort-same bytes_ltb bytes_order (conf_parts conf) (conf_parts other) h)

abbrev pub fixture_names : List Case → List Bytes
fixture_names [] = []
fixture_names (c ∷ cs) = c.fixture ∷ fixture_names cs

-- Once for a name that is there, else not at all.
abbrev pub once : Bool → ℕ
once b = if b then 1 else 0

count-once :
    (name : Bytes) (out : List Bytes) → count name out ≤ 1 → count name out ≡ once (elem name out)
count-once name out h = elim (Bool-cases (elem name out)) [
  | inl there ↦ ground (arith, there, h, elem-count name out)
  | inr absent ↦ ground (arith, absent, h, count-elem name out)
]

elem_snoc :
    (name x : Bytes) (out : List Bytes)
    → elem name (out ++ x ∷ []) ≡ (elem name out || bytes_beq x name)
unfolding elem
elem_snoc name x [] = ground arith
elem_snoc name x (y ∷ ys) = ground (arith, elem_snoc name x ys)

count_snoc_new :
    (name x : Bytes) (out : List Bytes)
    → count name out ≤ 1
    → elem x out ≡ false
    → count name (out ++ x ∷ []) ≤ 1
unfolding count
count_snoc_new name x out h new =
    ground (arith, h, new, count-append name out (x ∷ []), count-elem x out, bytes_beq_iff x name)

fixtures_from-count :
    (cases : List Case) (out : List Bytes) (name : Bytes)
    → count name out ≤ 1
    → count name (fixtures_from cases out) ≡ once (elem name (fixture_names cases) || elem name out)
unfolding fixtures_from elem
fixtures_from-count [] out name h = count-once name out h
fixtures_from-count (c ∷ cs) out name h = elim (Bool-cases (elem c.fixture out)) [
  | inl there ↦
      rw there
        (fixtures_from-count cs out name h ∙ ground (arith, there, bytes_beq_iff c.fixture name))
  | inr new ↦ rw new (
      fixtures_from-count cs (out ++ c.fixture ∷ []) name (count_snoc_new name c.fixture out h new)
      ∙ ground (arith, elem_snoc name c.fixture out))
]

or_false : (b : Bool) → (b || false) ≡ b
or_false true = refl
or_false false = refl

fixtures_of_nil :
    (cases : List Case) (name : Bytes)
    → count name (fixtures_from cases []) ≡ once (elem name (fixture_names cases))
unfolding elem count
fixtures_of_nil cases name =
    fixtures_from-count cases [] name (omega arith)
    ∙ ap once (or_false (elem name (fixture_names cases)))

-- The fixtures of the cases are sorted, and each that some case uses is there once.
pub fixtures_of_lem :
    (cases : List Case)
    → IsSorted bytes_ltb (fixtures_of cases)
      × ((name : Bytes) → count name (fixtures_of cases) ≡ once (elem name (fixture_names cases)))
unfolding fixtures_of
fixtures_of_lem cases = (
  sort-IsSorted bytes_ltb bytes_order (fixtures_from cases []),
  λ name. count-sort bytes_ltb name (fixtures_from cases []) ∙ fixtures_of_nil cases name,
)
