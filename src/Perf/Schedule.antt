-- ===== src/Perf/Schedule.antt =====
-- internal/perf/schedule.go: the groups of cases that share a cluster, and the bounds of their
-- times. A duration is its nanoseconds, and no number of a case is below zero.
use cubrid_testkit.Prelude.{
  ℕ, zero, suc, ◌+◌, ◌-◌, ◌*◌, Bool, List, [], ◌∷◌, ◌++◌, none, some, if◌then◌else◌, Bytes,
  bytes_eq, nat_eq, elem, length, map, ◌==◌,
}
use cubrid_testkit.Prelude.Dict.{Dict, lookup, insert}
use cubrid_testkit.Prelude.Strings.{codes, join, bytes_ltb}
use cubrid_testkit.Prelude.Sort.{sort}

-- What the schedule reads of `Case`.
pub record Case : Type 0 where
  pub id : Bytes
  pub conf : Dict Bytes Bytes
  pub topology : Bytes
  pub fixture : Bytes
  pub warm_s : ℕ
  pub warmup : ℕ
  pub repeats : ℕ
  pub budget_s : ℕ
  pub background : Bytes
  pub failover : Bool

abbrev pub topology_ha : Bytes
topology_ha = codes "ha"

abbrev pub is_ha : Case → Bool
is_ha c = c.topology == topology_ha

-- The overrides as `k=v`, in the order in which the map gives them.
abbrev pub conf_parts : Dict Bytes Bytes → List Bytes
conf_parts conf = map (λ entry. entry.0 ++ b'=' ∷ entry.1) conf

-- `confKey`
unfoldable pub conf_key : Case → Bytes
unfolding join
conf_key c =
    let parts = sort bytes_ltb (conf_parts c.conf) in
    join
      (if is_ha c then (topology_ha ++ (codes "(" ++ (c.fixture ++ codes ")"))) ∷ parts else parts)
      (codes ";")

pub record Group : Type 0 where
  pub key : Bytes
  pub cases : List Case

-- `out[i].Cases = append(out[i].Cases, c)`
unfoldable pub add_to : ℕ → Case → List Group → List Group
add_to i c [] = []
add_to zero c (g ∷ gs) = record g { cases = g.cases ++ c ∷ [] } ∷ gs
add_to (suc i) c (g ∷ gs) = g ∷ add_to i c gs

-- The loop of `confGroups`, with `out` and `at`.
unfoldable pub groups_from : List Case → List Group → Dict Bytes ℕ → List Group
unfolding add_to conf_key
groups_from [] out at = out
groups_from (c ∷ cs) out at = elim (lookup (conf_key c) at) [
  | some i ↦ groups_from cs (add_to i c out) at
  | none ↦
      groups_from cs (add_to (length out) c (out ++ record { key = conf_key c; cases = [] } ∷ []))
        (insert (conf_key c) (length out) at)
]

-- `confGroups`
unfoldable pub conf_groups : List Case → List Group
unfolding groups_from
conf_groups cases = groups_from cases [] []

-- The loop of `fixturesOf`: `out` is also what is seen.
unfoldable pub fixtures_from : List Case → List Bytes → List Bytes
fixtures_from [] out = out
fixtures_from (c ∷ cs) out =
    fixtures_from cs (if elem c.fixture out then out else out ++ c.fixture ∷ [])

-- `fixturesOf`
unfoldable pub fixtures_of : List Case → List Bytes
unfolding fixtures_from
fixtures_of cases = sort bytes_ltb (fixtures_from cases [])

abbrev pub second : ℕ
second = 1000000000

abbrev pub minute : ℕ
minute = 60000000000

abbrev pub cluster_create_bound : ℕ
cluster_create_bound = 2 * minute

abbrev pub fixture_bound : ℕ
fixture_bound = 5 * minute

abbrev pub fixture_switch_bound : ℕ
fixture_switch_bound = 2 * minute

abbrev pub judge_bound : ℕ
judge_bound = 2 * minute

abbrev pub remeasure_pairs : ℕ
remeasure_pairs = 5

abbrev pub defer_checkpoint_allowance : ℕ
defer_checkpoint_allowance = minute

abbrev pub ha_pass_allowance : ℕ
ha_pass_allowance = 30 * second

abbrev pub failover_allowance : ℕ
failover_allowance = minute

abbrev pub failover_restore_bound : ℕ
failover_restore_bound = 2 * 15 * minute

-- The bound of one pass, which `caseBound` and `remeasureBound` both work out.
unfoldable pub pass_bound : Case → ℕ
pass_bound c =
    (c.budget_s + c.warm_s) * second
    + 60 * second
    + (if c.background == codes "defer" then defer_checkpoint_allowance else 0)
    + (if is_ha c then ha_pass_allowance else 0)
    + (if c.failover then failover_allowance else 0)

-- `caseBound`
unfoldable pub case_bound : Case → ℕ
unfolding pass_bound
case_bound c =
    (c.warmup + c.repeats) * 2 * pass_bound c
    + fixture_switch_bound
    + (if c.failover then failover_restore_bound else 0)

-- `remeasureBound`
unfoldable pub remeasure_bound : Case → ℕ
unfolding pass_bound
remeasure_bound c = remeasure_pairs * 2 * pass_bound c

-- `pairSides`
unfoldable pub pair_sides : Bool → ℕ
pair_sides overlap = if overlap then 3 else 2

-- The loops of `pairSetupBound` over the groups: the fixtures, `sides` times each.
unfoldable pub fixtures_built : ℕ → List Group → ℕ
unfolding fixtures_of
fixtures_built sides [] = 0
fixtures_built sides (g ∷ gs) = sides * length (fixtures_of g.cases) + fixtures_built sides gs

-- `pairSetupBound`
unfoldable pub pair_setup_bound : List Case → List Case → Bool → ℕ
unfolding conf_groups fixtures_built pair_sides
pair_setup_bound canaries cases overlap =
    let sides = pair_sides overlap in
    let groups = if length (conf_groups cases) == 0 then 1 else length (conf_groups cases) in
    let fixtures =
      fixtures_built 2 (conf_groups canaries) + fixtures_built sides (conf_groups cases) in
    (2 + sides * groups) * cluster_create_bound + fixtures * fixture_bound + judge_bound

unfoldable pub sum_of_bounds : ℕ → List Case → ℕ
unfolding case_bound
sum_of_bounds times [] = 0
sum_of_bounds times (c ∷ cs) = case_bound c * times + sum_of_bounds times cs

-- `pairBound`
unfoldable pub pair_bound : List Case → List Case → Bool → ℕ
unfolding pair_setup_bound sum_of_bounds pair_sides
pair_bound canaries cases overlap =
    pair_setup_bound canaries cases overlap
    + sum_of_bounds 1 canaries
    + sum_of_bounds (pair_sides overlap - 1) cases

-- `groupSetupBound`
unfoldable pub group_setup_bound : List Case → ℕ → ℕ
unfolding fixtures_of
group_setup_bound cases sides =
    sides * (cluster_create_bound + length (fixtures_of cases) * fixture_bound)
