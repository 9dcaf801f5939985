-- ===== src/Perf/Tests.antt =====
-- The schedule of concrete cases.
use cubrid_testkit.Prelude.{
  ◌*◌, elem, ◌≡◌, refl, true, false, List, [], ◌∷◌, Bytes, bytes_eq, bytes_beq, nat_eq, count,
  arith,
}
use cubrid_testkit.Prelude.Dict.{Dict, lookup, insert}
use cubrid_testkit.Prelude.Strings.{codes, join, bytes_ltb}
use cubrid_testkit.Prelude.Sort.{sort, insert_sorted}
use cubrid_testkit.Perf.Schedule.{
  Case, conf_key, conf_parts, conf_groups, groups_from, add_to, pass_bound, case_bound, minute,
  pair_setup_bound, fixtures_built, fixtures_of, fixtures_from, group_setup_bound, pair_sides,
}
use cubrid_testkit.Perf.Bounds.{by_key}
use cubrid_testkit.Perf.Groups.{group_keys, first_keys, cases_grouped, cases_with, conf_groups_lem}

abbrev a_case : Case
a_case = record {
  id = codes "txn/commit";
  conf = [];
  topology = codes "single";
  fixture = codes "wide";
  warm_s = 5;
  warmup = 1;
  repeats = 5;
  budget_s = 30;
  background = [];
  failover = false;
}

abbrev ha_case : Case
ha_case = record a_case { id = codes "ha/apply"; topology = codes "ha" }

abbrev tuned_case : Case
tuned_case = record a_case {
  id = codes "txn/tuned";
  conf = (codes "b", codes "2") ∷ (codes "a", codes "1") ∷ [];
}

abbrev mixed : List Case
mixed = a_case ∷ ha_case ∷ tuned_case ∷ a_case ∷ []

mixed_keys : group_keys (conf_groups mixed) ≡ [] ∷ codes "ha(wide)" ∷ codes "a=1;b=2" ∷ []
unfolding conf_groups groups_from add_to conf_key join sort insert_sorted bytes_ltb bytes_beq lookup
    insert
mixed_keys = refl

-- Twelve passes of 95 s and a switch of the fixture.
case_bound_of_case : case_bound a_case ≡ 1260000000000
unfolding case_bound pass_bound bytes_beq
case_bound_of_case = refl

conf_groups_lem_example :
    (group_keys (conf_groups mixed) ≡ first_keys [] mixed)
    × ((k : Bytes) → cases_grouped k (conf_groups mixed) ≡ cases_with k mixed)
conf_groups_lem_example = conf_groups_lem mixed

-- Two canaries with fixtures of their own, in the group of a case that needs no other: 47 minutes for
-- the pair that overlaps, and a gate that asks for 51.
abbrev two_canaries : List Case
two_canaries = record a_case { fixture = codes "f" } ∷ record a_case { fixture = codes "g" } ∷ []

computed : Unit {0}
unfolding pair_setup_bound pair_sides fixtures_built fixtures_of fixtures_from conf_groups
    groups_from add_to conf_key join sort insert_sorted bytes_ltb bytes_beq lookup insert elem
    group_setup_bound by_key cases_with
computed = tt

short_bound : pair_setup_bound two_canaries (a_case ∷ []) true ≡ 47 * minute
unfolding computed
short_bound = refl

wide_gate : group_setup_bound (by_key two_canaries (a_case ∷ []) []) 3 ≡ 51 * minute
unfolding computed
wide_gate = refl

abbrev two_parts : Dict Bytes Bytes
two_parts = (codes "a", codes "1") ∷ (codes "b", codes "2") ∷ []

abbrev two_parts_swapped : Dict Bytes Bytes
two_parts_swapped = (codes "b", codes "2") ∷ (codes "a", codes "1") ∷ []

swapped_parts :
    (part : Bytes) → count part (conf_parts two_parts) ≡ count part (conf_parts two_parts_swapped)
unfolding count
swapped_parts part = ground arith
