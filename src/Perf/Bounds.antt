-- ===== src/Perf/Bounds.antt =====
-- The bound of a pair against what the gates of its session allow.
use cubrid_testkit.Prelude.{ℕ, ◌+◌, ◌*◌, List, [], ◌∷◌, ◌++◌, Bytes, bytes_eq}
use cubrid_testkit.Perf.Schedule.{
  Case, fixture_bound, conf_groups, fixtures_built, group_setup_bound,
}
use cubrid_testkit.Perf.Groups.{cases_with}

-- `byKey` of a pair's session: the cases that the clusters of a key are made for, its canaries and its
-- cases. A case that is there twice adds no fixture.
unfoldable pub by_key : List Case → List Case → Bytes → List Case
unfolding cases_with
by_key canaries cases k = cases_with k (canaries ++ cases)

-- What the gates of the groups ask for, all of them together.
unfoldable pub sum_of_gates : List Case → List Case → ℕ → List Bytes → ℕ
unfolding by_key group_setup_bound
sum_of_gates canaries cases sides [] = 0
sum_of_gates canaries cases sides (k ∷ ks) =
    group_setup_bound (by_key canaries cases k) sides + sum_of_gates canaries cases sides ks

-- The fixtures of the canaries, each built once.
abbrev pub canary_builds : List Case → ℕ
canary_builds canaries = fixtures_built 1 (conf_groups canaries) * fixture_bound
