-- ===== src/Dispatch/Tests.antt =====
-- The queue on concrete runs.
use cubrid_testkit.Prelude.{
  ◌+◌, ◌*◌, ◌≤◌, ◌≡◌, refl, true, false, List, [], ◌∷◌, none, some, Bytes, length,
  all_distinct-count, count, elem, bytes_eq, bytes_beq,
}
use cubrid_testkit.Prelude.Strings.{codes, has_prefix, last_index}
use cubrid_testkit.Prelude.Dict.{lookup, insert, delete}
use cubrid_testkit.Dispatch.Admission.{heavy_policy, heavy_admit, is_heavy, heavy_running, admits}
use cubrid_testkit.Dispatch.Lanes.{Ticket, lane_any, dir_of}
use cubrid_testkit.Dispatch.Queue.{
  window, new, take_at, set_policy, scan_policy, admissible, start, stop_case, remove_first,
}
use cubrid_testkit.Dispatch.Claim.{
  given, claim_once, give_retry, depart, claim_retry, claim_plain, first_retry,
}
use cubrid_testkit.Dispatch.Complete.{complete, enqueue, finished}
use cubrid_testkit.Dispatch.Run.{
  Event, World, claims, governs, completes, run, step, answered, completed, initial,
}
use cubrid_testkit.Dispatch.Plain.{IsPlain, first_ticket}
use cubrid_testkit.Dispatch.Invariant.{attempts, Numbered}
use cubrid_testkit.Dispatch.Guarantees.{
  AreDistinct, fresh_run, conservation, attempts_bounded, handed_total, finished_retired,
  claim_progress,
}

abbrev a_case : Bytes
a_case = codes "s/a/cases/a.sh"

abbrev b_case : Bytes
b_case = codes "s/b/cases/b.sh"

abbrev two_cases : List Bytes
two_cases = a_case ∷ b_case ∷ []

two_cases-AreDistinct : AreDistinct two_cases
unfolding elem bytes_beq
two_cases-AreDistinct = all_distinct-count two_cases refl

abbrev M : Type 0
M = Unit {0}

abbrev claim : Bytes → Event M
claim slot = claims tt slot lane_any

-- Both cases go out, the first fails and is tried again, both end.
abbrev flaky : List (Event M)
flaky =
    claim (codes "1")
    ∷ claim (codes "2")
    ∷ completes 1 false false
    ∷ completes 0 true false
    ∷ claim (codes "1")
    ∷ completes 0 true false
    ∷ []

dir_of_case : dir_of a_case ≡ codes "s/a/cases"
unfolding dir_of last_index has_prefix
dir_of_case = refl

flaky_handed :
    (fresh_run two_cases 1 flaky).handed
    ≡ record { test_case = a_case; retry = 1 } ∷ first_ticket b_case ∷ first_ticket a_case ∷ []
unfolding run step answered completed initial new claim_once claim_plain claim_retry give_retry
    depart admissible scan_policy admits take_at start complete enqueue lookup insert delete
    bytes_beq first_retry
flaky_handed = refl

abbrev flaky_world : World M
flaky_world = fresh_run two_cases 1 flaky

-- One case is out, the other waits behind a cap on heavy cases.
abbrev capped : List (Event M)
capped =
    governs
      (some
        (heavy_policy (some (record { heavy = (a_case, true) ∷ (b_case, true) ∷ []; max = 1 }))))
      none
    ∷ claim (codes "1")
    ∷ []

abbrev capped_world : World M
capped_world = fresh_run two_cases 1 capped

-- The first case failed and waits for its retry.
abbrev waiting : List (Event M)
waiting =
    claim (codes "1") ∷ claim (codes "2") ∷ completes 0 true false ∷ completes 0 false false ∷ []

abbrev waiting_world : World M
waiting_world = fresh_run two_cases 1 waiting

-- Names everything that a run computes with.
runs : M
unfolding run step answered completed initial new claim_once claim_plain claim_retry give_retry
    depart admissible scan_policy admits take_at start stop_case remove_first complete enqueue
    lookup insert delete bytes_beq first_retry set_policy heavy_admit is_heavy heavy_running
    finished
runs = tt

conservation_example :
    count b_case (window flaky_world.queue)
      + attempts b_case flaky_world.out
      + count b_case flaky_world.queue.retry_queue
      + count b_case flaky_world.retired
    ≡ count b_case two_cases
conservation_example = conservation two_cases 1 two_cases-AreDistinct flaky b_case

attempts_bounded_example :
    Numbered flaky_world.handed
    × ((c : Bytes) → attempts c flaky_world.handed ≤ 2 * count c two_cases)
attempts_bounded_example = attempts_bounded two_cases 1 two_cases-AreDistinct flaky

handed_total_example : length flaky_world.handed ≤ 4
handed_total_example = handed_total two_cases 1 two_cases-AreDistinct flaky

finished_retired_example :
    (flaky_world.out ≡ []) × ((c : Bytes) → count c flaky_world.retired ≡ count c two_cases)
unfolding runs
finished_retired_example = finished_retired two_cases 1 two_cases-AreDistinct flaky refl refl

claim_progress_example :
    (t : Ticket) × ((claim_once tt (codes "2") lane_any waiting_world.queue).1 ≡ given t)
unfolding runs
claim_progress_example =
    claim_progress two_cases 1 two_cases-AreDistinct waiting tt (codes "2") lane_any refl refl refl

waiting-IsPlain : IsPlain waiting_world.queue
unfolding runs
waiting-IsPlain = record { laneless = refl; unheld = refl }
