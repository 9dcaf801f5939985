-- ===== src/Dispatch/LanedTests.antt =====
-- The queue with lanes on concrete runs.
use cubrid_testkit.Prelude.{
  ◌+◌, ◌≡◌, refl, true, false, List, [], ◌∷◌, Bytes, all_distinct-count, count, elem, bytes_beq,
  bytes_eq,
}
use cubrid_testkit.Prelude.Strings.{codes, has_prefix, last_index}
use cubrid_testkit.Prelude.Dict.{Dict, lookup, insert, delete}
use cubrid_testkit.Dispatch.Lanes.{Lane, lane_any, lane_fast, lane_slow, dir_of}
use cubrid_testkit.Dispatch.Queue.{
  new, assign, affinity, assign_all, start, stop_case, remove_first, lane_match,
}
use cubrid_testkit.Dispatch.Claim.{
  claim_once, claim_laned, claim_retry, find_free, hold_siblings, take_dir, scan, give_retry,
  depart, first_retry,
}
use cubrid_testkit.Dispatch.Complete.{
  complete, enqueue, placed, forget, finished, first_pass_done, none_held, all_true,
}
use cubrid_testkit.Dispatch.Run.{
  Event, World, claims, completes, run, step, answered, completed, initial,
}
use cubrid_testkit.Dispatch.Plain.{first_ticket}
use cubrid_testkit.Dispatch.Invariant.{attempts}
use cubrid_testkit.Dispatch.Holding.{held_count}
use cubrid_testkit.Dispatch.LanedInvariant.{open_cases}
use cubrid_testkit.Dispatch.Guarantees.{AreDistinct}
use cubrid_testkit.Dispatch.LanedGuarantees.{laned_run, laned_conservation, laned_finished}
use cubrid_testkit.Dispatch.OneSlot.{one_slot}

abbrev a_1 : Bytes
a_1 = codes "a/cases/1.sh"

abbrev a_2 : Bytes
a_2 = codes "a/cases/2.sh"

abbrev b_1 : Bytes
b_1 = codes "b/cases/1.sh"

-- Two cases of one directory, and one of a directory of the slow lane between them.
abbrev three_cases : List Bytes
three_cases = a_1 ∷ b_1 ∷ a_2 ∷ []

three_cases-AreDistinct : AreDistinct three_cases
unfolding elem bytes_beq
three_cases-AreDistinct = all_distinct-count three_cases refl

abbrev lanes_of : Dict Bytes Lane
lanes_of = (codes "a/cases", lane_fast) ∷ (codes "b/cases", lane_slow) ∷ []

abbrev M : Type 0
M = Unit {0}

-- Slot 1 takes directory `a`, slot 2 takes `b`; the first case fails and waits behind its sibling.
abbrev both : List (Event M)
both =
    claims tt (codes "1") lane_any
    ∷ claims tt (codes "2") lane_slow
    ∷ completes 1 false false
    ∷ claims tt (codes "2") lane_slow
    ∷ []

abbrev done : List (Event M)
done =
    claims tt (codes "1") lane_any
    ∷ claims tt (codes "1") lane_any
    ∷ claims tt (codes "1") lane_any
    ∷ completes 2 true false
    ∷ completes 1 false true
    ∷ completes 0 true false
    ∷ []

laned_runs : M
unfolding run step answered completed initial new assign assign_all affinity claim_once claim_laned
    claim_retry find_free hold_siblings take_dir scan give_retry depart first_retry start stop_case
    remove_first complete enqueue placed forget lookup insert delete bytes_beq lane_match dir_of
    last_index has_prefix finished first_pass_done none_held all_true
laned_runs = tt

abbrev done_world : World M
done_world = laned_run three_cases 1 lanes_of done

abbrev both_world : World M
both_world = laned_run three_cases 1 lanes_of both

-- The sibling is held for slot 1, before the retry.
both_held : both_world.queue.held ≡ (codes "1", a_2 ∷ a_1 ∷ []) ∷ []
unfolding laned_runs
both_held = refl

laned_conservation_example :
    count a_2 (open_cases both_world.queue)
      + attempts a_2 both_world.out
      + held_count a_2 both_world.queue.held
      + count a_2 both_world.queue.retry_queue
      + count a_2 both_world.retired
    ≡ count a_2 three_cases
laned_conservation_example =
    laned_conservation three_cases 1 lanes_of three_cases-AreDistinct both a_2

laned_finished_example :
    (done_world.out ≡ []) × ((c : Bytes) → count c done_world.retired ≡ count c three_cases)
unfolding laned_runs
laned_finished_example =
    laned_finished three_cases 1 lanes_of three_cases-AreDistinct done refl refl

one_slot_example : codes "1" ≡ codes "1"
unfolding laned_runs
one_slot_example =
    one_slot three_cases 1 lanes_of three_cases-AreDistinct [] (claims tt (codes "2") lane_any ∷ [])
      tt tt (codes "1") (codes "1") lane_any lane_fast (first_ticket a_1) (first_ticket a_2) refl
      refl refl refl refl
