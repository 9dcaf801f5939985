-- ===== src/Sizing/Tests.antt =====
-- Slot counts on a machine with 64 GB free and sixteen processors.
use cubrid_testkit.Prelude.{
  ℕ, ◌+◌, ◌*◌, ◌/◌, ◌≤◌, ◌<◌, ◌≡◌, refl, [], ◌∷◌, leb, arith, bytes_eq, bytes_beq, count, nat_eq,
  elem,
}
use cubrid_testkit.Prelude.Strings.{codes, trim_left, trim_right}
use cubrid_testkit.Prelude.Dict.{lookup}
use cubrid_testkit.Plan.Sizes.{atoi_positive}
use cubrid_testkit.Sizing.Records.{
  Mode, conservative, measured, aggressive, Engine, buffers, growth, Run, Input, Floats,
  same_corpus, newest_cases, on_lane, one_per_count, peers, most_slots, tried,
}
use cubrid_testkit.Sizing.Slots.{
  timed, fastest_of, fewest_near, any_over, knee_of, knee, scaled_bound, corpus_scan, corpus_bound,
  adjusted, costs, budget_for, slot_budget, is_aggressive, other_bounds, by_memory, least, sized,
  slots_for,
}
use cubrid_testkit.Sizing.Knee.{IsKnee, knee-IsKnee}
use cubrid_testkit.Sizing.Fit.{AtMost, slots_fit}

-- Hundredths, rounded half up.
abbrev scale : Mode → ℕ → ℕ
scale conservative n = n * 2
scale measured n = n
scale aggressive n = n * 8 / 10

abbrev hundredths : Floats
hundredths = record {
  with_margin = λ mb. (mb * 115 + 50) / 100;
  scaled = scale;
  within_noise = λ wall fastest. leb (wall * 100) (fastest * 105);
}

abbrev engine : Engine
engine = record { data_buffer_mb = 512; log_buffer_mb = 256 }

abbrev run_of : ℕ → ℕ → Run
run_of slots wall = record {
  engine = engine;
  corpus = codes "iso";
  lane = codes "disk";
  slots = slots;
  cases = 400;
  wall_s = wall;
  case_s = 9000;
  longest_unit_s = 300;
  per_slot_mb = 1422;
}

abbrev input : Input
input = record {
  suite = codes "isolation";
  configured = codes " ";
  mode = measured;
  engine = engine;
  avail_mb = 64000;
  shared_mb = 1000;
  cpus = 0;
  cases = 410;
  corpus = codes "iso";
  lane = codes "disk";
  runs = run_of 8 1000 ∷ run_of 12 990 ∷ run_of 4 1900 ∷ [];
}

sizes : Unit {0}
unfolding trim_left trim_right atoi_positive buffers growth same_corpus newest_cases on_lane
    one_per_count peers most_slots tried timed fastest_of fewest_near any_over knee_of knee
    scaled_bound corpus_scan corpus_bound adjusted costs budget_for slot_budget is_aggressive
    other_bounds by_memory least sized slots_for lookup bytes_beq elem
sizes = tt

-- Memory would allow 37 slots and the corpus 30; twelve were not faster than eight.
eight_slots : slots_for hundredths 16 input ≡ 8
unfolding sizes
eight_slots = refl

slots_fit_example :
    (8 * 1635 + 2048 + 1000 ≤ 64000)
    × AtMost 8 (16 ∷ 410 ∷ 24 ∷ 8 ∷ 30 ∷ [])
    × (0 < count {A = ℕ} 8 (37 ∷ 16 ∷ 410 ∷ 24 ∷ 8 ∷ 30 ∷ []))
unfolding sizes
slots_fit_example = slots_fit hundredths 16 input refl (omega arith)

knee-IsKnee_example : IsKnee hundredths (run_of 8 1000 ∷ run_of 12 990 ∷ run_of 4 1900 ∷ []) 8
unfolding sizes
knee-IsKnee_example = knee-IsKnee hundredths input 8 refl
