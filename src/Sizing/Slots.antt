-- ===== src/Sizing/Slots.antt =====
-- internal/sizing/sizing.go: the bounds on a slot count, and the decision.
use cubrid_testkit.Prelude.{
  ℕ, ◌+◌, ◌-◌, ◌*◌, ◌/◌, Bool, true, false, ◌&&◌, ◌||◌, List, [], ◌∷◌, ◌++◌, Option, none, some,
  ltb, leb, if◌then◌else◌, ◌==◌, nat_eq, bytes_eq, length,
}
use cubrid_testkit.Prelude.Strings.{trim_left, trim_right}
use cubrid_testkit.Prelude.Trim.{trim_space}
use cubrid_testkit.Plan.Sizes.{atoi_positive}
use cubrid_testkit.Prelude.Dict.{read}
use cubrid_testkit.Sizing.Records.{
  Mode, conservative, measured, aggressive, Engine, buffers, Run, Input, Floats, reserved_mb,
  shipped, max, same_corpus, peers, tried,
}

unfoldable pub timed : List Run → List Run
timed [] = []
timed (r ∷ runs) = let rest = timed runs in if ltb 0 r.wall_s then r ∷ rest else rest

unfoldable pub fastest_of : Run → List Run → Run
fastest_of fastest [] = fastest
fastest_of fastest (r ∷ runs) = fastest_of (if ltb r.wall_s fastest.wall_s then r else fastest) runs

-- The fewest slots that came within the noise of the fastest.
unfoldable pub fewest_near : Floats → ℕ → Run → List Run → Run
fewest_near fl wall best [] = best
fewest_near fl wall best (r ∷ runs) =
    fewest_near fl wall
      (if fl.within_noise r.wall_s wall && ltb r.slots best.slots then r else best) runs

-- Whether `over` is found.
unfoldable pub any_over : ℕ → List Run → Bool
any_over n [] = false
any_over n (r ∷ runs) = ltb n r.slots || any_over n runs

unfoldable pub knee_of : Floats → List Run → Option ℕ
unfolding fastest_of fewest_near any_over
knee_of fl [] = none
knee_of fl (r ∷ []) = none
knee_of fl (r ∷ s ∷ runs) =
    let fastest = fastest_of r (s ∷ runs) in
    let best = fewest_near fl fastest.wall_s fastest (r ∷ s ∷ runs) in
    if any_over best.slots (r ∷ s ∷ runs) then some best.slots else none

-- `knee`
unfoldable pub knee : Floats → Input → Option ℕ
unfolding knee_of timed
knee fl input = knee_of fl (timed (peers input))

unfoldable pub scaled_bound : Input → Option Run → Option ℕ
scaled_bound input none = none
scaled_bound input (some other) =
    some (other.case_s * input.cases / other.cases / other.longest_unit_s)

unfoldable pub corpus_scan : Input → Option Run → List Run → Option ℕ
unfolding scaled_bound
corpus_scan input other [] = scaled_bound input other
corpus_scan input none (r ∷ runs) =
    let skipped = corpus_scan input none runs in
    let noted = corpus_scan input (some r) runs in
    if r.case_s == 0 || r.longest_unit_s == 0
    then skipped
    else if same_corpus input r
    then some (r.case_s / r.longest_unit_s)
    else if ltb 0 input.cases && ltb 0 r.cases
    then noted
    else skipped
corpus_scan input (some other) (r ∷ runs) =
    let skipped = corpus_scan input (some other) runs in
    if r.case_s == 0 || r.longest_unit_s == 0
    then skipped
    else if same_corpus input r
    then some (r.case_s / r.longest_unit_s)
    else skipped

-- `corpusBound`
unfoldable pub corpus_bound : Input → Option ℕ
unfolding corpus_scan
corpus_bound input = corpus_scan input none input.runs

-- `adjusted`
unfoldable pub adjusted : Run → Engine → ℕ
unfolding buffers
adjusted r engine =
    if r.per_slot_mb == 0
    then 0
    else if ltb 0 (buffers r.engine) && ltb 0 (buffers engine)
    then r.per_slot_mb + buffers engine - buffers r.engine
    else r.per_slot_mb

-- The loop of `budgetFor`: the largest cost of a run that covers this one, and of any.
unfoldable pub costs : Input → ℕ × ℕ → List Run → ℕ × ℕ
unfolding adjusted
costs input (covering, any) [] = (covering, any)
costs input (covering, any) (r ∷ runs) =
    let mb = adjusted r input.engine in
    let covers = same_corpus input r || (ltb 0 input.cases && leb input.cases r.cases) in
    costs input
      (if mb == 0
        then (covering, any)
        else (if covers then max covering mb else covering, max any mb))
      runs

-- `budgetFor`, 0 for none
unfoldable pub budget_for : Floats → Input → ℕ
unfolding costs
budget_for fl input =
    let (covering, any) = costs input (0, 0) input.runs in
    let ship = read 0 input.suite shipped in
    if ltb 0 covering
    then fl.with_margin covering
    else if ship == 0
    then 0
    else if ltb ship (fl.with_margin any)
    then fl.with_margin any
    else ship

-- What a slot is allowed, in the mode.
unfoldable pub slot_budget : Floats → Input → ℕ
unfolding budget_for
slot_budget fl input = max (fl.scaled input.mode (budget_for fl input)) 1

abbrev pub from_option : Option ℕ → List ℕ
from_option none = []
from_option (some n) = n ∷ []

unfoldable pub is_aggressive : Mode → Bool
is_aggressive conservative = false
is_aggressive measured = false
is_aggressive aggressive = true

-- The bounds after the first, which is by memory.
unfoldable pub other_bounds : Floats → ℕ → Input → List ℕ
unfolding knee corpus_bound is_aggressive
other_bounds fl num_cpu input =
    (if input.cpus == 0 then num_cpu else input.cpus)
    ∷ ((if ltb 0 input.cases then input.cases ∷ [] else [])
        ++ (tried input
            ∷ ((if is_aggressive input.mode then [] else from_option (knee fl input))
                ++ from_option (corpus_bound input))))

unfoldable pub by_memory : Floats → Input → ℕ
unfolding slot_budget
by_memory fl input = (input.avail_mb - reserved_mb - input.shared_mb) / slot_budget fl input

unfoldable pub least : ℕ → List ℕ → ℕ
least best [] = best
least best (b ∷ bounds) = least (if ltb b best then b else best) bounds

unfoldable pub sized : Floats → ℕ → Input → ℕ
unfolding budget_for by_memory other_bounds least
sized fl num_cpu input =
    if budget_for fl input == 0 || input.avail_mb == 0
    then 1
    else max (least (by_memory fl input) (other_bounds fl num_cpu input)) 1

-- A number below 1 gives one slot, as a text that is no number does.
abbrev pub at_least_one : Option ℕ → ℕ
at_least_one none = 1
at_least_one (some n) = max n 1

-- `Slots`; `num_cpu` is runtime.NumCPU.
unfoldable pub slots_for : Floats → ℕ → Input → ℕ
unfolding sized trim_left trim_right atoi_positive
slots_for fl num_cpu input =
    let s = trim_space input.configured in
    if length s == 0 then sized fl num_cpu input else at_least_one (atoi_positive s)
