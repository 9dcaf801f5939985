-- ===== src/Sizing/Fit.antt =====
-- A slot count fits the machine: the memory it may take, and every other bound.
use cubrid_testkit.Prelude.{
  ℕ, ◌+◌, ◌-◌, ◌*◌, ◌≤◌, ◌<◌, ◌≡◌, refl, sym, ◌∙◌, ◌||◌, List, [], ◌∷◌, arith, ltb, if◌then◌else◌,
  ◌==◌, nat_eq, nat_beq_iff, bytes_eq, length, count, Bool-cases, inl, inr,
}
use mathlib.Core.Path.{subst}
use native.Mathlib.Nat.{le-div_iff_mul-le, mul-pos}
use cubrid_testkit.Prelude.Trim.{trim_space}
use cubrid_testkit.Sizing.Records.{Input, Floats, reserved_mb}
use cubrid_testkit.Sizing.Slots.{
  budget_for, slot_budget, other_bounds, by_memory, least, sized, slots_for,
}

-- A number is at most each of a list.
abbrev pub AtMost : ℕ → List ℕ → Type 0
AtMost n [] = Unit
AtMost n (b ∷ bounds) = (n ≤ b) × AtMost n bounds

least_le : (best : ℕ) (bounds : List ℕ) → least best bounds ≤ best
unfolding least
least_le best [] = omega arith
least_le best (b ∷ bounds) = ground (arith, least_le (if ltb b best then b else best) bounds)

least-AtMost : (best : ℕ) (bounds : List ℕ) → AtMost (least best bounds) bounds
unfolding least
least-AtMost best [] = tt
least-AtMost best (b ∷ bounds) =
    let next = if ltb b best then b else best in
    (ground (arith, least_le next bounds), least-AtMost next bounds)

count_more :
    (n best b : ℕ) (bounds : List ℕ)
    → count n ((if ltb b best then b else best) ∷ bounds) ≤ count n (best ∷ b ∷ bounds)
unfolding count
count_more n best b bounds = elim (Bool-cases (ltb b best)) [
  | inl less ↦ rw less (ground arith)
  | inr more ↦ rw more (ground arith)
]

least-count : (best : ℕ) (bounds : List ℕ) → 0 < count (least best bounds) (best ∷ bounds)
unfolding least
least-count best [] = unfold count in ground (arith, nat_beq_iff best best)
least-count best (b ∷ bounds) =
    let next = if ltb b best then b else best in
    omega (arith, least-count next bounds, count_more (least next bounds) best b bounds)

budget_positive : (fl : Floats) (input : Input) → 0 < slot_budget fl input
unfolding slot_budget
budget_positive fl input = ground arith

sized_best :
    (fl : Floats) (num_cpu : ℕ) (input : Input)
    → 1 < sized fl num_cpu input
    → sized fl num_cpu input ≡ least (by_memory fl input) (other_bounds fl num_cpu input)
unfolding sized
sized_best fl num_cpu input many =
    elim (Bool-cases (budget_for fl input == 0 || input.avail_mb == 0)) [
      | inl unknown ↦ absurd (ground (arith, rw unknown at many))
      | inr known ↦ rw known (ground (arith, rw known at many))
    ]

memory_fits :
    (fl : Floats) (input : Input) (n : ℕ)
    → 1 < n
    → n ≤ by_memory fl input
    → n * slot_budget fl input + reserved_mb + input.shared_mb ≤ input.avail_mb
unfolding by_memory
memory_fits fl input n many h =
    let total : n * slot_budget fl input ≤ input.avail_mb - reserved_mb - input.shared_mb =
      (le-div_iff_mul-le (budget_positive fl input)).0 h in
    let some_mb : 0 < n * slot_budget fl input =
      mul-pos (omega (arith, many)) (budget_positive fl input) in
    omega (arith, total, some_mb)

-- Where no slot count is configured and the run gets more than one slot, the slots, the reserve and
-- what the run sets aside fit into the free memory; no other bound is exceeded; and the count is one
-- of the bounds.
pub slots_fit :
    (fl : Floats) (num_cpu : ℕ) (input : Input)
    → length (trim_space input.configured) ≡ 0
    → 1 < slots_for fl num_cpu input
    → let n = slots_for fl num_cpu input in
      (n * slot_budget fl input + reserved_mb + input.shared_mb ≤ input.avail_mb)
      × AtMost n (other_bounds fl num_cpu input)
      × (0 < count n (by_memory fl input ∷ other_bounds fl num_cpu input))
unfolding slots_for
slots_fit fl num_cpu input blank many =
    let memory = by_memory fl input in
    let others = other_bounds fl num_cpu input in
    let best = least memory others in
    let is_sized : slots_for fl num_cpu input ≡ sized fl num_cpu input = rw blank refl in
    let is_best : sized fl num_cpu input ≡ best =
      sized_best fl num_cpu input (rw is_sized at many) in
    let n≡ : best ≡ slots_for fl num_cpu input = sym (is_sized ∙ is_best) in
    subst
      (λ n.
        (n * slot_budget fl input + reserved_mb + input.shared_mb ≤ input.avail_mb)
        × AtMost n others
        × (0 < count n (memory ∷ others)))
      n≡
      (
        memory_fits fl input best (rw (sym n≡) at many) (least_le memory others),
        least-AtMost memory others,
        least-count memory others,
      )
