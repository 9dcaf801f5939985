-- ===== src/Sizing/Knee.antt =====
-- The knee: where more slots stopped paying.
use cubrid_testkit.Prelude.{
  ℕ, ◌≤◌, ◌≡◌, refl, Bool, true, false, ◌&&◌, ◌||◌, List, [], ◌∷◌, some, arith, ltb, leb,
  if◌then◌else◌, ◌==◌, nat_eq, nat_beq_iff, Bool-cases, inl, inr,
}
use mathlib.Core.Path.{subst}
use cubrid_testkit.Sizing.Records.{Run, Input, Floats, peers}
use cubrid_testkit.Sizing.Slots.{timed, fastest_of, fewest_near, any_over, knee_of, knee}

-- A test that some run, or every run, passes.
abbrev pub any_run : (Run → Bool) → List Run → Bool
any_run test [] = false
any_run test (r ∷ runs) = let rest = any_run test runs in if test r then true else rest

abbrev pub all_runs : (Run → Bool) → List Run → Bool
all_runs test [] = true
all_runs test (r ∷ runs) = let rest = all_runs test runs in if test r then rest else false

abbrev pub not_slower : ℕ → Run → Bool
not_slower wall r = leb wall r.wall_s

-- A run within the noise of the fastest has at least `n` slots.
abbrev pub no_fewer : Floats → ℕ → ℕ → Run → Bool
no_fewer fl wall n r = if fl.within_noise r.wall_s wall then leb n r.slots else true

-- A run that came within the noise of the fastest, or is the fastest.
abbrev pub is_near : Floats → ℕ → Run → Bool
is_near fl wall r = fl.within_noise r.wall_s wall || r.wall_s == wall

fastest_of-all :
    (f : Run) (runs : List Run) (wall : ℕ)
    → wall ≤ (fastest_of f runs).wall_s
    → (wall ≤ f.wall_s) × (all_runs (not_slower wall) runs ≡ true)
unfolding fastest_of
fastest_of-all f [] wall h = (h, refl)
fastest_of-all f (r ∷ runs) wall h = elim (Bool-cases (ltb r.wall_s f.wall_s)) [
  | inl faster ↦
      let (a, b) = fastest_of-all r runs wall (rw (faster, fastest_of) at h) in
      let first : not_slower wall r ≡ true = ground (arith, a) in
      (ground (arith, a, faster), rw first b)
  | inr slower ↦
      let (a, b) = fastest_of-all f runs wall (rw (slower, fastest_of) at h) in
      let first : not_slower wall r ≡ true = ground (arith, a, slower) in (a, rw first b)
]

fewest_near-all :
    (fl : Floats) (wall : ℕ) (best : Run) (runs : List Run) (n : ℕ)
    → n ≤ (fewest_near fl wall best runs).slots
    → (n ≤ best.slots) × (all_runs (no_fewer fl wall n) runs ≡ true)
unfolding fewest_near
fewest_near-all fl wall best [] n h = (h, refl)
fewest_near-all fl wall best (r ∷ runs) n h =
    elim (Bool-cases (fl.within_noise r.wall_s wall && ltb r.slots best.slots)) [
      | inl fewer ↦
          let (a, b) = fewest_near-all fl wall r runs n (rw (fewer, fewest_near) at h) in
          let first : no_fewer fl wall n r ≡ true = ground (arith, a) in
          (ground (arith, a, fewer), rw first b)
      | inr more ↦
          let (a, b) = fewest_near-all fl wall best runs n (rw (more, fewest_near) at h) in
          let first : no_fewer fl wall n r ≡ true = ground (arith, a, more) in (a, rw first b)
    ]

fewest_near-near :
    (fl : Floats) (wall : ℕ) (best : Run) (runs : List Run)
    → is_near fl wall best ≡ true
    → is_near fl wall (fewest_near fl wall best runs) ≡ true
unfolding fewest_near
fewest_near-near fl wall best [] h = h
fewest_near-near fl wall best (r ∷ runs) h =
    elim (Bool-cases (fl.within_noise r.wall_s wall && ltb r.slots best.slots)) [
      | inl fewer ↦
          let near : is_near fl wall r ≡ true = ground (arith, fewer) in
          rw (fewer, fewest_near) (fewest_near-near fl wall r runs near)
      | inr more ↦ rw (more, fewest_near) (fewest_near-near fl wall best runs h)
    ]

any_over-any :
    (n : ℕ) (runs : List Run) → any_over n runs ≡ true → any_run (λ r. ltb n r.slots) runs ≡ true
unfolding any_over
any_over-any n [] h = h
any_over-any n (r ∷ runs) h = ground (arith, h, any_over-any n runs)

any_more :
    (test : Run → Bool) (f : Run) (runs : List Run)
    → any_run test runs ≡ true
    → any_run test (f ∷ runs) ≡ true
any_more test f runs h = elim (Bool-cases (test f)) [ inl yes' ↦ rw yes' refl | inr no' ↦ rw no' h ]

any_skip :
    (test : Run → Bool) (f r : Run) (runs : List Run)
    → any_run test (f ∷ runs) ≡ true
    → any_run test (f ∷ r ∷ runs) ≡ true
any_skip test f r runs h = elim (Bool-cases (test f)) [
  | inl yes' ↦ rw yes' refl
  | inr no' ↦ any_more test f (r ∷ runs) (any_more test r runs (rw no' at h))
]

fastest_of-any :
    (test : Run → Bool) (f : Run) (runs : List Run)
    → test (fastest_of f runs) ≡ true
    → any_run test (f ∷ runs) ≡ true
unfolding fastest_of
fastest_of-any test f [] h = rw h refl
fastest_of-any test f (r ∷ runs) h = elim (Bool-cases (ltb r.wall_s f.wall_s)) [
  | inl faster ↦
      any_more test f (r ∷ runs) (fastest_of-any test r runs (rw (faster, fastest_of) at h))
  | inr slower ↦ any_skip test f r runs (fastest_of-any test f runs (rw (slower, fastest_of) at h))
]

fewest_near-any :
    (test : Run → Bool) (fl : Floats) (wall : ℕ) (best : Run) (runs : List Run)
    → test (fewest_near fl wall best runs) ≡ true
    → any_run test (best ∷ runs) ≡ true
unfolding fewest_near
fewest_near-any test fl wall best [] h = rw h refl
fewest_near-any test fl wall best (r ∷ runs) h =
    elim (Bool-cases (fl.within_noise r.wall_s wall && ltb r.slots best.slots)) [
      | inl fewer ↦
          any_more test best (r ∷ runs)
            (fewest_near-any test fl wall r runs (rw (fewer, fewest_near) at h))
      | inr more ↦
          any_skip test best r runs
            (fewest_near-any test fl wall best runs (rw (more, fewest_near) at h))
    ]

either_any :
    (test : Run → Bool) (f : Run) (runs : List Run)
    → (test f ≡ true → any_run test runs ≡ true)
    → any_run test (f ∷ runs) ≡ true
    → any_run test runs ≡ true
either_any test f runs g h = elim (Bool-cases (test f)) [
  | inl yes' ↦ g yes'
  | inr no' ↦ rw no' at h
]

-- What a slot count is that the knee gives.
pub record IsKnee (fl : Floats) (runs : List Run) (n : ℕ) : Type 0 where
  pub wall : ℕ
  pub is_wall : any_run (λ r. r.wall_s == wall) runs ≡ true
  pub is_count : any_run (λ r. r.slots == n && is_near fl wall r) runs ≡ true
  pub is_fastest : all_runs (not_slower wall) runs ≡ true
  pub is_fewest : all_runs (no_fewer fl wall n) runs ≡ true
  pub is_over : any_run (λ r. ltb n r.slots) runs ≡ true

knee_of-IsKnee :
    (fl : Floats) (runs : List Run) (n : ℕ) → knee_of fl runs ≡ some n → IsKnee fl runs n
unfolding knee_of
knee_of-IsKnee fl [] n h = absurd (cc h)
knee_of-IsKnee fl (r ∷ []) n h = absurd (cc h)
knee_of-IsKnee fl (r ∷ s ∷ runs) n h =
    let fastest = fastest_of r (s ∷ runs) in
    let best = fewest_near fl fastest.wall_s fastest (r ∷ s ∷ runs) in
    elim (Bool-cases (any_over best.slots (r ∷ s ∷ runs))) [
      | inr last ↦ absurd (cc (rw last at h))
      | inl over ↦
          let is_n : best.slots ≡ n = cc (rw over at h) in
          let (first, others) = fastest_of-all r (s ∷ runs) fastest.wall_s (omega arith) in
          let first' : not_slower fastest.wall_s r ≡ true = ground (arith, first) in
          record {
            wall = fastest.wall_s;
            is_wall =
                fastest_of-any (λ x. x.wall_s == fastest.wall_s) r (s ∷ runs)
                  ((nat_beq_iff fastest.wall_s fastest.wall_s).1 refl);
            is_count =
                let test : Run → Bool = λ x. x.slots == n && is_near fl fastest.wall_s x in
                let itself : is_near fl fastest.wall_s fastest ≡ true = ground arith in
                let near = fewest_near-near fl fastest.wall_s fastest (r ∷ s ∷ runs) itself in
                let counted : best.slots == n ≡ true = (nat_beq_iff best.slots n).1 is_n in
                either_any test fastest (r ∷ s ∷ runs) (fastest_of-any test r (s ∷ runs))
                  (fewest_near-any test fl fastest.wall_s fastest (r ∷ s ∷ runs) (rw counted near));
            is_fastest = rw first' others;
            is_fewest =
                (fewest_near-all fl fastest.wall_s fastest (r ∷ s ∷ runs) n
                  (omega (arith, is_n))).1;
            is_over =
                subst (λ z. any_run (λ (x : Run). ltb z x.slots) (r ∷ s ∷ runs) ≡ true) is_n
                  (any_over-any best.slots (r ∷ s ∷ runs) over);
          }
    ]

-- A slot count that the knee gives is that of one of the timed runs it looks at, one that is within the
-- noise of the fastest or as fast; no run within the noise of the fastest had fewer slots, and some
-- run had more.
pub knee-IsKnee :
    (fl : Floats) (input : Input) (n : ℕ)
    → knee fl input ≡ some n
    → IsKnee fl (timed (peers input)) n
unfolding knee
knee-IsKnee fl input n h = knee_of-IsKnee fl (timed (peers input)) n h
