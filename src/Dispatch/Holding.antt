-- ===== src/Dispatch/Holding.antt =====
-- With lanes: the cases that are not taken, those that slots hold, and what the scan by directory
-- does to both.
use cubrid_testkit.Prelude.{
  ℕ, zero, suc, ◌+◌, ◌≡◌, refl, Bool, true, false, not, ◌||◌, List, [], ◌∷◌, ◌++◌, some, arith,
  Bytes, take, drop, get_elem?, nat_eq, bytes_eq, count, if◌then◌else◌, Bool-cases, Option-cases,
  inl, inr,
}
use cubrid_testkit.Prelude.Dict.{Dict, lookup, insert, read}
use cubrid_testkit.Dispatch.Claim.{find_free, hold_siblings, first_retry}

-- The cases that are neither claimed nor held.
unfoldable pub free : List Bytes → List Bool → List Bytes
free (c ∷ cs) (t ∷ ts) = let rest = free cs ts in if t then rest else c ∷ rest
free _ _ = []

-- How often a case is held, by all the slots together.
unfoldable pub held_count : Bytes → Dict Bytes (List Bytes) → ℕ
held_count c [] = 0
held_count c (entry ∷ rest) = count c entry.1 + held_count c rest

pub held_count-insert :
    (c slot : Bytes) (xs : List Bytes) (held : Dict Bytes (List Bytes))
    → held_count c (insert slot xs held) + count c (read [] slot held)
      ≡ held_count c held + count c xs
unfolding held_count insert lookup count
held_count-insert c slot xs [] = omega arith
held_count-insert c slot xs (entry ∷ rest) = ground (arith, held_count-insert c slot xs rest)

pub first_retry-count :
    (fits : Bytes → Bool) (xs : List Bytes) (c : Bytes) (rest : List Bytes) (a : Bytes)
    → first_retry fits xs ≡ some (c, rest)
    → count a xs ≡ count a (c ∷ rest)
unfolding first_retry count
first_retry-count fits [] c rest a h = absurd cc
first_retry-count fits (x ∷ xs) c rest a h = elim (Bool-cases (fits x)) [
  | inl yes' ↦ ground (arith, rw (yes', first_retry) at h)
  | inr no' ↦ elim (Option-cases (first_retry fits xs)) [
    | inl nothing ↦ absurd (cc (rw (no', nothing, first_retry) at h))
    | inr ((d, others), found) ↦
        ground
          (arith, first_retry-count fits xs d others a found, rw (no', found, first_retry) at h)
  ]
]

-- Where the case that is found stands, and that it is not taken.
pub find_free-at :
    (fits : Bytes → Bool) (i : ℕ) (cs : List Bytes) (ts : List Bool) (c : Bytes) (j : ℕ)
    → find_free fits i cs ts ≡ some (c, j)
    → (k : ℕ) × (j ≡ i + k)
      × (get_elem? cs k ≡ some c)
      × (get_elem? ts k ≡ some false)
      × (fits c ≡ true)
unfolding find_free
find_free-at fits i [] ts c j h = absurd cc
find_free-at fits i (x ∷ cs) [] c j h = absurd cc
find_free-at fits i (x ∷ cs) (t ∷ ts) c j h = elim (Bool-cases (t || not (fits x))) [
  | inl passed ↦
      let (k, e, g, n, f) = find_free-at fits (suc i) cs ts c j (rw passed at h) in
      (suc k, omega (arith, e), g, n, f)
  | inr found ↦ (
    0,
    ground (arith, rw found at h),
    ground (arith, rw found at h),
    ground (arith, found),
    ground (arith, found, rw found at h),
  )
]

pub hold_siblings-count :
    (dir : Bytes) (cs : List Bytes) (ts : List Bool) (a : Bytes)
    → count a (free cs (hold_siblings dir cs ts).0) + count a (hold_siblings dir cs ts).1
      ≡ count a (free cs ts)
unfolding hold_siblings free count
hold_siblings-count dir [] ts a = refl
hold_siblings-count dir (c ∷ cs) [] a = refl
hold_siblings-count dir (c ∷ cs) (t ∷ ts) a = ground (arith, hold_siblings-count dir cs ts a)

-- Taking the case at `j`, and holding what `marks` and `siblings` say of the cases behind it.
pub free-take :
    (cs : List Bytes) (ts : List Bool) (j : ℕ) (c a : Bytes) (marks : List Bool)
    (siblings : List Bytes)
    → get_elem? cs j ≡ some c
    → get_elem? ts j ≡ some false
    → count a (free (drop (suc j) cs) marks) + count a siblings
      ≡ count a (free (drop (suc j) cs) (drop (suc j) ts))
    → count a (free cs (take j ts ++ true ∷ marks)) + count a (c ∷ siblings) ≡ count a (free cs ts)
unfolding free count
free-take [] ts j c a marks siblings g n h = absurd cc
free-take (x ∷ cs) [] j c a marks siblings g n h = absurd cc
free-take (x ∷ cs) (t ∷ ts) zero c a marks siblings g n h = ground arith
free-take (x ∷ cs) (t ∷ ts) (suc j) c a marks siblings g n h =
    ground (arith, free-take cs ts j c a marks siblings g n h)
