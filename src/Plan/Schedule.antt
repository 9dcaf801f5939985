-- ===== src/Plan/Schedule.antt =====
-- What the order of a run promises.
use cubrid_testkit.Prelude.{
  ℕ, ◌<◌, ◌≡◌, ◌≢◌, refl, sym, true, false, List, [], ◌∷◌, Option, none, some, Bytes, bytes_eq,
  count, arith, nat_beq, nat_beq_iff, Bool-cases, inl, inr,
}
use mathlib.Core.Path.{subst}
use cubrid_testkit.Prelude.Strings.{bytes_ltb}
use cubrid_testkit.Prelude.Dict.{Dict, lookup, read}
use cubrid_testkit.Prelude.StringOrder.{bytes_ltb_irrefl, bytes_ltb_trans, bytes_ltb_total}
use cubrid_testkit.Prelude.Sort.{
  NoneLess, IsSorted, sort, TotalOrder, count-sort, sort-IsSorted, sort-same,
}
use cubrid_testkit.Plan.Order.{
  written_before, written_names, compare_known, scheduled_before, order,
}

compare_irrefl : (p : Option ℕ) (a : Bytes) → compare_known p p a a ≡ false
unfolding compare_known
compare_irrefl none a = bytes_ltb_irrefl a
compare_irrefl (some x) a = ground (arith, bytes_ltb_irrefl a)

compare_trans :
    (p q r : Option ℕ) (a b c : Bytes)
    → compare_known p q a b ≡ true
    → compare_known q r b c ≡ true
    → compare_known p r a c ≡ true
unfolding compare_known
compare_trans none none none a b c h k = bytes_ltb_trans a b c h k
compare_trans none q (some z) a b c h k = refl
compare_trans p (some y) none a b c h k = ground arith
compare_trans (some x) none r a b c h k = ground arith
compare_trans (some x) (some y) (some z) a b c h k = ground (arith, bytes_ltb_trans a b c)

compare_total :
    (p q : Option ℕ) (a b : Bytes)
    → compare_known p q a b ≡ false
    → compare_known q p b a ≡ false
    → a ≡ b
unfolding compare_known
compare_total none none a b h k = bytes_ltb_total a b h k
compare_total none (some y) a b h k = ground arith
compare_total (some x) none a b h k = ground arith
compare_total (some x) (some y) a b h k =
    bytes_ltb_total a b (ground (arith, bytes_ltb_total a b)) (ground (arith, bytes_ltb_total a b))

scheduled_before-TotalOrder : (known : Dict Bytes ℕ) → TotalOrder (scheduled_before known)
unfolding scheduled_before
scheduled_before-TotalOrder known = record {
  irrefl = λ a. compare_irrefl (lookup a known) a;
  trans = λ a b c h k. compare_trans (lookup a known) (lookup b known) (lookup c known) a b c h k;
  total = λ a b h k. compare_total (lookup a known) (lookup b known) a b h k;
}

-- A case that may stand before another, by how long each took, if it is known.
pub data MayPrecede : Option ℕ → Option ℕ → Bytes → Bytes → Type 0 where
  both_unknown : {x y : Bytes} → bytes_ltb y x ≡ false → MayPrecede none none x y
  unknown : {b : ℕ} {x y : Bytes} → MayPrecede none (some b) x y
  longer : {a b : ℕ} {x y : Bytes} → b < a → MayPrecede (some a) (some b) x y
  as_long : {a : ℕ} {x y : Bytes} → bytes_ltb y x ≡ false → MayPrecede (some a) (some a) x y

-- Every case may stand before each of those behind it.
abbrev pub PrecedesAll : Dict Bytes ℕ → Bytes → List Bytes → Type 0
PrecedesAll known x [] = Unit
PrecedesAll known x (y ∷ ys) =
    MayPrecede (lookup x known) (lookup y known) x y × PrecedesAll known x ys

abbrev pub IsLongestFirst : Dict Bytes ℕ → List Bytes → Type 0
IsLongestFirst known [] = Unit
IsLongestFirst known (x ∷ xs) = PrecedesAll known x xs × IsLongestFirst known xs

compare_known-MayPrecede :
    (p q : Option ℕ) (x y : Bytes) → compare_known q p y x ≡ false → MayPrecede p q x y
unfolding compare_known
compare_known-MayPrecede none none x y h = both_unknown h
compare_known-MayPrecede none (some b) x y h = unknown
compare_known-MayPrecede (some a) none x y h = absurd (cc h)
compare_known-MayPrecede (some a) (some b) x y h = elim (Bool-cases (nat_beq b a)) [
  | inl same ↦
      subst (λ z. MayPrecede (some a) (some z) x y) (sym ((nat_beq_iff b a).0 same))
        (as_long (rw same at h))
  | inr other ↦ longer (ground (arith, h, other))
]

NoneLess-PrecedesAll :
    (known : Dict Bytes ℕ) (x : Bytes) (ys : List Bytes)
    → NoneLess (scheduled_before known) x ys
    → PrecedesAll known x ys
unfolding scheduled_before
NoneLess-PrecedesAll known x [] h = tt
NoneLess-PrecedesAll known x (y ∷ ys) h = (
  compare_known-MayPrecede (lookup x known) (lookup y known) x y h.0,
  NoneLess-PrecedesAll known x ys h.1,
)

IsSorted-IsLongestFirst :
    (known : Dict Bytes ℕ) (xs : List Bytes)
    → IsSorted (scheduled_before known) xs
    → IsLongestFirst known xs
IsSorted-IsLongestFirst known [] h = tt
IsSorted-IsLongestFirst known (x ∷ xs) h =
    (NoneLess-PrecedesAll known x xs h.0, IsSorted-IsLongestFirst known xs h.1)

-- Under a plan that is not empty, every case is there as often as before, and of any two the first is
-- unknown to the plan where only one of them is, took longer where their times differ, and is not the
-- later by name where both are unknown or took the same.
pub order-IsLongestFirst :
    (cases : List Bytes) (known : Dict Bytes ℕ)
    → known ≢ []
    → ((a : Bytes) → count a (order cases known) ≡ count a cases)
      × IsLongestFirst known (order cases known)
unfolding order
order-IsLongestFirst cases [] h = absurd (h refl)
order-IsLongestFirst cases (entry ∷ rest) h =
    let plan = entry ∷ rest in
    (
      λ a. count-sort (scheduled_before plan) a cases,
      IsSorted-IsLongestFirst plan (sort (scheduled_before plan) cases)
          (sort-IsSorted (scheduled_before plan) (scheduled_before-TotalOrder plan) cases),
    )

-- Two arrangements of the same cases are handed out in the same order, under a plan that is not empty.
pub order_same :
    (cases others : List Bytes) (known : Dict Bytes ℕ)
    → known ≢ []
    → ((a : Bytes) → count a cases ≡ count a others)
    → order cases known ≡ order others known
unfolding order
order_same cases others [] h k = absurd (h refl)
order_same cases others (entry ∷ rest) h k =
    sort-same (scheduled_before (entry ∷ rest)) (scheduled_before-TotalOrder (entry ∷ rest)) cases
      others k

written_before-TotalOrder : (took : Dict Bytes ℕ) → TotalOrder (written_before took)
unfolding written_before compare_known
written_before-TotalOrder took = record {
  irrefl = λ a. compare_irrefl (some (read 0 a took)) a;
  trans = λ a b c h k.
      compare_trans (some (read 0 a took)) (some (read 0 b took)) (some (read 0 c took)) a b c h k;
  total = λ a b h k. compare_total (some (read 0 a took)) (some (read 0 b took)) a b h k;
}

-- The lines of the file do not depend on the order in which the map gives its names.
pub written_names_same :
    (took : Dict Bytes ℕ) (names others : List Bytes)
    → ((a : Bytes) → count a names ≡ count a others)
    → written_names took names ≡ written_names took others
unfolding written_names
written_names_same took names others h =
    sort-same (written_before took) (written_before-TotalOrder took) names others h
