-- ===== src/Prelude/Sort.antt =====
-- Go's `sort.Slice` and `sort.SliceStable`, for a comparison given as a Boolean function, and the
-- order of byte strings.
use Prim.Native.Nat.{◌<◌}
use mathlib.Core.Path.{◌≡◌, refl, sym, ◌∙◌, ap, ap₂}
use mathlib.Core.Logic.{inl, inr}
use mathlib.Core.Bool.{Bool, true, false, false≢true}
use mathlib.Core.List.{List, [], ◌∷◌}
use native.Mathlib.Omega.{arith}
use cubrid_testkit.Prelude.Tests.{if◌then◌else◌, Bool-cases}
use cubrid_testkit.Prelude.Equality.{Key, ◌==◌}
use cubrid_testkit.Prelude.Lists.{count, count_self}

module _ {ℓ} {A : Type ℓ} (less : A → A → Bool) where
  -- A value goes before those that it does not follow, so equal values keep their order.
  unfoldable pub insert_sorted : A → List A → List A
  insert_sorted x [] = x ∷ []
  insert_sorted x (y ∷ ys) = if less y x then y ∷ insert_sorted x ys else x ∷ y ∷ ys

  unfoldable pub sort : List A → List A
  unfolding insert_sorted
  sort [] = []
  sort (x ∷ xs) = insert_sorted x (sort xs)

  -- No later value is less than an earlier one.
  abbrev pub NoneLess : A → List A → Type 0
  NoneLess x [] = Unit
  NoneLess x (y ∷ ys) = (less y x ≡ false) × NoneLess x ys

  abbrev pub IsSorted : List A → Type 0
  IsSorted [] = Unit
  IsSorted (x ∷ xs) = NoneLess x xs × IsSorted xs

-- A comparison by which every two values are either in order, or in the other order, or equal.
pub record TotalOrder {ℓ} {A : Type ℓ} (less : A → A → Bool) : Type ℓ where
  pub irrefl : (a : A) → less a a ≡ false
  pub trans : (a b c : A) → less a b ≡ true → less b c ≡ true → less a c ≡ true
  pub total : (a b : A) → less a b ≡ false → less b a ≡ false → a ≡ b

module _ {ℓ} {A : Type ℓ} ⦃key : Key A⦄ (less : A → A → Bool) where
  count-insert_sorted :
      (a x : A) (xs : List A) → count a (insert_sorted less x xs) ≡ count a (x ∷ xs)
  unfolding count insert_sorted
  count-insert_sorted a x [] = refl
  count-insert_sorted a x (y ∷ ys) = ground (arith, count-insert_sorted a x ys)

  -- Sorting keeps every value as often as it was there.
  pub count-sort : (a : A) (xs : List A) → count a (sort less xs) ≡ count a xs
  unfolding count sort
  count-sort a [] = refl
  count-sort a (x ∷ xs) = ground (arith, count-insert_sorted a x (sort less xs), count-sort a xs)

module _ {ℓ} {A : Type ℓ} (less : A → A → Bool) (order : TotalOrder less) where
  asymm : (a b : A) → less a b ≡ true → less b a ≡ false
  asymm a b h = elim (Bool-cases (less b a)) [
    | inl k ↦ absurd (false≢true (ground (arith, order.trans a b a h k, order.irrefl a)))
    | inr k ↦ k
  ]

  -- `x` is not after `y`, and `y` not after `z`.
  not_after_trans : (x y z : A) → less y x ≡ false → less z y ≡ false → less z x ≡ false
  not_after_trans x y z h k = elim (Bool-cases (less z x)) [
    | inr n ↦ n
    | inl p ↦ elim (Bool-cases (less x y)) [
      | inl q ↦ absurd (false≢true (ground (arith, order.trans z x y p q)))
      | inr q ↦ ground (arith, order.total x y q h)
    ]
  ]

  NoneLess-trans :
      (x y : A) (ys : List A) → less y x ≡ false → NoneLess less y ys → NoneLess less x ys
  NoneLess-trans x y [] h k = tt
  NoneLess-trans x y (z ∷ zs) h k = (not_after_trans x y z h k.0, NoneLess-trans x y zs h k.1)

  NoneLess-insert :
      (x a : A) (ys : List A)
      → less a x ≡ false
      → NoneLess less x ys
      → NoneLess less x (insert_sorted less a ys)
  unfolding insert_sorted
  NoneLess-insert x a [] h k = (h, tt)
  NoneLess-insert x a (y ∷ ys) h k = elim (Bool-cases (less y a)) [
    | inl p ↦ rw p (k.0, NoneLess-insert x a ys h k.1)
    | inr p ↦ rw p (h, k)
  ]

  insert_sorted-IsSorted :
      (x : A) (ys : List A) → IsSorted less ys → IsSorted less (insert_sorted less x ys)
  unfolding insert_sorted
  insert_sorted-IsSorted x [] s = (tt, tt)
  insert_sorted-IsSorted x (y ∷ ys) s = elim (Bool-cases (less y x)) [
    | inl p ↦ rw p (NoneLess-insert y x ys (asymm y x p) s.0, insert_sorted-IsSorted x ys s.1)
    | inr p ↦ rw p ((p, NoneLess-trans x y ys p s.0), s)
  ]

  pub sort-IsSorted : (xs : List A) → IsSorted less (sort less xs)
  unfolding sort
  sort-IsSorted [] = tt
  sort-IsSorted (x ∷ xs) = insert_sorted-IsSorted x (sort less xs) (sort-IsSorted xs)

module _ {ℓ} {A : Type ℓ} ⦃key : Key A⦄ (less : A → A → Bool) (order : TotalOrder less) where
  NoneLess-count : (x a : A) (ys : List A) → NoneLess less x ys → 0 < count a ys → less a x ≡ false
  unfolding count
  NoneLess-count x a [] h k = elim k [ ]
  NoneLess-count x a (y ∷ ys) h k = elim (Bool-cases (y == a)) [
    | inl p ↦ ground (arith, key.same_iff y a)
    | inr p ↦ NoneLess-count x a ys h.1 (ground arith)
  ]

  count_nil : (a : A) → count a [] ≡ 0
  unfolding count
  count_nil a = refl

  head_not_less :
      (x y : A) (xs ys : List A)
      → NoneLess less y ys
      → count x (x ∷ xs) ≡ count x (y ∷ ys)
      → less x y ≡ false
  head_not_less x y xs ys h k =
      NoneLess-count y x (y ∷ ys) (order.irrefl y, h) (omega (arith, count_self x xs))

  count_tail :
      (a x : A) (xs ys : List A) → count a (x ∷ xs) ≡ count a (x ∷ ys) → count a xs ≡ count a ys
  unfolding count
  count_tail a x xs ys h = ground arith

  -- A sorted list is determined by how often each value stands in it.
  pub sorted_unique :
      (xs ys : List A)
      → IsSorted less xs
      → IsSorted less ys
      → ((a : A) → count a xs ≡ count a ys)
      → xs ≡ ys
  sorted_unique [] [] s t h = refl
  sorted_unique [] (y ∷ ys) s t h = absurd (omega (arith, h y, count_self y ys, count_nil y))
  sorted_unique (x ∷ xs) [] s t h = absurd (omega (arith, h x, count_self x xs, count_nil x))
  sorted_unique (x ∷ xs) (y ∷ ys) s t h =
      let x≡y : x ≡ y =
        order.total x y (head_not_less x y xs ys t.0 (h x))
          (head_not_less y x ys xs s.0 (sym (h y))) in
      let same : (a : A) → count a xs ≡ count a ys =
        λ a. count_tail a x xs ys (h a ∙ ap (λ z. count a (z ∷ ys)) (sym x≡y)) in
      ap₂ ◌∷◌ x≡y (sorted_unique xs ys s.1 t.1 same)

  -- Two arrangements of the same values are sorted alike.
  pub sort-same :
      (xs ys : List A) → ((a : A) → count a xs ≡ count a ys) → sort less xs ≡ sort less ys
  sort-same xs ys h =
      sorted_unique (sort less xs) (sort less ys) (sort-IsSorted less order xs)
        (sort-IsSorted less order ys)
        (λ a. omega (arith, count-sort less a xs, count-sort less a ys, h a))
