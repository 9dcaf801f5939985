-- ===== src/Prelude/Lists.antt =====
-- Lists measured and indexed by native numbers, under the library's names, and multiplicities.
use Prim.Native.Nat.{ℕ, zero, suc, ◌+◌, ◌-◌, ◌*◌, ◌≤◌, ◌<◌, min}
use mathlib.Core.Path.{◌≡◌, refl, ap}
use mathlib.Core.Bool.{Bool, true, false}
use mathlib.Core.Logic.{◌≢◌}
use mathlib.Core.List.{List, [], ◌∷◌, ◌++◌, map}
use mathlib.Core.Option.{Option, none, some}
use native.Mathlib.Nat.{zero-add, suc-add}
use native.Mathlib.Omega.{arith}
use cubrid_testkit.Prelude.Tests.{if◌then◌else◌}
use cubrid_testkit.Prelude.Equality.{Key, ◌==◌}

module _ {ℓ} {A : Type ℓ} where
  abbrev pub length : List A → ℕ
  length [] = 0
  length (x ∷ xs) = suc (length xs)

  abbrev pub get_elem? : List A → ℕ → Option A
  get_elem? [] i = none
  get_elem? (x ∷ xs) zero = some x
  get_elem? (x ∷ xs) (suc i) = get_elem? xs i

  -- A write out of bounds changes nothing.
  abbrev pub set : List A → ℕ → A → List A
  set [] i v = []
  set (x ∷ xs) zero v = v ∷ xs
  set (x ∷ xs) (suc i) v = x ∷ set xs i v

  abbrev pub get_or : List A → ℕ → A → A
  get_or [] i d = d
  get_or (x ∷ xs) zero d = x
  get_or (x ∷ xs) (suc i) d = get_or xs i d

  abbrev pub take : ℕ → List A → List A
  take zero xs = []
  take (suc n) [] = []
  take (suc n) (x ∷ xs) = x ∷ take n xs

  abbrev pub drop : ℕ → List A → List A
  drop zero xs = xs
  drop (suc n) [] = []
  drop (suc n) (x ∷ xs) = drop n xs

  abbrev pub replicate : ℕ → A → List A
  replicate zero a = []
  replicate (suc n) a = a ∷ replicate n a

  pub length-append : (xs ys : List A) → length (xs ++ ys) ≡ length xs + length ys
  length-append [] ys = omega arith
  length-append (x ∷ xs) ys = omega (arith, length-append xs ys)

  pub length-take : (n : ℕ) (xs : List A) → length (take n xs) ≡ min n (length xs)
  length-take zero xs = omega arith
  length-take (suc n) [] = omega arith
  length-take (suc n) (x ∷ xs) = omega (arith, length-take n xs)

  pub length-drop : (n : ℕ) (xs : List A) → length (drop n xs) ≡ length xs - n
  length-drop zero xs = omega arith
  length-drop (suc n) [] = omega arith
  length-drop (suc n) (x ∷ xs) = omega (arith, length-drop n xs)

  pub length-replicate : (n : ℕ) (a : A) → length (replicate n a) ≡ n
  length-replicate zero a = refl
  length-replicate (suc n) a = ap suc (length-replicate n a)

  pub take-drop : (n : ℕ) (xs : List A) → take n xs ++ drop n xs ≡ xs
  take-drop zero xs = refl
  take-drop (suc n) [] = refl
  take-drop (suc n) (x ∷ xs) = ap (◌∷◌ x) (take-drop n xs)

  pub drop_of_length : (xs ys : List A) → drop (length xs) (xs ++ ys) ≡ ys
  drop_of_length [] ys = refl
  drop_of_length (x ∷ xs) ys = drop_of_length xs ys

  pub take_of_length : (xs ys : List A) → take (length xs) (xs ++ ys) ≡ xs
  take_of_length [] ys = refl
  take_of_length (x ∷ xs) ys = ap (◌∷◌ x) (take_of_length xs ys)

module _ {ℓ} {A : Type ℓ} where
  pub drop-drop : (m n : ℕ) (xs : List A) → drop m (drop n xs) ≡ drop (n + m) xs
  drop-drop m zero xs = rw zero-add
  drop-drop zero (suc n) [] = rw suc-add
  drop-drop (suc m) (suc n) [] = rw suc-add
  drop-drop m (suc n) (x ∷ xs) = rw suc-add (drop-drop m n xs)

  pub nil_of_length : (xs : List A) → length xs ≡ 0 → xs ≡ []
  nil_of_length [] h = refl
  nil_of_length (x ∷ xs) h = absurd (omega arith)

  pub drop-ne-nil : (n : ℕ) (xs : List A) → n < length xs → drop n xs ≢ []
  drop-ne-nil n xs h e = omega (arith, length-drop n xs, ap length e)

  pub drop-eq-nil : (n : ℕ) (xs : List A) → length xs ≤ n → drop n xs ≡ []
  drop-eq-nil zero [] h = refl
  drop-eq-nil (suc n) [] h = refl
  drop-eq-nil zero (x ∷ xs) h = absurd (omega arith)
  drop-eq-nil (suc n) (x ∷ xs) h = drop-eq-nil n xs (omega arith)

  pub get_elem?-drop : (n k : ℕ) (xs : List A) → get_elem? (drop n xs) k ≡ get_elem? xs (n + k)
  get_elem?-drop zero k xs = ap (get_elem? xs) (omega arith)
  get_elem?-drop (suc n) k [] = refl
  get_elem?-drop (suc n) k (x ∷ xs) =
      let next : suc n + k ≡ suc (n + k) = omega arith in rw next (get_elem?-drop n k xs)

  pub get_elem?-lt : (xs : List A) (i : ℕ) {a : A} → get_elem? xs i ≡ some a → i < length xs
  get_elem?-lt [] i h = ground arith
  get_elem?-lt (x ∷ xs) zero h = omega arith
  get_elem?-lt (x ∷ xs) (suc i) h = omega (arith, get_elem?-lt xs i h)

-- How often a value stands in a list.
module _ {ℓ} {A : Type ℓ} ⦃key : Key A⦄ where
  unfoldable pub count : A → List A → ℕ
  count a [] = 0
  count a (x ∷ xs) = let rest = count a xs in if x == a then suc rest else rest

  pub count_self : (a : A) (xs : List A) → count a (a ∷ xs) ≡ suc (count a xs)
  unfolding count
  count_self a xs = ground (arith, key.same_iff a a)

  pub nil_of_counts : (xs : List A) → ((a : A) → count a xs ≡ 0) → xs ≡ []
  nil_of_counts [] h = refl
  nil_of_counts (x ∷ xs) h = absurd (omega (arith, h x, count_self x xs))

  pub count-append : (a : A) (xs ys : List A) → count a (xs ++ ys) ≡ count a xs + count a ys
  unfolding count
  count-append a [] ys = omega arith
  count-append a (x ∷ xs) ys = ground (arith, count-append a xs ys)

  unfoldable pub elem : A → List A → Bool
  elem a [] = false
  elem a (x ∷ xs) = if x == a then true else elem a xs

  pub elem-count : (a : A) (xs : List A) → elem a xs ≡ true → 0 < count a xs
  unfolding elem count
  elem-count a [] h = ground arith
  elem-count a (x ∷ xs) h = ground (arith, elem-count a xs)

  pub count-elem : (a : A) (xs : List A) → 0 < count a xs → elem a xs ≡ true
  unfolding elem count
  count-elem a [] h = elim h [ ]
  count-elem a (x ∷ xs) h = ground (arith, count-elem a xs)

  -- Taking one value out lowers its count by one, and no other.
  pub count-remove_at :
      (a : A) (xs : List A) (i : ℕ) {x : A}
      → get_elem? xs i ≡ some x
      → count a xs ≡ count a (x ∷ (take i xs ++ drop (suc i) xs))
  unfolding count
  count-remove_at a [] i h = ground arith
  count-remove_at a (y ∷ ys) zero h = ground arith
  count-remove_at a (y ∷ ys) (suc i) h = ground (arith, count-remove_at a ys i h)

  abbrev pub all_distinct : List A → Bool
  all_distinct [] = true
  all_distinct (x ∷ xs) = let rest = all_distinct xs in if elem x xs then false else rest

  -- A list that passes the test holds no value twice.
  pub all_distinct-count : (xs : List A) → all_distinct xs ≡ true → (a : A) → count a xs ≤ 1
  unfolding count
  all_distinct-count [] h a = omega arith
  all_distinct-count (x ∷ xs) h a = ground (
    arith,
    all_distinct-count xs,
    all_distinct-count xs (ground arith) a,
    count-elem x xs,
    key.same_iff x a,
  )

  remove_all : A → List A → List A
  remove_all y [] = []
  remove_all y (x ∷ xs) = let rest = remove_all y xs in if x == y then rest else x ∷ rest

  count-remove_all :
      (a y : A) (xs : List A) → count a (remove_all y xs) ≡ (if a == y then 0 else count a xs)
  unfolding count remove_all
  count-remove_all a y [] = ground arith
  count-remove_all a y (x ∷ xs) =
      ground (arith, count-remove_all a y xs, key.same_iff x y, key.same_iff x a, key.same_iff a y)

  length-remove_all : (y : A) (xs : List A) → length xs ≡ length (remove_all y xs) + count y xs
  unfolding count remove_all
  length-remove_all y [] = refl
  length-remove_all y (x ∷ xs) = ground (arith, length-remove_all y xs)

  -- A list in which no value stands more than `k` times as often as in a list of distinct values.
  pub length_of_counts :
      (k : ℕ) (xs ys : List A)
      → ((a : A) → count a ys ≤ 1)
      → ((a : A) → count a xs ≤ k * count a ys)
      → length xs ≤ k * length ys
  unfolding count
  length_of_counts k xs [] d h =
      omega (arith, ap length (nil_of_counts xs (λ a. omega (arith, h a))))
  length_of_counts k xs (y ∷ ys) d h =
      let once : count y ys ≡ 0 = omega (arith, d y, count_self y ys) in
      let few : count y xs ≤ k = ground (arith, h y, count_self y ys, once) in
      let rest : length (remove_all y xs) ≤ k * length ys =
        length_of_counts k (remove_all y xs) ys (λ a. ground (arith, d a))
          (λ a. ground (arith, h a, count-remove_all a y xs, key.same_iff y a, key.same_iff a y)) in
      omega (arith, length-remove_all y xs, few, rest)

module _ {ℓ κ} {A : Type ℓ} {B : Type κ} where
  pub length-map : (xs : List A) (f : A → B) → length (map f xs) ≡ length xs
  length-map [] f = refl
  length-map (x ∷ xs) f = ap suc (length-map xs f)
