-- ===== src/Result/Buckets.antt =====
-- A table's buckets: what a write of one bucket changes.
use cubrid_testkit.Prelude.{
  ℕ, zero, suc, ◌+◌, ◌<◌, ◌≡◌, ◌≢◌, refl, ap, ◌∙◌, true, List, [], ◌∷◌, ◌++◌, map, Option, none,
  some, arith, nat_eq, if◌then◌else◌, ◌==◌, Bytes, bytes_eq, length, length-append, set, get_or,
  count,
}
use cubrid_testkit.Prelude.Dict.{Dict, lookup, insert, is_some}
use cubrid_testkit.Result.Jtable.{walk}

abbrev pub names : {V : Type 0} → Dict Bytes V → List Bytes
names entries = map (λ entry. entry.0) entries

module _ {A : Type 0} where
  pub length-set : (xs : List A) (i : ℕ) (x : A) → length (set xs i x) ≡ length xs
  length-set [] i x = refl
  length-set (y ∷ ys) zero x = refl
  length-set (y ∷ ys) (suc i) x = ap suc (length-set ys i x)

  pub get_or-set :
      (xs : List A) (i j : ℕ) (x d : A)
      → i < length xs
      → get_or (set xs i x) j d ≡ (if i == j then x else get_or xs j d)
  get_or-set [] i j x d h = absurd (omega arith)
  get_or-set (y ∷ ys) zero zero x d h = refl
  get_or-set (y ∷ ys) zero (suc j) x d h = ground arith
  get_or-set (y ∷ ys) (suc i) zero x d h = ground arith
  get_or-set (y ∷ ys) (suc i) (suc j) x d h = ground (arith, get_or-set ys i j x d (omega arith))

module _ {V : Type 0} where
  abbrev pub first_of : Option V → Option V → Option V
  first_of none other = other
  first_of (some v) other = some v

  pub lookup-append :
      (k : Bytes) (xs ys : Dict Bytes V)
      → lookup k (xs ++ ys) ≡ first_of (lookup k xs) (lookup k ys)
  unfolding lookup
  lookup-append k [] ys = refl
  lookup-append k (x ∷ xs) ys = ground (arith, lookup-append k xs ys)

  pub lookup-none : (k : Bytes) (xs : Dict Bytes V) → count k (names xs) ≡ 0 → lookup k xs ≡ none
  unfolding lookup count
  lookup-none k [] h = refl
  lookup-none k (x ∷ xs) h = ground (arith, lookup-none k xs)

  pub names-none : (k : Bytes) (xs : Dict Bytes V) → lookup k xs ≡ none → count k (names xs) ≡ 0
  unfolding lookup count
  names-none k [] h = refl
  names-none k (x ∷ xs) h = ground (arith, names-none k xs)

  pub names-some :
      (k : Bytes) (xs : Dict Bytes V) → is_some (lookup k xs) ≡ true → 0 < count k (names xs)
  unfolding lookup count
  names-some k [] h = absurd cc
  names-some k (x ∷ xs) h = ground (arith, names-some k xs)

  -- Overwriting a value leaves the names.
  pub names-insert :
      (k : Bytes) (v : V) (xs : Dict Bytes V)
      → is_some (lookup k xs) ≡ true
      → names (insert k v xs) ≡ names xs
  unfolding lookup insert
  names-insert k v [] h = absurd cc
  names-insert k v (x ∷ xs) h = ground (arith, names-insert k v xs)

  names_append :
      (k : Bytes) (xs ys : Dict Bytes V)
      → count k (names (xs ++ ys)) ≡ count k (names xs) + count k (names ys)
  unfolding count
  names_append k [] ys = omega arith
  names_append k (x ∷ xs) ys = ground (arith, names_append k xs ys)

  pub walk-set-count :
      (k : Bytes) (bs : List (Dict Bytes V)) (i : ℕ) (b : Dict Bytes V)
      → i < length bs
      → count k (names (walk (set bs i b))) + count k (names (get_or bs i []))
        ≡ count k (names (walk bs)) + count k (names b)
  unfolding walk
  walk-set-count k [] i b h = absurd (omega arith)
  walk-set-count k (x ∷ bs) zero b h =
      omega (arith, names_append k (walk bs) x, names_append k (walk bs) b)
  walk-set-count k (x ∷ bs) (suc i) b h = omega (
    arith,
    walk-set-count k bs i b (omega arith),
    names_append k (walk bs) x,
    names_append k (walk (set bs i b)) x,
  )

  pub walk-set-length :
      (bs : List (Dict Bytes V)) (i : ℕ) (b : Dict Bytes V)
      → i < length bs
      → length (walk (set bs i b)) + length (get_or bs i []) ≡ length (walk bs) + length b
  unfolding walk
  walk-set-length [] i b h = absurd (omega arith)
  walk-set-length (x ∷ bs) zero b h =
      omega (arith, length-append (walk bs) x, length-append (walk bs) b)
  walk-set-length (x ∷ bs) (suc i) b h = omega (
    arith,
    walk-set-length bs i b (omega arith),
    length-append (walk bs) x,
    length-append (walk (set bs i b)) x,
  )

  walk-none :
      (k : Bytes) (bs : List (Dict Bytes V))
      → ((i : ℕ) → lookup k (get_or bs i []) ≡ none)
      → lookup k (walk bs) ≡ none
  unfolding walk lookup
  walk-none k [] h = refl
  walk-none k (x ∷ bs) h =
      lookup-append k (walk bs) x
      ∙ ap (λ z. first_of z (lookup k x)) (walk-none k bs (λ i. h (suc i)))
      ∙ h 0

  pub first_of-none : (o : Option V) → first_of o none ≡ o
  first_of-none none = refl
  first_of-none (some v) = refl

  -- A key that stands in one bucket only is found by the walk as in that bucket.
  pub lookup-walk :
      (k : Bytes) (bs : List (Dict Bytes V)) (j : ℕ)
      → ((i : ℕ) → i ≢ j → lookup k (get_or bs i []) ≡ none)
      → lookup k (walk bs) ≡ lookup k (get_or bs j [])
  unfolding walk
  lookup-walk k [] j h = refl
  lookup-walk k (x ∷ bs) zero h =
      lookup-append k (walk bs) x
      ∙ ap (λ z. first_of z (lookup k x)) (walk-none k bs (λ i. h (suc i) (λ e. omega (arith, e))))
  lookup-walk k (x ∷ bs) (suc j) h =
      lookup-append k (walk bs) x
      ∙ ap (first_of (lookup k (walk bs))) (h 0 (λ e. omega (arith, e)))
      ∙ first_of-none (lookup k (walk bs))
      ∙ lookup-walk k bs j (λ i other. h (suc i) (λ e. other (omega (arith, e))))
