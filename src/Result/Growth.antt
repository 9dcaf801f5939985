-- ===== src/Result/Growth.antt =====
-- A table's growth: pushing entries into buckets, and a rehash.
use cubrid_testkit.Prelude.{
  ℕ, suc, ◌+◌, ◌≤◌, ◌<◌, ◌≡◌, ◌≢◌, refl, ◌∙◌, List, [], ◌∷◌, none, some, arith, nat_eq,
  if◌then◌else◌, ◌==◌, Bytes, bytes_eq, bytes_beq_iff, length, get_or, count,
}
use native.Mathlib.Nat.{mod-lt}
use cubrid_testkit.Prelude.Dict.{Dict, lookup}
use cubrid_testkit.Result.Jtable.{walk, index_of, push, push_all}
use cubrid_testkit.Result.Buckets.{
  names, length-set, get_or-set, first_of, lookup-none, walk-set-count, walk-set-length,
}

pub index_lt : (k : Bytes) (n : ℕ) → 0 < n → index_of k n < n
unfolding index_of
index_lt k n h = mod-lt _ h

module _ {V : Type 0} where
  -- Each key stands only in its own bucket of `n`.
  abbrev pub IsPlaced : ℕ → List (Dict Bytes V) → Type 0
  IsPlaced n bs = (k : Bytes) (i : ℕ) → i ≢ index_of k n → lookup k (get_or bs i []) ≡ none

  module _ (n : ℕ) (positive : 0 < n) where
    module _ (entry : Bytes × V) (bs : List (Dict Bytes V)) (sized : length bs ≡ n) where
      inside : index_of entry.0 n < length bs
      inside = omega (arith, index_lt entry.0 n positive)

      pub length-push : length (push n entry bs) ≡ n
      unfolding push
      length-push = length-set bs (index_of entry.0 n) _ ∙ sized

      pub push-lookup :
          (k : Bytes)
          → lookup k (get_or (push n entry bs) (index_of k n) [])
            ≡ (if entry.0 == k then some entry.1 else lookup k (get_or bs (index_of k n) []))
      unfolding push lookup
      push-lookup k = ground (
        arith,
        get_or-set bs (index_of entry.0 n) (index_of k n)
            (entry ∷ get_or bs (index_of entry.0 n) []) [] inside,
        bytes_beq_iff entry.0 k,
      )

      pub push-IsPlaced : IsPlaced n bs → IsPlaced n (push n entry bs)
      unfolding push lookup
      push-IsPlaced placed k i other = ground (
        arith,
        get_or-set bs (index_of entry.0 n) i (entry ∷ get_or bs (index_of entry.0 n) []) [] inside,
        bytes_beq_iff entry.0 k,
        placed k i other,
      )

      pub push-names :
          (k : Bytes)
          → count k (names (walk (push n entry bs)))
            ≡ count k (entry.0 ∷ []) + count k (names (walk bs))
      unfolding push count
      push-names k = ground (
        arith,
        walk-set-count k bs (index_of entry.0 n) (entry ∷ get_or bs (index_of entry.0 n) []) inside,
      )

      pub push-length : length (walk (push n entry bs)) ≡ suc (length (walk bs))
      unfolding push
      push-length = omega (
        arith,
        walk-set-length bs (index_of entry.0 n) (entry ∷ get_or bs (index_of entry.0 n) []) inside,
      )

    -- What pushing entries with distinct keys makes of the buckets.
    pub record Pushed (entries : Dict Bytes V) (bs after : List (Dict Bytes V)) : Type 0 where
      pub size : length after ≡ n
      pub place : IsPlaced n bs → IsPlaced n after
      pub finds :
          (k : Bytes)
          → lookup k (get_or after (index_of k n) [])
            ≡ first_of (lookup k entries) (lookup k (get_or bs (index_of k n) []))
      pub names_of :
          (k : Bytes)
          → count k (names (walk after)) ≡ count k (names entries) + count k (names (walk bs))
      pub amount : length (walk after) ≡ length entries + length (walk bs)

    pub push_all-Pushed :
        (entries : Dict Bytes V) (bs : List (Dict Bytes V))
        → length bs ≡ n
        → ((k : Bytes) → count k (names entries) ≤ 1)
        → Pushed entries bs (push_all n entries bs)
    unfolding push_all lookup count
    push_all-Pushed [] bs sized once = record {
      size = sized;
      place = λ p. p;
      finds = λ k. refl;
      names_of = λ k. omega arith;
      amount = omega arith;
    }
    push_all-Pushed (entry ∷ rest) bs sized once =
        let p =
          push_all-Pushed rest (push n entry bs) (length-push entry bs sized)
            (λ k. ground (arith, once k)) in
        record {
          size = p.size;
          place = λ placed. p.place (push-IsPlaced entry bs sized placed);
          finds = λ k. ground (
            arith,
            p.finds k,
            push-lookup entry bs sized k,
            once k,
            lookup-none k rest,
            bytes_beq_iff entry.0 k,
          );
          names_of = λ k. ground (arith, p.names_of k, push-names entry bs sized k);
          amount = omega (arith, p.amount, push-length entry bs sized);
        }
