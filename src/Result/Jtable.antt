-- ===== src/Result/Jtable.antt =====
-- internal/result/jhashtable.go: java.util.Hashtable as JDK 8 lays it out. An `int32` is its 32
-- bits. `int(float32(n) * 0.75)` is exact below 2 ^ 24 buckets.
use cubrid_testkit.Prelude.{
  ℕ, ◌+◌, ◌*◌, ◌/◌, ◌%◌, ◌^◌, List, [], ◌∷◌, ◌++◌, map, Option, leb, if◌then◌else◌, Bytes, bytes_eq,
  length, replicate, set, get_or,
}
use cubrid_testkit.Prelude.Dict.{Dict, lookup, insert, is_some}
use cubrid_testkit.Result.Utf16.{utf16_units}

-- A bucket is a list of entries, and reading or overwriting a key's value is the map's.
pub record Jtable (V : Type 0) : Type 0 where
  pub buckets : List (Dict Bytes V)
  pub count : ℕ
  pub threshold : ℕ

abbrev pub first_buckets : ℕ
first_buckets = 11

unfoldable pub new_jtable : {V : Type 0} → Jtable V
new_jtable = record { buckets = replicate first_buckets []; count = 0; threshold = 8 }

unfoldable pub hash_units : ℕ → List ℕ → ℕ
hash_units h [] = h
hash_units h (u ∷ us) = hash_units ((31 * h + u) % 2 ^ 32) us

unfoldable pub jhash : Bytes → ℕ
unfolding hash_units utf16_units
jhash s = hash_units 0 (utf16_units s)

-- `index`: the lower 31 bits, and the remainder.
unfoldable pub index_of : Bytes → ℕ → ℕ
unfolding jhash
index_of key n = jhash key % 2 ^ 31 % n

-- The order in which `rehash` and `keys` walk the entries: buckets from the top down, each from its
-- head.
unfoldable pub walk : {V : Type 0} → List (Dict Bytes V) → Dict Bytes V
walk [] = []
walk (b ∷ bs) = walk bs ++ b

module _ {V : Type 0} where
  abbrev pub bucket : Bytes → List (Dict Bytes V) → Dict Bytes V
  bucket key bs = get_or bs (index_of key (length bs)) []

  unfoldable pub get : Bytes → Jtable V → Option V
  get key t = lookup key (bucket key t.buckets)

  -- An entry at the head of its bucket, of `n` buckets.
  unfoldable pub push : ℕ → Bytes × V → List (Dict Bytes V) → List (Dict Bytes V)
  push n entry bs = let i = index_of entry.0 n in set bs i (entry ∷ get_or bs i [])

  unfoldable pub push_all : ℕ → Dict Bytes V → List (Dict Bytes V) → List (Dict Bytes V)
  push_all n [] bs = bs
  push_all n (entry ∷ rest) bs = push_all n rest (push n entry bs)

  unfoldable pub rehash : Jtable V → Jtable V
  rehash t =
      let n = length t.buckets * 2 + 1 in
      record t { buckets = push_all n (walk t.buckets) (replicate n []); threshold = n * 3 / 4 }

  unfoldable pub added : Bytes → V → Jtable V → Jtable V
  added key value t = record t {
    buckets = push (length t.buckets) (key, value) t.buckets;
    count = t.count + 1;
  }

  unfoldable pub put : Bytes → V → Jtable V → Jtable V
  put key value t =
      if is_some (lookup key (bucket key t.buckets))
      then record t {
        buckets =
            set t.buckets (index_of key (length t.buckets))
              (insert key value (bucket key t.buckets));
      }
      else added key value (if leb t.threshold t.count then rehash t else t)

  unfoldable pub keys : Jtable V → List Bytes
  keys t = map (λ (entry : Bytes × V). entry.0) (walk t.buckets)
