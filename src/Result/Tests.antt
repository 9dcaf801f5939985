-- ===== src/Result/Tests.antt =====
-- The table on concrete keys.
use cubrid_testkit.Prelude.{
  ℕ, ◌*◌, ◌≤◌, ◌≡◌, refl, [], ◌∷◌, Bytes, bytes_eq, bytes_beq, count, length, if◌then◌else◌,
}
use cubrid_testkit.Prelude.Strings.{codes}
use cubrid_testkit.Prelude.Dict.{Dict, lookup, insert, is_some}
use cubrid_testkit.Result.Jtable.{
  Jtable, jhash, hash_units, index_of, new_jtable, put, added, rehash, push, push_all, walk, get,
  keys,
}
use cubrid_testkit.Result.Utf16.{utf16_units}
use cubrid_testkit.Result.Refinement.{put_all, write_all, put_all-lookup, put_all-keys}

-- "hello".hashCode()
hello_hash : jhash (codes "hello") ≡ 99162322
unfolding jhash hash_units utf16_units
hello_hash = refl

-- Nine directories, one of them twice: the table grows at the ninth.
abbrev visits : Dict Bytes ℕ
visits =
    (codes "a", 1)
    ∷ (codes "b", 2)
    ∷ (codes "c", 3)
    ∷ (codes "d", 4)
    ∷ (codes "e", 5)
    ∷ (codes "a", 6)
    ∷ (codes "f", 7)
    ∷ (codes "g", 8)
    ∷ (codes "h", 9)
    ∷ (codes "i", 10)
    ∷ []

abbrev visited : Jtable ℕ
visited = put_all visits new_jtable

-- Twenty-three buckets, walked from the top: "a" (97 = 4 * 23 + 5) stands in the fifth.
visited-keys :
    keys visited
    ≡ codes "i"
      ∷ codes "h"
      ∷ codes "g"
      ∷ codes "f"
      ∷ codes "e"
      ∷ codes "d"
      ∷ codes "c"
      ∷ codes "b"
      ∷ codes "a"
      ∷ []
unfolding jhash hash_units utf16_units index_of new_jtable put added rehash push push_all walk get
    keys lookup insert bytes_beq
visited-keys = refl

put_all-lookup_example : get (codes "a") visited ≡ lookup (codes "a") (write_all visits [])
put_all-lookup_example = put_all-lookup visits (codes "a")

put_all-keys_example :
    ((k : Bytes)
      → count k (keys visited) ≡ (if is_some (lookup k (write_all visits [])) then 1 else 0))
    × (visited.count ≡ length (keys visited))
    × (4 * length (keys visited) ≤ 3 * length visited.buckets)
put_all-keys_example = put_all-keys visits
