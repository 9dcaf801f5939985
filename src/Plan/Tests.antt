-- ===== src/Plan/Tests.antt =====
-- The order of concrete runs.
use cubrid_testkit.Prelude.{
  ℕ, ◌≡◌, ◌≢◌, refl, List, [], ◌∷◌, bytes_eq, bytes_beq, Bytes, count, arith, elem, bytes_beq_iff,
  Bool-cases, inl, inr, none, some, if◌then◌else◌, ◌<◌, ◌≤◌,
}
use cubrid_testkit.Prelude.Dict.{Dict, read, lookup}
use cubrid_testkit.Prelude.Strings.{codes, bytes_ltb, max_int}
use cubrid_testkit.Prelude.Sort.{sort, insert_sorted}
use cubrid_testkit.Plan.Order.{compare_known, scheduled_before, order}
use cubrid_testkit.Plan.Sizes.{size_lines, read_sizes}
use mathlib.Core.Path.{subst}
use cubrid_testkit.Prelude.Trim.{IsTrimmed}
use cubrid_testkit.Plan.SizeFile.{AreWritable, read_sizes-size_lines}
use cubrid_testkit.Plan.Schedule.{IsLongestFirst, order-IsLongestFirst}

abbrev measured : Dict Bytes ℕ
measured = (codes "short", 10) ∷ (codes "long", 900) ∷ []

abbrev corpus : List Bytes
corpus = codes "short" ∷ codes "new" ∷ codes "long" ∷ []

measured-ne-nil : measured ≢ []
measured-ne-nil e = cc

new_then_long : order corpus measured ≡ codes "new" ∷ codes "long" ∷ codes "short" ∷ []
unfolding order sort insert_sorted scheduled_before compare_known lookup bytes_beq bytes_ltb
new_then_long = refl

order-IsLongestFirst_example :
    ((a : Bytes) → count a (order corpus measured) ≡ count a corpus)
    × IsLongestFirst measured (order corpus measured)
order-IsLongestFirst_example = order-IsLongestFirst corpus measured measured-ne-nil

abbrev sized : Dict Bytes ℕ
sized = (codes "/c/small", 12) ∷ (codes "/c/big", 4820) ∷ []

abbrev sized_dirs : List Bytes
sized_dirs = codes "/c/small" ∷ codes "/c/big" ∷ []

-- What holds of two values holds of each that is counted among them.
among_two : (P : Bytes → Type 0) (x y dir : Bytes) → P x → P y → 0 < count dir (x ∷ y ∷ []) → P dir
unfolding count
among_two P x y dir p q h = elim (Bool-cases (bytes_beq x dir)) [
  | inl e ↦ subst P ((bytes_beq_iff x dir).0 e) p
  | inr no_x ↦ elim (Bool-cases (bytes_beq y dir)) [
    | inl e ↦ subst P ((bytes_beq_iff y dir).0 e) q
    | inr no_y ↦ absurd (ground (arith, h, no_x, no_y))
  ]
]

abbrev Writable : Bytes → Type 0
Writable dir = IsTrimmed dir × (read 0 dir sized ≤ max_int)

sized-AreWritable : AreWritable sized sized_dirs
unfolding lookup bytes_beq
sized-AreWritable dir h =
    among_two Writable (codes "/c/small") (codes "/c/big") dir ((refl, refl), omega arith)
      ((refl, refl), omega arith) h

read_sizes-size_lines_example :
    lookup (codes "/c/big") (read_sizes (size_lines sized sized_dirs) [])
    ≡ (if elem (codes "/c/big") sized_dirs then some (read 0 (codes "/c/big") sized) else none)
read_sizes-size_lines_example =
    read_sizes-size_lines sized sized_dirs (codes "/c/big") sized-AreWritable
