-- ===== src/Plan/Order.antt =====
-- internal/plan/plan.go: the record of what each case took, and the order of the next run. A map is
-- an association list, a duration is its nanoseconds, and a plan holds none below zero. A record is
-- the mutex's holder's view of it: one step at a time.
use cubrid_testkit.Prelude.{
  ℕ, Bool, true, false, List, [], ◌∷◌, Option, none, some, ltb, nat_beq, if◌then◌else◌, Bytes,
  bytes_eq,
}
use cubrid_testkit.Prelude.Dict.{Dict, lookup, insert, read}
use cubrid_testkit.Prelude.Strings.{bytes_ltb}
use cubrid_testkit.Prelude.Sort.{sort}

-- `Record`: its map `took`; `none` stands for the nil record, which takes everything and writes nothing.
abbrev pub Record : Type 0
Record = Option (Dict Bytes ℕ)

-- The loop of `Continue` over the prior plan.
unfoldable pub copied : Dict Bytes ℕ → Dict Bytes ℕ → Dict Bytes ℕ
copied took [] = took
copied took (entry ∷ rest) = copied (insert entry.0 entry.1 took) rest

-- `Continue`
unfoldable pub continue_record : Dict Bytes ℕ → Record
unfolding copied
continue_record prior = some (copied [] prior)

-- `Add`
unfoldable pub add : Bytes → ℕ → Record → Record
add name d none = none
add name d (some took) = some (insert name d took)

-- The comparison of `Write`.
unfoldable pub written_before : Dict Bytes ℕ → Bytes → Bytes → Bool
written_before took x y =
    let a = read 0 x took in let b = read 0 y took in if nat_beq a b then bytes_ltb x y else ltb b a

-- The names in the order of the lines that `Write` writes, from the order in which the map gave them.
unfoldable pub written_names : Dict Bytes ℕ → List Bytes → List Bytes
unfolding written_before
written_names took names = sort (written_before took) names

unfoldable pub compare_known : Option ℕ → Option ℕ → Bytes → Bytes → Bool
compare_known none none x y = bytes_ltb x y
compare_known none (some b) x y = true
compare_known (some a) none x y = false
compare_known (some a) (some b) x y = if nat_beq a b then bytes_ltb x y else ltb b a

-- The comparison of `Order`.
unfoldable pub scheduled_before : Dict Bytes ℕ → Bytes → Bytes → Bool
unfolding compare_known
scheduled_before known x y = compare_known (lookup x known) (lookup y known) x y

-- `Order`
unfoldable pub order : List Bytes → Dict Bytes ℕ → List Bytes
unfolding scheduled_before
order cases [] = cases
order cases (entry ∷ rest) = sort (scheduled_before (entry ∷ rest)) cases
