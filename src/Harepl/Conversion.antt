-- ===== src/Harepl/Conversion.antt =====
-- What the conversion of a statement adds to it.
use cubrid_testkit.Prelude.{
  ℕ, ◌≡◌, List, [], ◌∷◌, ◌++◌, none, some, nat_eq, Bytes, bytes_eq, take, drop,
}
use cubrid_testkit.Prelude.Strings.{codes, to_lower, join}
use cubrid_testkit.Prelude.Dict.{lookup}
use cubrid_testkit.Harepl.Convert.{Conversion}
use cubrid_testkit.Harepl.Heads.{IsHead}
use cubrid_testkit.Harepl.Inserts.{insert_head_at, last_of}

module _ (cols : Conversion) where
  -- A text and what naming its columns makes of it, from a place on: the columns of its own table, if
  -- that was converted, stand behind each head, and every other rune stays as it is. The first number is
  -- the rune before the place.
  pub data Names : ℕ → Bytes → Bytes → Type 0 where
    nothing : {before : ℕ} → Names before [] []
    kept :
        {before : ℕ} (c : ℕ) {s t : Bytes}
        → insert_head_at before (c ∷ s) ≡ none
        → Names c s t
        → Names before (c ∷ s) (c ∷ t)
    unknown :
        {before : ℕ} {s t : Bytes} (table : Bytes) (n : ℕ)
        → IsHead before s table n
        → lookup (to_lower table) cols ≡ none
        → Names (last_of before (take n s)) (drop n s) t
        → Names before s (take n s ++ t)
    listed :
        {before : ℕ} {s t : Bytes} (table : Bytes) (n : ℕ) (list : List Bytes)
        → IsHead before s table n
        → lookup (to_lower table) cols ≡ some list
        → Names (last_of before (take n s)) (drop n s) t
        → Names before s (take n s ++ (b'(' ∷ (join list (codes ", ") ++ codes ") ") ++ t))
