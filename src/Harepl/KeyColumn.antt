-- ===== src/Harepl/KeyColumn.antt =====
-- The key column of a converted table, and the pieces of a column list.
use cubrid_testkit.Prelude.{ℕ, ◌≡◌, Bool, ◌++◌, nat_eq, Bytes, take, drop}
use cubrid_testkit.Harepl.Inserts.{Converted, key_text}

-- A changed statement is the old one with the key column put into it.
abbrev pub IsKeyed : Bytes → Converted → Type 0
IsKeyed stmt r = (at : ℕ) × (r.out ≡ take at stmt ++ (key_text ++ drop at stmt))
