-- ===== src/Prelude/StringOrder.antt =====
-- The order of Go strings is a total order.
use mathlib.Core.Path.{◌≡◌, refl, ap₂}
use mathlib.Core.Bool.{true, false}
use mathlib.Core.List.{[], ◌∷◌}
use native.Mathlib.Omega.{arith}
use cubrid_testkit.Prelude.Equality.{Bytes}
use cubrid_testkit.Prelude.Strings.{bytes_ltb}
use cubrid_testkit.Prelude.Sort.{TotalOrder}

pub bytes_ltb_irrefl : (a : Bytes) → bytes_ltb a a ≡ false
unfolding bytes_ltb
bytes_ltb_irrefl [] = refl
bytes_ltb_irrefl (x ∷ xs) = ground (arith, bytes_ltb_irrefl xs)

pub bytes_ltb_trans :
    (a b c : Bytes) → bytes_ltb a b ≡ true → bytes_ltb b c ≡ true → bytes_ltb a c ≡ true
unfolding bytes_ltb
bytes_ltb_trans a [] c h k = ground arith
bytes_ltb_trans a (y ∷ ys) [] h k = ground arith
bytes_ltb_trans [] (y ∷ ys) (z ∷ zs) h k = refl
bytes_ltb_trans (x ∷ xs) (y ∷ ys) (z ∷ zs) h k = ground (arith, bytes_ltb_trans xs ys zs)

pub bytes_ltb_total : (a b : Bytes) → bytes_ltb a b ≡ false → bytes_ltb b a ≡ false → a ≡ b
unfolding bytes_ltb
bytes_ltb_total [] [] h k = refl
bytes_ltb_total [] (y ∷ ys) h k = ground arith
bytes_ltb_total (x ∷ xs) [] h k = ground arith
bytes_ltb_total (x ∷ xs) (y ∷ ys) h k =
    let x≡y : x ≡ y = ground arith in
    ap₂ ◌∷◌ x≡y (bytes_ltb_total xs ys (ground arith) (ground arith))

pub bytes_order : TotalOrder bytes_ltb
bytes_order = record { irrefl = bytes_ltb_irrefl; trans = bytes_ltb_trans; total = bytes_ltb_total }
