-- ===== src/Prelude/Split.antt =====
-- strings.HasPrefix and strings.Split, on a text that is made of parts.
use Prim.Native.Nat.{ℕ}
use mathlib.Core.Path.{◌≡◌, ◌∙◌, refl, ap}
use mathlib.Core.Bool.{true, false}
use mathlib.Core.List.{List, [], ◌∷◌, ◌++◌}
use native.Mathlib.Omega.{arith}
use cubrid_testkit.Prelude.Equality.{Bytes, ◌==◌, nat_eq}
use cubrid_testkit.Prelude.Lists.{elem}
use cubrid_testkit.Prelude.Strings.{has_prefix, onto_first, split_on, join}

pub split_on-plain : (c : ℕ) (s : Bytes) → elem c s ≡ false → split_on c s ≡ s ∷ []
unfolding split_on elem
split_on-plain c [] h = refl
split_on-plain c (x ∷ s) h =
    let rest = split_on-plain c s (ground (arith, h)) in
    let other : x == c ≡ false = ground (arith, h) in rw rest (rw other (unfold onto_first in refl))

pub split_on-append :
    (c : ℕ) (s rest : Bytes) → elem c s ≡ false → split_on c (s ++ c ∷ rest) ≡ s ∷ split_on c rest
unfolding split_on elem
split_on-append c [] rest h = let same : c == c ≡ true = ground arith in rw same refl
split_on-append c (x ∷ s) rest h =
    let tail = split_on-append c s rest (ground (arith, h)) in
    let other : x == c ≡ false = ground (arith, h) in rw tail (rw other (unfold onto_first in refl))

-- No piece holds the separator.
abbrev pub AllWithout : ℕ → List Bytes → Type 0
AllWithout c [] = Unit
AllWithout c (s ∷ parts) = (elem c s ≡ false) × AllWithout c parts

-- What is joined of one piece or more is split into the pieces again.
pub split_on-join :
    (c : ℕ) (s : Bytes) (parts : List Bytes)
    → AllWithout c (s ∷ parts)
    → split_on c (join (s ∷ parts) (c ∷ [])) ≡ s ∷ parts
unfolding join
split_on-join c s [] h = split_on-plain c s h.0
split_on-join c s (t ∷ parts) h =
    split_on-append c s (join (t ∷ parts) (c ∷ [])) h.0 ∙ ap (◌∷◌ s) (split_on-join c t parts h.1)

pub has_prefix-append : (p s : Bytes) → has_prefix (p ++ s) p ≡ true
unfolding has_prefix
has_prefix-append [] [] = refl
has_prefix-append [] (c ∷ s) = refl
has_prefix-append (c ∷ p) s = ground (arith, has_prefix-append p s)

pub elem-append :
    (c : ℕ) (s t : Bytes) → elem c s ≡ false → elem c t ≡ false → elem c (s ++ t) ≡ false
unfolding elem
elem-append c [] t h k = k
elem-append c (x ∷ s) t h k = ground (arith, elem-append c s t, h)
