-- ===== src/Prelude/Trim.antt =====
-- strings.TrimSpace, and the texts that it leaves alone.
use cubrid_testkit.Prelude.Tests.{leb}
use cubrid_testkit.Prelude.Equality.{Bytes, nat_beq}
use Prim.Native.Nat.{ℕ}
use mathlib.Core.Path.{◌≡◌, sym, ap, ◌∙◌}
use mathlib.Core.Bool.{Bool, false, ◌&&◌, ◌||◌}
use mathlib.Core.List.{[], ◌∷◌, ◌++◌, append-nil, reverse, reverse-append, reverse-reverse}
use native.Mathlib.Omega.{arith}
use cubrid_testkit.Prelude.Strings.{trim_left, trim_right}

-- strings.TrimSpace on ASCII text.
abbrev pub is_white : ℕ → Bool
is_white c = nat_beq c b' ' || leb 0x09 c && leb c 0x0d

abbrev pub trim_space : Bytes → Bytes
trim_space s = trim_right is_white (trim_left is_white s)

-- A text that begins with a byte that is not white space.
abbrev pub BeginsInk : Bytes → Type 0
BeginsInk [] = ⊥
BeginsInk (c ∷ s) = is_white c ≡ false

-- A text with no white space at its ends, and not empty.
abbrev pub IsTrimmed : Bytes → Type 0
IsTrimmed s = BeginsInk s × BeginsInk (reverse s)

pub trim_left-ink : (s t : Bytes) → BeginsInk s → trim_left is_white (s ++ t) ≡ s ++ t
unfolding trim_left
trim_left-ink [] t h = absurd h
trim_left-ink (c ∷ s) t h = ground (arith, h)

pub trim_right-ink : (s t : Bytes) → BeginsInk (reverse t) → trim_right is_white (s ++ t) ≡ s ++ t
unfolding trim_right
trim_right-ink s t h =
    ap (λ z. reverse (trim_left is_white z)) (reverse-append s t)
    ∙ ap reverse (trim_left-ink (reverse t) (reverse s) h)
    ∙ ap reverse (sym (reverse-append s t))
    ∙ reverse-reverse (s ++ t)

pub trim_space-trimmed : (dir : Bytes) → IsTrimmed dir → trim_space dir ≡ dir
trim_space-trimmed dir t =
    ap (λ z. trim_right is_white z)
      (ap (trim_left is_white) (sym (append-nil dir)) ∙ trim_left-ink dir [] t.0 ∙ append-nil dir)
    ∙ trim_right-ink [] dir t.1
