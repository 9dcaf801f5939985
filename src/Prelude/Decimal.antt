-- ===== src/Prelude/Decimal.antt =====
-- What is written by `%d` is read back by `Atoi`.
use mathlib.Core.List.{reverse, reverse-append, reverse-cons}
use Prim.Native.Nat.{ℕ, zero, suc, ◌+◌, ◌-◌, ◌*◌, ◌/◌, ◌%◌, ◌≤◌, ◌<◌}
use mathlib.Core.Path.{◌≡◌, refl, sym, ap, ◌∙◌, subst}
use mathlib.Core.Bool.{true, false}
use mathlib.Core.Logic.{◌≢◌, inl, inr}
use mathlib.Core.List.{[], ◌∷◌, ◌++◌}
use mathlib.Core.Option.{some}
use native.Mathlib.Omega.{arith}
use cubrid_testkit.Prelude.Tests.{ltb, Bool-cases}
use cubrid_testkit.Prelude.Equality.{Bytes}
use cubrid_testkit.Prelude.Strings.{
  is_digit, span_digits, number_of, max_int, atoi_digits, digits_rev, decimal,
}

abbrev pub AreDigits : Bytes → Type 0
AreDigits [] = Unit
AreDigits (c ∷ s) = (is_digit c ≡ true) × AreDigits s

pub AreDigits-append : (s t : Bytes) → AreDigits s → AreDigits t → AreDigits (s ++ t)
AreDigits-append [] t a b = b
AreDigits-append (c ∷ s) t a b = (a.0, AreDigits-append s t a.1 b)

number_of-snoc :
    (n : ℕ) (s : Bytes) (c : ℕ) → number_of n (s ++ c ∷ []) ≡ number_of n s * 10 + (c - b'0')
unfolding number_of
number_of-snoc n [] c = refl
number_of-snoc n (d ∷ s) c = number_of-snoc (n * 10 + (d - b'0')) s c

digits_rev-number :
    (f n : ℕ)
    → n < f
    → (number_of 0 (reverse (digits_rev f n)) ≡ n) × AreDigits (reverse (digits_rev f n))
unfolding digits_rev number_of
digits_rev-number zero n h = elim h [ ]
digits_rev-number (suc f) n h = elim (Bool-cases (ltb n 10)) [
  | inl small ↦ rw small (omega arith, (ground arith, tt))
  | inr large ↦
      let (value, ds) = digits_rev-number f (n / 10) (ground arith) in
      let apart : reverse ((b'0' + n % 10) ∷ digits_rev f (n / 10))
          ≡ reverse (digits_rev f (n / 10)) ++ (b'0' + n % 10) ∷ [] =
        reverse-append ((b'0' + n % 10) ∷ []) (digits_rev f (n / 10)) in
      rw large (
        rw apart (
          number_of-snoc 0 (reverse (digits_rev f (n / 10))) (b'0' + n % 10) ∙ omega (arith, value),
          AreDigits-append (reverse (digits_rev f (n / 10))) ((b'0' + n % 10) ∷ []) ds
              (ground arith, tt),
        ))
]

pub decimal-number : (n : ℕ) → (number_of 0 (decimal n) ≡ n) × AreDigits (decimal n)
unfolding decimal
decimal-number n = digits_rev-number (suc n) n (omega arith)

-- Digits are read up to the first byte that is none.
pub span_digits-append :
    (ds : Bytes) (c : ℕ) (rest : Bytes)
    → AreDigits ds
    → is_digit c ≡ false
    → span_digits (ds ++ c ∷ rest) ≡ (ds, c ∷ rest)
unfolding span_digits
span_digits-append [] c rest a h = rw (h, span_digits)
span_digits-append (d ∷ ds) c rest a h =
    rw a.0 (ap (λ z. (d ∷ z.0, z.1)) (span_digits-append ds c rest a.1 h))

snoc-ne-nil : (s : Bytes) (c : ℕ) → s ++ c ∷ [] ≢ []
snoc-ne-nil [] c e = cc
snoc-ne-nil (d ∷ s) c e = cc

pub decimal-ne-nil : (n : ℕ) → decimal n ≢ []
unfolding decimal digits_rev
decimal-ne-nil n e = elim (Bool-cases (ltb n 10)) [
  | inl small ↦ cc (rw (small, digits_rev) at e)
  | inr large ↦
      snoc-ne-nil (reverse (digits_rev n (n / 10))) (b'0' + n % 10)
        (sym (reverse-cons (b'0' + n % 10) (digits_rev n (n / 10))) ∙ rw (large, digits_rev) at e)
]

atoi_digits-number :
    (s : Bytes) → s ≢ [] → number_of 0 s ≤ max_int → atoi_digits s ≡ some (number_of 0 s)
unfolding atoi_digits
atoi_digits-number [] e h = absurd (e refl)
atoi_digits-number (c ∷ s) e h = ground arith

-- A number of the range of int is read back from its digits.
pub atoi-decimal : (n : ℕ) → n ≤ max_int → atoi_digits (decimal n) ≡ some n
atoi-decimal n h =
    let value = (decimal-number n).0 in
    atoi_digits-number (decimal n) (decimal-ne-nil n) (rw value h) ∙ ap some value

pub AreDigits-reverse : (s : Bytes) → AreDigits s → AreDigits (reverse s)
AreDigits-reverse [] a = a
AreDigits-reverse (c ∷ s) a =
    subst AreDigits (sym (reverse-cons c s))
      (AreDigits-append (reverse s) (c ∷ []) (AreDigits-reverse s a.1) (a.0, tt))
