-- ===== src/Harepl/Markers.antt =====
-- A result marker, as csql prints it, is read as the line number in it.
use cubrid_testkit.Prelude.{
  ℕ, ◌≡◌, ◌≢◌, refl, sym, ap, ◌∙◌, true, false, ◌&&◌, [], ◌∷◌, ◌++◌, Option, none, some, arith, ltb,
  if◌then◌else◌, nat_eq, Bytes, elem, length, drop,
}
use mathlib.Core.Path.{subst}
use mathlib.Core.List.{append_assoc, reverse, reverse-append, reverse-reverse}
use cubrid_testkit.Prelude.Strings.{has_prefix, decimal, span_digits, number_of, is_digit}
use cubrid_testkit.Prelude.Decimal.{
  AreDigits, AreDigits-reverse, decimal-number, decimal-ne-nil, span_digits-append,
}
use cubrid_testkit.Prelude.Split.{has_prefix-append, elem-append}
use cubrid_testkit.Prelude.Trim.{trim_space, trim_space-trimmed, BeginsInk}
use cubrid_testkit.Harepl.Batch.{
  newline, result_of, in_line_words, marker_end, until_bracket, line_at_end, marked_line,
}

-- The marker of the result of a command that stands in line `n`; `kind` is its name and a space.
abbrev pub marker : Bytes → ℕ → Bytes
marker kind n = result_of ++ (kind ++ (in_line_words ++ (decimal n ++ marker_end)))

until_bracket-append :
    (s rest : Bytes) → elem b'>' s ≡ false → until_bracket (s ++ b'>' ∷ rest) ≡ (s, b'>' ∷ rest)
unfolding until_bracket elem
until_bracket-append [] rest h = refl
until_bracket-append (c ∷ s) rest h = ground (arith, until_bracket-append s rest, h)

digits_without : (c : ℕ) (s : Bytes) → is_digit c ≡ false → AreDigits s → elem c s ≡ false
unfolding elem
digits_without c [] n h = refl
digits_without c (d ∷ s) n h = ground (arith, digits_without c s n, h)

-- The label of a marker, from the end.
label_reversed :
    (kind : Bytes) (n : ℕ)
    → reverse (kind ++ (in_line_words ++ decimal n))
      ≡ reverse (decimal n) ++ (reverse in_line_words ++ reverse kind)
label_reversed kind n =
    reverse-append kind (in_line_words ++ decimal n)
    ∙ ap (λ z. z ++ reverse kind) (reverse-append in_line_words (decimal n))
    ∙ append_assoc (reverse (decimal n)) (reverse in_line_words) (reverse kind)

line_at_end_found :
    (ds before : Bytes)
    → span_digits (ds ++ (reverse in_line_words ++ before)) ≡ (ds, reverse in_line_words ++ before)
    → ds ≢ []
    → line_at_end (ds ++ (reverse in_line_words ++ before)) ≡ some (number_of 0 (reverse ds))
unfolding line_at_end
line_at_end_found [] before h k = absurd (k refl)
line_at_end_found (d ∷ ds) before h k =
    let found : Option ℕ = some (number_of 0 (reverse (d ∷ ds))) in
    let words = has_prefix-append (reverse in_line_words) before in
    let nonempty : ltb 0 (length (d ∷ ds)) ≡ true = ground arith in
    rw h (
      ap (λ b. if ltb 0 (length (d ∷ ds)) && b then found else none) words
      ∙ ap (λ b. if b && true then found else none) nonempty)

line_at_end-label :
    (kind : Bytes) (n : ℕ) → line_at_end (reverse (kind ++ (in_line_words ++ decimal n))) ≡ some n
line_at_end-label kind n =
    let ds = reverse (decimal n) in
    let value = decimal-number n in
    ap line_at_end (label_reversed kind n)
    ∙ line_at_end_found ds (reverse kind)
        (span_digits-append ds 32 (drop 1 (reverse in_line_words) ++ reverse kind)
          (AreDigits-reverse (decimal n) value.1) refl)
        (λ e. decimal-ne-nil n (sym (reverse-reverse (decimal n)) ∙ ap reverse e))
    ∙ ap some (ap (number_of 0) (reverse-reverse (decimal n)) ∙ value.0)

label_no_bracket :
    (kind : Bytes) (n : ℕ)
    → elem b'>' kind ≡ false
    → elem b'>' (kind ++ (in_line_words ++ decimal n)) ≡ false
unfolding elem
label_no_bracket kind n h = elem-append b'>' kind (in_line_words ++ decimal n) h (
    elem-append b'>' in_line_words (decimal n) refl
      (digits_without b'>' (decimal n) refl (decimal-number n).1))

behind_result_of :
    (kind : Bytes) (n : ℕ)
    → kind ++ (in_line_words ++ (decimal n ++ marker_end))
      ≡ (kind ++ (in_line_words ++ decimal n)) ++ marker_end
behind_result_of kind n = sym (
    append_assoc kind (in_line_words ++ decimal n) marker_end
    ∙ ap (λ z. kind ++ z) (append_assoc in_line_words (decimal n) marker_end))

marked_line-marker :
    (kind : Bytes) (n : ℕ) → elem b'>' kind ≡ false → marked_line (marker kind n) ≡ some n
unfolding marked_line
marked_line-marker kind n h =
    let label = kind ++ (in_line_words ++ decimal n) in
    let cut : until_bracket (drop (length result_of) (marker kind n)) ≡ (label, marker_end) =
      ap until_bracket (behind_result_of kind n)
      ∙ until_bracket-append label (drop 1 marker_end) (label_no_bracket kind n h) in
    ap
      (λ (z : Bytes × Bytes). if has_prefix z.1 marker_end then line_at_end (reverse z.0) else none)
      cut
    ∙ line_at_end-label kind n

marker_ends :
    (kind : Bytes) (n : ℕ)
    → marker kind n ≡ (result_of ++ (kind ++ (in_line_words ++ decimal n))) ++ marker_end
marker_ends kind n =
    ap (λ z. result_of ++ z) (behind_result_of kind n)
    ∙ sym (append_assoc result_of (kind ++ (in_line_words ++ decimal n)) marker_end)

-- A marker has no white space at its ends, and is read as its line number.
pub marked_line-trimmed :
    (kind : Bytes) (n : ℕ)
    → elem b'>' kind ≡ false
    → marked_line (trim_space (marker kind n)) ≡ some n
marked_line-trimmed kind n h =
    let front = result_of ++ (kind ++ (in_line_words ++ decimal n)) in
    let back : BeginsInk (reverse (marker kind n)) =
      subst BeginsInk (sym (ap reverse (marker_ends kind n) ∙ reverse-append front marker_end))
        refl in
    ap marked_line (trim_space-trimmed (marker kind n) (refl, back)) ∙ marked_line-marker kind n h

pub marker_one_line :
    (kind : Bytes) (n : ℕ) → elem newline kind ≡ false → elem newline (marker kind n) ≡ false
unfolding elem
marker_one_line kind n h = elem-append newline kind (in_line_words ++ (decimal n ++ marker_end)) h (
    elem-append newline (decimal n) marker_end
      (digits_without newline (decimal n) refl (decimal-number n).1) refl)
