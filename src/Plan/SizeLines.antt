-- ===== src/Plan/SizeLines.antt =====
-- The lines that are written are read back.
use cubrid_testkit.Prelude.{
  ℕ, ◌≤◌, ◌≡◌, refl, sym, ap, ◌∙◌, true, false, ◌||◌, [], ◌∷◌, ◌++◌, Option, none, some, nat_beq,
  if◌then◌else◌, Bytes, bytes_eq, length, arith,
}
use mathlib.Core.List.{append_assoc}
use cubrid_testkit.Prelude.Trim.{
  is_white, trim_space, IsTrimmed, trim_left-ink, trim_right-ink, trim_space-trimmed,
}
use cubrid_testkit.Prelude.Dict.{Dict, insert}
use cubrid_testkit.Prelude.Strings.{codes, has_prefix, trim_right, decimal, atoi_digits, max_int}
use cubrid_testkit.Prelude.Decimal.{AreDigits, decimal-number, atoi-decimal}
use cubrid_testkit.Plan.Sizes.{
  size_line, cut_space, unsigned, atoi_positive, read_entry, read_size, stored, all_digits,
}

consed : ℕ → Option (Bytes × Bytes) → Option (Bytes × Bytes)
consed d none = none
consed d (some (before, after)) = some (d ∷ before, after)

cut_space-digits :
    (ds rest : Bytes) → AreDigits ds → cut_space (ds ++ b' ' ∷ rest) ≡ some (ds, rest)
unfolding cut_space consed
cut_space-digits [] rest a = refl
cut_space-digits (d ∷ ds) rest a =
    let no_space : nat_beq d b' ' ≡ false = ground (arith, a.0) in
    rw (no_space, cut_space) (ap (consed d) (cut_space-digits ds rest a.1))

all_digits-digits : (ds : Bytes) → AreDigits ds → all_digits ds ≡ true
all_digits-digits [] a = refl
all_digits-digits (d ∷ ds) a = rw a.0 (all_digits-digits ds a.1)

unsigned-digits : (ds : Bytes) → AreDigits ds → unsigned ds ≡ atoi_digits ds
unfolding unsigned
unsigned-digits ds a = ap (λ z. if z then atoi_digits ds else none) (all_digits-digits ds a)

atoi_nil : none ≡ atoi_digits []
unfolding atoi_digits
atoi_nil = refl

pub atoi_positive-digits : (ds : Bytes) → AreDigits ds → atoi_positive ds ≡ atoi_digits ds
unfolding atoi_positive
atoi_positive-digits [] a = atoi_nil
atoi_positive-digits (d ∷ ds) a =
    let no_plus : nat_beq d b'+' ≡ false = ground (arith, a.0) in
    let no_minus : nat_beq d b'-' ≡ false = ground (arith, a.0) in
    rw (no_plus, atoi_positive) (rw (no_minus, atoi_positive) (unsigned-digits (d ∷ ds) a))

abbrev with_line : Dict Bytes ℕ → Bytes → Dict Bytes ℕ
with_line out line =
    if nat_beq (length line) 0 || has_prefix line (codes "#") then out else read_entry line out

abbrev with_number : Dict Bytes ℕ → Bytes → Option ℕ → Dict Bytes ℕ
with_number out dir o = elim o [ none ↦ out | some mb ↦ stored (trim_space dir) mb out ]

abbrev with_cut : Dict Bytes ℕ → Option (Bytes × Bytes) → Dict Bytes ℕ
with_cut out o = elim o [
  | none ↦ out
  | some (number, dir) ↦ with_number out dir (atoi_positive number)
]

stored-trimmed :
    (dir : Bytes) (mb : ℕ) (out : Dict Bytes ℕ)
    → IsTrimmed dir
    → stored dir mb out ≡ insert dir mb out
stored-trimmed [] mb out t = absurd t.0
stored-trimmed (c ∷ dir) mb out t =
    let some_bytes : nat_beq (length (c ∷ dir)) 0 ≡ false = ground arith in rw some_bytes refl

module _ (d : ℕ) (ds dir : Bytes) (a : AreDigits (d ∷ ds)) (trimmed : IsTrimmed dir) where
  line-trimmed : trim_space ((d ∷ ds) ++ b' ' ∷ dir) ≡ (d ∷ ds) ++ b' ' ∷ dir
  line-trimmed =
      let ink : is_white d ≡ false = ground (arith, a.0) in
      let apart = append_assoc (d ∷ ds) (b' ' ∷ []) dir in
      ap (trim_right is_white) (trim_left-ink (d ∷ ds) (b' ' ∷ dir) ink ∙ sym apart)
      ∙ trim_right-ink ((d ∷ ds) ++ b' ' ∷ []) dir trimmed.1
      ∙ apart

  line-read :
      (out : Dict Bytes ℕ)
      → with_line out ((d ∷ ds) ++ b' ' ∷ dir) ≡ read_entry ((d ∷ ds) ++ b' ' ∷ dir) out
  unfolding has_prefix
  line-read out =
      let no_hash : nat_beq d b'#' ≡ false = ground (arith, a.0) in
      let some_bytes : nat_beq (length ((d ∷ ds) ++ b' ' ∷ dir)) 0 ≡ false = ground arith in
      rw (some_bytes, no_hash) refl

  read_size-digits :
      (mb : ℕ) (out : Dict Bytes ℕ)
      → atoi_digits (d ∷ ds) ≡ some mb
      → read_size ((d ∷ ds) ++ b' ' ∷ dir) out ≡ insert dir mb out
  unfolding read_size read_entry
  read_size-digits mb out value =
      ap (with_line out) line-trimmed
      ∙ line-read out
      ∙ ap (with_cut out) (cut_space-digits (d ∷ ds) dir a)
      ∙ ap (with_number out dir) (atoi_positive-digits (d ∷ ds) a ∙ value)
      ∙ ap (λ z. stored z mb out) (trim_space-trimmed dir trimmed)
      ∙ stored-trimmed dir mb out trimmed

read_size-number :
    (ds dir : Bytes) (mb : ℕ) (out : Dict Bytes ℕ)
    → AreDigits ds
    → atoi_digits ds ≡ some mb
    → IsTrimmed dir
    → read_size (ds ++ b' ' ∷ dir) out ≡ insert dir mb out
unfolding atoi_digits
read_size-number [] dir mb out a value trimmed = absurd cc
read_size-number (d ∷ ds) dir mb out a value trimmed =
    read_size-digits d ds dir a trimmed mb out value

-- A line that is written for a directory and its size is read as that directory and that size.
pub read_size-size_line :
    (mb : ℕ) (dir : Bytes) (out : Dict Bytes ℕ)
    → mb ≤ max_int
    → IsTrimmed dir
    → read_size (size_line mb dir) out ≡ insert dir mb out
read_size-size_line mb dir out h trimmed =
    read_size-number (decimal mb) dir mb out (decimal-number mb).1 (atoi-decimal mb h) trimmed
