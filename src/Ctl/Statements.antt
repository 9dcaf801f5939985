-- ===== src/Ctl/Statements.antt =====
-- The statements of a file: the reader gives those of the splitter, and comes to an end.
use cubrid_testkit.Prelude.{
  ℕ, zero, suc, ◌-◌, ◌≤◌, ◌<◌, ◌≡◌, ◌≢◌, refl, sym, ap, ◌∙◌, List, [], ◌∷◌, Option, none, some,
  Bytes, length, arith,
}
use cubrid_testkit.Ctl.Reader.{
  Reader, new_reader, unread, Scan, fresh_scan, feed, at_end, next_from, fuel_for, next_statement,
  statements_from, statements,
}
use cubrid_testkit.Ctl.Split.{split, split_all, InLine, Reads, turns, next_from-Reads}

fuel-lem : (p : Reader) → turns p < fuel_for p
fuel-lem p = ground arith

-- `Next` always answers, and its statement and what it leaves unread are the splitter's on the bytes
-- not yet read, wherever the lines of the buffer end.
pub next_statement-split :
    (p : Reader)
    → InLine p
    → (p' : Reader) × (next_statement p ≡ some (p', (split fresh_scan (unread p)).0))
      × (unread p' ≡ (split fresh_scan (unread p)).1)
      × InLine p'
unfolding next_statement
next_statement-split p inside =
    go (next_from (fuel_for p) p fresh_scan)
      (next_from-Reads (fuel_for p) p fresh_scan inside (fuel-lem p))
  where
    go :
        (r : Option (Reader × Option Bytes))
        → Reads p fresh_scan r
        → (p' : Reader) × (r ≡ some (p', (split fresh_scan (unread p)).0))
          × (unread p' ≡ (split fresh_scan (unread p)).1)
          × InLine p'
    go r (Reads.reads p' o e same inside') = (
      p',
      e ∙ ap (λ z. some (p', z)) (ap (λ z. z.0) (sym same)),
      ap (λ z. z.1) (sym same),
      inside',
    )

-- The splitter takes at least one byte of a text that has one.
split-shorter : (s : Scan) (text : Bytes) → length (split s text).1 ≤ length text - 1
unfolding split
split-shorter s [] = omega arith
split-shorter s (ch ∷ rest) = ground (arith, split-shorter (feed ch s) rest)

split_nil : (split fresh_scan []).0 ≡ none
unfolding split fresh_scan at_end
split_nil = refl

split-nonempty : (text : Bytes) → (split fresh_scan text).0 ≢ none → 0 < length text
split-nonempty [] h = absurd (h split_nil)
split-nonempty (c ∷ cs) h = omega arith

abbrev prepended : Bytes → Option (List Bytes) → Option (List Bytes)
prepended s r = elim r [ none ↦ none | some rest ↦ some (s ∷ rest) ]

abbrev collected : ℕ → Option (Reader × Option Bytes) → Option (List Bytes)
collected fuel r = elim r [
  | none ↦ none
  | some (p', none) ↦ some []
  | some (p', some s) ↦ elim (statements_from fuel p') [ none ↦ none | some rest ↦ some (s ∷ rest) ]
]

abbrev gathered : ℕ → Option Bytes → Bytes → List Bytes
gathered fuel statement rest = elim statement [ none ↦ [] | some s ↦ s ∷ split_all fuel rest ]

collected-gathered :
    (fuel : ℕ) (p' : Reader) (o : Option Bytes) (rest : Bytes)
    → unread p' ≡ rest
    → (o ≢ none → statements_from fuel p' ≡ some (split_all fuel (unread p')))
    → collected fuel (some (p', o)) ≡ some (gathered fuel o rest)
collected-gathered fuel p' none rest left ih = refl
collected-gathered fuel p' (some s) rest left ih =
    ap (prepended s) (ih (λ e. cc)) ∙ ap (λ z. some (s ∷ split_all fuel z)) left

statements_from-split_all :
    (fuel : ℕ) (p : Reader)
    → InLine p
    → length (unread p) < fuel
    → statements_from fuel p ≡ some (split_all fuel (unread p))
unfolding statements_from split_all
statements_from-split_all zero p inside enough = elim enough [ ]
statements_from-split_all (suc fuel) p inside enough =
    let (p', e, left, inside') = next_statement-split p inside in
    let text = unread p in
    let less : (split fresh_scan text).0 ≢ none → length (unread p') < fuel =
      λ h. omega (arith, ap length left, split-shorter fresh_scan text, split-nonempty text h) in
    ap (collected fuel) e
    ∙ collected-gathered fuel p' (split fresh_scan text).0 (split fresh_scan text).1 left
        (λ h. statements_from-split_all fuel p' inside' (less h))

-- `Statements` always ends, with the statements of the splitter.
pub statements-split_all :
    (input : Bytes) → statements input ≡ some (split_all (suc (length input)) input)
unfolding statements new_reader
statements-split_all input =
    statements_from-split_all (suc (length input)) (new_reader input) (omega arith) (omega arith)
