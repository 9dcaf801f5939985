-- ===== src/Harepl/Pieces.antt =====
-- The pieces of a column list.
use cubrid_testkit.Prelude.{
  ℕ, zero, suc, ◌+◌, ◌≤◌, ◌<◌, ◌≡◌, ◌≢◌, refl, sym, ap, ◌∙◌, false, true, ◌&&◌, ◌||◌, if◌then◌else◌,
  ◌==◌, ltb, List, [], ◌∷◌, Option, none, some, arith, nat_eq, Bytes, length, length-drop, take,
  drop, Bool-cases, Option-cases, inl, inr,
}
use cubrid_testkit.Prelude.Strings.{onto_first}
use cubrid_testkit.Harepl.Convert.{
  Depth, top_level, one_more, deeper, found_here, index_from, index_at_depth, split_top_from,
  split_top_level,
}

-- The text cut in one pass over it, by the open quote, if there is one, and the parentheses that have
-- opened and closed outside of quotes since the last cut.
unfoldable pub pieces_of : ℕ → ℕ → ℕ → Bytes → List Bytes
unfolding onto_first
pieces_of quote opened closed [] = [] ∷ []
pieces_of quote opened closed (ch ∷ s) =
    let same = onto_first ch (pieces_of quote opened closed s) in
    let unquoted = onto_first ch (pieces_of 0 opened closed s) in
    let quoted = onto_first ch (pieces_of ch opened closed s) in
    let more_opened = onto_first ch (pieces_of quote (opened + 1) closed s) in
    let more_closed = onto_first ch (pieces_of quote opened (closed + 1) s) in
    let cut = [] ∷ pieces_of 0 0 0 s in
    if ltb 0 quote
    then (if ch == quote then unquoted else same)
    else if ch == 0x27 || ch == 0x22
    then quoted
    else if ch == b'('
    then more_opened
    else if ch == b')'
    then more_closed
    else if ch == b',' && opened == closed
    then cut
    else same

abbrev pieces_at : Depth → Bytes → List Bytes
pieces_at at s = pieces_of at.quote at.opened at.closed s

passed_on :
    (ch : ℕ) (at : Depth) (s : Bytes)
    → found_here b',' ch at ≡ false
    → pieces_at at (ch ∷ s) ≡ onto_first ch (pieces_at (deeper ch at) s)
unfolding found_here deeper pieces_of
passed_on ch at s h = ground (arith, h)

cut_here :
    (ch : ℕ) (at : Depth) (s : Bytes)
    → found_here b',' ch at ≡ true
    → pieces_at at (ch ∷ s) ≡ [] ∷ pieces_of 0 0 0 s
unfolding found_here pieces_of
cut_here ch at s h = ground (arith, h)

one_before : (o : Option ℕ) (i : ℕ) → one_more o ≡ some (suc i) → o ≡ some i
one_before none i h = ground (arith, h)
one_before (some k) i h = ground (arith, h)

no_more : (o : Option ℕ) → one_more o ≡ none → o ≡ none
no_more none h = refl
no_more (some k) h = absurd (cc h)

not_first : (o : Option ℕ) → one_more o ≢ some 0
not_first none h = ground (arith, h)
not_first (some k) h = ground (arith, h)

whole_piece : (at : Depth) (s : Bytes) → index_from b',' at s ≡ none → pieces_at at s ≡ s ∷ []
unfolding index_from pieces_of onto_first
whole_piece at [] h = refl
whole_piece at (ch ∷ s) h = elim (Bool-cases (found_here b',' ch at)) [
  | inl here ↦ absurd (cc (rw here at h))
  | inr later ↦
      let further = no_more (index_from b',' (deeper ch at) s) (rw later at h) in
      passed_on ch at s later ∙ ap (onto_first ch) (whole_piece (deeper ch at) s further)
]

first_piece :
    (at : Depth) (s : Bytes) (i : ℕ)
    → index_from b',' at s ≡ some i
    → pieces_at at s ≡ take i s ∷ pieces_of 0 0 0 (drop (suc i) s)
unfolding index_from onto_first
first_piece at [] i h = absurd (cc h)
first_piece at (ch ∷ s) zero h = elim (Bool-cases (found_here b',' ch at)) [
  | inl here ↦ cut_here ch at s here
  | inr later ↦ absurd (not_first (index_from b',' (deeper ch at) s) (rw later at h))
]
first_piece at (ch ∷ s) (suc i) h = elim (Bool-cases (found_here b',' ch at)) [
  | inl here ↦ let first : some 0 ≡ some (suc i) = rw here at h in ground (arith, first)
  | inr later ↦
      let further = one_before (index_from b',' (deeper ch at) s) i (rw later at h) in
      passed_on ch at s later ∙ ap (onto_first ch) (first_piece (deeper ch at) s i further)
]

inside : (at : Depth) (s : Bytes) (i : ℕ) → index_from b',' at s ≡ some i → i < length s
unfolding index_from
inside at [] i h = absurd (cc h)
inside at (ch ∷ s) zero h = omega arith
inside at (ch ∷ s) (suc i) h = elim (Bool-cases (found_here b',' ch at)) [
  | inl here ↦ let first : some 0 ≡ some (suc i) = rw here at h in ground (arith, first)
  | inr later ↦
      let further = one_before (index_from b',' (deeper ch at) s) i (rw later at h) in
      omega (arith, inside (deeper ch at) s i further)
]

split_top_from-pieces_of :
    (fuel : ℕ) (s : Bytes) → length s ≤ fuel → split_top_from fuel s ≡ pieces_of 0 0 0 s
unfolding split_top_from index_at_depth
split_top_from-pieces_of zero [] h = unfold pieces_of in refl
split_top_from-pieces_of zero (c ∷ s) h = absurd (omega arith)
split_top_from-pieces_of (suc fuel) s h = elim (Option-cases (index_from b',' top_level s)) [
  | inl whole ↦ rw (whole, split_top_from) (sym (whole_piece top_level s whole))
  | inr (i, comma) ↦
      let shorter : length (drop (suc i) s) ≤ fuel =
        omega (arith, length-drop (suc i) s, inside top_level s i comma) in
      rw (comma, split_top_from)
        (ap (λ z. take i s ∷ z) (split_top_from-pieces_of fuel (drop (suc i) s) shorter)
          ∙ sym (first_piece top_level s i comma))
]

-- A column list is cut at its commas outside of quotes and parentheses, at these and at no others: the
-- pieces are those of one pass over the list that keeps the open quote and the parentheses.
pub split_top_level-pieces_of : (s : Bytes) → split_top_level s ≡ pieces_of 0 0 0 s
unfolding split_top_level
split_top_level-pieces_of s = split_top_from-pieces_of (length s) s (omega arith)
