-- ===== src/Harepl/Scripts.antt =====
-- A script that is made of statements is cut into them again.
use cubrid_testkit.Prelude.{
  ℕ, zero, suc, ◌<◌, ◌≡◌, refl, sym, ap, ◌∙◌, Bool, true, false, ◌&&◌, List, [], ◌∷◌, ◌++◌, arith,
  ltb, ◌==◌, nat_eq, nat_beq_iff, Bytes, bytes_beq, length, take, take-drop, drop,
}
use mathlib.Core.Bool.{false≢true}
use mathlib.Core.List.{append_assoc, append-nil}
use cubrid_testkit.Prelude.Strings.{trim_left, trim_right}
use cubrid_testkit.Prelude.Trim.{trim_space, IsTrimmed, trim_space-trimmed}
use cubrid_testkit.Harepl.Statements.{
  semicolon, block_delta, Cut, flush, plain_rune, cut_rune, cut_from, case_statements,
}
use cubrid_testkit.Harepl.Batch.{newline, script_of}
use cubrid_testkit.Harepl.Whole.{block_delta_local, take_inside}
use cubrid_testkit.Harepl.Cutting.{
  Places, goes_on, next_places, is_whole, passed_fits, mid, cut_rune-mid,
}

drop_nil : (n : ℕ) → drop {A = ℕ} n [] ≡ []
drop_nil zero = refl
drop_nil (suc n) = refl

-- The rune that a statement ends with, or the one before it.
abbrev last_rune : ℕ → Bytes → ℕ
last_rune p [] = p
last_rune p (c ∷ s) = last_rune c s

and_true : (a b : Bool) → a && b ≡ true → (a ≡ true) × (b ≡ true)
and_true true b h = (refl, h)
and_true false b h = absurd (false≢true h)

-- A whole statement is taken up into the current text, and leaves nothing open.
taken_up :
    (s rest w : Bytes) (out : List Bytes) (q d p passed : ℕ)
    → is_whole q d p passed s ≡ true
    → cut_from (mid out w q d p) passed (s ++ semicolon ∷ rest)
      ≡ cut_from (mid out (w ++ drop passed s) 0 0 (last_rune p s)) 0 (semicolon ∷ rest)
unfolding cut_from is_whole
taken_up [] rest w out q d p passed h =
    let closed = and_true (q == 0 && d == 0) (passed == 0) h in
    let places = and_true (q == 0) (d == 0) closed.0 in
    let no_quote = (nat_beq_iff q 0).0 places.0 in
    let no_block = (nat_beq_iff d 0).0 places.1 in
    let none_left = (nat_beq_iff passed 0).0 closed.1 in
    let behind : Bytes = semicolon ∷ rest in
    ap (λ k. cut_from (mid out w q d p) k behind) none_left
    ∙ ap (λ k. cut_from (mid out w k d p) 0 behind) no_quote
    ∙ ap (λ k. cut_from (mid out w 0 k p) 0 behind) no_block
    ∙ ap (λ z. cut_from (mid out z 0 0 p) 0 behind)
        (sym (ap (λ z. w ++ z) (drop_nil passed) ∙ append-nil w))
taken_up (c ∷ s) rest w out q d p (suc n) h = taken_up s rest w out q d c n h
taken_up (c ∷ s) rest w out q d p zero h =
    let (q', d', n) = next_places q d c (block_delta p (c ∷ (s ++ semicolon ∷ []))) in
    let ok = and_true (goes_on q d p c) (is_whole q' d' c n s) h in
    let behind = s ++ semicolon ∷ rest in
    let on : Places → Cut =
      λ pl. cut_from (mid out (w ++ c ∷ take pl.2 behind) pl.0 pl.1 c) pl.2 behind in
    ap (λ z. cut_from z.0 z.1 behind) (cut_rune-mid out w q d p c behind ok.0)
    ∙ ap (λ b. on (next_places q d c b)) (block_delta_local p (c ∷ s) rest [])
    ∙ taken_up s rest (w ++ c ∷ take n behind) out q' d' c n ok.1
    ∙ ap (λ z. cut_from (mid out z 0 0 (last_rune c s)) 0 (semicolon ∷ rest))
        (ap (λ z. (w ++ c ∷ z) ++ drop n s)
            (take_inside n s (semicolon ∷ rest) (passed_fits q' d' c n s ok.1))
          ∙ append_assoc w (c ∷ take n s) (drop n s)
          ∙ ap (λ z. w ++ c ∷ z) (take-drop n s))

-- A statement as it can stand in a script, behind the newline of the statement before it.
abbrev pub IsStatement : Bytes → Type 0
IsStatement s = IsTrimmed s × (is_whole 0 0 newline 0 s ≡ true)

abbrev pub AllStatements : List Bytes → Type 0
AllStatements [] = Unit
AllStatements (s ∷ stmts) = IsStatement s × AllStatements stmts

-- The start of a text counts as a newline does.
whole_first : (s : Bytes) → is_whole 0 0 newline 0 s ≡ true → is_whole 0 0 0 0 s ≡ true
unfolding is_whole block_delta
whole_first [] h = h
whole_first (c ∷ s) h = h

-- A semicolon and a newline behind a statement put it out.
put_out :
    (s w rest : Bytes) (out : List Bytes) (p : ℕ)
    → trim_space (w ++ s) ≡ s
    → 0 < length s
    → cut_from (mid out (w ++ s) 0 0 p) 0 (semicolon ∷ newline ∷ rest)
      ≡ cut_from (mid (out ++ s ∷ []) (newline ∷ []) 0 0 newline) 0 rest
unfolding cut_from cut_rune flush plain_rune bytes_beq
put_out s w rest out p h some_text =
    let nonempty : ltb 0 (length s) ≡ true = ground arith in rw (h, nonempty) refl

trimmed_behind_newline : (s : Bytes) → IsTrimmed s → trim_space (newline ∷ s) ≡ s
unfolding trim_left
trimmed_behind_newline s t = trim_space-trimmed s t

some_text : (s : Bytes) → IsTrimmed s → 0 < length s
some_text [] t = absurd t.0
some_text (c ∷ s) t = omega arith

one_statement :
    (s w rest : Bytes) (out : List Bytes) (p : ℕ)
    → IsTrimmed s
    → trim_space (w ++ s) ≡ s
    → is_whole 0 0 p 0 s ≡ true
    → cut_from (mid out w 0 0 p) 0 ((s ++ semicolon ∷ newline ∷ []) ++ rest)
      ≡ cut_from (mid (out ++ s ∷ []) (newline ∷ []) 0 0 newline) 0 rest
one_statement s w rest out p t trims h =
    ap (cut_from (mid out w 0 0 p) 0) (append_assoc s (semicolon ∷ newline ∷ []) rest)
    ∙ taken_up s (newline ∷ rest) w out 0 0 p 0 h
    ∙ put_out s w rest out (last_rune p s) trims (some_text s t)

later_statements :
    (stmts : List Bytes) (out : List Bytes)
    → AllStatements stmts
    → cut_from (mid out (newline ∷ []) 0 0 newline) 0 (script_of stmts)
      ≡ mid (out ++ stmts) (newline ∷ []) 0 0 newline
unfolding script_of
later_statements [] out h =
    unfold cut_from in ap (λ z. mid z (newline ∷ []) 0 0 newline) (sym (append-nil out))
later_statements (s ∷ stmts) out h =
    let text = h.0.0 in
    one_statement s (newline ∷ []) (script_of stmts) out newline text
      (trimmed_behind_newline s text) h.0.1
    ∙ later_statements stmts (out ++ s ∷ []) h.1
    ∙ ap (λ z. mid z (newline ∷ []) 0 0 newline) (append_assoc out (s ∷ []) stmts)

-- A script that the batch lays out of statements is cut into these statements again, in their
-- order. Each statement begins and ends with ink, closes its quotes and its blocks, holds no comment,
-- and a semicolon only in a quote or a block.
pub case_statements-script_of :
    (stmts : List Bytes) → AllStatements stmts → case_statements (script_of stmts) ≡ stmts
unfolding case_statements script_of flush trim_right
case_statements-script_of [] h = unfold cut_from in refl
case_statements-script_of (s ∷ stmts) h =
    let text = h.0.0 in
    ap (λ st. (flush st).out)
      (one_statement s [] (script_of stmts) [] 0 text (trim_space-trimmed s text)
          (whole_first s h.0.1)
        ∙ later_statements stmts (s ∷ []) h.1)
    ∙ refl
