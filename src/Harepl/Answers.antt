-- ===== src/Harepl/Answers.antt =====
-- What csql prints on a batch, and what `run` makes of it: each answer goes to its statement.
use cubrid_testkit.Prelude.{
  ℕ, suc, ◌+◌, ◌≡◌, refl, sym, ap, ◌∙◌, true, false, List, [], ◌∷◌, ◌++◌, Option, none, some, arith,
  ltb, nat_eq, Bytes, elem,
}
use mathlib.Core.List.{append_assoc, append-nil}
use cubrid_testkit.Prelude.Strings.{join}
use cubrid_testkit.Prelude.Dict.{Dict, insert}
use cubrid_testkit.Prelude.Trim.{trim_space}
use cubrid_testkit.Harepl.Batch.{
  newline, lines_of, Split, flush_block, split_line, split_lines, marked_line,
}
use cubrid_testkit.Harepl.Markers.{marker, marked_line-trimmed}

-- The answer to a statement: none, or the name of its command and the lines of its result.
abbrev pub Answer : Type 0
Answer = Option (Bytes × List Bytes)

abbrev pub Sent : Type 0
Sent = List (Bytes × Answer)

-- A line of a result: it is one line, and no marker.
abbrev pub IsBody : Bytes → Type 0
IsBody line = (elem newline line ≡ false) × (marked_line (trim_space line) ≡ none)

abbrev pub AllBody : List Bytes → Type 0
AllBody [] = Unit
AllBody (line ∷ lines) = IsBody line × AllBody lines

-- An answer that csql can print: its command's name fits into a marker.
abbrev pub IsPrintable : Answer → Type 0
IsPrintable none = Unit
IsPrintable (some (kind, body)) =
    (elem b'>' kind ≡ false) × (elem newline kind ≡ false) × AllBody body

abbrev pub AllPrintable : Sent → Type 0
AllPrintable [] = Unit
AllPrintable ((s, a) ∷ sent) = IsPrintable a × AllPrintable sent

abbrev pub answer_lines : ℕ → Answer → List Bytes
answer_lines at none = []
answer_lines at (some (kind, body)) = marker kind at ∷ body

-- csql labels each result with the line on which its statement starts.
abbrev pub printed : ℕ → Sent → List Bytes
printed at [] = []
printed at ((s, a) ∷ sent) = answer_lines at a ++ printed (at + lines_of s) sent

-- The block of an answer, empty for none.
abbrev pub block_of : Answer → Bytes
block_of none = []
block_of (some (kind, body)) = join body (newline ∷ [])

abbrev pub finish : Split → Dict ℕ Bytes
finish st = (flush_block st).blocks

pub split_lines-append :
    (a b : List Bytes) (st : Split) → split_lines (a ++ b) st ≡ split_lines b (split_lines a st)
unfolding split_lines
split_lines-append [] b st = refl
split_lines-append (line ∷ a) b st =
    split_lines-append a b (split_line line (marked_line (trim_space line)) st)

body_kept :
    (body acc : List Bytes) (at : ℕ) (blocks : Dict ℕ Bytes)
    → AllBody body
    → split_lines body (record { blocks = blocks; cur = acc; cur_line = suc at })
      ≡ record { blocks = blocks; cur = acc ++ body; cur_line = suc at }
unfolding split_lines split_line
body_kept [] acc at blocks h =
    ap (λ z. record { blocks = blocks; cur = z; cur_line = suc at }) (sym (append-nil acc))
body_kept (line ∷ body) acc at blocks h =
    let marked : ltb 0 (suc at) ≡ true = ground arith in
    rw (h.0.1, marked)
      (body_kept body (acc ++ line ∷ []) at blocks h.1
        ∙ ap (λ z. record { blocks = blocks; cur = z; cur_line = suc at })
            (append_assoc acc (line ∷ []) body))

-- Lines before the first marker leave no block.
pub banner_dropped :
    (banner : List Bytes)
    → AllBody banner
    → split_lines banner (record { blocks = []; cur = []; cur_line = 0 })
      ≡ record { blocks = []; cur = []; cur_line = 0 }
unfolding split_lines split_line
banner_dropped [] h = refl
banner_dropped (line ∷ banner) h = rw h.0.1 (banner_dropped banner h.1)

-- The state behind an answer.
abbrev pub answered : ℕ → Answer → Split → Split
answered at none st = st
answered at (some (kind, body)) st = record { blocks = finish st; cur = body; cur_line = suc at }

pub answer_taken :
    (at : ℕ) (a : Answer) (st : Split)
    → IsPrintable a
    → split_lines (answer_lines (suc at) a) st ≡ answered at a st
unfolding split_lines split_line flush_block
answer_taken at none st h = refl
answer_taken at (some (kind, body)) st h =
    ap (λ z. split_lines body (split_line (marker kind (suc at)) z st))
      (marked_line-trimmed kind (suc at) h.0)
    ∙ body_kept body [] at (finish st) h.2

pub finish-answered :
    (at : ℕ) (kind : Bytes) (body : List Bytes) (st : Split)
    → finish (answered at (some (kind, body)) st)
      ≡ insert (suc at) (join body (newline ∷ [])) (finish st)
unfolding flush_block
finish-answered at kind body st =
    let marked : ltb 0 (suc at) ≡ true = ground arith in rw marked refl
