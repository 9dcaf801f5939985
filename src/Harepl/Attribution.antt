-- ===== src/Harepl/Attribution.antt =====
-- `run` gives each statement of a batch the result that csql labels with its line.
use cubrid_testkit.Prelude.{
  ℕ, zero, suc, ◌+◌, ◌≤◌, ◌<◌, ◌≡◌, ◌≢◌, refl, sym, ap, ◌∙◌, List, [], ◌∷◌, ◌++◌, map, none, some,
  arith, if◌then◌else◌, nat_eq, nat_beq_iff, Bytes, length, length-append, length-map,
}
use mathlib.Core.Path.{subst}
use mathlib.Core.List.{append_assoc}
use cubrid_testkit.Prelude.Strings.{join, split_on}
use cubrid_testkit.Prelude.Dict.{lookup, read, or_default, lookup-insert}
use cubrid_testkit.Prelude.Split.{AllWithout, split_on-join}
use cubrid_testkit.Harepl.Batch.{
  newline, lines_of, script_of, line_behind, lines_from, new_batch_with, Split, split_lines,
  split_results, run_batch, flush_block,
}
use cubrid_testkit.Harepl.Markers.{marker_one_line}
use cubrid_testkit.Harepl.Answers.{
  Answer, Sent, AllBody, IsPrintable, AllPrintable, answer_lines, printed, block_of, finish,
  answered, answer_taken, finish-answered, split_lines-append, banner_dropped,
}

-- No block is stored for a line from `at` on.
abbrev IsBelow : ℕ → Split → Type 0
IsBelow at st = (ln : ℕ) → at ≤ ln → lookup ln (finish st) ≡ none

lookup-answered :
    (at ln : ℕ) (a : Answer) (st : Split)
    → suc at ≢ ln
    → lookup ln (finish (answered at a st)) ≡ lookup ln (finish st)
lookup-answered at ln none st h = refl
lookup-answered at ln (some (kind, body)) st h =
    ap (lookup ln) (finish-answered at kind body st)
    ∙ lookup-insert (suc at) ln (join body (newline ∷ [])) (finish st)
    ∙ ground (arith, nat_beq_iff (suc at) ln, h)

lookup-answered_self :
    (at : ℕ) (a : Answer) (st : Split)
    → lookup (suc at) (finish st) ≡ none
    → or_default [] (lookup (suc at) (finish (answered at a st))) ≡ block_of a
lookup-answered_self at none st h = rw h refl
lookup-answered_self at (some (kind, body)) st h =
    let block = join body (newline ∷ []) in
    ap (or_default []) (
      ap (lookup (suc at)) (finish-answered at kind body st)
      ∙ lookup-insert (suc at) (suc at) block (finish st)
      ∙ ap (λ b. if b then some block else lookup (suc at) (finish st))
          ((nat_beq_iff (suc at) (suc at)).1 refl))

-- What the answers to later statements leave alone.
printed_above :
    (at ln : ℕ) (sent : Sent) (st : Split)
    → AllPrintable sent
    → ln < suc at
    → lookup ln (finish (split_lines (printed (suc at) sent) st)) ≡ lookup ln (finish st)
printed_above at ln [] st h lt = unfold split_lines in refl
printed_above at ln ((s, a) ∷ sent) st h lt =
    let next : suc at + lines_of s ≡ suc (at + lines_of s) = omega arith in
    let later = printed (suc (at + lines_of s)) sent in
    rw next (
      ap (λ z. lookup ln (finish z))
        (split_lines-append (answer_lines (suc at) a) later st
          ∙ ap (split_lines later) (answer_taken at a st h.0))
      ∙ printed_above (at + lines_of s) ln sent (answered at a st) h.1 (omega arith)
      ∙ lookup-answered at ln a st (λ e. omega (arith, e)))

answers_taken :
    (at next : ℕ) (a : Answer) (sent : Sent) (st : Split)
    → IsPrintable a
    → split_lines (answer_lines (suc at) a ++ printed next sent) st
      ≡ split_lines (printed next sent) (answered at a st)
answers_taken at next a sent st h =
    split_lines-append (answer_lines (suc at) a) (printed next sent) st
    ∙ ap (split_lines (printed next sent)) (answer_taken at a st h)

answered-IsBelow :
    (at : ℕ) (s : Bytes) (a : Answer) (st : Split)
    → IsBelow (suc at) st
    → IsBelow (suc (at + lines_of s)) (answered at a st)
answered-IsBelow at s a st b ln le =
    lookup-answered at ln a st (λ e. omega (arith, e, le)) ∙ b ln (omega (arith, le))

-- Each statement finds its own answer under the line on which it starts.
printed_found :
    (at : ℕ) (sent : Sent) (st : Split)
    → AllPrintable sent
    → IsBelow (suc at) st
    → map
        (λ ln. read [] ln (finish (split_lines (printed (suc at) sent) st)))
        (lines_from (suc at) (map (λ z. z.0) sent))
      ≡ map (λ z. block_of z.1) sent
unfolding lines_from
printed_found at [] st h b = refl
printed_found at ((s, a) ∷ sent) st h b =
    let next : suc at + lines_of s ≡ suc (at + lines_of s) = omega arith in
    let later = printed (suc (at + lines_of s)) sent in
    let taken = answers_taken at (suc (at + lines_of s)) a sent st h.0 in
    let own : read [] (suc at) (finish (split_lines later (answered at a st))) ≡ block_of a =
      ap (or_default [])
        (printed_above (at + lines_of s) (suc at) sent (answered at a st) h.1 (omega arith))
      ∙ lookup-answered_self at a st (b (suc at) (omega arith)) in
    let below = answered-IsBelow at s a st b in
    let above = lines_from (suc (at + lines_of s)) (map (λ z. z.0) sent) in
    let reads : Split → List ℕ → List Bytes = λ z lns. map (λ ln. read [] ln (finish z)) lns in
    let stmts = map (λ z. z.0) sent in
    let behind : ℕ → List Bytes = λ k.
      reads (split_lines (answer_lines (suc at) a ++ printed k sent) st)
        (suc at ∷ lines_from k stmts) in
    ap behind next
    ∙ ap (λ z. reads z (suc at ∷ above)) taken
    ∙ ap (λ z. z ∷ reads (split_lines later (answered at a st)) above) own
    ∙ ap (◌∷◌ (block_of a)) (printed_found (at + lines_of s) sent (answered at a st) h.1 below)

printed-append :
    (at : ℕ) (a b : Sent)
    → printed at (a ++ b) ≡ printed at a ++ printed (line_behind at (map (λ z. z.0) a)) b
unfolding line_behind
printed-append at [] b = refl
printed-append at ((s, w) ∷ a) b =
    ap (λ z. answer_lines at w ++ z) (printed-append (at + lines_of s) a b)
    ∙ sym (append_assoc (answer_lines at w) (printed (at + lines_of s) a) _)

AllWithout-append :
    (c : ℕ) (a b : List Bytes) → AllWithout c a → AllWithout c b → AllWithout c (a ++ b)
AllWithout-append c [] b h k = k
AllWithout-append c (s ∷ a) b h k = (h.0, AllWithout-append c a b h.1 k)

body_one_line : (body : List Bytes) → AllBody body → AllWithout newline body
body_one_line [] h = tt
body_one_line (line ∷ body) h = (h.0.0, body_one_line body h.1)

answer_one_line : (at : ℕ) (a : Answer) → IsPrintable a → AllWithout newline (answer_lines at a)
answer_one_line at none h = tt
answer_one_line at (some (kind, body)) h = (marker_one_line kind at h.1, body_one_line body h.2)

printed_one_line : (at : ℕ) (sent : Sent) → AllPrintable sent → AllWithout newline (printed at sent)
printed_one_line at [] h = tt
printed_one_line at ((s, a) ∷ sent) h =
    AllWithout-append newline (answer_lines at a) (printed (at + lines_of s) sent)
      (answer_one_line at a h.0) (printed_one_line (at + lines_of s) sent h.1)

AllPrintable-append : (a b : Sent) → AllPrintable a → AllPrintable b → AllPrintable (a ++ b)
AllPrintable-append [] b h k = k
AllPrintable-append (s ∷ a) b h k = (h.0, AllPrintable-append a b h.1 k)

run_script :
    (csql : Bytes → Bytes) (script : Bytes) (lns : List ℕ)
    → 0 < length script
    → run_batch csql (record { script = script; line = lns })
      ≡ map (λ ln. read [] ln (split_results (csql script))) lns
unfolding run_batch
run_script csql [] lns h = elim h [ ]
run_script csql (c ∷ s) lns h = refl

some_script : (stmts : List Bytes) → 0 < length stmts → 0 < length (script_of stmts)
unfolding script_of
some_script [] h = elim h [ ]
some_script (s ∷ stmts) h = omega (
  arith,
  length-append s (b';' ∷ newline ∷ []),
  length-append (s ++ b';' ∷ newline ∷ []) (script_of stmts),
)

line_behind-le : (at : ℕ) (stmts : List Bytes) → at ≤ line_behind at stmts
unfolding line_behind
line_behind-le at [] = omega arith
line_behind-le at (s ∷ stmts) = omega (arith, line_behind-le (at + lines_of s) stmts)

abbrev texts : Sent → List Bytes
texts = map (λ z. z.0)

prelude-IsBelow :
    (at : ℕ) (prelude : Sent) (st : Split)
    → AllPrintable prelude
    → IsBelow (suc at) st
    → IsBelow (line_behind (suc at) (texts prelude)) (split_lines (printed (suc at) prelude) st)
unfolding line_behind
prelude-IsBelow at [] st h b = unfold split_lines in b
prelude-IsBelow at ((s, a) ∷ prelude) st h b =
    let next : suc at + lines_of s ≡ suc (at + lines_of s) = omega arith in
    let above = line_behind (suc (at + lines_of s)) (texts prelude) in
    let family : ℕ → Type 0 = λ k.
      IsBelow (line_behind k (texts prelude))
        (split_lines (answer_lines (suc at) a ++ printed k prelude) st) in
    subst family (sym next) (
      subst (IsBelow above) (sym (answers_taken at (suc (at + lines_of s)) a prelude st h.0)) (
        prelude-IsBelow (at + lines_of s) prelude (answered at a st) h.1
          (answered-IsBelow at s a st b)))

found_at :
    (at : ℕ) (sent : Sent) (st : Split)
    → 0 < at
    → AllPrintable sent
    → IsBelow at st
    → map
        (λ ln. read [] ln (finish (split_lines (printed at sent) st)))
        (lines_from at (texts sent))
      ≡ map (λ z. block_of z.1) sent
found_at zero sent st p h b = elim p [ ]
found_at (suc at) sent st p h b = printed_found at sent st h b

abbrev unread : Split
unread = record { blocks = []; cur = []; cur_line = 0 }

-- The state of the reader where the answers to the batch begin.
behind_prelude :
    (banner : List Bytes) (prelude sent : Sent)
    → AllBody banner
    → split_lines (banner ++ printed 1 (prelude ++ sent)) unread
      ≡ split_lines
          (printed (line_behind 1 (texts prelude)) sent)
          (split_lines (printed 1 prelude) unread)
behind_prelude banner prelude sent h =
    split_lines-append banner (printed 1 (prelude ++ sent)) unread
    ∙ ap (split_lines (printed 1 (prelude ++ sent))) (banner_dropped banner h)
    ∙ ap (λ z. split_lines z unread) (printed-append 1 prelude sent)
    ∙ split_lines-append (printed 1 prelude) (printed (line_behind 1 (texts prelude)) sent) unread

nothing_stored : IsBelow 1 unread
unfolding flush_block lookup
nothing_stored ln le = refl

-- Where csql labels each result with the line on which its statement starts, `run` gives each
-- statement the lines of its own result, joined, and the empty text where it had none: whatever
-- stands in the output before the first marker, and whatever the statements of the prelude print.
pub run_batch-printed :
    (csql : Bytes → Bytes) (line : Bytes) (banner : List Bytes) (prelude sent : Sent)
    → AllBody (line ∷ banner)
    → AllPrintable prelude
    → AllPrintable sent
    → 0 < length sent
    → csql (script_of (map (λ z. z.0) prelude) ++ script_of (map (λ z. z.0) sent))
      ≡ join (line ∷ (banner ++ printed 1 (prelude ++ sent))) (newline ∷ [])
    → run_batch csql (new_batch_with (map (λ z. z.0) prelude) (map (λ z. z.0) sent))
      ≡ map (λ z. block_of z.1) sent
unfolding new_batch_with split_results
run_batch-printed csql line banner prelude sent hb hp hs some_sent prints =
    let script = script_of (texts prelude) ++ script_of (texts sent) in
    let out = banner ++ printed 1 (prelude ++ sent) in
    let at = line_behind 1 (texts prelude) in
    let lns = lines_from at (texts sent) in
    let one_line : AllWithout newline (line ∷ out) = (
      hb.0.0,
      AllWithout-append newline banner (printed 1 (prelude ++ sent)) (body_one_line banner hb.1)
          (printed_one_line 1 (prelude ++ sent) (AllPrintable-append prelude sent hp hs)),
    ) in
    run_script csql script lns (
      omega (
        arith,
        length-append (script_of (texts prelude)) (script_of (texts sent)),
        some_script (texts sent),
        length-map sent (λ z. z.0),
      ))
    ∙ ap (λ z. map (λ ln. read [] ln (finish (split_lines (split_on newline z) unread))) lns) prints
    ∙ ap (λ z. map (λ ln. read [] ln (finish (split_lines z unread))) lns)
        (split_on-join newline line out one_line)
    ∙ ap (λ z. map (λ ln. read [] ln (finish z)) lns)
        (behind_prelude (line ∷ banner) prelude sent hb)
    ∙ found_at at sent (split_lines (printed 1 prelude) unread)
        (omega (arith, line_behind-le 1 (texts prelude))) hs
        (prelude-IsBelow 0 prelude unread hp nothing_stored)
