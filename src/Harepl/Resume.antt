-- ===== src/Harepl/Resume.antt =====
-- What a resumed run reads back from the lines that an earlier run wrote.
use cubrid_testkit.Prelude.{
  ℕ, ◌≤◌, ◌≡◌, ◌≢◌, refl, sym, ap, ◌∙◌, Bool, true, false, List, [], ◌∷◌, ◌++◌, map, Option, none,
  some, arith, if◌then◌else◌, ◌==◌, nat_eq, Bytes, bytes_eq, length, elem, Bool-cases, inl, inr,
}
use cubrid_testkit.Prelude.Strings.{decimal, split_on, max_int}
use cubrid_testkit.Prelude.Split.{split_on-plain, split_on-append}
use cubrid_testkit.Prelude.Dict.{Dict, lookup, insert, delete, lookup-insert, lookup-delete}
use cubrid_testkit.Prelude.Decimal.{AreDigits, decimal-number, atoi-decimal}
use cubrid_testkit.Plan.Sizes.{atoi_positive}
use cubrid_testkit.Plan.SizeLines.{atoi_positive-digits}
use cubrid_testkit.Harepl.Ledger.{
  Verdict, tab, spaced, ledger_line, verdict_of, parse_ledger_line, is_about_run, judge, judged,
  read_ms,
}

spaced-gone : (c : ℕ) (s : Bytes) → c ≢ 32 → elem c (spaced c s) ≡ false
unfolding spaced elem
spaced-gone c [] h = refl
spaced-gone c (x ∷ s) h = ground (arith, spaced-gone c s h, h)

spaced-plain : (c d : ℕ) (s : Bytes) → d ≢ 32 → elem d s ≡ false → elem d (spaced c s) ≡ false
unfolding spaced elem
spaced-plain c d [] h e = refl
spaced-plain c d (x ∷ s) h e = ground (arith, spaced-plain c d s h, h, e)

digits_plain : (s : Bytes) → AreDigits s → elem tab s ≡ false
unfolding elem
digits_plain [] a = refl
digits_plain (d ∷ s) a = ground (arith, digits_plain s, a)

-- A verdict whose case and outcome can stand in a line of the ledger.
pub record IsRecorded (r : Verdict) : Type 0 where
  pub named : length r.test_case == 0 ≡ false
  pub case_plain : elem tab r.test_case ≡ false
  pub judged_as : length r.outcome == 0 ≡ false
  pub outcome_plain : elem tab r.outcome ≡ false
  pub in_range : r.took ≤ max_int

-- What a line keeps of a verdict: its detail loses its tabs and newlines.
abbrev pub as_kept : Verdict → Verdict
as_kept r = record r { detail = spaced 10 (spaced tab r.detail) }

verdict_filled :
    (c o d ms : Bytes)
    → length c == 0 ≡ false
    → length o == 0 ≡ false
    → verdict_of (c ∷ o ∷ d ∷ ms ∷ [])
      ≡ some (record { test_case = c; outcome = o; detail = d; took = read_ms (atoi_positive ms) })
unfolding verdict_of
verdict_filled c o d ms named judged_as = rw (named, judged_as) refl

read_line : (r : Verdict) → IsRecorded r → parse_ledger_line (ledger_line r) ≡ some (as_kept r)
unfolding parse_ledger_line ledger_line
read_line r v =
    let d = spaced 10 (spaced tab r.detail) in
    let plain : elem tab d ≡ false =
      spaced-plain 10 tab (spaced tab r.detail) (λ e. omega (arith, e))
        (spaced-gone tab r.detail (λ e. omega (arith, e))) in
    let digits = (decimal-number r.took).1 in
    let fields : split_on tab
          (r.test_case ++ tab ∷ (r.outcome ++ tab ∷ (d ++ tab ∷ decimal r.took)))
        ≡ r.test_case ∷ r.outcome ∷ d ∷ decimal r.took ∷ [] =
      split_on-append tab r.test_case _ v.case_plain
      ∙ ap (◌∷◌ r.test_case) (
          split_on-append tab r.outcome _ v.outcome_plain
          ∙ ap (◌∷◌ r.outcome) (
              split_on-append tab d _ plain
              ∙ ap (◌∷◌ d)
                  (split_on-plain tab (decimal r.took) (digits_plain (decimal r.took) digits)))) in
    let ms : atoi_positive (decimal r.took) ≡ some r.took =
      atoi_positive-digits (decimal r.took) digits ∙ atoi-decimal r.took v.in_range in
    ap verdict_of fields
    ∙ verdict_filled r.test_case r.outcome d (decimal r.took) v.named v.judged_as
    ∙ ap (λ z. some (record (as_kept r) { took = read_ms z })) ms

abbrev pub AllRecorded : List Verdict → Type 0
AllRecorded [] = Unit
AllRecorded (r ∷ rs) = IsRecorded r × AllRecorded rs

-- The last verdict on a case.
abbrev pub latest : Bytes → List Verdict → Option Verdict → Option Verdict
latest c [] last = last
latest c (r ∷ rs) last = latest c rs (if r.test_case == c then some r else last)

-- What is carried over: a verdict about the case.
abbrev pub resumed : Option Verdict → Option Verdict
resumed none = none
resumed (some r) = if is_about_run r then none else some (as_kept r)

resumed_if :
    (b : Bool) (r : Verdict) (last x : Option Verdict)
    → x ≡ resumed last
    → resumed (if b then some r else last) ≡ (if b then resumed (some r) else x)
resumed_if true r last x h = refl
resumed_if false r last x h = sym h

abbrev judged_as : Bool → Verdict → Dict Bytes Verdict → Dict Bytes Verdict
judged_as b r out = if b then delete r.test_case out else insert r.test_case (as_kept r) out

judged_one :
    (r : Verdict) (c : Bytes) (out : Dict Bytes Verdict) (last : Option Verdict)
    → lookup c out ≡ resumed last
    → lookup c (judge (some (as_kept r)) out) ≡ resumed (if r.test_case == c then some r else last)
unfolding judge is_about_run
judged_one r c out last h =
    let chosen = resumed_if (r.test_case == c) r last (lookup c out) h in
    elim (Bool-cases (is_about_run r)) [
      | inl run ↦
          ap (λ b. lookup c (judged_as b r out)) run
          ∙ lookup-delete r.test_case c out
          ∙ ap (λ z. if r.test_case == c then z else lookup c out)
              (sym (ap (λ b. if b then none else some (as_kept r)) run))
          ∙ sym chosen
      | inr own ↦
          ap (λ b. lookup c (judged_as b r out)) own
          ∙ lookup-insert r.test_case c (as_kept r) out
          ∙ ap (λ z. if r.test_case == c then z else lookup c out)
              (sym (ap (λ b. if b then none else some (as_kept r)) own))
          ∙ sym chosen
    ]

judged-all :
    (rs : List Verdict) (c : Bytes) (out : Dict Bytes Verdict) (last : Option Verdict)
    → AllRecorded rs
    → lookup c out ≡ resumed last
    → lookup c (judged (map ledger_line rs) out) ≡ resumed (latest c rs last)
unfolding judged
judged-all [] c out last v h = h
judged-all (r ∷ rs) c out last v h =
    ap (λ z. lookup c (judged (map ledger_line rs) (judge z out))) (read_line r v.0)
    ∙ judged-all rs c (judge (some (as_kept r)) out) (if r.test_case == c then some r else last) v.1
        (judged_one r c out last h)

-- A resumed run takes for each case the last verdict that was written on it, unless that one is about
-- the run: a timeout or a failed case is not carried over, nor is what was written before it.
pub judged-latest :
    (rs : List Verdict) (c : Bytes)
    → AllRecorded rs
    → lookup c (judged (map ledger_line rs) []) ≡ resumed (latest c rs none)
judged-latest rs c v = judged-all rs c [] none v (unfold lookup in refl)
