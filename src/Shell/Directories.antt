-- ===== src/Shell/Directories.antt =====
-- The directory of a case is the same to the queue (dirOf) and to the corpus (Split).
use cubrid_testkit.Prelude.{
  ℕ, suc, ◌+◌, ◌≡◌, refl, sym, ap, ◌∙◌, true, false, List, [], ◌∷◌, ◌++◌, none, some, arith, ◌==◌,
  nat_eq, nat_beq, Bytes, bytes_eq, bytes_beq_iff, Bool-cases, inl, inr, elem, length, take,
}
use mathlib.Core.Bool.{false≢true}
use mathlib.Core.Path.{subst}
use mathlib.Core.List.{append_assoc, append-nil}
use cubrid_testkit.Prelude.Strings.{onto_first, split_on, codes, join, has_prefix, last_index}
use cubrid_testkit.Dispatch.Lanes.{dir_of, cut_at}
use cubrid_testkit.Shell.Case.{Case, slash, cases_name, segments, split}
use cubrid_testkit.Shell.Segments.{path_of, path_of-append, split-path}

abbrev mark : Bytes
mark = codes "/cases/"

-- No slash is in any of the segments.
abbrev AllPlain : List Bytes → Type 0
AllPlain [] = Unit
AllPlain (s ∷ parts) = (elem slash s ≡ false) × AllPlain parts

onto_first-AllPlain :
    (c : ℕ) (parts : List Bytes)
    → c == slash ≡ false
    → AllPlain parts
    → AllPlain (onto_first c parts)
unfolding onto_first elem
onto_first-AllPlain c [] h a = (rw h refl, tt)
onto_first-AllPlain c (s ∷ parts) h a = (rw h a.0, a.1)

segments-AllPlain : (p : Bytes) → AllPlain (segments p)
unfolding split_on elem
segments-AllPlain [] = (refl, tt)
segments-AllPlain (c ∷ s) = elim (Bool-cases (c == slash)) [
  | inl same ↦ rw same (refl, segments-AllPlain s)
  | inr other ↦ rw other (onto_first-AllPlain c (segments s) other (segments-AllPlain s))
]

AllPlain-behind : (a b : List Bytes) → AllPlain (a ++ b) → AllPlain b
AllPlain-behind [] b h = h
AllPlain-behind (s ∷ a) b h = AllPlain-behind a b h.1

-- What follows a segment: nothing, or a slash.
abbrev IsEnd : Bytes → Type 0
IsEnd [] = Unit
IsEnd (c ∷ s) = c ≡ slash

has_prefix-word :
    (w s tail : Bytes)
    → elem slash w ≡ false
    → elem slash s ≡ false
    → IsEnd tail
    → has_prefix (s ++ tail) (w ++ slash ∷ []) ≡ true
    → s ≡ w
unfolding has_prefix elem
has_prefix-word [] [] tail w s e h = refl
has_prefix-word [] (c ∷ s) tail w p e h = absurd (ground (arith, p, h))
has_prefix-word (x ∷ w) [] [] p s e h = absurd (cc h)
has_prefix-word (x ∷ w) [] (c ∷ tail) p s e h = absurd (ground (arith, p, h, e))
has_prefix-word (x ∷ w) (c ∷ s) tail p q e h =
    let rest : s ≡ w =
      has_prefix-word w s tail (ground (arith, p)) (ground (arith, q)) e (ground (arith, h)) in
    let same : c ≡ x = ground (arith, h) in ap (λ z. z ∷ s) same ∙ ap (◌∷◌ x) rest

-- A text without a slash before another adds no mark.
last_index-plain :
    (s tail : Bytes)
    → elem slash s ≡ false
    → last_index tail mark ≡ none
    → last_index (s ++ tail) mark ≡ none
unfolding last_index has_prefix elem
last_index-plain [] tail p h = h
last_index-plain (c ∷ s) tail p h =
    let rest = last_index-plain s tail (ground (arith, p)) h in
    let other : nat_beq c slash ≡ false = ground (arith, p) in rw rest (rw other refl)

last_index-none :
    (c : ℕ) (s pattern : Bytes)
    → last_index s pattern ≡ none
    → has_prefix (c ∷ s) pattern ≡ false
    → last_index (c ∷ s) pattern ≡ none
unfolding last_index
last_index-none c s pattern h absent = rw h (rw absent refl)

last_index-first :
    (c : ℕ) (s pattern : Bytes)
    → last_index s pattern ≡ none
    → has_prefix (c ∷ s) pattern ≡ true
    → last_index (c ∷ s) pattern ≡ some 0
unfolding last_index
last_index-first c s pattern h there = rw h (rw there refl)

last_index-append :
    (x s pattern : Bytes)
    → last_index s pattern ≡ some 0
    → last_index (x ++ s) pattern ≡ some (length x)
unfolding last_index
last_index-append [] s pattern h = h
last_index-append (c ∷ x) s pattern h = let rest = last_index-append x s pattern h in rw rest refl

no_mark :
    (s tail : Bytes)
    → elem slash s ≡ false
    → s == cases_name ≡ false
    → IsEnd tail
    → last_index tail mark ≡ none
    → last_index (slash ∷ (s ++ tail)) mark ≡ none
no_mark s tail p other e h =
    last_index-none slash (s ++ tail) mark (last_index-plain s tail p h)
      (elim (Bool-cases (has_prefix (slash ∷ (s ++ tail)) mark)) [
        | inr absent ↦ absent
        | inl there ↦
            let word : s ≡ cases_name =
              has_prefix-word cases_name s tail (unfold elem in refl) p e
                (unfold has_prefix in there) in
            absurd (false≢true (sym other ∙ (bytes_beq_iff s cases_name).1 word))
      ])

no_mark_behind :
    (parts : List Bytes)
    → AllPlain parts
    → elem cases_name parts ≡ false
    → last_index (slash ∷ path_of parts) mark ≡ none
unfolding join elem
no_mark_behind [] a e = unfold last_index in unfold has_prefix in refl
no_mark_behind (s ∷ []) a e =
    ap (λ z. last_index (slash ∷ z) mark) (sym (append-nil s))
    ∙ no_mark s [] a.0 (ground (arith, e)) tt (unfold last_index in unfold has_prefix in refl)
no_mark_behind (s ∷ t ∷ rest) a e =
    no_mark s (slash ∷ path_of (t ∷ rest)) a.0 (ground (arith, e)) refl
      (no_mark_behind (t ∷ rest) a.1 (ground (arith, e)))

has_prefix-nil : (s : Bytes) → has_prefix s [] ≡ true
unfolding has_prefix
has_prefix-nil [] = refl
has_prefix-nil (c ∷ s) = refl

take-append : (x s : Bytes) (n : ℕ) → take (length x + n) (x ++ s) ≡ x ++ take n s
take-append [] s n = ap (λ z. take z s) (omega arith)
take-append (c ∷ x) s n =
    let next : suc (length x) + n ≡ suc (length x + n) = omega arith in
    rw next (ap (◌∷◌ c) (take-append x s n))

-- What dirOf cuts off behind the last mark.
marked_dir :
    (x q : Bytes)
    → last_index (slash ∷ q) mark ≡ none
    → dir_of (x ++ slash ∷ (cases_name ++ slash ∷ q)) ≡ x ++ slash ∷ cases_name
unfolding dir_of cut_at
marked_dir x q h =
    let y = slash ∷ (cases_name ++ slash ∷ q) in
    let found : last_index y mark ≡ some 0 =
      last_index-first slash (cases_name ++ slash ∷ q) mark
        (last_index-plain cases_name (slash ∷ q) (unfold elem in refl) h)
        (unfold has_prefix in has_prefix-nil q) in
    ap (cut_at (x ++ y)) (last_index-append x y mark found) ∙ take-append x y 6

single_path : path_of (cases_name ∷ []) ≡ cases_name
unfolding join
single_path = refl

marked_case :
    (p : Bytes) (c : Case) (before : List Bytes)
    → has_prefix p (codes "cases/") ≡ false
    → c.dir ++ slash ∷ c.script ≡ p
    → c.dir ≡ path_of (before ++ cases_name ∷ [])
    → last_index (slash ∷ c.script) mark ≡ none
    → dir_of p ≡ c.dir
marked_case p c [] absent whole dir≡ unmarked =
    let first : cases_name ++ slash ∷ c.script ≡ p =
      ap (λ z. z ++ slash ∷ c.script) (sym (dir≡ ∙ single_path)) ∙ whole in
    absurd (
      false≢true (
        sym absent
        ∙ ap (λ z. has_prefix z (codes "cases/")) (sym first)
        ∙ (unfold has_prefix in has_prefix-nil c.script)))
marked_case p c (b ∷ before) absent whole dir≡ unmarked =
    let x = path_of (b ∷ before) in
    let at : c.dir ≡ x ++ slash ∷ cases_name =
      dir≡
      ∙ path_of-append (b ∷ before) cases_name [] (λ n. cc n)
      ∙ ap (λ z. x ++ slash ∷ z) single_path in
    let all : p ≡ x ++ slash ∷ (cases_name ++ slash ∷ c.script) =
      sym whole
      ∙ ap (λ z. z ++ slash ∷ c.script) at
      ∙ append_assoc x (slash ∷ cases_name) (slash ∷ c.script) in
    ap dir_of all ∙ marked_dir x c.script unmarked ∙ sym at

-- The directory that Split gives a case is the one by which the queue gives it to a slot, where the
-- path does not begin with the segment `cases`.
pub dir_of-split :
    (p : Bytes) (c : Case)
    → split p ≡ some c
    → has_prefix p (codes "cases/") ≡ false
    → dir_of p ≡ c.dir
dir_of-split p c h absent =
    let (path≡, whole, (before, script, parts, last, filled, dir≡, script≡)) = split-path p c h in
    let plain =
      AllPlain-behind before (cases_name ∷ script) (subst AllPlain parts (segments-AllPlain p)) in
    let unmarked : last_index (slash ∷ c.script) mark ≡ none =
      ap (λ z. last_index (slash ∷ z) mark) script≡ ∙ no_mark_behind script plain.1 last in
    marked_case p c before absent whole dir≡ unmarked
