-- ===== src/Shell/Segments.antt =====
-- A path and its segments: what Split accepts, and what it makes of it.
use cubrid_testkit.Prelude.{
  ℕ, ◌≡◌, ◌≢◌, refl, sym, ap, ◌∙◌, false, List, [], ◌∷◌, ◌++◌, none, some, ◌==◌, nat_eq,
  nat_beq_iff, Bytes, bytes_eq, bytes_beq_iff, Bool-cases, Option-cases, inl, inr, elem, Option,
  ◌⊎◌,
}
use mathlib.Core.List.{append_assoc, append-nil}
use cubrid_testkit.Prelude.Strings.{onto_first, split_on, codes, join}
use cubrid_testkit.Shell.Case.{Case, slash, cases_name, segments, cut_cases, case_of, split}

abbrev pub path_of : List Bytes → Bytes
path_of parts = join parts (codes "/")

onto_first-path :
    (c : ℕ) (parts : List Bytes) → parts ≢ [] → path_of (onto_first c parts) ≡ c ∷ path_of parts
unfolding join onto_first
onto_first-path c [] h = absurd (h refl)
onto_first-path c (s ∷ []) h = refl
onto_first-path c (s ∷ t ∷ rest) h = refl

onto_first-ne-nil : (c : ℕ) (parts : List Bytes) → onto_first c parts ≢ []
unfolding onto_first
onto_first-ne-nil c [] e = cc e
onto_first-ne-nil c (s ∷ rest) e = cc e

segments-ne-nil : (p : Bytes) → segments p ≢ []
unfolding split_on
segments-ne-nil [] e = cc e
segments-ne-nil (c ∷ s) e = elim (Bool-cases (c == slash)) [
  | inl same ↦ cc (rw same at e)
  | inr other ↦ onto_first-ne-nil c (segments s) (rw other at e)
]

slash_path : (parts : List Bytes) → parts ≢ [] → path_of ([] ∷ parts) ≡ slash ∷ path_of parts
unfolding join
slash_path [] h = absurd (h refl)
slash_path (s ∷ rest) h = refl

path_of-segments : (p : Bytes) → path_of (segments p) ≡ p
unfolding split_on
path_of-segments [] = unfold join in refl
path_of-segments (c ∷ s) = elim (Bool-cases (c == slash)) [
  | inl same ↦ rw same (
      slash_path (segments s) (segments-ne-nil s)
      ∙ ap (◌∷◌ slash) (path_of-segments s)
      ∙ ap (λ z. z ∷ s) (sym ((nat_beq_iff c slash).0 same)))
  | inr other ↦
      rw other
        (onto_first-path c (segments s) (segments-ne-nil s) ∙ ap (◌∷◌ c) (path_of-segments s))
]

pub path_of-append :
    (a : List Bytes) (t : Bytes) (b : List Bytes)
    → a ≢ []
    → path_of (a ++ t ∷ b) ≡ path_of a ++ slash ∷ path_of (t ∷ b)
unfolding join
path_of-append [] t b p = absurd (p refl)
path_of-append (s ∷ []) t b p = refl
path_of-append (s ∷ r ∷ rest) t b p =
    ap (λ z. s ++ slash ∷ z) (path_of-append (r ∷ rest) t b (λ e. cc e))
    ∙ sym (append_assoc s (slash ∷ path_of (r ∷ rest)) (slash ∷ path_of (t ∷ b)))

cut_cases-none : (parts : List Bytes) → cut_cases parts ≡ none → elem cases_name parts ≡ false
unfolding cut_cases elem
cut_cases-none [] h = refl
cut_cases-none (s ∷ rest) h = elim (Option-cases (cut_cases rest)) [
  | inr (cut, found) ↦ absurd (cc (rw found at h))
  | inl nothing ↦ elim (Bool-cases (s == cases_name)) [
    | inl same ↦ absurd (cc (rw (nothing, same) at h))
    | inr other ↦ rw other (cut_cases-none rest nothing)
  ]
]

-- The cut is behind the last segment that is `cases`.
record IsCut (parts a b : List Bytes) : Type 0 where
  before : List Bytes
  cut : a ≡ before ++ cases_name ∷ []
  whole : a ++ b ≡ parts
  filled : a ≢ []
  last : elem cases_name b ≡ false

cut_cases-IsCut : (parts a b : List Bytes) → cut_cases parts ≡ some (a, b) → IsCut parts a b
unfolding cut_cases
cut_cases-IsCut [] a b h = absurd cc
cut_cases-IsCut (s ∷ rest) a b h = elim (Option-cases (cut_cases rest)) [
  | inr ((up_to, others), found) ↦
      let v = cut_cases-IsCut rest up_to others found in
      let e : some (s ∷ up_to, others) ≡ some (a, b) = rw found at h in
      let a≡ : a ≡ s ∷ up_to = cc e in
      let b≡ : b ≡ others = cc e in
      rw (a≡, b≡)
        (record {
          before = s ∷ v.before;
          cut = ap (◌∷◌ s) v.cut;
          whole = ap (◌∷◌ s) v.whole;
          filled = λ n. cc n;
          last = v.last;
        })
  | inl nothing ↦ elim (Bool-cases (s == cases_name)) [
    | inr other ↦ absurd (cc (rw (nothing, other) at h))
    | inl same ↦
        let e : some (s ∷ [], rest) ≡ some (a, b) = rw (nothing, same) at h in
        let a≡ : a ≡ s ∷ [] = cc e in
        let b≡ : b ≡ rest = cc e in
        rw (a≡, b≡)
          (record {
            before = [];
            cut = ap (λ z. z ∷ []) ((bytes_beq_iff s cases_name).0 same);
            whole = refl;
            filled = λ n. cc n;
            last = cut_cases-none rest nothing;
          })
  ]
]

abbrev Halves : Bytes → Case → Type 0
Halves p c =
    (c.path ≡ p)
    × (c.dir ++ slash ∷ c.script ≡ p)
    × ((before script : List Bytes) × (segments p ≡ before ++ cases_name ∷ script)
        × (elem cases_name script ≡ false)
        × (script ≢ [])
        × (c.dir ≡ join (before ++ cases_name ∷ []) (codes "/"))
        × (c.script ≡ join script (codes "/")))

split_parts :
    (p : Bytes) (c : Case) (a : List Bytes) (t : Bytes) (b : List Bytes)
    → case_of p (some (a, t ∷ b)) ≡ some c
    → IsCut (segments p) a (t ∷ b)
    → Halves p c
unfolding case_of
split_parts p c a t b e v =
    let path≡ : p ≡ c.path = cc e in
    let dir≡ : path_of a ≡ c.dir = cc e in
    let script≡ : path_of (t ∷ b) ≡ c.script = cc e in
    (
      sym path≡,
      ap (λ z. z ++ slash ∷ c.script) (sym dir≡)
          ∙ ap (λ z. path_of a ++ slash ∷ z) (sym script≡)
          ∙ sym (path_of-append a t b v.filled)
          ∙ ap path_of v.whole
          ∙ path_of-segments p,
      (
        v.before,
        t ∷ b,
        sym v.whole ∙ ap (λ z. z ++ t ∷ b) v.cut ∙ append_assoc v.before (cases_name ∷ []) (t ∷ b),
        v.last,
        λ n. cc n,
        sym dir≡ ∙ ap path_of v.cut,
        sym script≡,
      ),
    )

-- What Split accepts is cut behind its last segment `cases`: the directory ends there, the script
-- is the rest, and a slash joins the two to the path again.
pub split-path :
    (p : Bytes) (c : Case)
    → split p ≡ some c
    → (c.path ≡ p)
      × (c.dir ++ slash ∷ c.script ≡ p)
      × ((before script : List Bytes) × (segments p ≡ before ++ cases_name ∷ script)
          × (elem cases_name script ≡ false)
          × (script ≢ [])
          × (c.dir ≡ join (before ++ cases_name ∷ []) (codes "/"))
          × (c.script ≡ join script (codes "/")))
unfolding split case_of
split-path p c h = elim (Option-cases (cut_cases (segments p))) [
  | inl nothing ↦ absurd (cc (rw nothing at h))
  | inr ((a, []), found) ↦ absurd (cc (rw found at h))
  | inr ((a, t ∷ b), found) ↦
      split_parts p c a t b (rw found at h) (cut_cases-IsCut (segments p) a (t ∷ b) found)
]

-- The answer that a path is to have. An error is for a path that has no segment `cases`, or ends in it;
-- a case is cut behind the last segment `cases`, and its script is not empty.
abbrev pub IsAnswer : Bytes → Option Case → Type 0
IsAnswer p none =
    (elem cases_name (segments p) ≡ false)
    ⊎ ((before : List Bytes) × (segments p ≡ before ++ cases_name ∷ []))
IsAnswer p (some c) =
    (c.path ≡ p)
    × ((before script : List Bytes) × (segments p ≡ before ++ cases_name ∷ script)
        × (elem cases_name script ≡ false)
        × (script ≢ [])
        × (c.dir ≡ join (before ++ cases_name ∷ []) (codes "/"))
        × (c.script ≡ join script (codes "/")))

split-none : (p : Bytes) → split p ≡ none → IsAnswer p none
unfolding split case_of
split-none p h = elim (Option-cases (cut_cases (segments p))) [
  | inl nothing ↦ inl (cut_cases-none (segments p) nothing)
  | inr ((a, []), found) ↦
      let v = cut_cases-IsCut (segments p) a [] found in
      inr (v.before, sym v.whole ∙ append-nil a ∙ v.cut)
  | inr ((a, t ∷ b), found) ↦ absurd (cc (rw found at h))
]

answered : (p : Bytes) (o : Option Case) → split p ≡ o → IsAnswer p o
answered p none e = split-none p e
answered p (some c) e =
    let (path≡, whole, (before, script, parts, last, filled, dir≡, script≡)) = split-path p c e in
    (path≡, (before, script, parts, last, filled, dir≡, script≡))
