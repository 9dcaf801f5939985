-- ===== src/Harepl/Heads.antt =====
-- What stands where the columns of an INSERT are named.
use cubrid_testkit.Prelude.{
  ℕ, ◌-◌, ◌≡◌, refl, sym, ap, ◌∙◌, true, false, ◌||◌, [], ◌∷◌, ◌++◌, some, arith, ◌==◌, nat_eq,
  Bytes, bytes_eq, length, length-append, take, take_of_length, take-drop, drop, drop_of_length,
  elem, Bool-cases, inl, inr,
}
use mathlib.Core.Path.{subst}
use mathlib.Core.List.{append_assoc}
use cubrid_testkit.Prelude.Strings.{codes, trim_left}
use cubrid_testkit.Harepl.Statements.{is_word_rune, word, word_at, skip_space}
use cubrid_testkit.Harepl.Inserts.{head_at, insert_head_at}

-- The end of a head of `n` runes: its last word is the table, and only blanks stand between the table
-- and the VALUES or SELECT behind the head.
pub record IsHeadEnd (s table : Bytes) (n : ℕ) : Type 0 where
  pub front : Bytes
  pub gap : Bytes
  pub head : take n s ≡ front ++ (table ++ gap)
  pub blank : skip_space gap ≡ []
  pub is_named : length table == 0 ≡ false
  pub ends : elem (word_at (drop n s)) (codes "VALUES" ∷ codes "SELECT" ∷ []) ≡ true

-- A head: no rune of a word stands before it, and it begins with the command.
pub record IsHead (before : ℕ) (s table : Bytes) (n : ℕ) : Type 0 where
  pub unprefixed : is_word_rune before ≡ false
  pub command : elem (word_at s) (codes "INSERT" ∷ codes "REPLACE" ∷ []) ≡ true
  pub head_end : IsHeadEnd s table n

word-drop : (s : Bytes) → word s ++ drop (length (word s)) s ≡ s
unfolding word
word-drop [] = refl
word-drop (c ∷ s) = elim (Bool-cases (is_word_rune c)) [
  | inl rune ↦ rw (rune, word) (ap (◌∷◌ c) (word-drop s))
  | inr other ↦ rw (other, word) refl
]

-- The blanks that are skipped.
abbrev Skipped : Bytes → Type 0
Skipped s = (gap : Bytes) × (s ≡ gap ++ skip_space s) × (skip_space gap ≡ [])

skip_space-Skipped : (s : Bytes) → Skipped s
unfolding skip_space trim_left
skip_space-Skipped [] = ([], refl, refl)
skip_space-Skipped (c ∷ s) = elim (Bool-cases (c == b' ' || c == 0x09 || c == 0x0a || c == 0x0d)) [
  | inl blank ↦
      let (gap, whole, skipped) = skip_space-Skipped s in
      let front : c ∷ s ≡ (c ∷ gap) ++ skip_space (c ∷ s) = rw blank (ap (◌∷◌ c) whole) in
      let skips : skip_space (c ∷ gap) ≡ [] = rw blank skipped in (c ∷ gap, front, skips)
  | inr ink ↦ ([], rw ink refl, refl)
]

cut_length : (p b : Bytes) → length (p ++ b) - length b ≡ length p
cut_length p b = omega (arith, length-append p b)

take_front : (p b : Bytes) → take (length (p ++ b) - length b) (p ++ b) ≡ p
take_front p b = ap (λ n. take n (p ++ b)) (cut_length p b) ∙ take_of_length p b

drop_front : (p b : Bytes) → drop (length (p ++ b) - length b) (p ++ b) ≡ b
drop_front p b = ap (λ n. drop n (p ++ b)) (cut_length p b) ∙ drop_of_length p b

-- A text whose rest, from some place on, is another.
abbrev HasRest : Bytes → Bytes → Type 0
HasRest s rest = (front : Bytes) × (s ≡ front ++ rest)

skip_space-HasRest : (s rest : Bytes) → HasRest s rest → HasRest s (skip_space rest)
skip_space-HasRest s rest (front, e) =
    let (gap, whole, skipped) = skip_space-Skipped rest in
    (front ++ gap, e ∙ ap (λ z. front ++ z) whole ∙ sym (append_assoc front gap (skip_space rest)))

drop-HasRest : (k : ℕ) (s rest : Bytes) → HasRest s rest → HasRest s (drop k rest)
drop-HasRest k s rest (front, e) = (
  front ++ take k rest,
  e
      ∙ ap (λ z. front ++ z) (sym (take-drop k rest))
      ∙ sym (append_assoc front (take k rest) (drop k rest)),
)

head_end_lem :
    (front name gap behind : Bytes)
    → skip_space gap ≡ []
    → length name == 0 ≡ false
    → elem (word_at behind) (codes "VALUES" ∷ codes "SELECT" ∷ []) ≡ true
    → IsHeadEnd
        ((front ++ (name ++ gap)) ++ behind)
        name
        (length ((front ++ (name ++ gap)) ++ behind) - length behind)
head_end_lem front name gap behind skipped some_name verb = record {
  front = front;
  gap = gap;
  head = take_front (front ++ (name ++ gap)) behind;
  blank = skipped;
  is_named = some_name;
  ends =
      ap (λ z. elem (word_at z) (codes "VALUES" ∷ codes "SELECT" ∷ []))
        (drop_front (front ++ (name ++ gap)) behind)
      ∙ verb;
}

head_at-IsHeadEnd :
    (s name_on table : Bytes) (n : ℕ)
    → HasRest s name_on
    → head_at s name_on ≡ some (table, n)
    → IsHeadEnd s table n
unfolding head_at
head_at-IsHeadEnd s name_on table n (front, e) h =
    let name = word name_on in
    let after = drop (length name) name_on in
    let (gap, whole, skipped) = skip_space-Skipped after in
    let verbs = codes "VALUES" ∷ codes "SELECT" ∷ [] in
    let parts : s ≡ (front ++ (name ++ gap)) ++ skip_space after =
      e
      ∙ ap (λ z. front ++ z)
          (sym (word-drop name_on)
            ∙ ap (λ z. name ++ z) whole
            ∙ sym (append_assoc name gap (skip_space after)))
      ∙ sym (append_assoc front (name ++ gap) (skip_space after)) in
    elim (Bool-cases (length name == 0)) [
      | inl nameless ↦ absurd (cc (rw (nameless, head_at) at h))
      | inr some_name ↦ elim (Bool-cases (elem (word_at (skip_space after)) verbs)) [
        | inr other ↦ absurd (cc (rw (some_name, other, head_at) at h))
        | inl verb ↦
            let same : some (name, length s - length (skip_space after)) ≡ some (table, n) =
              rw (some_name, verb, head_at) at h in
            let same_name : name ≡ table = cc same in
            let same_length : length s - length (skip_space after) ≡ n = cc same in
            let found =
              subst (λ z. IsHeadEnd z name (length z - length (skip_space after))) (sym parts)
                (head_end_lem front name gap (skip_space after) skipped some_name verb) in
            subst (λ z. IsHeadEnd s z n) same_name
              (subst (λ k. IsHeadEnd s name k) same_length found)
      ]
    ]

-- What the search finds is a head.
pub insert_head_at-IsHead :
    (before : ℕ) (s table : Bytes) (n : ℕ)
    → insert_head_at before s ≡ some (table, n)
    → IsHead before s table n
unfolding insert_head_at
insert_head_at-IsHead before s table n h =
    let kw = word_at s in
    let behind = skip_space (drop (length kw) s) in
    let rest : HasRest s behind =
      skip_space-HasRest s (drop (length kw) s) (drop-HasRest (length kw) s s ([], refl)) in
    let into : HasRest s (skip_space (drop 4 behind)) =
      skip_space-HasRest s (drop 4 behind) (drop-HasRest 4 s behind rest) in
    let commands = codes "INSERT" ∷ codes "REPLACE" ∷ [] in
    elim (Bool-cases (is_word_rune before)) [
      | inl inside ↦ absurd (cc (rw (inside, insert_head_at) at h))
      | inr unprefixed ↦ elim (Bool-cases (elem kw commands)) [
        | inr other ↦ absurd (cc (rw (unprefixed, other, insert_head_at) at h))
        | inl command ↦ record {
          unprefixed = unprefixed;
          command = command;
          head_end = elim (Bool-cases (word_at behind == codes "INTO")) [
            | inl is_into ↦
                head_at-IsHeadEnd s (skip_space (drop 4 behind)) table n into
                  (rw (unprefixed, command, is_into, insert_head_at) at h)
            | inr plain ↦ elim (Bool-cases (kw == codes "REPLACE")) [
              | inl replaces ↦
                  absurd (cc (rw (unprefixed, command, plain, replaces, insert_head_at) at h))
              | inr inserts ↦
                  head_at-IsHeadEnd s behind table n rest
                    (rw (unprefixed, command, plain, inserts, insert_head_at) at h)
            ]
          ];
        }
      ]
    ]
