-- ===== src/Harepl/Cutting.antt =====
-- A script that is made of statements is cut into them again.
use cubrid_testkit.Prelude.{
  ℕ, zero, suc, ◌+◌, ◌-◌, ◌≤◌, ◌≡◌, refl, sym, ap, Bool, true, false, not, ◌&&◌, ◌||◌, List, [],
  ◌∷◌, ◌++◌, arith, ltb, if◌then◌else◌, ◌==◌, nat_eq, Bytes, length, take, drop, bytes_beq,
  Bool-cases, inl, inr,
}
use mathlib.Core.Bool.{false≢true}
use cubrid_testkit.Harepl.Statements.{
  word_at, ends_block, semicolon, Delta, still, opens, closes, block_delta, Cut, plain_rune,
  cut_rune,
}
use cubrid_testkit.Harepl.Whole.{by_keyword}

-- The open quote, the number of open blocks, and the runes of a keyword to pass over.
abbrev pub Places : Type 0
Places = ℕ × ℕ × ℕ

abbrev pub places_after : Delta → ℕ → Places
places_after still d = (0, d, 0)
places_after (opens n) d = (0, d + 1, n - 1)
places_after (closes n) d = (0, d - 1, n - 1)

abbrev pub is_quote : ℕ → Bool
is_quote c = c == 39 || c == 34

-- A comment begins at the rune `c`, the rune `p` before it.
abbrev pub begins_comment : ℕ → ℕ → Bool
begins_comment p c = if c == b'-' && p == b'-' then true else c == b'*' && p == b'/'

-- No comment begins at a rune, and no statement ends there.
abbrev pub goes_on : ℕ → ℕ → ℕ → ℕ → Bool
goes_on q d p c =
    if not (q == 0)
    then true
    else if is_quote c
    then true
    else if begins_comment p c
    then false
    else if c == semicolon
    then ltb 0 d
    else true

abbrev pub next_places : ℕ → ℕ → ℕ → Delta → Places
next_places q d c delta =
    if not (q == 0)
    then (if c == q then 0 else q, d, 0)
    else if is_quote c
    then (c, d, 0)
    else if c == semicolon
    then (0, d, 0)
    else places_after delta d

-- A statement, with a semicolon behind it: its quotes and its blocks are closed where it ends, no
-- comment is in it, and a semicolon only in a quote or a block. The arguments are the open quote or 0,
-- the number of open blocks, the rune before, and the runes of a keyword that are still to come.
unfoldable pub is_whole : ℕ → ℕ → ℕ → ℕ → Bytes → Bool
unfolding block_delta
is_whole q d p passed [] = q == 0 && d == 0 && passed == 0
is_whole q d p (suc n) (c ∷ s) = is_whole q d c n s
is_whole q d p zero (c ∷ s) =
    let (q', d', n) = next_places q d c (block_delta p (c ∷ (s ++ semicolon ∷ []))) in
    goes_on q d p c && is_whole q' d' c n s

pub passed_fits :
    (q d p passed : ℕ) (s : Bytes) → is_whole q d p passed s ≡ true → passed ≤ length s
unfolding is_whole
passed_fits q d p zero [] h = omega arith
passed_fits q d p (suc n) [] h = ground (arith, h)
passed_fits q d p zero (c ∷ s) h = omega arith
passed_fits q d p (suc n) (c ∷ s) h = omega (arith, passed_fits q d c n s h)

-- The reader in the middle of a statement.
abbrev pub mid : List Bytes → Bytes → ℕ → ℕ → ℕ → Cut
mid out cur q d p = record {
  out = out;
  cur = cur;
  quote = q;
  in_line = false;
  in_block = false;
  prev = p;
  depth = d;
}

abbrev is_proper : Delta → Bool
is_proper still = true
is_proper (opens n) = ltb 0 n
is_proper (closes n) = ltb 0 n

by_keyword_proper : (p : ℕ) (kw : Bytes) (ends : Bool) → is_proper (by_keyword p kw ends) ≡ true
unfolding bytes_beq
by_keyword_proper p [] ends = ground arith
by_keyword_proper p (c ∷ kw) ends = ground arith

block_delta_proper : (p : ℕ) (s : Bytes) → is_proper (block_delta p s) ≡ true
unfolding block_delta
block_delta_proper p s = by_keyword_proper p (word_at s) (ends_block (drop (length (word_at s)) s))

less_one : (n : ℕ) → suc n - 1 ≡ n
less_one n = omega arith

plain_rune-mid :
    (delta : Delta) (out : List Bytes) (w : Bytes) (d p c : ℕ) (s : Bytes)
    → is_proper delta ≡ true
    → let (q', d', n) = places_after delta d in
      plain_rune delta c s (mid out w 0 d p) ≡ (mid out (w ++ c ∷ take n s) q' d' c, n)
unfolding plain_rune
plain_rune-mid still out w d p c s h = refl
plain_rune-mid (opens zero) out w d p c s h = ground (arith, h)
plain_rune-mid (opens (suc n)) out w d p c s h =
    ap (λ k. (mid out (w ++ c ∷ take k s) 0 (d + 1) c, suc n - 1)) (sym (less_one n))
plain_rune-mid (closes zero) out w d p c s h = ground (arith, h)
plain_rune-mid (closes (suc n)) out w d p c s h =
    ap (λ k. (mid out (w ++ c ∷ take k s) 0 (d - 1) c, suc n - 1)) (sym (less_one n))

pub cut_rune-mid :
    (out : List Bytes) (w : Bytes) (q d p c : ℕ) (s : Bytes)
    → goes_on q d p c ≡ true
    → let (q', d', n) = next_places q d c (block_delta p (c ∷ s)) in
      cut_rune c s (mid out w q d p) ≡ (mid out (w ++ c ∷ take n s) q' d' c, n)
unfolding cut_rune
cut_rune-mid out w (suc q) d p c s h =
    let quoted : suc q == 0 ≡ false = ground arith in rw quoted refl
cut_rune-mid out w zero d p c s h = elim (Bool-cases (is_quote c)) [
  | inl quote ↦ rw quote refl
  | inr other ↦ elim (Bool-cases (c == b'-' && p == b'-')) [
    | inl comment ↦ absurd (false≢true (rw (other, comment) at h))
    | inr no_line ↦ elim (Bool-cases (c == b'*' && p == b'/')) [
      | inl comment ↦ absurd (false≢true (rw (other, no_line, comment) at h))
      | inr no_block ↦ elim (Bool-cases (c == semicolon)) [
        | inl end ↦
            let inside : ltb 0 d ≡ true = rw (other, no_line, no_block, end) at h in
            rw (other, no_line, no_block, end, inside) refl
        | inr plain ↦
            rw (other, no_line, no_block, plain)
              (plain_rune-mid (block_delta p (c ∷ s)) out w d p c s (block_delta_proper p (c ∷ s)))
      ]
    ]
  ]
]
