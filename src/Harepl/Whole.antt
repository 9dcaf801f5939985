-- ===== src/Harepl/Whole.antt =====
-- What the reader of a case looks at behind a statement, and the statements it reads as one.
use cubrid_testkit.Prelude.{
  ℕ, zero, suc, ◌≤◌, ◌≡◌, refl, sym, ap, ◌∙◌, Bool, true, false, ◌&&◌, [], ◌∷◌, ◌++◌, arith, ltb,
  if◌then◌else◌, ◌==◌, nat_eq, Bytes, bytes_eq, length, take, drop, elem,
}
use cubrid_testkit.Prelude.Strings.{codes, trim_left}
use cubrid_testkit.Harepl.Statements.{
  is_word_rune, to_upper, word, word_at, skip_space, semicolon, begins_with, construct_ends,
  ends_block, Delta, still, opens, closes, block_delta,
}

word-append : (s rest : Bytes) → word (s ++ semicolon ∷ rest) ≡ word s
unfolding word
word-append [] rest = refl
word-append (c ∷ s) rest = ap (λ z. if is_word_rune c then c ∷ z else []) (word-append s rest)

word_at-append : (s rest : Bytes) → word_at (s ++ semicolon ∷ rest) ≡ word_at s
unfolding word_at
word_at-append s rest = ap to_upper (word-append s rest)

skip_space-append :
    (s rest : Bytes) → skip_space (s ++ semicolon ∷ rest) ≡ skip_space s ++ semicolon ∷ rest
unfolding skip_space trim_left
skip_space-append [] rest = refl
skip_space-append (c ∷ s) rest = ground (arith, skip_space-append s rest)

length-word : (s : Bytes) → length (word s) ≤ length s
unfolding word
length-word [] = omega arith
length-word (c ∷ s) = ground (arith, length-word s)

length-to_upper : (s : Bytes) → length (to_upper s) ≡ length s
unfolding to_upper
length-to_upper [] = refl
length-to_upper (c ∷ s) = ap suc (length-to_upper s)

length-word_at : (s : Bytes) → length (word_at s) ≤ length s
unfolding word_at
length-word_at s = omega (arith, length-word s, length-to_upper (word s))

pub drop_inside : (n : ℕ) (s rest : Bytes) → n ≤ length s → drop n (s ++ rest) ≡ drop n s ++ rest
drop_inside zero s rest h = refl
drop_inside (suc n) [] rest h = elim h [ ]
drop_inside (suc n) (c ∷ s) rest h = drop_inside n s rest (omega arith)

pub take_inside : (n : ℕ) (s rest : Bytes) → n ≤ length s → take n (s ++ rest) ≡ take n s
take_inside zero s rest h = refl
take_inside (suc n) [] rest h = elim h [ ]
take_inside (suc n) (c ∷ s) rest h = ap (◌∷◌ c) (take_inside n s rest (omega arith))

abbrev begins : Bytes → Bool
begins = begins_with semicolon

begins-append : (s a b : Bytes) → begins (s ++ semicolon ∷ a) ≡ begins (s ++ semicolon ∷ b)
begins-append [] a b = refl
begins-append (c ∷ s) a b = refl

-- The tests that END is judged by: on the next word, on what it begins with, and on what follows.
abbrev by_words : Bytes → Bool → Bool → Bool
by_words next at_end behind =
    if elem next construct_ends
    then false
    else if at_end
    then true
    else ltb 0 (length next) && behind

ends_block_lem :
    (s a : Bytes)
    → ends_block (s ++ semicolon ∷ a)
      ≡ by_words (word_at (skip_space s)) (begins (skip_space s ++ semicolon ∷ [])) (
          begins
            (skip_space (drop (length (word_at (skip_space s))) (skip_space s)) ++ semicolon ∷ []))
unfolding ends_block
ends_block_lem s a =
    let at = skip_space s in
    let next = word_at at in
    let rest = semicolon ∷ a in
    let behind = skip_space (drop (length next) at) in
    let at_end = begins (at ++ semicolon ∷ []) in
    ap (λ z. by_words (word_at z) (begins z) (begins (skip_space (drop (length (word_at z)) z))))
      (skip_space-append s a)
    ∙ ap
        (λ z. by_words z (begins (at ++ rest)) (begins (skip_space (drop (length z) (at ++ rest)))))
        (word_at-append at a)
    ∙ ap (λ z. by_words next (begins (at ++ rest)) (begins z))
        (ap skip_space (drop_inside (length next) at rest (length-word_at at))
          ∙ skip_space-append (drop (length next) at) a)
    ∙ ap (λ z. by_words next z (begins (behind ++ rest))) (begins-append at a [])
    ∙ ap (by_words next at_end) (begins-append behind a [])

-- Whether a block ends is decided by what stands before the next semicolon.
ends_block_local :
    (s a b : Bytes) → ends_block (s ++ semicolon ∷ a) ≡ ends_block (s ++ semicolon ∷ b)
ends_block_local s a b = ends_block_lem s a ∙ sym (ends_block_lem s b)

abbrev pub by_keyword : ℕ → Bytes → Bool → Delta
by_keyword p kw ends =
    if is_word_rune p
    then still
    else if kw == codes "BEGIN"
    then opens (length kw)
    else if kw == codes "END"
    then (if ends then closes (length kw) else still)
    else still

pub block_delta_local :
    (p : ℕ) (s a b : Bytes)
    → block_delta p (s ++ semicolon ∷ a) ≡ block_delta p (s ++ semicolon ∷ b)
unfolding block_delta
block_delta_local p s a b =
    let kw = word_at s in
    let from : (c : Bytes)
        → block_delta p (s ++ semicolon ∷ c)
          ≡ by_keyword p kw (ends_block (drop (length kw) s ++ semicolon ∷ c)) =
      λ c.
        ap (λ z. by_keyword p z (ends_block (drop (length z) (s ++ semicolon ∷ c))))
          (word_at-append s c)
        ∙ ap (λ z. by_keyword p kw (ends_block z))
            (drop_inside (length kw) s (semicolon ∷ c) (length-word_at s)) in
    from a ∙ ap (by_keyword p kw) (ends_block_local (drop (length kw) s) a b) ∙ sym (from b)
