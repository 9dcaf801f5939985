-- ===== src/Conf/Entries.antt =====
-- An entry whose key needs no escapes is split where it was joined.
use cubrid_testkit.Prelude.{
  ℕ, ◌≡◌, refl, sym, ap, ◌∙◌, Bool, false, ◌||◌, [], ◌∷◌, ◌++◌, Option, none, some, nat_beq, nat_eq,
  Bytes, elem, arith,
}
use mathlib.Core.List.{reverse, reverse-cons, reverse-reverse, append_assoc, append-nil}
use cubrid_testkit.Prelude.Strings.{trim_left, trim_right}
use cubrid_testkit.Conf.Text.{is_blank, is_gap, unescape, trim_key, split_from, split_entry}

abbrev is_special : ℕ → Bool
is_special c = nat_beq c b'=' || nat_beq c b':' || nat_beq c 0x5c || is_gap c

-- No byte of the text separates a key from its value, nor is a backslash.
abbrev pub IsPlainKey : Bytes → Type 0
IsPlainKey [] = Unit
IsPlainKey (c ∷ s) = (is_special c ≡ false) × IsPlainKey s

IsPlainKey-append : (s t : Bytes) → IsPlainKey s → IsPlainKey t → IsPlainKey (s ++ t)
IsPlainKey-append [] t p q = q
IsPlainKey-append (c ∷ s) t p q = (p.0, IsPlainKey-append s t p.1 q)

IsPlainKey-reverse : (s : Bytes) → IsPlainKey s → IsPlainKey (reverse s)
IsPlainKey-reverse [] p = tt
IsPlainKey-reverse (c ∷ s) p =
    rw (reverse-cons c s)
      (IsPlainKey-append (reverse s) (c ∷ []) (IsPlainKey-reverse s p.1) (p.0, tt))

trim_left-plain : (s : Bytes) → IsPlainKey s → trim_left is_gap s ≡ s
unfolding trim_left
trim_left-plain [] p = refl
trim_left-plain (c ∷ s) p = ground (arith, p.0)

elem-plain : (s : Bytes) → IsPlainKey s → elem 0x5c s ≡ false
unfolding elem
elem-plain [] p = refl
elem-plain (c ∷ s) p = ground (arith, p.0, elem-plain s p.1)

trim_right-plain : (s : Bytes) → IsPlainKey s → trim_right is_gap s ≡ s
unfolding trim_right
trim_right-plain s p =
    ap reverse (trim_left-plain (reverse s) (IsPlainKey-reverse s p)) ∙ reverse-reverse s

unescape-plain : (s : Bytes) → IsPlainKey s → unescape s ≡ some s
unfolding unescape
unescape-plain s p = rw (elem-plain s p) refl

abbrev or_empty : Option Bytes → Bytes
or_empty o = elim o [ none ↦ [] | some k ↦ k ]

trim_key-plain : (s : Bytes) → IsPlainKey s → trim_key s ≡ s
unfolding trim_key
trim_key-plain s p =
    ap (λ z. or_empty (unescape z)) (trim_right-plain s p) ∙ ap or_empty (unescape-plain s p)

split_from-step :
    (c : ℕ) (before s : Bytes)
    → is_special c ≡ false
    → split_from false before (c ∷ s) ≡ split_from false (before ++ c ∷ []) s
unfolding split_from
split_from-step c before s h = ground (arith, h)

split_from-plain :
    (key before value : Bytes)
    → IsPlainKey key
    → split_from false before (key ++ b'=' ∷ value)
      ≡ (trim_key (before ++ key), trim_left is_blank value)
unfolding split_from
split_from-plain [] before value p =
    ap (λ z. (trim_key z, trim_left is_blank value)) (sym (append-nil before))
split_from-plain (c ∷ key) before value p =
    split_from-step c before (key ++ b'=' ∷ value) p.0
    ∙ split_from-plain key (before ++ c ∷ []) value p.1
    ∙ ap (λ z. (trim_key z, trim_left is_blank value)) (append_assoc before (c ∷ []) key)

-- A key without separators and backslashes, an equals sign and a value are split into the key and
-- the value, less the blanks before it.
pub split_entry-join :
    (key value : Bytes)
    → IsPlainKey key
    → split_entry (key ++ b'=' ∷ value) ≡ (key, trim_left is_blank value)
unfolding split_entry
split_entry-join key value p =
    split_from-plain key [] value p ∙ ap (λ z. (z, trim_left is_blank value)) (trim_key-plain key p)
