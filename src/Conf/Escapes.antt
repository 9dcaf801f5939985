-- ===== src/Conf/Escapes.antt =====
-- What is escaped as java.util.Properties writes it is read back.
use cubrid_testkit.Prelude.{
  ℕ, ◌+◌, ◌-◌, ◌*◌, ◌/◌, ◌%◌, ◌<◌, ◌≤◌, ◌≡◌, ◌≢◌, refl, sym, ap, ◌∙◌, Bool, false, ◌&&◌, ◌||◌, List,
  [], ◌∷◌, ◌++◌, Option, none, some, nat_beq, nat_eq, leb, ltb, if◌then◌else◌, Bytes, elem, arith,
  Bool-cases, Option-cases, inl, inr, ◌⊎◌,
}
use cubrid_testkit.Conf.Text.{
  hex_digit, four_digits, hex_number, write_rune, unicode, escaped, written, after_backslash,
  unescape_from, unescape,
}

-- The letter that a character is escaped with, where it is one of those that are.
unfoldable letter : ℕ → Option ℕ
letter c =
    if nat_beq c 0x5c
    then some 0x5c
    else if nat_beq c 0x0a
    then some b'n'
    else if nat_beq c 0x0d
    then some b'r'
    else if nat_beq c 0x09
    then some b't'
    else if nat_beq c 0x0c
    then some b'f'
    else if nat_beq c b'=' || nat_beq c b':' || nat_beq c b' ' || nat_beq c b'#' || nat_beq c b'!'
    then some c
    else none

-- A digit of sixteen, in capitals.
unfoldable hex : ℕ → ℕ
hex d = if ltb d 10 then b'0' + d else b'A' + (d - 10)

-- The four hexadecimal digits of a UTF-16 unit.
unfoldable digits : ℕ → Bytes
unfolding hex
digits c = hex (c / 4096) ∷ hex (c / 256 % 16) ∷ hex (c / 16 % 16) ∷ hex (c % 16) ∷ []

abbrev is_printable : ℕ → Bool
is_printable c = leb 0x20 c && leb c 0x7e

-- A UTF-16 unit as Properties.store writes it: what is neither escaped with a letter nor printable
-- ASCII is its digits.
abbrev written_as : ℕ → Option ℕ → Bytes
written_as c (some l) = 0x5c ∷ l ∷ []
written_as c none = if is_printable c then c ∷ [] else 0x5c ∷ b'u' ∷ digits c

-- The text as Properties.store writes it, from its UTF-16 units: the reference that `unescape` undoes.
unfoldable pub escape : List ℕ → Bytes
unfolding letter digits
escape [] = []
escape (c ∷ s) = written_as c (letter c) ++ escape s

-- The bytes of a UTF-16 unit that is no half of a surrogate pair, in UTF-8.
abbrev pub utf8_unit : ℕ → Bytes
utf8_unit c =
    if ltb c 0x80
    then c ∷ []
    else if ltb c 0x800
    then (0xc0 + c / 64) ∷ (0x80 + c % 64) ∷ []
    else (0xe0 + c / 4096) ∷ (0x80 + c / 64 % 64) ∷ (0x80 + c % 64) ∷ []

abbrev pub utf8 : List ℕ → Bytes
utf8 [] = []
utf8 (c ∷ s) = utf8_unit c ++ utf8 s

-- Every unit of a text is a character of its own.
abbrev pub AreCharacters : List ℕ → Type 0
AreCharacters [] = Unit
AreCharacters (c ∷ s) = ((c < 0xd800) ⊎ ((0xe000 ≤ c) × (c < 0x10000))) × AreCharacters s

letter-escaped : (c l : ℕ) → letter c ≡ some l → (escaped l ≡ c) × (l ≢ b'u')
unfolding escaped letter
letter-escaped c l h = ground arith

letter-none : (c : ℕ) → letter c ≡ none → c ≢ 0x5c
unfolding letter
letter-none c h = ground arith

unescape_plain :
    (c : ℕ) (t r : Bytes)
    → c ≢ 0x5c
    → unescape_from 0 t ≡ some r
    → unescape_from 0 (c ∷ t) ≡ some (c ∷ r)
unfolding unescape_from
unescape_plain c t r h e =
    let plain : nat_beq c 0x5c ≡ false = ground arith in
    rw (plain, unescape_from) (ap (written (c ∷ [])) e)

unescape_pair :
    (c l : ℕ) (t r : Bytes)
    → escaped l ≡ c
    → l ≢ b'u'
    → unescape_from 0 t ≡ some r
    → unescape_from 0 (0x5c ∷ l ∷ t) ≡ some (c ∷ r)
unfolding unescape_from after_backslash
unescape_pair c l t r same h e =
    let plain : nat_beq l b'u' ≡ false = ground arith in
    rw (plain, unescape_from) (ap (written (escaped l ∷ [])) e ∙ ap (λ z. some (z ∷ r)) same)

hex_digit-hex : (d : ℕ) → d < 16 → hex_digit (hex d) ≡ some d
unfolding hex_digit hex
hex_digit-hex d h = ground arith

hex_number-hex :
    (w x y z : ℕ)
    → w < 16
    → x < 16
    → y < 16
    → z < 16
    → hex_number (hex w) (hex x) (hex y) (hex z) ≡ four_digits (some w) (some x) (some y) (some z)
unfolding hex_number
hex_number-hex w x y z hw hx hy hz =
    rw (hex_digit-hex w hw, hex_digit-hex x hx, hex_digit-hex y hy, hex_digit-hex z hz) refl

unicode-hex : (c : ℕ) (t : Bytes) → c < 0x10000 → unicode (digits c ++ t) ≡ some (write_rune c, 5)
unfolding unicode four_digits digits
unicode-hex c t h =
    let number : c / 4096 * 4096 + c / 256 % 16 * 256 + c / 16 % 16 * 16 + c % 16 ≡ c =
      omega arith in
    ap (λ o. elim o as (λ z. Option (Bytes × ℕ)) [ none ↦ none | some n ↦ some (write_rune n, 5) ])
      (hex_number-hex (c / 4096) (c / 256 % 16) (c / 16 % 16) (c % 16) (omega arith) (omega arith)
        (omega arith) (omega arith))
    ∙ ap (λ n. some (write_rune n, 5)) number

utf8_unit-ascii : (c : ℕ) → c < 0x80 → utf8_unit c ≡ c ∷ []
utf8_unit-ascii c h = ground arith

write_rune-utf8_unit :
    (c : ℕ) → (c < 0xd800) ⊎ ((0xe000 ≤ c) × (c < 0x10000)) → write_rune c ≡ utf8_unit c
write_rune-utf8_unit c h = ground arith

letter-lt : (c l : ℕ) → letter c ≡ some l → c < 0x80
unfolding letter
letter-lt c l h = ground arith

unescape_digits :
    (c : ℕ) (t r : Bytes)
    → c < 0x10000
    → unescape_from 0 t ≡ some r
    → unescape_from 0 (0x5c ∷ b'u' ∷ (digits c ++ t)) ≡ some (write_rune c ++ r)
unfolding unescape_from after_backslash digits
unescape_digits c t r h e = rw (unicode-hex c t h, unescape_from) (ap (written (write_rune c)) e)

unescape_from-written_as :
    (c : ℕ) (t r : Bytes)
    → (c < 0xd800) ⊎ ((0xe000 ≤ c) × (c < 0x10000))
    → unescape_from 0 t ≡ some r
    → unescape_from 0 (written_as c (letter c) ++ t) ≡ some (utf8_unit c ++ r)
unescape_from-written_as c t r h e = elim (Option-cases (letter c)) [
  | inr (l, is_some) ↦
      let (same, no_u) = letter-escaped c l is_some in
      let plain = utf8_unit-ascii c (letter-lt c l is_some) in
      rw (is_some, plain) (unescape_pair c l t r same no_u e)
  | inl is_none ↦ elim (Bool-cases (leb 0x20 c && leb c 0x7e)) [
    | inl printable ↦
        let plain = utf8_unit-ascii c (ground arith) in
        rw (is_none, printable, plain) (unescape_plain c t r (letter-none c is_none) e)
    | inr other ↦
        rw (is_none, other)
          (unescape_digits c t r (ground arith) e
            ∙ ap (λ z. some (z ++ r)) (write_rune-utf8_unit c h))
  ]
]

unescape_from-escape : (s : List ℕ) → AreCharacters s → unescape_from 0 (escape s) ≡ some (utf8 s)
unfolding unescape_from escape
unescape_from-escape [] a = refl
unescape_from-escape (c ∷ s) a =
    unescape_from-written_as c (escape s) (utf8 s) a.0 (unescape_from-escape s a.1)

-- A text without a backslash is left alone, by the shortcut and by the loop alike.
unescape_from-plain : (s : Bytes) → elem 0x5c s ≡ false → unescape_from 0 s ≡ some s
unfolding unescape_from elem
unescape_from-plain [] h = refl
unescape_from-plain (c ∷ s) h =
    unescape_plain c s s (ground arith) (unescape_from-plain s (ground arith))

-- `unescape` reads back every text that is escaped as Properties.store does, as its UTF-8, whatever is
-- a letter's escape, a unicode escape or itself. No character is a surrogate pair.
pub unescape-escape : (s : List ℕ) → AreCharacters s → unescape (escape s) ≡ some (utf8 s)
unfolding unescape
unescape-escape s a = elim (Bool-cases (elem 0x5c (escape s))) [
  | inl some_there ↦ rw some_there (unescape_from-escape s a)
  | inr none_there ↦
      rw none_there (sym (unescape_from-plain (escape s) none_there) ∙ unescape_from-escape s a)
]
