-- ===== src/Result/Utf16.antt =====
-- utf16.Encode([]rune(s)), which jhash walks: the UTF-16 code units of a string's bytes. A byte that
-- begins no UTF-8 sequence reads as U+FFFD.
use cubrid_testkit.Prelude.{
  ℕ, zero, suc, ◌+◌, ◌-◌, ◌*◌, ◌/◌, ◌%◌, Bool, ◌&&◌, List, [], ◌∷◌, leb, ltb, ◌==◌, nat_eq,
  if◌then◌else◌, Bytes,
}

abbrev rune_error : ℕ
rune_error = 0xFFFD

within : ℕ → ℕ → ℕ → Bool
within low high b = leb low b && leb b high

-- A rune of two, three or four bytes, by its first byte, the range of its second and what follows:
-- the rune, and how many bytes it takes after the first.
two : ℕ → Bytes → ℕ × ℕ
unfolding within
two b (c ∷ _) = if within 0x80 0xBF c then (b % 32 * 64 + c % 64, 1) else (rune_error, 0)
two b [] = (rune_error, 0)

three : ℕ → ℕ → ℕ → Bytes → ℕ × ℕ
unfolding within
three low high b (c ∷ d ∷ _) =
    if within low high c && within 0x80 0xBF d
    then (b % 16 * 4096 + c % 64 * 64 + d % 64, 2)
    else (rune_error, 0)
three low high b _ = (rune_error, 0)

four : ℕ → ℕ → ℕ → Bytes → ℕ × ℕ
unfolding within
four low high b (c ∷ d ∷ e ∷ _) =
    if within low high c && within 0x80 0xBF d && within 0x80 0xBF e
    then (b % 8 * 262144 + c % 64 * 4096 + d % 64 * 64 + e % 64, 3)
    else (rune_error, 0)
four low high b _ = (rune_error, 0)

first_rune : ℕ → Bytes → ℕ × ℕ
unfolding two three four within
first_rune b rest =
    if ltb b 0x80
    then (b, 0)
    else if within 0xC2 0xDF b
    then two b rest
    else if within 0xE0 0xEF b
    then three (if b == 0xE0 then 0xA0 else 0x80) (if b == 0xED then 0x9F else 0xBF) b rest
    else if within 0xF0 0xF4 b
    then four (if b == 0xF0 then 0x90 else 0x80) (if b == 0xF4 then 0x8F else 0xBF) b rest
    else (rune_error, 0)

-- The runes of a text, of which the first `n` bytes belong to a rune before it.
runes : ℕ → Bytes → List ℕ
unfolding first_rune
runes n [] = []
runes (suc n) (b ∷ bs) = runes n bs
runes zero (b ∷ bs) = let (r, more) = first_rune b bs in r ∷ runes more bs

-- A decoded rune is no surrogate, and at most 0x10FFFF.
encode : List ℕ → List ℕ
encode [] = []
encode (r ∷ rs) =
    let rest = encode rs in
    if ltb r 0x10000
    then r ∷ rest
    else (0xD800 + (r - 0x10000) / 1024) ∷ (0xDC00 + (r - 0x10000) % 1024) ∷ rest

unfoldable pub utf16_units : Bytes → List ℕ
unfolding runes encode
utf16_units s = encode (runes 0 s)
