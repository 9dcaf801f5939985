-- ===== src/Conf/Text.antt =====
-- internal/conf/config.go: the text of an entry. A string is its bytes.
use cubrid_testkit.Prelude.{
  ℕ, zero, suc, ◌+◌, ◌-◌, ◌*◌, ◌/◌, ◌%◌, Bool, true, false, ◌&&◌, ◌||◌, [], ◌∷◌, ◌++◌, Option, none,
  some, leb, ltb, nat_beq, if◌then◌else◌, Bytes, nat_eq, elem, length,
}
use mathlib.Core.List.{reverse}
use cubrid_testkit.Prelude.Strings.{codes, has_prefix, trim_left, trim_right, is_digit}

-- The cut sets " \t" and " \t\f".
abbrev pub is_blank : ℕ → Bool
is_blank c = nat_beq c b' ' || nat_beq c 0x09

abbrev pub is_gap : ℕ → Bool
is_gap c = is_blank c || nat_beq c 0x0c

-- How many backslashes a text begins with.
unfoldable pub leading_backslashes : Bytes → ℕ
leading_backslashes [] = 0
leading_backslashes (c ∷ s) =
    let rest = leading_backslashes s in if nat_beq c 0x5c then suc rest else 0

-- `trailingBackslashes`
unfoldable pub trailing_backslashes : Bytes → ℕ
unfolding leading_backslashes
trailing_backslashes s = leading_backslashes (reverse s)

unfoldable pub hex_digit : ℕ → Option ℕ
hex_digit c =
    if is_digit c
    then some (c - b'0')
    else if leb b'a' c && leb c b'f'
    then some (c - b'a' + 10)
    else if leb b'A' c && leb c b'F'
    then some (c - b'A' + 10)
    else none

unfoldable pub four_digits : Option ℕ → Option ℕ → Option ℕ → Option ℕ → Option ℕ
four_digits (some w) (some x) (some y) (some z) = some (w * 4096 + x * 256 + y * 16 + z)
four_digits _ _ _ _ = none

-- strconv.ParseUint(s, 16, 32) of four bytes.
unfoldable pub hex_number : ℕ → ℕ → ℕ → ℕ → Option ℕ
unfolding four_digits hex_digit
hex_number a b c d = four_digits (hex_digit a) (hex_digit b) (hex_digit c) (hex_digit d)

-- strings.Builder.WriteRune of a rune below 2 ^ 16: a surrogate is written as U+FFFD.
abbrev pub write_rune : ℕ → Bytes
write_rune n =
    if ltb n 0x80
    then n ∷ []
    else if ltb n 0x800
    then (0xc0 + n / 64) ∷ (0x80 + n % 64) ∷ []
    else if leb 0xd800 n && ltb n 0xe000
    then 0xef ∷ 0xbf ∷ 0xbd ∷ []
    else (0xe0 + n / 4096) ∷ (0x80 + n / 64 % 64) ∷ (0x80 + n % 64) ∷ []

-- What `\c` stands for, where `c` is not `u`.
unfoldable pub escaped : ℕ → ℕ
escaped c =
    if nat_beq c b'n'
    then 0x0a
    else if nat_beq c b'r'
    then 0x0d
    else if nat_beq c b't'
    then 0x09
    else if nat_beq c b'f'
    then 0x0c
    else c

abbrev pub written : Bytes → Option Bytes → Option Bytes
written out none = none
written out (some rest) = some (out ++ rest)

unfoldable pub unicode : Bytes → Option (Bytes × ℕ)
unfolding hex_number
unicode (h ∷ i ∷ j ∷ k ∷ rest) = elim (hex_number h i j k) [
  | none ↦ none
  | some n ↦ some (write_rune n, 5)
]
unicode _ = none

-- What the text behind a backslash writes, and how many of its bytes that takes.
unfoldable pub after_backslash : Bytes → Option (Bytes × ℕ)
unfolding unicode escaped
after_backslash [] = some ([], 0)
after_backslash (d ∷ rest) = if nat_beq d b'u' then unicode rest else some (escaped d ∷ [], 1)

-- The loop of `unescape`, with the bytes that it is still to pass over; `none` is its error, for a
-- bad unicode escape or one that is cut off.
unfoldable pub unescape_from : ℕ → Bytes → Option Bytes
unfolding after_backslash
unescape_from skip [] = some []
unescape_from (suc skip) (c ∷ s) = unescape_from skip s
unescape_from zero (c ∷ s) = elim (nat_beq c 0x5c) [
  | false ↦ written (c ∷ []) (unescape_from 0 s)
  | true ↦ elim (after_backslash s) [
    | none ↦ none
    | some found ↦ written found.0 (unescape_from found.1 s)
  ]
]

-- `unescape`
unfoldable pub unescape : Bytes → Option Bytes
unfolding unescape_from
unescape s = if elem 0x5c s then unescape_from 0 s else some s

-- `trimKey`: an error of `unescape` is dropped, and leaves the empty key.
unfoldable pub trim_key : Bytes → Bytes
unfolding unescape trim_right
trim_key s = elim (unescape (trim_right is_gap s)) [ none ↦ [] | some k ↦ k ]

-- What `splitEntry` makes of a run of white space: `rest` begins with the run.
split_at_gap : Bytes → Bytes → Bytes × Bytes
unfolding trim_key trim_left
split_at_gap before rest = elim (trim_left is_gap rest) [
  | [] ↦ (trim_key before, [])
  | c ∷ s ↦
      if nat_beq c b'=' || nat_beq c b':'
      then (trim_key before, trim_left is_blank s)
      else (trim_key before, c ∷ s)
]

-- The loop of `splitEntry`: `before` is the text up to the index. The third result is always true.
unfoldable pub split_from : Bool → Bytes → Bytes → Bytes × Bytes
unfolding split_at_gap trim_key
split_from escaped before [] = (trim_key before, [])
split_from true before (c ∷ s) = split_from false (before ++ c ∷ []) s
split_from false before (c ∷ s) =
    let further = split_from (nat_beq c 0x5c) (before ++ c ∷ []) s in
    if nat_beq c b'=' || nat_beq c b':'
    then (trim_key before, trim_left is_blank s)
    else if is_gap c
    then split_at_gap before (c ∷ s)
    else further

-- `splitEntry`
unfoldable pub split_entry : Bytes → Bytes × Bytes
unfolding split_from
split_entry line = split_from false [] line

-- The loop of strings.ReplaceAll: `skip` bytes of a found pattern are still to be passed over.
replaced : Bytes → Bytes → ℕ → Bytes → Bytes
unfolding has_prefix
replaced pattern by skip [] = []
replaced pattern by (suc skip) (c ∷ s) = replaced pattern by skip s
replaced pattern by zero (c ∷ s) =
    if has_prefix (c ∷ s) pattern
    then by ++ replaced pattern by (length pattern - 1) s
    else c ∷ replaced pattern by 0 s

-- strings.ReplaceAll for a pattern that is not empty.
unfoldable pub replace_all : Bytes → Bytes → Bytes → Bytes
unfolding replaced
replace_all s pattern by = replaced pattern by 0 s

with_home : Option Bytes → Bytes → Bytes
unfolding replace_all
with_home none value = value
with_home (some home) value =
    if ltb 0 (length home) then replace_all value (codes "${HOME}") home else value

-- `substitute`, with what os.UserHomeDir answers.
unfoldable pub substitute : Option Bytes → Bytes → Bytes → Bytes
unfolding with_home replace_all
substitute home ctp_home value =
    let value' = with_home home value in
    if ltb 0 (length ctp_home) then replace_all value' (codes "${CTP_HOME}") ctp_home else value'
