-- ===== src/Prelude/Strings.antt =====
-- The functions of Go's `strings` that the program uses, over bytes.
use Prim.Native.Nat.{ℕ, zero, suc, ◌+◌, ◌-◌, ◌*◌, ◌/◌, ◌%◌, ◌^◌}
use Prim.Native.Char.{code}
use Prim.Native.String.{String}
use mathlib.Core.Bool.{Bool, true, false, ◌&&◌}
use mathlib.Core.List.{List, [], ◌∷◌, ◌++◌, reverse}
use mathlib.Core.Option.{Option, none, some}
use cubrid_testkit.Prelude.Tests.{ltb, leb, if◌then◌else◌}
use cubrid_testkit.Prelude.Equality.{Bytes, nat_beq}

-- The bytes of a literal, all of which are ASCII.
abbrev pub codes : String → Bytes
codes String.[] = []
codes (String.◌∷◌ c s) = code c ∷ codes s

-- strings.HasPrefix(s, prefix)
unfoldable pub has_prefix : Bytes → Bytes → Bool
has_prefix s [] = true
has_prefix [] (p ∷ ps) = false
has_prefix (c ∷ s) (p ∷ ps) = nat_beq c p && has_prefix s ps

-- strings.HasSuffix(s, suffix)
unfoldable pub has_suffix : Bytes → Bytes → Bool
unfolding has_prefix
has_suffix s suffix = has_prefix (reverse s) (reverse suffix)

abbrev shift : Option ℕ → Option ℕ
shift none = none
shift (some i) = some (suc i)

-- strings.Index(s, pattern), none for -1.
unfoldable pub index : Bytes → Bytes → Option ℕ
unfolding has_prefix
index [] pattern = if has_prefix [] pattern then some 0 else none
index (c ∷ s) pattern =
    let rest = index s pattern in if has_prefix (c ∷ s) pattern then some 0 else shift rest

-- strings.LastIndex(s, pattern), none for -1.
unfoldable pub last_index : Bytes → Bytes → Option ℕ
unfolding has_prefix
last_index [] pattern = if has_prefix [] pattern then some 0 else none
last_index (c ∷ s) pattern = elim (last_index s pattern) [
  | some i ↦ some (suc i)
  | none ↦ if has_prefix (c ∷ s) pattern then some 0 else none
]

-- strings.ToLower on an ASCII byte; a case's text is ASCII where it is compared.
unfoldable pub to_lower : Bytes → Bytes
to_lower [] = []
to_lower (c ∷ s) = (if leb b'A' c && leb c b'Z' then c + 32 else c) ∷ to_lower s

-- strings.TrimLeft(s, cutset), the cutset as a test.
unfoldable pub trim_left : (ℕ → Bool) → Bytes → Bytes
trim_left cut [] = []
trim_left cut (c ∷ s) = let rest = trim_left cut s in if cut c then rest else c ∷ s

-- strings.TrimRight(s, cutset)
unfoldable pub trim_right : (ℕ → Bool) → Bytes → Bytes
unfolding trim_left
trim_right cut s = reverse (trim_left cut (reverse s))

unfoldable pub onto_first : ℕ → List Bytes → List Bytes
onto_first c [] = (c ∷ []) ∷ []
onto_first c (s ∷ rest) = (c ∷ s) ∷ rest

-- strings.Split(s, separator), for a separator of one byte
unfoldable pub split_on : ℕ → Bytes → List Bytes
unfolding onto_first
split_on separator [] = [] ∷ []
split_on separator (c ∷ s) =
    if nat_beq c separator then [] ∷ split_on separator s else onto_first c (split_on separator s)

-- strings.Join(parts, separator)
unfoldable pub join : List Bytes → Bytes → Bytes
join [] separator = []
join (p ∷ []) separator = p
join (p ∷ q ∷ ps) separator = p ++ (separator ++ join (q ∷ ps) separator)

-- The digits of a number, the last first; fuel above the number is enough.
unfoldable pub digits_rev : ℕ → ℕ → Bytes
digits_rev zero n = []
digits_rev (suc f) n =
    let rest = digits_rev f (n / 10) in if ltb n 10 then (b'0' + n) ∷ [] else (b'0' + n % 10) ∷ rest

-- fmt's %d, and strconv.Itoa, of a number that is not negative.
unfoldable pub decimal : ℕ → Bytes
unfolding digits_rev
decimal n = reverse (digits_rev (suc n) n)

-- The order of Go strings.
unfoldable pub bytes_ltb : Bytes → Bytes → Bool
bytes_ltb s [] = false
bytes_ltb [] (y ∷ ys) = true
bytes_ltb (x ∷ xs) (y ∷ ys) = let rest = bytes_ltb xs ys in if nat_beq x y then rest else ltb x y

abbrev pub is_digit : ℕ → Bool
is_digit c = leb b'0' c && leb c b'9'

-- The leading decimal digits of a text, and what follows them.
unfoldable pub span_digits : Bytes → Bytes × Bytes
span_digits [] = ([], [])
span_digits (c ∷ s) =
    let (ds, rest) = span_digits s in if is_digit c then (c ∷ ds, rest) else ([], c ∷ s)

-- The number that decimal digits write.
unfoldable pub number_of : ℕ → Bytes → ℕ
number_of n [] = n
number_of n (c ∷ s) = number_of (n * 10 + (c - b'0')) s

abbrev pub max_int : ℕ
max_int = 2 ^ 63 - 1

-- strconv.Atoi of a text of digits: an error for none, and beyond the 64-bit int.
unfoldable pub atoi_digits : Bytes → Option ℕ
unfolding number_of
atoi_digits [] = none
atoi_digits (c ∷ s) = let n = number_of 0 (c ∷ s) in if ltb max_int n then none else some n
