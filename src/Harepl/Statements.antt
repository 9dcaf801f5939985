-- ===== src/Harepl/Statements.antt =====
-- internal/runner/hareplsuite/statement.go: a case cut into its statements, and what a statement is.
-- The text of a case is ASCII, so that a rune is a byte.
use cubrid_testkit.Prelude.{
  ℕ, zero, suc, ◌+◌, ◌-◌, Bool, true, false, not, ◌&&◌, ◌||◌, List, [], ◌∷◌, ◌++◌, ltb, leb,
  if◌then◌else◌, ◌==◌, nat_eq, Bytes, bytes_eq, length, take, drop, elem,
}
use mathlib.Core.List.{reverse}
use cubrid_testkit.Prelude.Strings.{
  codes, has_prefix, has_suffix, index, to_lower, trim_left, is_digit,
}
use cubrid_testkit.Prelude.Dict.{is_some}
use cubrid_testkit.Prelude.Trim.{trim_space}

-- `isWordRune`
abbrev pub is_word_rune : ℕ → Bool
is_word_rune r = r == b'_' || is_digit r || leb b'a' r && leb r b'z' || leb b'A' r && leb r b'Z'

-- strings.ToUpper on ASCII text
unfoldable pub to_upper : Bytes → Bytes
to_upper [] = []
to_upper (c ∷ s) = (if leb b'a' c && leb c b'z' then c - 32 else c) ∷ to_upper s

-- The runes of a word that a text begins with.
unfoldable pub word : Bytes → Bytes
word [] = []
word (c ∷ s) = let rest = word s in if is_word_rune c then c ∷ rest else []

-- `wordAt`: the length it also returns is that of the word.
unfoldable pub word_at : Bytes → Bytes
unfolding to_upper word
word_at s = to_upper (word s)

-- `skipSpace`
unfoldable pub skip_space : Bytes → Bytes
unfolding trim_left
skip_space = trim_left (λ c. c == b' ' || c == 0x09 || c == 0x0a || c == 0x0d)

abbrev pub semicolon : ℕ
semicolon = b';'

abbrev pub begins_with : ℕ → Bytes → Bool
begins_with c [] = false
begins_with c (x ∷ s) = x == c

abbrev pub construct_ends : List Bytes
construct_ends = codes "IF" ∷ codes "LOOP" ∷ codes "CASE" ∷ codes "WHILE" ∷ codes "FOR" ∷ []

-- What the runes behind an END say: that it ends a block.
unfoldable pub ends_block : Bytes → Bool
unfolding word_at skip_space
ends_block behind =
    let at = skip_space behind in
    let next = word_at at in
    if elem next construct_ends
    then false
    else if begins_with semicolon at
    then true
    else ltb 0 (length next) && begins_with semicolon (skip_space (drop (length next) at))

pub data Delta : Type 0 where
  still : Delta
  opens : ℕ → Delta
  closes : ℕ → Delta

-- `blockDelta`, from the rune before the position and the runes from it on.
unfoldable pub block_delta : ℕ → Bytes → Delta
unfolding ends_block word_at
block_delta before s =
    let kw = word_at s in
    if is_word_rune before
    then still
    else if kw == codes "BEGIN"
    then opens (length kw)
    else if kw == codes "END"
    then (if ends_block (drop (length kw) s) then closes (length kw) else still)
    else still

-- The variables of the loop; no quote is open where `quote` is 0.
pub record Cut : Type 0 where
  pub out : List Bytes
  pub cur : Bytes
  pub quote : ℕ
  pub in_line : Bool
  pub in_block : Bool
  pub prev : ℕ
  pub depth : ℕ

-- The closure `flush`.
unfoldable pub flush : Cut → Cut
flush st =
    let s = trim_space st.cur in
    record st { out = (if ltb 0 (length s) then st.out ++ s ∷ [] else st.out); cur = [] }

-- strings.TrimSuffix, for a suffix of one byte
unfoldable pub trim_suffix : ℕ → Bytes → Bytes
unfolding has_suffix
trim_suffix c s = if has_suffix s (c ∷ []) then take (length s - 1) s else s

abbrev wrote : ℕ → Cut → Cut
wrote r st = record st { cur = st.cur ++ r ∷ []; prev = r }

abbrev at_keyword : Cut → ℕ → Bytes → Cut
at_keyword st n s = record st { cur = st.cur ++ take n s }

-- A rune of the plain text: the state, and how many runes are passed over with it.
unfoldable pub plain_rune : Delta → ℕ → Bytes → Cut → Cut × ℕ
plain_rune still r s st = (wrote r st, 0)
plain_rune (opens n) r s st =
    (record (at_keyword st n (r ∷ s)) { depth = st.depth + 1; prev = r }, n - 1)
plain_rune (closes n) r s st =
    (record (at_keyword st n (r ∷ s)) { depth = st.depth - 1; prev = r }, n - 1)

-- The `switch` on the rune `r`, the runes `s` behind it.
unfoldable pub cut_rune : ℕ → Bytes → Cut → Cut × ℕ
unfolding flush trim_suffix plain_rune block_delta
cut_rune r s st =
    if st.in_line
    then (if r == 0x0a then record (wrote r st) { in_line = false } else record st { prev = r }, 0)
    else if st.in_block
    then (record st { in_block = not (st.prev == b'*' && r == b'/'); prev = r }, 0)
    else if not (st.quote == 0)
    then (record (wrote r st) { quote = if r == st.quote then 0 else st.quote }, 0)
    else if r == 39 || r == 34
    then (record (wrote r st) { quote = r }, 0)
    else if r == b'-' && st.prev == b'-'
    then (record st { cur = trim_suffix b'-' st.cur; in_line = true; prev = r }, 0)
    else if r == b'*' && st.prev == b'/'
    then (record st { cur = trim_suffix b'/' st.cur; in_block = true; prev = r }, 0)
    else if r == semicolon
    then (if ltb 0 st.depth then wrote r st else record (flush st) { prev = r }, 0)
    else plain_rune (block_delta st.prev (r ∷ s)) r s st

-- The loop; `passed` runes of a keyword are still to pass over.
unfoldable pub cut_from : Cut → ℕ → Bytes → Cut
unfolding cut_rune
cut_from st passed [] = st
cut_from st (suc n) (r ∷ s) = cut_from (record st { prev = r }) n s
cut_from st zero (r ∷ s) = let (st', n) = cut_rune r s st in cut_from st' n s

abbrev pub no_statement : Cut
no_statement = record {
  out = [];
  cur = [];
  quote = 0;
  in_line = false;
  in_block = false;
  prev = 0;
  depth = 0;
}

-- `Statements`
unfoldable pub case_statements : Bytes → List Bytes
unfolding cut_from flush
case_statements src = (flush (cut_from no_statement 0 src)).out

-- strings.Contains
abbrev pub contains : Bytes → Bytes → Bool
contains s part = is_some (index s part)

last_has_no_open_block : List Bytes → Bool
unfolding to_upper index
last_has_no_open_block [] = true
last_has_no_open_block (last ∷ _) =
    let s = to_upper last in not (contains s (codes "BEGIN")) || contains s (codes "END")

-- `Splittable`
unfoldable pub splittable : Bytes → Bool
unfolding case_statements last_has_no_open_block
splittable src = last_has_no_open_block (reverse (case_statements src))

-- The prefixes of a read, and of csql's own vocabulary.
abbrev read_prefixes : List Bytes
read_prefixes =
    codes "select "
    ∷ (codes "select" ++ 0x0a ∷ [])
    ∷ (codes "select" ++ 0x09 ∷ [])
    ∷ codes "show "
    ∷ codes "values "
    ∷ []

abbrev any_prefix : Bytes → List Bytes → Bool
any_prefix s [] = false
any_prefix s (p ∷ ps) = has_prefix s p || any_prefix s ps

-- `IsRead`
unfoldable pub is_read : Bytes → Bool
unfolding to_lower index has_prefix
is_read stmt =
    let s = to_lower (trim_space stmt) in
    if contains s (codes "next_value") || contains s (codes "nextval")
    then false
    else any_prefix s read_prefixes || s == codes "select" || has_prefix s (codes "select(")

-- `isDirective`
unfoldable pub is_directive : Bytes → Bool
unfolding to_lower has_prefix
is_directive stmt =
    any_prefix (to_lower (trim_space stmt))
      (codes "--+" ∷ codes "autocommit " ∷ codes "commit" ∷ codes "rollback" ∷ [])

-- `IsWrite`
unfoldable pub is_write : Bytes → Bool
unfolding is_read is_directive
is_write stmt = not (is_read stmt) && not (is_directive stmt)
