-- ===== src/Conf/Consistency.antt =====
-- The keys of a configuration are those that have a value, each once, in the order of their first
-- appearance.
use cubrid_testkit.Prelude.{
  ℕ, suc, ◌%◌, ◌≡◌, refl, Bool, true, false, List, [], ◌∷◌, Option, none, some, nat_beq,
  if◌then◌else◌, Bytes, bytes_eq, bytes_beq_iff, count, count-append, arith, Option-cases, inl, inr,
  ltb, leb, length, ◌==◌,
}
use cubrid_testkit.Prelude.Dict.{Dict, lookup, read, lookup-insert}
use cubrid_testkit.Prelude.Sort.{sort}
use cubrid_testkit.Conf.Text.{unescape, split_entry, substitute, trailing_backslashes}
use cubrid_testkit.Prelude.Strings.{bytes_ltb}
use cubrid_testkit.Conf.Config.{Config, empty_config, set_value, set_all, override, get, keys_of}
use cubrid_testkit.Conf.Parse.{
  Parsed, parsed, failed, Step, goes_on, stops, take_entry, take_line, parse_from, parse, lines_of,
  max_token, joined, is_ignored, drop_cr,
}

abbrev pub presence : Option Bytes → ℕ
presence none = 0
presence (some v) = 1

-- Every key that has a value stands once in the order, and no other does.
abbrev pub IsConsistent : Config → Type 0
IsConsistent c = (key : Bytes) → count key c.key_order ≡ presence (lookup key c.values)

pub empty_config-IsConsistent : IsConsistent empty_config
unfolding count lookup
empty_config-IsConsistent key = refl

-- After a value is set it is read back, every other key reads as before, and the configuration is
-- still consistent.
pub set_value-get :
    (key value other : Bytes) (c : Config)
    → get (set_value key value c) other ≡ (if key == other then some value else get c other)
unfolding set_value get
set_value-get key value other c = lookup-insert key other value c.values

pub set_value-IsConsistent :
    (key value : Bytes) (c : Config) → IsConsistent c → IsConsistent (set_value key value c)
unfolding set_value count
set_value-IsConsistent key value c h other = elim (Option-cases (lookup key c.values)) [
  | inl absent ↦ ground (
    arith,
    absent,
    lookup-insert key other value c.values,
    count-append other c.key_order (key ∷ []),
    h other,
    h key,
    bytes_beq_iff key other,
  )
  | inr (v, present) ↦ ground (
    arith,
    present,
    lookup-insert key other value c.values,
    h other,
    h key,
    bytes_beq_iff key other,
  )
]

set_all-IsConsistent :
    (kv : Dict Bytes Bytes) (names : List Bytes) (c : Config)
    → IsConsistent c
    → IsConsistent (set_all kv names c)
unfolding set_all
set_all-IsConsistent kv [] c h = h
set_all-IsConsistent kv (key ∷ names) c h =
    set_all-IsConsistent kv names (set_value key (read [] key kv) c)
      (set_value-IsConsistent key (read [] key kv) c h)

-- `Override` keeps it.
pub override-IsConsistent :
    (kv : Dict Bytes Bytes) (c : Config) → IsConsistent c → IsConsistent (override kv c)
unfolding override
override-IsConsistent kv c h = set_all-IsConsistent kv (sort bytes_ltb (keys_of kv)) c h

-- What the configuration in a result has to be.
abbrev IsConsistentStep : Step → Type 0
IsConsistentStep (stops e) = Unit
IsConsistentStep (goes_on pending c) = IsConsistent c

abbrev pub IsConsistentParsed : Parsed → Type 0
IsConsistentParsed (failed e) = Unit
IsConsistentParsed (parsed c) = IsConsistent c

if_both {ℓ κ} :
    {A : Type ℓ} (P : A → Type κ) (b : Bool) (x y : A) → P x → P y → P (if b then x else y)
if_both P true x y p q = p
if_both P false x y p q = q

elim_both {ℓ κ} :
    {A : Type ℓ} (P : A → Type κ) (b : Bool) (x y : A)
    → P x
    → P y
    → P (elim b [ true ↦ x | false ↦ y ])
elim_both P true x y p q = p
elim_both P false x y p q = q

option_both {ℓ} :
    {A : Type ℓ} (P : Step → Type 0) (o : Option A) (x : Step) (f : A → Step)
    → P x
    → ((a : A) → P (f a))
    → P (elim o [ none ↦ x | some a ↦ f a ])
option_both P none x f p q = p
option_both P (some a) x f p q = q a

step_both :
    (s : Step) (f : Bytes → Config → Parsed)
    → IsConsistentStep s
    → ((pending : Bytes) (c : Config) → IsConsistent c → IsConsistentParsed (f pending c))
    → IsConsistentParsed (elim s [ stops e ↦ failed e | goes_on pending c ↦ f pending c ])
step_both (stops e) f h k = tt
step_both (goes_on pending c) f h k = k pending c h

module _ (home : Option Bytes) (ctp_home : Bytes) where
  take_entry-IsConsistent :
      (line_no : ℕ) (line : Bytes) (c : Config)
      → IsConsistent c
      → IsConsistentStep (take_entry home ctp_home line_no line c)
  unfolding take_entry
  take_entry-IsConsistent line_no line c h =
      option_both IsConsistentStep (unescape (split_entry line).1) _ _ tt
        (λ value. set_value-IsConsistent (split_entry line).0 (substitute home ctp_home value) c h)

  take_line-IsConsistent :
      (line_no : ℕ) (pending text : Bytes) (c : Config)
      → IsConsistent c
      → IsConsistentStep (take_line home ctp_home line_no pending text c)
  unfolding take_line
  take_line-IsConsistent line_no pending text c h =
      let line = joined pending text in
      if_both IsConsistentStep (is_ignored pending line) _ _ h (
        if_both IsConsistentStep (nat_beq (trailing_backslashes line % 2) 1) _ _ h
          (take_entry-IsConsistent line_no line c h))

  parse_from-IsConsistent :
      (line_no : ℕ) (pending : Bytes) (c : Config) (lines : List Bytes)
      → IsConsistent c
      → IsConsistentParsed (parse_from home ctp_home line_no pending c lines)
  unfolding parse_from
  parse_from-IsConsistent line_no pending c [] h =
      if_both IsConsistentParsed (ltb 0 (length pending)) _ _ tt h
  parse_from-IsConsistent line_no pending c (line ∷ rest) h =
      elim_both IsConsistentParsed (leb max_token (length line)) _ _ tt (
        step_both (take_line home ctp_home (suc line_no) pending (drop_cr line) c) _
          (take_line-IsConsistent (suc line_no) pending (drop_cr line) c h)
          (λ pending' c' h'. parse_from-IsConsistent (suc line_no) pending' c' rest h'))

  -- A file that is read gives a consistent configuration.
  pub parse-IsConsistent : (text : Bytes) → IsConsistentParsed (parse home ctp_home text)
  unfolding parse
  parse-IsConsistent text =
      parse_from-IsConsistent 0 [] empty_config (lines_of text) empty_config-IsConsistent
