-- ===== src/Conf/Config.antt =====
-- internal/conf/config.go: a loaded configuration and its reads.
use cubrid_testkit.Prelude.{
  ℕ, Bool, true, false, ◌&&◌, ◌||◌, List, [], ◌∷◌, ◌++◌, Option, none, some, leb, nat_beq,
  if◌then◌else◌, Bytes, bytes_eq, elem, length, drop, map,
}
use cubrid_testkit.Prelude.Dict.{Dict, lookup, insert, read, or_default}
use cubrid_testkit.Prelude.Strings.{
  codes, has_prefix, has_suffix, to_lower, bytes_ltb, trim_left, trim_right,
}
use cubrid_testkit.Prelude.Sort.{sort}

pub record Config : Type 0 where
  pub path : Bytes
  pub values : Dict Bytes Bytes
  pub key_order : List Bytes

abbrev pub empty_config : Config
empty_config = record { path = []; values = []; key_order = [] }

abbrev pub is_set : Config → Bytes → Bool
is_set c key = elim (lookup key c.values) [ none ↦ false | some v ↦ true ]

-- `set`
unfoldable pub set_value : Bytes → Bytes → Config → Config
set_value key value c = record c {
  values = insert key value c.values;
  key_order = (if is_set c key then c.key_order else c.key_order ++ key ∷ []);
}

abbrev pub keys_of : Dict Bytes Bytes → List Bytes
keys_of kv = map (λ entry. entry.0) kv

-- The loop of `Override` over the sorted keys.
unfoldable pub set_all : Dict Bytes Bytes → List Bytes → Config → Config
unfolding set_value
set_all kv [] c = c
set_all kv (key ∷ keys) c = set_all kv keys (set_value key (read [] key kv) c)

-- `Override`
unfoldable pub override : Dict Bytes Bytes → Config → Config
unfolding set_all
override kv c = set_all kv (sort bytes_ltb (keys_of kv)) c

-- `Get`
unfoldable pub get : Config → Bytes → Option Bytes
get c key = lookup key c.values

-- `GetOr`
unfoldable pub get_value_or : Config → Bytes → Bytes → Bytes
get_value_or c key fallback = or_default fallback (lookup key c.values)

-- strings.TrimSpace of an ASCII text.
abbrev trim_space : Bytes → Bytes
trim_space s =
    let white : ℕ → Bool = λ c. nat_beq c b' ' || leb 0x09 c && leb c 0x0d in
    trim_right white (trim_left white s)

flag : Bool → Option Bytes → Bool
flag fallback none = fallback
flag fallback (some v) =
    let low = to_lower (trim_space v) in
    if elem low (codes "yes" ∷ codes "y" ∷ codes "true" ∷ codes "1" ∷ codes "on" ∷ [])
    then true
    else if elem low (codes "no" ∷ codes "n" ∷ codes "false" ∷ codes "0" ∷ codes "off" ∷ [])
    then false
    else fallback

-- `Bool`
unfoldable pub bool_value : Config → Bytes → Bool → Bool
unfolding flag to_lower trim_left trim_right elem
bool_value c key fallback = flag fallback (lookup key c.values)

-- `Keys`
unfoldable pub keys : Config → List Bytes
keys c = c.key_order

-- The prefix with its dot.
abbrev pub dotted : Bytes → Bytes
dotted prefix = if has_suffix prefix (codes ".") then prefix else prefix ++ codes "."

-- The loop of `Prefixed` over the keys.
unfoldable pub prefixed_from : Config → Bytes → List Bytes → Dict Bytes Bytes → Dict Bytes Bytes
prefixed_from c prefix [] out = out
prefixed_from c prefix (key ∷ keys) out = prefixed_from c prefix keys (
    if has_prefix key prefix
    then insert (drop (length prefix) key) (read [] key c.values) out
    else out)

-- `Prefixed`
unfoldable pub prefixed : Config → Bytes → Dict Bytes Bytes
unfolding prefixed_from
prefixed c prefix = prefixed_from c (dotted prefix) c.key_order []
