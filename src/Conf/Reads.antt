-- ===== src/Conf/Reads.antt =====
-- What the reads of a configuration answer after `Override`.
use cubrid_testkit.Prelude.{
  ◌≡◌, refl, true, false, List, [], ◌∷◌, none, some, if◌then◌else◌, Bytes, bytes_eq, bytes_beq_iff,
  elem, elem-count, count-elem, arith, Bool-cases, Option-cases, inl, inr,
}
use cubrid_testkit.Prelude.Dict.{Dict, lookup, read, lookup-insert}
use cubrid_testkit.Prelude.Strings.{bytes_ltb}
use cubrid_testkit.Prelude.Sort.{sort, count-sort}
use cubrid_testkit.Conf.Config.{Config, set_value, set_all, keys_of, override, get}

set_all-get :
    (kv : Dict Bytes Bytes) (names : List Bytes) (c : Config) (other : Bytes)
    → lookup other (set_all kv names c).values
      ≡ (if elem other names then some (read [] other kv) else lookup other c.values)
unfolding set_all set_value elem
set_all-get kv [] c other = refl
set_all-get kv (key ∷ names) c other = ground (
  arith,
  set_all-get kv names (set_value key (read [] key kv) c) other,
  lookup-insert key other (read [] key kv) c.values,
  bytes_beq_iff key other,
)

-- A key is listed exactly if it reads as something.
keys_of-lookup :
    (kv : Dict Bytes Bytes) (key : Bytes)
    → elem key (keys_of kv) ≡ elim (lookup key kv) [ none ↦ false | some v ↦ true ]
unfolding elem lookup
keys_of-lookup [] key = refl
keys_of-lookup (entry ∷ rest) key = ground (arith, keys_of-lookup rest key)

elem-sort : (key : Bytes) (names : List Bytes) → elem key (sort bytes_ltb names) ≡ elem key names
elem-sort key names = elim (Bool-cases (elem key names)) [
  | inl yes' ↦ ground (
    arith,
    count-elem key (sort bytes_ltb names),
    count-sort bytes_ltb key names,
    elem-count key names,
  )
  | inr no' ↦ elim (Bool-cases (elem key (sort bytes_ltb names))) [
    | inl p ↦ ground (
      arith,
      count-elem key names,
      count-sort bytes_ltb key names,
      elem-count key (sort bytes_ltb names),
    )
    | inr p ↦ ground arith
  ]
]

-- After `Override`, a key that the overriding values have reads as they say, and every other key
-- reads as before, whatever the order in which the map gives its keys.
pub override-get :
    (kv : Dict Bytes Bytes) (c : Config) (key : Bytes)
    → get (override kv c) key ≡ elim (lookup key kv) [ some v ↦ some v | none ↦ get c key ]
unfolding override get
override-get kv c key = elim (Option-cases (lookup key kv)) [
  | inl absent ↦ ground (
    arith,
    absent,
    set_all-get kv (sort bytes_ltb (keys_of kv)) c key,
    elem-sort key (keys_of kv),
    keys_of-lookup kv key,
  )
  | inr (v, present) ↦ ground (
    arith,
    present,
    set_all-get kv (sort bytes_ltb (keys_of kv)) c key,
    elem-sort key (keys_of kv),
    keys_of-lookup kv key,
  )
]
