-- ===== src/Conf/Prefixes.antt =====
-- What `Prefixed` answers.
use cubrid_testkit.Prelude.{
  ◌≡◌, refl, ap, ◌∙◌, true, List, [], ◌∷◌, ◌++◌, none, some, if◌then◌else◌, Bytes, bytes_eq,
  bytes_beq_iff, elem, length, drop, drop_of_length, elem-count, count-elem, arith, Bool-cases,
  Option-cases, inl, inr,
}
use cubrid_testkit.Prelude.Dict.{Dict, lookup, insert, read, lookup-insert}
use cubrid_testkit.Prelude.Strings.{has_prefix}
use cubrid_testkit.Prelude.Split.{has_prefix-append}
use cubrid_testkit.Conf.Config.{Config, dotted, prefixed_from, prefixed, get}
use cubrid_testkit.Conf.Consistency.{IsConsistent}

has_prefix-drop : (s p : Bytes) → has_prefix s p ≡ true → s ≡ p ++ drop (length p) s
unfolding has_prefix
has_prefix-drop s [] h = refl
has_prefix-drop [] (p ∷ ps) h = ground (arith, h)
has_prefix-drop (c ∷ s) (p ∷ ps) h =
    let c≡p : c ≡ p = ground (arith, h) in
    let tail : has_prefix s ps ≡ true = ground (arith, h) in
    ap (λ z. z ∷ s) c≡p ∙ ap (λ z. p ∷ z) (has_prefix-drop s ps tail)

prefixed_from-lookup :
    (c : Config) (p name : Bytes) (keys : List Bytes) (out : Dict Bytes Bytes)
    → lookup name (prefixed_from c p keys out)
      ≡ (if elem (p ++ name) keys then some (read [] (p ++ name) c.values) else lookup name out)
unfolding prefixed_from elem
prefixed_from-lookup c p name [] out = refl
prefixed_from-lookup c p name (key ∷ keys) out = elim (Bool-cases (has_prefix key p)) [
  | inr other ↦ rw other (
      prefixed_from-lookup c p name keys out
      ∙ ground (arith, other, has_prefix-append p name, bytes_beq_iff key (p ++ name)))
  | inl under ↦ rw under (
      prefixed_from-lookup c p name keys (insert (drop (length p) key) (read [] key c.values) out)
      ∙ ground (
        arith,
        lookup-insert (drop (length p) key) name (read [] key c.values) out,
        bytes_beq_iff key (p ++ name),
        bytes_beq_iff (drop (length p) key) name,
        has_prefix-drop key p under,
        drop_of_length p name,
      ))
]

-- A key that a consistent configuration lists is one that it has a value for.
listed :
    (c : Config) (key : Bytes)
    → IsConsistent c
    → (if elem key c.key_order then some (read [] key c.values) else none) ≡ lookup key c.values
listed c key h = elim (Option-cases (lookup key c.values)) [
  | inl absent ↦ ground (arith, absent, h key, elem-count key c.key_order)
  | inr (v, present) ↦ ground (arith, present, h key, count-elem key c.key_order)
]

-- In a consistent configuration, a name under a prefix reads as the key does that is the prefix, its
-- dot and the name.
pub prefixed-get :
    (c : Config) (prefix name : Bytes)
    → IsConsistent c
    → lookup name (prefixed c prefix) ≡ get c (dotted prefix ++ name)
unfolding prefixed get lookup
prefixed-get c prefix name h =
    prefixed_from-lookup c (dotted prefix) name c.key_order [] ∙ listed c (dotted prefix ++ name) h
