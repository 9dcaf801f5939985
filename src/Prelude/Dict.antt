-- ===== src/Prelude/Dict.antt =====
-- Go's maps as association lists: a later write replaces an earlier one, a missing key reads as
-- the default. The order of the entries is that of their first insertion.
use mathlib.Core.Path.{◌≡◌, refl}
use mathlib.Core.Bool.{Bool, true, false}
use mathlib.Core.List.{List, [], ◌∷◌}
use mathlib.Core.Option.{Option, none, some}
use native.Mathlib.Omega.{arith}
use cubrid_testkit.Prelude.Tests.{if◌then◌else◌}
use cubrid_testkit.Prelude.Equality.{Key, ◌==◌}

abbrev pub Dict {ℓ κ} : Type ℓ → Type κ → Type (ℓ ⊔ κ)
Dict K V = List (K × V)

module _ {ℓ κ} {K : Type ℓ} {V : Type κ} ⦃key : Key K⦄ where
  -- `m[k]` with its `ok`
  unfoldable pub lookup : K → Dict K V → Option V
  lookup k [] = none
  lookup k (entry ∷ rest) = if entry.0 == k then some entry.1 else lookup k rest

  -- `m[k] = v`
  unfoldable pub insert : K → V → Dict K V → Dict K V
  insert k v [] = (k, v) ∷ []
  insert k v (entry ∷ rest) = if entry.0 == k then (entry.0, v) ∷ rest else entry ∷ insert k v rest

  -- `delete(m, k)`
  unfoldable pub delete : K → Dict K V → Dict K V
  delete k [] = []
  delete k (entry ∷ rest) = let kept = delete k rest in if entry.0 == k then kept else entry ∷ kept

  pub lookup-insert :
      (k other : K) (v : V) (m : Dict K V)
      → lookup other (insert k v m) ≡ (if k == other then some v else lookup other m)
  unfolding lookup insert
  lookup-insert k other v [] = refl
  lookup-insert k other v (entry ∷ rest) = ground (
    arith,
    lookup-insert k other v rest,
    key.same_iff entry.0 k,
    key.same_iff entry.0 other,
    key.same_iff k other,
  )

  pub lookup-delete :
      (k other : K) (m : Dict K V)
      → lookup other (delete k m) ≡ (if k == other then none else lookup other m)
  unfolding lookup delete
  lookup-delete k other [] = ground arith
  lookup-delete k other (entry ∷ rest) = ground (
    arith,
    lookup-delete k other rest,
    key.same_iff entry.0 k,
    key.same_iff entry.0 other,
    key.same_iff k other,
  )

abbrev pub is_some {κ} : {V : Type κ} → Option V → Bool
is_some none = false
is_some (some v) = true

abbrev pub or_default {κ} : {V : Type κ} → V → Option V → V
or_default d none = d
or_default d (some v) = v

module _ {ℓ κ} {K : Type ℓ} {V : Type κ} ⦃key : Key K⦄ where
  -- A read of a map, with the zero value for a missing key.
  abbrev pub read : V → K → Dict K V → V
  read d k m = or_default d (lookup k m)

pub ruleset dict_laws = (lookup-insert, lookup-delete)
