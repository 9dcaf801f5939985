-- ===== src/Perf/Grouping.antt =====
-- Every case is in the group of its key, and in no other.
use cubrid_testkit.Prelude.{
  ℕ, suc, ◌≡◌, refl, sym, ap, ◌∙◌, List, [], ◌∷◌, ◌++◌, Option, none, some, if◌then◌else◌, Bytes,
  bytes_eq, bytes_beq, bytes_beq_iff, length, ◌==◌, arith, Bool-cases, Option-cases, inl, inr,
}
use cubrid_testkit.Prelude.Dict.{Dict, lookup, insert, or_default, lookup-insert}
use cubrid_testkit.Perf.Schedule.{Case, Group, conf_key, add_to, groups_from, conf_groups}

-- A case goes to the group of its key, which comes last where it is new.
unfoldable pub place : Case → List Group → List Group
place c [] = record { key = conf_key c; cases = c ∷ [] } ∷ []
place c (g ∷ gs) =
    if g.key == conf_key c then record g { cases = g.cases ++ c ∷ [] } ∷ gs else g ∷ place c gs

unfoldable pub place_all : List Case → List Group → List Group
place_all [] out = out
place_all (c ∷ cs) out = place_all cs (place c out)

-- Where the group of a key stands.
abbrev shift : Option ℕ → Option ℕ
shift none = none
shift (some i) = some (suc i)

unfoldable position : Bytes → List Group → Option ℕ
position k [] = none
position k (g ∷ gs) = if g.key == k then some 0 else shift (position k gs)

shift-some : (o : Option ℕ) (i : ℕ) → shift o ≡ some i → (j : ℕ) × ((i ≡ suc j) × (o ≡ some j))
shift-some none i h = absurd cc
shift-some (some j) i h = (j, (ground arith, refl))

shift-none : (o : Option ℕ) → shift o ≡ none → o ≡ none
shift-none none h = refl
shift-none (some j) h = absurd cc

add_to-place :
    (c : Case) (out : List Group) (i : ℕ)
    → position (conf_key c) out ≡ some i
    → add_to i c out ≡ place c out
unfolding add_to place position
add_to-place c [] i h = absurd cc
add_to-place c (g ∷ gs) i h = elim (Bool-cases (bytes_beq g.key (conf_key c))) [
  | inl same ↦ let i≡0 : i ≡ 0 = ground (arith, rw same at h) in rw (i≡0, same, add_to) refl
  | inr differs ↦
      let (j, found) = shift-some (position (conf_key c) gs) i (rw differs at h) in
      rw (found.0, differs, add_to) (ap (λ z. g ∷ z) (add_to-place c gs j found.1))
]

append-place :
    (c : Case) (out : List Group)
    → position (conf_key c) out ≡ none
    → add_to (length out) c (out ++ record { key = conf_key c; cases = [] } ∷ []) ≡ place c out
unfolding add_to place position
append-place c [] h = refl
append-place c (g ∷ gs) h = elim (Bool-cases (bytes_beq g.key (conf_key c))) [
  | inl same ↦ absurd (ground (arith, rw same at h))
  | inr differs ↦ rw differs (
      ap (λ z. g ∷ z) (append-place c gs (shift-none (position (conf_key c) gs) (rw differs at h))))
]

-- Placing a case moves no group, and a new one comes last.
position-place :
    (c : Case) (k : Bytes) (out : List Group)
    → position k (place c out) ≡ (
        if bytes_beq (conf_key c) k
        then some (or_default (length out) (position k out))
        else position k out)
unfolding place position
position-place c k [] = ground arith
position-place c k (g ∷ gs) = elim (Bool-cases (bytes_beq g.key (conf_key c))) [
  | inl same ↦
      rw (same, position)
        (ground (
          arith,
          same,
          bytes_beq_iff g.key (conf_key c),
          bytes_beq_iff g.key k,
          bytes_beq_iff (conf_key c) k,
        ))
  | inr differs ↦ elim (Option-cases (position k gs)) [
    | inl absent ↦
        rw (differs, position)
          (ground (
            arith,
            absent,
            position-place c k gs,
            differs,
            bytes_beq_iff g.key (conf_key c),
            bytes_beq_iff g.key k,
            bytes_beq_iff (conf_key c) k,
          ))
    | inr (i, found) ↦
        rw (differs, position)
          (ground (
            arith,
            found,
            position-place c k gs,
            differs,
            bytes_beq_iff g.key (conf_key c),
            bytes_beq_iff g.key k,
            bytes_beq_iff (conf_key c) k,
          ))
  ]
]

-- The map of the loop knows where every group stands.
abbrev IsIndexed : Dict Bytes ℕ → List Group → Type 0
IsIndexed at out = (k : Bytes) → lookup k at ≡ position k out

found-IsIndexed :
    (c : Case) (at : Dict Bytes ℕ) (out : List Group) (i : ℕ)
    → position (conf_key c) out ≡ some i
    → IsIndexed at out
    → IsIndexed at (place c out)
found-IsIndexed c at out i h known k =
    ground (arith, h, known k, position-place c k out, bytes_beq_iff (conf_key c) k)

new-IsIndexed :
    (c : Case) (at : Dict Bytes ℕ) (out : List Group)
    → position (conf_key c) out ≡ none
    → IsIndexed at out
    → IsIndexed (insert (conf_key c) (length out) at) (place c out)
new-IsIndexed c at out h known k = ground (
  arith,
  h,
  known k,
  position-place c k out,
  lookup-insert (conf_key c) k (length out) at,
  bytes_beq_iff (conf_key c) k,
)

-- What the loop does with an answer of the map.
abbrev chosen : Case → List Case → List Group → Dict Bytes ℕ → Option ℕ → List Group
chosen c cs out at o = elim o [
  | some i ↦ groups_from cs (add_to i c out) at
  | none ↦
      groups_from cs (add_to (length out) c (out ++ record { key = conf_key c; cases = [] } ∷ []))
        (insert (conf_key c) (length out) at)
]

-- The loop with its map does what placing the cases one by one does.
groups_from-place_all :
    (cases : List Case) (out : List Group) (at : Dict Bytes ℕ)
    → IsIndexed at out
    → groups_from cases out at ≡ place_all cases out
unfolding groups_from place_all
groups_from-place_all [] out at known = refl
groups_from-place_all (c ∷ cs) out at known = elim (Option-cases (lookup (conf_key c) at)) [
  | inl absent ↦
      let new = sym (known (conf_key c)) ∙ absent in
      let at' = insert (conf_key c) (length out) at in
      ap (chosen c cs out at) absent
      ∙ ap (λ z. groups_from cs z at') (append-place c out new)
      ∙ groups_from-place_all cs (place c out) at' (new-IsIndexed c at out new known)
  | inr (i, found) ↦
      let there = sym (known (conf_key c)) ∙ found in
      ap (chosen c cs out at) found
      ∙ ap (λ z. groups_from cs z at) (add_to-place c out i there)
      ∙ groups_from-place_all cs (place c out) at (found-IsIndexed c at out i there known)
]

pub conf_groups-place_all : (cases : List Case) → conf_groups cases ≡ place_all cases []
unfolding conf_groups position lookup
conf_groups-place_all cases = groups_from-place_all cases [] [] (λ k. refl)
