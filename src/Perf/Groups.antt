-- ===== src/Perf/Groups.antt =====
-- The groups of a session: which there are, and what is in them.
use cubrid_testkit.Prelude.{
  ◌≡◌, refl, sym, ap, ◌∙◌, List, [], ◌∷◌, ◌++◌, if◌then◌else◌, Bytes, bytes_eq, bytes_beq,
  bytes_beq_iff, elem, map, arith, Bool-cases, inl, inr,
}
use mathlib.Core.List.{append_assoc, append-nil}
use cubrid_testkit.Perf.Schedule.{Case, Group, conf_key, conf_groups}
use cubrid_testkit.Perf.Grouping.{place, place_all, conf_groups-place_all}

-- The cases of a key, in the order in which they came.
unfoldable pub cases_with : Bytes → List Case → List Case
cases_with k [] = []
cases_with k (c ∷ cs) =
    let rest = cases_with k cs in if bytes_beq (conf_key c) k then c ∷ rest else rest

-- The cases of the group of a key; no group has none.
unfoldable pub cases_grouped : Bytes → List Group → List Case
cases_grouped k [] = []
cases_grouped k (g ∷ gs) = if bytes_beq g.key k then g.cases else cases_grouped k gs

-- The keys behind those that are known, each where it is first seen.
unfoldable pub first_keys : List Bytes → List Case → List Bytes
first_keys seen [] = seen
first_keys seen (c ∷ cs) =
    first_keys (if elem (conf_key c) seen then seen else seen ++ conf_key c ∷ []) cs

abbrev pub group_keys : List Group → List Bytes
group_keys gs = map (λ g. g.key) gs

place-cases_grouped :
    (c : Case) (k : Bytes) (out : List Group)
    → cases_grouped k (place c out)
      ≡ (if bytes_beq (conf_key c) k then cases_grouped k out ++ c ∷ [] else cases_grouped k out)
unfolding place cases_grouped
place-cases_grouped c k [] = refl
place-cases_grouped c k (g ∷ gs) = elim (Bool-cases (bytes_beq g.key (conf_key c))) [
  | inl same ↦
      rw (same, cases_grouped)
        (ground (
          arith,
          same,
          bytes_beq_iff g.key (conf_key c),
          bytes_beq_iff g.key k,
          bytes_beq_iff (conf_key c) k,
        ))
  | inr differs ↦
      rw (differs, cases_grouped)
        (ground (
          arith,
          place-cases_grouped c k gs,
          differs,
          bytes_beq_iff g.key (conf_key c),
          bytes_beq_iff g.key k,
          bytes_beq_iff (conf_key c) k,
        ))
]

place-group_keys :
    (c : Case) (out : List Group)
    → group_keys (place c out) ≡ (
        if elem (conf_key c) (group_keys out)
        then group_keys out
        else group_keys out ++ conf_key c ∷ [])
unfolding place elem
place-group_keys c [] = refl
place-group_keys c (g ∷ gs) = elim (Bool-cases (bytes_beq g.key (conf_key c))) [
  | inl same ↦ rw same refl
  | inr differs ↦ elim (Bool-cases (elem (conf_key c) (group_keys gs))) [
    | inl there ↦ rw (differs, there) (ap (λ z. g.key ∷ z) (place-group_keys c gs ∙ rw there refl))
    | inr new ↦ rw (differs, new) (ap (λ z. g.key ∷ z) (place-group_keys c gs ∙ rw new refl))
  ]
]

appended :
    (c : Case) (k : Bytes) (xs cs : List Case)
    → (if bytes_beq (conf_key c) k then xs ++ c ∷ [] else xs) ++ cases_with k cs
      ≡ xs ++ cases_with k (c ∷ cs)
unfolding cases_with
appended c k xs cs = elim (Bool-cases (bytes_beq (conf_key c) k)) [
  | inl same ↦ rw same (append_assoc xs (c ∷ []) (cases_with k cs))
  | inr differs ↦ rw differs refl
]

place_all-cases_grouped :
    (k : Bytes) (cases : List Case) (out : List Group)
    → cases_grouped k (place_all cases out) ≡ cases_grouped k out ++ cases_with k cases
unfolding place_all cases_with
place_all-cases_grouped k [] out = sym (append-nil (cases_grouped k out))
place_all-cases_grouped k (c ∷ cs) out =
    place_all-cases_grouped k cs (place c out)
    ∙ ap (λ z. z ++ cases_with k cs) (place-cases_grouped c k out)
    ∙ appended c k (cases_grouped k out) cs

place_all-group_keys :
    (cases : List Case) (out : List Group)
    → group_keys (place_all cases out) ≡ first_keys (group_keys out) cases
unfolding place_all first_keys
place_all-group_keys [] out = refl
place_all-group_keys (c ∷ cs) out =
    place_all-group_keys cs (place c out) ∙ ap (λ z. first_keys z cs) (place-group_keys c out)

-- The groups stand in the order in which their keys are first seen, each key once, and the group of
-- a key holds the cases of that key in the order in which they came.
pub conf_groups_lem :
    (cases : List Case)
    → (group_keys (conf_groups cases) ≡ first_keys [] cases)
      × ((k : Bytes) → cases_grouped k (conf_groups cases) ≡ cases_with k cases)
unfolding cases_grouped
conf_groups_lem cases =
    rw (conf_groups-place_all cases)
      (place_all-group_keys cases [], λ k. place_all-cases_grouped k cases [])
