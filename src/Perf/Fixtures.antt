-- ===== src/Perf/Fixtures.antt =====
-- How many fixtures cases need, put together and by their keys.
use cubrid_testkit.Prelude.{
  ℕ, zero, suc, ◌+◌, ◌*◌, ◌≤◌, ◌≡◌, refl, ap, ◌∙◌, true, false, List, [], ◌∷◌, ◌++◌, if◌then◌else◌,
  Bytes, bytes_eq, bytes_beq, bytes_beq_iff, elem, length, length-append, count, arith, Bool-cases,
  inl, inr,
}
use cubrid_testkit.Prelude.Strings.{bytes_ltb}
use cubrid_testkit.Prelude.Sort.{insert_sorted, sort}
use cubrid_testkit.Perf.Schedule.{Case, Group, fixtures_from, fixtures_of, fixtures_built}
use cubrid_testkit.Perf.Groups.{cases_grouped}

length-insert_sorted :
    (x : Bytes) (xs : List Bytes) → length (insert_sorted bytes_ltb x xs) ≡ suc (length xs)
unfolding insert_sorted
length-insert_sorted x [] = refl
length-insert_sorted x (y ∷ ys) = ground (arith, length-insert_sorted x ys)

length-sort : (xs : List Bytes) → length (sort bytes_ltb xs) ≡ length xs
unfolding sort
length-sort [] = refl
length-sort (x ∷ xs) = length-insert_sorted x (sort bytes_ltb xs) ∙ ap suc (length-sort xs)

-- How many fixtures cases need.
abbrev pub needed : List Case → ℕ
needed cs = length (fixtures_of cs)

needed-fixtures_from : (cs : List Case) → needed cs ≡ length (fixtures_from cs [])
unfolding fixtures_of
needed-fixtures_from cs = length-sort (fixtures_from cs [])

abbrev IsWithin : List Bytes → List Bytes → Type 0
IsWithin xs ys = (f : Bytes) → elem f xs ≡ true → elem f ys ≡ true

elem-append :
    (f g : Bytes) (xs : List Bytes)
    → elem f (xs ++ g ∷ []) ≡ (if elem f xs then true else bytes_beq g f)
unfolding elem
elem-append f g [] = ground arith
elem-append f g (x ∷ xs) = ground (arith, elem-append f g xs)

IsWithin-one :
    (xs ys : List Bytes) (f : Bytes)
    → IsWithin xs ys
    → elem f ys ≡ true
    → IsWithin (xs ++ f ∷ []) ys
IsWithin-one xs ys f h seen g e =
    ground (arith, h g, e, elem-append g f xs, bytes_beq_iff f g, seen)

IsWithin-both :
    (xs ys : List Bytes) (f : Bytes) → IsWithin xs ys → IsWithin (xs ++ f ∷ []) (ys ++ f ∷ [])
IsWithin-both xs ys f h g e = ground (arith, h g, e, elem-append g f xs, elem-append g f ys)

-- The more is seen already, the less is added.
fewer_added :
    (cs : List Case) (xs ys : List Bytes)
    → IsWithin xs ys
    → length (fixtures_from cs ys) + length xs ≤ length (fixtures_from cs xs) + length ys
unfolding fixtures_from
fewer_added [] xs ys h = omega arith
fewer_added (c ∷ cs) xs ys h =
    let f = c.fixture in
    elim (Bool-cases (elem f xs)) [
      | inl seen ↦ let seen' = h f seen in rw (seen, seen') (fewer_added cs xs ys h)
      | inr new ↦ elim (Bool-cases (elem f ys)) [
        | inl seen' ↦
            rw (new, seen')
              (omega (
                arith,
                fewer_added cs (xs ++ f ∷ []) ys (IsWithin-one xs ys f h seen'),
                length-append xs (f ∷ []),
              ))
        | inr new' ↦
            rw (new, new')
              (omega (
                arith,
                fewer_added cs (xs ++ f ∷ []) (ys ++ f ∷ []) (IsWithin-both xs ys f h),
                length-append xs (f ∷ []),
                length-append ys (f ∷ []),
              ))
      ]
    ]

fixtures_from-append :
    (a b : List Case) (out : List Bytes)
    → fixtures_from (a ++ b) out ≡ fixtures_from b (fixtures_from a out)
unfolding fixtures_from
fixtures_from-append [] b out = refl
fixtures_from-append (c ∷ a) b out =
    fixtures_from-append a b (if elem c.fixture out then out else out ++ c.fixture ∷ [])

pub needed-append : (a b : List Case) → needed (a ++ b) ≤ needed a + needed b
unfolding elem
needed-append a b =
    let more = fewer_added b [] (fixtures_from a []) (λ f e. absurd (cc e)) in
    omega (
      arith,
      more,
      needed-fixtures_from a,
      needed-fixtures_from b,
      needed-fixtures_from (a ++ b),
      ap length (fixtures_from-append a b []),
    )

-- The fixtures that the cases of each key need, all together.
unfoldable pub needed_by : (Bytes → List Case) → List Bytes → ℕ
needed_by cases [] = 0
needed_by cases (k ∷ ks) = needed (cases k) + needed_by cases ks

nothing_needed : needed [] ≡ 0
unfolding fixtures_of fixtures_from sort
nothing_needed = refl

none_grouped : (ks : List Bytes) → needed_by (λ k. cases_grouped k []) ks ≡ 0
unfolding needed_by cases_grouped
none_grouped [] = refl
none_grouped (k ∷ ks) = omega (arith, nothing_needed, none_grouped ks)

one_group_more :
    (g : Group) (gs : List Group) (ks : List Bytes)
    → needed_by (λ k. cases_grouped k (g ∷ gs)) ks
      ≤ count g.key ks * needed g.cases + needed_by (λ k. cases_grouped k gs) ks
unfolding needed_by cases_grouped count
one_group_more g gs [] = omega arith
one_group_more g gs (k ∷ ks) = elim (Bool-cases (bytes_beq g.key k)) [
  | inl same ↦
      let same' : bytes_beq k g.key ≡ true =
        ground (arith, same, bytes_beq_iff g.key k, bytes_beq_iff k g.key) in
      rw (same, same') (omega (arith, one_group_more g gs ks))
  | inr other ↦
      let other' : bytes_beq k g.key ≡ false =
        ground (arith, other, bytes_beq_iff g.key k, bytes_beq_iff k g.key) in
      rw (other, other') (omega (arith, one_group_more g gs ks))
]

at_most_once : (n m : ℕ) → n ≤ 1 → n * m ≤ m
at_most_once zero m h = omega arith
at_most_once (suc zero) m h = omega arith
at_most_once (suc (suc n)) m h = absurd (omega arith)

-- Each of distinct keys picks one group.
pub needed_by-fixtures_built :
    (gs : List Group) (ks : List Bytes)
    → ((k : Bytes) → count k ks ≤ 1)
    → needed_by (λ k. cases_grouped k gs) ks ≤ fixtures_built 1 gs
unfolding fixtures_built
needed_by-fixtures_built [] ks d = omega (arith, none_grouped ks)
needed_by-fixtures_built (g ∷ gs) ks d = omega (
  arith,
  one_group_more g gs ks,
  at_most_once (count g.key ks) (needed g.cases) (d g.key),
  needed_by-fixtures_built gs ks d,
)
