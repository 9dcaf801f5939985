-- ===== src/Shell/Retirement.antt =====
-- When a directory is reclaimed: at the retirement of its last planned case.
use cubrid_testkit.Prelude.{
  ℕ, zero, suc, ◌+◌, ◌-◌, ◌≡◌, refl, sym, ap, ◌∙◌, Bool, true, false, ◌||◌, List, [], ◌∷◌, Option,
  none, some, arith, ltb, if◌then◌else◌, ◌==◌, nat_eq, Bytes, bytes_eq, bytes_beq_iff, Bool-cases,
  Option-cases, inl, inr, count, count-append,
}
use cubrid_testkit.Prelude.Dict.{
  Dict, lookup, insert, delete, read, lookup-insert, lookup-delete, is_some,
}
use cubrid_testkit.Shell.Case.{Case, split}
use cubrid_testkit.Shell.Corpus.{
  Corpus, Reading, plan_pending, plan, sampled, recorded, reclaimed_slot, retired, retire, counted,
}

-- The directories of the cases that Split accepts.
abbrev onto_dirs : Option Case → List Bytes → List Bytes
onto_dirs none dirs = dirs
onto_dirs (some c) dirs = c.dir ∷ dirs

abbrev pub dirs_of : List Bytes → List Bytes
dirs_of [] = []
dirs_of (p ∷ cases) = onto_dirs (split p) (dirs_of cases)

-- How many cases of a directory are still to retire, as `pending` has it.
abbrev pub remaining : ℕ → Option ℕ
remaining n = if n == 0 then none else some n

one_more :
    (c : Case) (m : Dict Bytes ℕ) (d : Bytes) (k : ℕ)
    → lookup d m ≡ remaining k
    → lookup d (counted (some c) m) ≡ remaining (k + count d (c.dir ∷ []))
unfolding count
one_more c m d k h = elim (Bool-cases (c.dir == d)) [
  | inr other ↦
      lookup-insert c.dir d (read 0 c.dir m + 1) m ∙ rw other (h ∙ ap remaining (omega arith))
  | inl same ↦
      let read≡ : read 0 c.dir m ≡ k =
        ap (λ z. read 0 z m) ((bytes_beq_iff c.dir d).0 same) ∙ ground (arith, h) in
      lookup-insert c.dir d (read 0 c.dir m + 1) m ∙ rw same (ground (arith, read≡))
]

plan_pending-count :
    (cases : List Bytes) (m : Dict Bytes ℕ) (d : Bytes)
    → ((k : ℕ)
        → lookup d m ≡ remaining k
        → lookup d (plan_pending cases m) ≡ remaining (k + count d (dirs_of cases)))
unfolding plan_pending count
plan_pending-count [] m d k h = h ∙ ap remaining (omega arith)
plan_pending-count (p ∷ cases) m d k h = elim (Option-cases (split p)) [
  | inl none' ↦ rw none' (plan_pending-count cases m d k h)
  | inr (c, found) ↦ rw found (
      plan_pending-count cases (counted (some c) m) d (k + count d (c.dir ∷ []))
        (one_more c m d k h)
      ∙ ap remaining (ground (arith, count-append d (c.dir ∷ []) (dirs_of cases))))
]

-- A retirement: what is read at it, the slot and the directory.
abbrev pub Retiring : Type 0
Retiring = Reading × Bytes × Bytes

abbrev pub dirs_retired : List Retiring → List Bytes
dirs_retired [] = []
dirs_retired ((r, slot, d) ∷ rest) = d ∷ dirs_retired rest

abbrev pub retire_all : List Retiring → Corpus → Corpus
retire_all [] c = c
retire_all ((r, slot, d) ∷ rest) c = retire_all rest (retire r slot d c).0

reclaimed_slot-pending :
    (dir : Bytes) (r : Reading) (c : Corpus) (o : Option Bool)
    → (reclaimed_slot dir r c o).0.pending ≡ c.pending
unfolding reclaimed_slot sampled recorded
reclaimed_slot-pending dir r c none = refl
reclaimed_slot-pending dir r c (some true) = refl
reclaimed_slot-pending dir r c (some false) = refl

less_one : ℕ → Bytes → Dict Bytes ℕ → Dict Bytes ℕ
less_one n dir m = if ltb 1 n then insert dir (n - 1) m else delete dir m

retired-pending :
    (r : Reading) (slot dir : Bytes) (c : Corpus) (n : ℕ)
    → (retired r slot dir c (some n)).0.pending ≡ less_one n dir c.pending
unfolding retired less_one sampled recorded
retired-pending r slot dir c n = elim (Bool-cases (ltb 1 n)) [
  | inl more ↦ rw more refl
  | inr last ↦ elim (Bool-cases c.shared) [
    | inl shared ↦ rw last (simp shared refl)
    | inr own ↦ rw last (simp own (reclaimed_slot-pending dir r _ (lookup slot c.slots)))
  ]
]

less_one-remaining :
    (n : ℕ) (dir d : Bytes) (m : Dict Bytes ℕ) (k : ℕ)
    → lookup dir m ≡ some n
    → lookup d m ≡ remaining k
    → lookup d (less_one n dir m) ≡ remaining (k - count d (dir ∷ []))
unfolding less_one count
less_one-remaining n dir d m k e h = elim (Bool-cases (dir == d)) [
  | inr other ↦ rw other (ground (arith, lookup-insert dir d (n - 1) m, lookup-delete dir d m, h))
  | inl same ↦
      let same_read : some n ≡ remaining k =
        sym e ∙ ap (λ z. lookup z m) ((bytes_beq_iff dir d).0 same) ∙ h in
      rw same (ground (arith, lookup-insert dir d (n - 1) m, lookup-delete dir d m, same_read))
]

unplanned :
    (dir d : Bytes) (m : Dict Bytes ℕ) (k : ℕ)
    → lookup dir m ≡ none
    → lookup d m ≡ remaining k
    → lookup d m ≡ remaining (k - count d (dir ∷ []))
unfolding count
unplanned dir d m k e h = elim (Bool-cases (dir == d)) [
  | inr other ↦ rw other (h ∙ ap remaining (omega arith))
  | inl same ↦
      let same_read : none ≡ remaining k =
        sym e ∙ ap (λ z. lookup z m) ((bytes_beq_iff dir d).0 same) ∙ h in
      rw same (ground (arith, h, same_read))
]

retire-pending :
    (r : Reading) (slot dir d : Bytes) (c : Corpus) (k : ℕ)
    → lookup d c.pending ≡ remaining k
    → lookup d (retire r slot dir c).0.pending ≡ remaining (k - count d (dir ∷ []))
unfolding retire
retire-pending r slot dir d c k h = elim (Option-cases (lookup dir c.pending)) [
  | inr (n, found) ↦
      ap (λ z. lookup d (retired r slot dir c z).0.pending) found
      ∙ ap (lookup d) (retired-pending r slot dir c n)
      ∙ less_one-remaining n dir d c.pending k found h
  | inl nothing ↦
      ap (λ z. lookup d (retired r slot dir c z).0.pending) nothing
      ∙ (unfold retired in unplanned dir d c.pending k nothing h)
]

retire_all-pending :
    (rs : List Retiring) (d : Bytes) (c : Corpus) (k : ℕ)
    → lookup d c.pending ≡ remaining k
    → lookup d (retire_all rs c).pending ≡ remaining (k - count d (dirs_retired rs))
unfolding count
retire_all-pending [] d c k h = h ∙ ap remaining (omega arith)
retire_all-pending ((r, slot, dir) ∷ rest) d c k h =
    retire_all-pending rest d (retire r slot dir c).0 (k - count d (dir ∷ []))
      (retire-pending r slot dir d c k h)
    ∙ ap remaining (ground (arith, count-append d (dir ∷ []) (dirs_retired rest)))

reclaims :
    (dir : Bytes) (r : Reading) (c : Corpus) (o : Option Bool)
    → is_some o ≡ true
    → (reclaimed_slot dir r c o).1 ≡ true
unfolding reclaimed_slot
reclaims dir r c none h = absurd cc
reclaims dir r c (some on_ram) h = refl

retired_flag :
    (r : Reading) (slot dir : Bytes) (c : Corpus) (k : ℕ)
    → c.shared || is_some (lookup slot c.slots) ≡ true
    → (retired r slot dir c (remaining k)).1 ≡ (k == 1)
unfolding retired
retired_flag r slot dir c zero h = refl
retired_flag r slot dir c (suc zero) h = elim (Bool-cases c.shared) [
  | inl shared ↦ simp shared refl
  | inr own ↦ simp own (reclaims dir r _ (lookup slot c.slots) (simp own at h))
]
retired_flag r slot dir c (suc (suc k)) h =
    let several : ltb 1 (suc (suc k)) ≡ true = ground arith in
    let zero' : suc (suc k) == 0 ≡ false = ground arith in
    let one : suc (suc k) == 1 ≡ false = ground arith in rw (zero', one) (rw several refl)

-- A retirement reports a reclaim exactly when as many cases of the directory were retired before it
-- as were planned there, less one: never while a case of the directory is left, and only once. The
-- corpus was planned from an empty one, and the slot has a store unless all share one.
pub retire_last :
    (cases : List Bytes) (rs : List Retiring) (c : Corpus) (r : Reading) (slot d : Bytes)
    → c.pending ≡ []
    → let w = retire_all rs (plan cases c) in
      w.shared || is_some (lookup slot w.slots) ≡ true
      → (retire r slot d w).1 ≡ (count d (dirs_retired rs) + 1 == count d (dirs_of cases))
unfolding retire plan lookup
retire_last cases rs c r slot d empty stored =
    let w = retire_all rs (plan cases c) in
    let planned : lookup d (plan_pending cases c.pending) ≡ remaining (count d (dirs_of cases)) =
      plan_pending-count cases c.pending d 0 (ap (lookup d) empty) ∙ ap remaining (omega arith) in
    ap (λ z. (retired r slot d w z).1)
      (retire_all-pending rs d (plan cases c) (count d (dirs_of cases)) planned)
    ∙ retired_flag r slot d w (count d (dirs_of cases) - count d (dirs_retired rs)) stored
    ∙ ground arith
