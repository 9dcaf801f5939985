-- ===== src/Shell/Corpus.antt =====
-- internal/runner/shellsuite/corpus.go: what Plan and Retire do to a Corpus. What the tmpfs and the
-- directory hold when a directory is reclaimed is read from the machine, and comes as a Reading; the
-- reclaim itself is drop_additions. A count is never negative; a slot's store is whether it is in
-- memory.
use cubrid_testkit.Prelude.{
  ℕ, ◌+◌, ◌-◌, Bool, true, false, not, List, [], ◌∷◌, Option, none, some, ltb, if◌then◌else◌, Bytes,
  bytes_eq,
}
use cubrid_testkit.Prelude.Dict.{Dict, lookup, insert, delete, read}
use cubrid_testkit.Shell.Case.{Case, split}

pub record Corpus : Type 0 where
  pub shared : Bool
  pub slots : Dict Bytes Bool
  pub pending : Dict Bytes ℕ
  pub freed : ℕ
  pub held : Dict Bytes ℕ
  pub peak : ℕ

-- What `used` gives before and after a reclaim, and what the directory holds before it.
pub record Reading : Type 0 where
  pub before : ℕ
  pub after : ℕ
  pub own : ℕ

-- `Slot`'s registration
unfoldable pub add_slot : Bytes → Bool → Corpus → Corpus
add_slot slot on_ram c = if c.shared then c else record c { slots = insert slot on_ram c.slots }

abbrev pub counted : Option Case → Dict Bytes ℕ → Dict Bytes ℕ
counted none m = m
counted (some c) m = insert c.dir (read 0 c.dir m + 1) m

unfoldable pub plan_pending : List Bytes → Dict Bytes ℕ → Dict Bytes ℕ
plan_pending [] m = m
plan_pending (p ∷ cases) m = plan_pending cases (counted (split p) m)

-- `Plan`
unfoldable pub plan : List Bytes → Corpus → Corpus
unfolding plan_pending
plan cases c = record c { pending = plan_pending cases c.pending }

-- The marks that a reclaim leaves.
unfoldable pub sampled : Reading → Corpus → Corpus
sampled r c = record c { peak = if ltb c.peak r.before then r.before else c.peak }

unfoldable pub recorded : Bytes → Reading → Corpus → Corpus
recorded dir r c = record c {
  freed = c.freed + (r.before - r.after);
  held = if ltb (read 0 dir c.held) r.own then insert dir r.own c.held else c.held;
}

unfoldable pub reclaimed_slot : Bytes → Reading → Corpus → Option Bool → Corpus × Bool
unfolding sampled recorded
reclaimed_slot dir r c none = (c, false)
reclaimed_slot dir r c (some on_ram) =
    let c' = sampled r c in (if on_ram then recorded dir r c' else c', true)

unfoldable pub retired : Reading → Bytes → Bytes → Corpus → Option ℕ → Corpus × Bool
unfolding reclaimed_slot
retired r slot dir c none = (c, false)
retired r slot dir c (some n) =
    if ltb 1 n
    then (record c { pending = insert dir (n - 1) c.pending }, false)
    else (let c' = record c { pending = delete dir c.pending } in
        if not c.shared
        then reclaimed_slot dir r c' (lookup slot c.slots)
        else (recorded dir r (sampled r c'), true))

-- `Retire`
unfoldable pub retire : Reading → Bytes → Bytes → Corpus → Corpus × Bool
unfolding retired
retire r slot dir c = retired r slot dir c (lookup dir c.pending)
