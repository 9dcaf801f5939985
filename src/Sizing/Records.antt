-- ===== src/Sizing/Records.antt =====
-- internal/sizing/sizing.go: what this machine's earlier runs say about a slot count. The sentence
-- that goes with each bound is left out. The numbers of an Input and of a Record are not negative;
-- where the code tests for a negative result, a subtraction that stops at 0 gives the same answer.
-- What is computed in floating point is a parameter, Floats.
use cubrid_testkit.Prelude.{
  ℕ, ◌+◌, ◌-◌, ◌*◌, Bool, true, false, not, ◌&&◌, ◌||◌, List, [], ◌∷◌, ltb, leb, if◌then◌else◌,
  ◌==◌, nat_eq, Bytes, bytes_eq, length, elem, take,
}
use cubrid_testkit.Prelude.Strings.{codes}
use cubrid_testkit.Prelude.Dict.{Dict, read}

pub data Mode : Type 0 where
  conservative measured aggressive : Mode

-- Mode.growth
unfoldable pub growth : Mode → ℕ
growth conservative = 1
growth measured = 2
growth aggressive = 4

pub record Engine : Type 0 where
  pub data_buffer_mb : ℕ
  pub log_buffer_mb : ℕ

unfoldable pub buffers : Engine → ℕ
buffers e = e.data_buffer_mb + e.log_buffer_mb

pub record Run : Type 0 where
  pub engine : Engine
  pub corpus : Bytes
  pub lane : Bytes
  pub slots : ℕ
  pub cases : ℕ
  pub wall_s : ℕ
  pub case_s : ℕ
  pub longest_unit_s : ℕ
  pub per_slot_mb : ℕ

pub record Input : Type 0 where
  pub suite : Bytes
  pub configured : Bytes
  pub mode : Mode
  pub engine : Engine
  pub avail_mb : ℕ
  pub shared_mb : ℕ
  pub cpus : ℕ
  pub cases : ℕ
  pub corpus : Bytes
  pub lane : Bytes
  pub runs : List Run

-- `withMargin`, int(float64(budget) * factor), and a wall time within 1.05 times the fastest.
pub record Floats : Type 0 where
  pub with_margin : ℕ → ℕ
  pub scaled : Mode → ℕ → ℕ
  pub within_noise : ℕ → ℕ → Bool

abbrev pub reserved_mb : ℕ
reserved_mb = 2048

abbrev pub shipped : Dict Bytes ℕ
shipped = (codes "isolation", 1750) ∷ (codes "sql", 2600) ∷ (codes "medium", 2600) ∷ []

abbrev pub starts : Dict Bytes ℕ
starts = (codes "isolation", 4) ∷ (codes "sql", 4) ∷ (codes "medium", 1) ∷ (codes "shell", 1) ∷ []

abbrev pub max : ℕ → ℕ → ℕ
max a b = if ltb a b then b else a

-- The cases of the newest run of the corpus that says how many it had.
unfoldable pub newest_cases : Bytes → List Run → ℕ
newest_cases corpus [] = 0
newest_cases corpus (x ∷ runs) =
    let rest = newest_cases corpus runs in
    if x.corpus == corpus && ltb 0 x.cases then x.cases else rest

-- `sameCorpus`
unfoldable pub same_corpus : Input → Run → Bool
unfolding newest_cases
same_corpus input r =
    if length input.corpus == 0 || not (r.corpus == input.corpus)
    then false
    else (let cases =
          if input.cases == 0 then newest_cases input.corpus input.runs else input.cases in
        if cases == 0 || r.cases == 0
        then true
        else leb ((r.cases - cases) * 10) cases && leb ((cases - r.cases) * 10) cases)

-- The runs of this corpus on this lane, of which peersWindow are looked at.
unfoldable pub on_lane : Input → List Run → List Run
unfolding same_corpus
on_lane input [] = []
on_lane input (r ∷ runs) =
    let rest = on_lane input runs in
    if not (r.lane == input.lane) || not (same_corpus input r) || r.slots == 0
    then rest
    else r ∷ rest

abbrev pub peers_window : ℕ
peers_window = 4

unfoldable pub one_per_count : List ℕ → List Run → List Run
one_per_count seen [] = []
one_per_count seen (r ∷ runs) =
    let skipped = one_per_count seen runs in
    let kept = one_per_count (r.slots ∷ seen) runs in
    if elem r.slots seen then skipped else r ∷ kept

-- `peers`
unfoldable pub peers : Input → List Run
unfolding on_lane one_per_count
peers input = one_per_count [] (take peers_window (on_lane input input.runs))

unfoldable pub most_slots : ℕ → List Run → ℕ
most_slots most [] = most
most_slots most (r ∷ runs) = most_slots (max most r.slots) runs

-- `tried`
unfoldable pub tried : Input → ℕ
unfolding peers most_slots growth
tried input =
    let most = most_slots 0 (peers input) in
    if most == 0
    then max (read 0 input.suite starts) 1
    else if growth input.mode == 1
    then most
    else most * growth input.mode
