-- ===== src/Dispatch/Admission.antt =====
-- internal/dispatch/policy.go: which of the waiting cases a free slot may start.
-- `Machine` is what the machine reports at the moment a policy is asked; a Go `nil` is `none`, and
-- the ints of the file (`max`, `percent`, the readings) are not negative.
use cubrid_testkit.Prelude.{
  ℕ, suc, ◌*◌, Bool, true, false, not, ◌||◌, List, [], ◌∷◌, ◌++◌, Option, none, some, ltb, leb,
  ◌==◌, nat_eq, bytes_eq, if◌then◌else◌, Bytes, length, map, take,
}
use cubrid_testkit.Prelude.Strings.{codes, decimal, join, bytes_ltb}
use cubrid_testkit.Prelude.Dict.{Dict, insert, read}
use cubrid_testkit.Prelude.Sort.{sort}

-- An `int, int` that a usage callback returns.
pub record Usage : Type 0 where
  pub used : ℕ
  pub limit : ℕ

-- The interface `Policy`.
pub record Policy (Machine : Type 0) : Type 0 where
  pub admit : Machine → Bytes → List Bytes → Bool
  pub describe : Machine → Bytes

module _ {Machine : Type 0} where
  -- `all.Admit`
  unfoldable pub all_admit : List (Policy Machine) → Machine → Bytes → List Bytes → Bool
  all_admit [] m c running = true
  all_admit (p ∷ ps) m c running =
      let rest = all_admit ps m c running in if not (p.admit m c running) then false else rest

  -- The parts that `all.Describe` joins: those that say something.
  describe_parts : List (Policy Machine) → Machine → List Bytes
  describe_parts [] m = []
  describe_parts (p ∷ ps) m =
      let rest = describe_parts ps m in
      if not (p.describe m == []) then p.describe m ∷ rest else rest

  -- `all.Describe`
  unfoldable pub all_describe : List (Policy Machine) → Machine → Bytes
  unfolding describe_parts
  all_describe ps m = join (describe_parts ps m) (codes "; ")

  kept : List (Option (Policy Machine)) → List (Policy Machine)
  kept [] = []
  kept (none ∷ ps) = kept ps
  kept (some p ∷ ps) = p ∷ kept ps

  all_of : List (Policy Machine) → Option (Policy Machine)
  all_of [] = none
  all_of (p ∷ []) = some p
  all_of (p ∷ q ∷ ps) =
      some (record { admit = all_admit (p ∷ q ∷ ps); describe = all_describe (p ∷ q ∷ ps) })

  -- `All`
  unfoldable pub all : List (Option (Policy Machine)) → Option (Policy Machine)
  unfolding kept all_of all_admit all_describe
  all ps = all_of (kept ps)

  -- What a policy that may be nil answers.
  unfoldable pub admits : Option (Policy Machine) → Machine → Bytes → List Bytes → Bool
  admits none m c running = true
  admits (some p) m c running = p.admit m c running

pub record HeavyCap : Type 0 where
  pub heavy : Dict Bytes Bool
  pub max : ℕ

mark_all : List Bytes → Dict Bytes Bool → Dict Bytes Bool
mark_all [] m = m
mark_all (h ∷ hs) m = mark_all hs (insert h true m)

unfoldable pub new_heavy_cap : List Bytes → ℕ → Option HeavyCap
unfolding mark_all
new_heavy_cap [] max = none
new_heavy_cap (h ∷ hs) max =
    some (record { heavy = mark_all (h ∷ hs) []; max = if ltb max 1 then 1 else max })

-- `h.heavy[c]`
unfoldable pub is_heavy : HeavyCap → Bytes → Bool
is_heavy h c = read false c h.heavy

-- The loop that counts the heavy cases among those that run.
unfoldable pub heavy_running : HeavyCap → List Bytes → ℕ
heavy_running h [] = 0
heavy_running h (r ∷ rs) = let rest = heavy_running h rs in if is_heavy h r then suc rest else rest

-- `HeavyCap.Admit`
unfoldable pub heavy_admit : Option HeavyCap → Bytes → List Bytes → Bool
heavy_admit none c running = true
heavy_admit (some h) c running =
    if not (is_heavy h c) then true else ltb (heavy_running h running) h.max

-- `HeavyCap.Describe`
unfoldable pub heavy_describe : Option HeavyCap → Bytes
heavy_describe none = []
heavy_describe (some h) =
    codes "at most "
    ++ (decimal h.max
        ++ (codes " of the " ++ (decimal (length h.heavy) ++ codes " heaviest cases at once")))

pub record Headroom (Machine : Type 0) : Type 0 where
  pub usage : Machine → Usage
  pub percent : ℕ
  pub what : Bytes

-- The test of `Headroom.Admit` on a reading.
unfoldable pub below : Usage → ℕ → Bool
below u percent = if leb u.limit 0 then true else ltb (u.used * 100) (u.limit * percent)

joined_or : List Bytes → Bytes
joined_or [] = codes "the plan's order alone"
joined_or (p ∷ ps) = join (p ∷ ps) (codes ", ")

module _ {Machine : Type 0} where
  unfoldable pub new_headroom : Bytes → Option (Machine → Usage) → ℕ → Option (Headroom Machine)
  new_headroom what none percent = none
  new_headroom what (some usage) percent =
      if leb percent 0 || leb 100 percent
      then none
      else some (record { usage = usage; percent = percent; what = what })

  -- `Headroom.Admit`
  unfoldable pub headroom_admit : Option (Headroom Machine) → Machine → Bytes → List Bytes → Bool
  unfolding below
  headroom_admit none m c running = true
  headroom_admit (some h) m c running = below (h.usage m) h.percent

  -- `Headroom.Describe`
  unfoldable pub headroom_describe : Option (Headroom Machine) → Machine → Bytes
  headroom_describe none m = []
  headroom_describe (some h) m =
      if leb (h.usage m).limit 0
      then []
      else codes "start nothing new while "
        ++ (h.what ++ (codes " is over " ++ (decimal h.percent ++ codes "% full")))

  abbrev pub heavy_policy : Option HeavyCap → Policy Machine
  heavy_policy h = record {
    admit = λ m c running. heavy_admit h c running;
    describe = λ m. heavy_describe h;
  }

  abbrev pub headroom_policy : Option (Headroom Machine) → Policy Machine
  headroom_policy h = record { admit = headroom_admit h; describe = headroom_describe h }

  clause : Bytes → Option (Policy Machine) → Machine → List Bytes
  clause label none m = []
  clause label (some p) m = if p.describe m == [] then [] else (label ++ p.describe m) ∷ []

  -- `Describe`
  unfoldable pub describe : Option (Policy Machine) → Option (Policy Machine) → Machine → Bytes
  unfolding clause joined_or
  describe hard soft m =
      joined_or
        (clause (codes "always: ") hard m ++ clause (codes "while other work is left: ") soft m)

-- Durations are compared and never added here, so they stand as whole nanoseconds.
longer : Dict Bytes ℕ → Bytes → Bytes → Bool
longer took a b =
    let ta = read 0 a took in
    let tb = read 0 b took in if not (ta == tb) then ltb tb ta else bytes_ltb a b

-- `Heaviest`
unfoldable pub heaviest : Dict Bytes ℕ → ℕ → List Bytes
unfolding longer
heaviest took n =
    if ltb n 1 || length took == 0
    then []
    else (let names = sort (longer took) (map (λ e. e.0) took) in
        take (if ltb (length names) n then length names else n) names)
