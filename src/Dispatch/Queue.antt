-- ===== src/Dispatch/Queue.antt =====
-- internal/dispatch/dispatch.go: the queue's state, and what changes it outside of a claim. A method
-- that changes `*Queue` returns the new record; the mutex makes each method one step. `cases` is the
-- slice in place: the waiting cases are those from `next` on. The counts are ints that never go
-- below 0, and `maxRetry` is not negative.
use cubrid_testkit.Prelude.{
  ℕ, suc, ◌+◌, ◌-◌, Bool, true, false, not, ◌&&◌, List, [], ◌∷◌, ◌++◌, Option, none, some, ◌==◌,
  nat_eq, bytes_eq, if◌then◌else◌, Bytes, length, take, drop, replicate,
}
use cubrid_testkit.Prelude.Dict.{Dict, insert, read}
use cubrid_testkit.Dispatch.Admission.{Policy, admits}
use cubrid_testkit.Dispatch.Lanes.{Lane, lane_any, lane_fast, lane_eq, dir_of}

pub record Queue (Machine : Type 0) : Type 0 where
  pub cases : List Bytes
  pub next : ℕ
  pub max_retry : ℕ
  pub retry_queue : List Bytes
  pub retry_count : Dict Bytes ℕ
  pub queued : Dict Bytes Bool
  pub stopped : Bool
  pub in_flight : ℕ
  pub departed : Dict Bytes Bool
  pub hard : Option (Policy Machine)
  pub soft : Option (Policy Machine)
  pub running : List Bytes
  pub lane_of : Dict Bytes Lane
  pub owner : Dict Bytes Bytes
  pub held : Dict Bytes (List Bytes)
  pub taken : List Bool
  pub cursor : Dict Lane ℕ
  pub lanes : Bool

-- `New`
unfoldable pub new : {Machine : Type 0} → List Bytes → ℕ → Queue Machine
new cases max_retry = record {
  cases = cases;
  next = 0;
  max_retry = max_retry;
  retry_queue = [];
  retry_count = [];
  queued = [];
  stopped = false;
  in_flight = 0;
  departed = [];
  hard = none;
  soft = none;
  running = [];
  lane_of = [];
  owner = [];
  held = [];
  taken = replicate (length cases) false;
  cursor = [];
  lanes = false;
}

-- The loop of `Assign`, over the map's entries.
unfoldable pub assign_all : Dict Bytes Lane → Dict Bytes Lane → Dict Bytes Lane
assign_all [] m = m
assign_all ((dir, lane) ∷ rest) m = assign_all rest (insert dir lane m)

-- The loop over `q.running` in `stop`: the first occurrence goes.
unfoldable pub remove_first : Bytes → List Bytes → List Bytes
remove_first c [] = []
remove_first c (r ∷ rs) = if r == c then rs else r ∷ remove_first c rs

-- The first case from index `i` on that both policies admit, and its index.
unfoldable pub scan_policy :
    {Machine : Type 0}
    → Machine
    → Option (Policy Machine)
    → Option (Policy Machine)
    → List Bytes
    → ℕ
    → List Bytes
    → Option (Bytes × ℕ)
scan_policy m p q running i [] = none
scan_policy m p q running i (c ∷ cs) =
    let rest = scan_policy m p q running (suc i) cs in
    if admits p m c running && admits q m c running then some (c, i) else rest

abbrev pub or_else : Option (Bytes × ℕ) → Option (Bytes × ℕ) → Option (Bytes × ℕ)
or_else none other = other
or_else (some a) other = some a

module _ {Machine : Type 0} where
  -- `Assign`
  unfoldable pub assign : Dict Bytes Lane → Queue Machine → Queue Machine
  unfolding assign_all
  assign by_dir q =
      if length by_dir == 0
      then q
      else record q { lane_of = assign_all by_dir q.lane_of; lanes = true }

  -- `Affinity`
  unfoldable pub affinity : Queue Machine → Queue Machine
  affinity q = record q { lanes = true }

  -- `Policy`
  unfoldable pub set_policy :
      Option (Policy Machine) → Option (Policy Machine) → Queue Machine → Queue Machine
  set_policy hard soft q = record q { hard = hard; soft = soft }

  -- `LaneOfCase`
  unfoldable pub lane_of_case : Bytes → Queue Machine → Lane
  lane_of_case path q = if not q.lanes then lane_any else read lane_fast (dir_of path) q.lane_of

  unfoldable pub total : Queue Machine → ℕ
  total q = length q.cases

  -- The waiting cases.
  abbrev pub window : Queue Machine → List Bytes
  window q = drop q.next q.cases

  unfoldable pub last_resort : Queue Machine → List Bytes → Option (Bytes × ℕ)
  last_resort q [] = none
  last_resort q (c ∷ cs) = if length q.running == 0 then some (c, q.next) else none

  -- `admissible`: both rules, then the constraint alone, then anything if nothing runs.
  unfoldable pub admissible : Machine → Queue Machine → Option (Bytes × ℕ)
  unfolding last_resort scan_policy
  admissible m q =
      or_else (scan_policy m q.hard q.soft q.running q.next (window q))
        (or_else (scan_policy m q.hard none q.running q.next (window q)) (last_resort q (window q)))

  -- `take`: the cases before `i` move up by one, over the place of the one that is taken.
  unfoldable pub take_at : ℕ → Queue Machine → Queue Machine
  take_at i q = record q {
    cases =
        if i == q.next
        then q.cases
        else take (q.next + 1) q.cases
          ++ (take (i - q.next) (drop q.next q.cases) ++ drop (i + 1) q.cases);
    next = q.next + 1;
  }

  -- `start`
  unfoldable pub start : Bytes → Queue Machine → Queue Machine
  start c q = record q { in_flight = q.in_flight + 1; running = q.running ++ c ∷ [] }

  -- `stop`
  unfoldable pub stop_case : Bytes → Queue Machine → Queue Machine
  unfolding remove_first
  stop_case c q = record q { running = remove_first c q.running }

  -- `laneMatch`
  unfoldable pub lane_match : Queue Machine → Bytes → Lane → Bool
  lane_match q path lane_any = true
  lane_match q path want = read lane_fast (dir_of path) q.lane_of == want
