-- ===== src/Dispatch/Claim.antt =====
-- internal/dispatch/dispatch.go: `claimOnce` and the scan by directory.
use cubrid_testkit.Prelude.{
  ℕ, suc, ◌+◌, Bool, true, false, not, ◌&&◌, ◌||◌, List, [], ◌∷◌, ◌++◌, Option, none, some, ltb,
  ◌==◌, nat_eq, bytes_eq, if◌then◌else◌, Bytes, length, take, drop,
}
use cubrid_testkit.Prelude.Dict.{insert, delete, read}
use cubrid_testkit.Dispatch.Lanes.{Lane, lane_eq, Ticket, dir_of}
use cubrid_testkit.Dispatch.Queue.{Queue, admissible, take_at, start, lane_match}

-- What `claimOnce` returns: a ticket, the end of the run for this claimant, or "ask again".
pub data Answer : Type 0 where
  given : Ticket → Answer
  over again : Answer

-- The first case from index `i` on that is not taken and that `fits` the lane.
unfoldable pub find_free : (Bytes → Bool) → ℕ → List Bytes → List Bool → Option (Bytes × ℕ)
find_free fits i (c ∷ cs) (t ∷ ts) =
    let rest = find_free fits (suc i) cs ts in if t || not (fits c) then rest else some (c, i)
find_free fits i _ _ = none

-- The loop over the siblings: those that are not taken are marked, and listed in order.
unfoldable pub hold_siblings : Bytes → List Bytes → List Bool → List Bool × List Bytes
hold_siblings dir (c ∷ cs) (t ∷ ts) =
    let (marks, siblings) = hold_siblings dir cs ts in
    if not t && dir_of c == dir then (true ∷ marks, c ∷ siblings) else (t ∷ marks, siblings)
hold_siblings dir _ ts = (ts, [])

-- The loop over `q.retryQueue`: the first case that fits the lane, and the others.
unfoldable pub first_retry : (Bytes → Bool) → List Bytes → Option (Bytes × List Bytes)
first_retry fits [] = none
first_retry fits (c ∷ cs) = elim (fits c) [
  | true ↦ some (c, cs)
  | false ↦ elim (first_retry fits cs) [ none ↦ none | some (d, rest) ↦ some (d, c ∷ rest) ]
]

module _ {Machine : Type 0} where
  -- What `scan` does with the case it found.
  unfoldable pub take_dir : Bytes → Lane → Bytes → ℕ → Queue Machine → Queue Machine
  take_dir slot lane c i q =
      let (marks, siblings) =
        hold_siblings (dir_of c) (drop (i + 1) q.cases) (drop (i + 1) q.taken) in
      record q {
        taken = take i q.taken ++ true ∷ marks;
        cursor = insert lane (i + 1) q.cursor;
        owner = insert (dir_of c) slot q.owner;
        held =
            if length siblings == 0
            then q.held
            else insert slot (read [] slot q.held ++ siblings) q.held;
      }

  unfoldable pub scanned :
      Bytes → Lane → Queue Machine → Option (Bytes × ℕ) → Queue Machine × Option Bytes
  scanned slot lane q none = (record q { cursor = insert lane (length q.cases) q.cursor }, none)
  scanned slot lane q (some (c, i)) = (take_dir slot lane c i q, some c)

  -- `scan`
  unfoldable pub scan : Bytes → Lane → Queue Machine → Queue Machine × Option Bytes
  unfolding scanned find_free
  scan slot lane q =
      let from = read 0 lane q.cursor in
      scanned slot lane q
        (find_free (λ c. lane_match q c lane) from (drop from q.cases) (drop from q.taken))

  unfoldable pub depart : Bytes → Queue Machine → Queue Machine × Answer
  depart slot q = (record q { departed = insert slot true q.departed }, over)

  -- The ticket of a case that is held or retried: it leaves `queued` and goes out.
  unfoldable pub give_retry : Bytes → Queue Machine → Queue Machine × Answer
  give_retry c q = (
    record q { queued = delete c q.queued; in_flight = q.in_flight + 1 },
    given (record { test_case = c; retry = read 0 c q.retry_count }),
  )

  unfoldable pub retried :
      Bytes → Queue Machine → Option (Bytes × List Bytes) → Queue Machine × Answer
  retried slot q none = depart slot q
  retried slot q (some (c, rest)) = give_retry c (record q { retry_queue = rest })

  -- The end of `claimOnce`: a retry if nothing runs, or the claimant departs.
  unfoldable pub claim_retry : Bytes → Lane → Queue Machine → Queue Machine × Answer
  unfolding first_retry retried
  claim_retry slot lane q =
      if q.in_flight == 0
      then retried slot q (first_retry (λ c. not q.lanes || lane_match q c lane) q.retry_queue)
      else depart slot q

  unfoldable pub first_pass :
      Machine → Bytes → Lane → Queue Machine → Option (Bytes × ℕ) → Queue Machine × Answer
  first_pass m slot lane q (some (c, at)) =
      (start c (take_at at q), given (record { test_case = c; retry = 0 }))
  first_pass m slot lane q none =
      if ltb q.next (length q.cases) then (q, again) else claim_retry slot lane q

  -- The first pass without lanes: in the policies' order.
  unfoldable pub claim_plain : Machine → Bytes → Lane → Queue Machine → Queue Machine × Answer
  unfolding first_pass
  claim_plain m slot lane q = first_pass m slot lane q (admissible m q)

  unfoldable pub laned : Bytes → Lane → Queue Machine × Option Bytes → Queue Machine × Answer
  laned slot lane (q, some c) = (start c q, given (record { test_case = c; retry = 0 }))
  laned slot lane (q, none) = claim_retry slot lane q

  -- The first pass with lanes: a directory at a time.
  unfoldable pub claim_laned : Bytes → Lane → Queue Machine → Queue Machine × Answer
  unfolding laned
  claim_laned slot lane q = laned slot lane (scan slot lane q)

  unfoldable pub claim_held :
      Machine → Bytes → Lane → Queue Machine → List Bytes → Queue Machine × Answer
  claim_held m slot lane q [] =
      if not q.lanes then claim_plain m slot lane q else claim_laned slot lane q
  claim_held m slot lane q (c ∷ rest) = give_retry c (record q { held = insert slot rest q.held })

  -- `claimOnce`
  unfoldable pub claim_once : Machine → Bytes → Lane → Queue Machine → Queue Machine × Answer
  unfolding claim_held claim_plain claim_laned
  claim_once m slot lane q =
      if q.stopped then (q, over) else claim_held m slot lane q (read [] slot q.held)
