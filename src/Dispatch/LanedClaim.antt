-- ===== src/Dispatch/LanedClaim.antt =====
-- A claim on a queue with lanes: its outcomes.
use cubrid_testkit.Prelude.{
  ℕ, ◌≡◌, refl, true, not, ◌||◌, List, [], ◌∷◌, Option, none, some, arith, Bytes, length, drop,
  Bool-cases, Option-cases, inl, inr, ◌==◌, nat_eq, bytes_eq,
}
use cubrid_testkit.Prelude.Dict.{insert, read}
use cubrid_testkit.Dispatch.Lanes.{Lane, lane_eq}
use cubrid_testkit.Dispatch.Queue.{Queue, start, lane_match}
use cubrid_testkit.Dispatch.Claim.{
  Answer, given, over, find_free, first_retry, take_dir, scan, depart, give_retry, retried,
  claim_retry, claim_laned, claim_held, claim_once,
}
use cubrid_testkit.Dispatch.Plain.{first_ticket}

module _ {Machine : Type 0} where
  -- What the scan finds.
  abbrev pub next_open : Lane → Queue Machine → Option (Bytes × ℕ)
  next_open lane q =
      let from = read 0 lane q.cursor in
      find_free (λ d. lane_match q d lane) from (drop from q.cases) (drop from q.taken)

  -- The queue after a scan that found nothing.
  abbrev pub passed : Lane → Queue Machine → Queue Machine
  passed lane q = record q { cursor = insert lane (length q.cases) q.cursor }

  pub data LanedOutcome (slot : Bytes) (lane : Lane) (q : Queue Machine)
      (r : Queue Machine × Answer) : Type 0 where
    ends : q.stopped ≡ true → r ≡ (q, over) → LanedOutcome slot lane q r
    held_next :
        (c : Bytes) (rest : List Bytes)
        → read [] slot q.held ≡ c ∷ rest
        → r ≡ give_retry c (record q { held = insert slot rest q.held })
        → LanedOutcome slot lane q r
    first :
        (c : Bytes) (i : ℕ)
        → read [] slot q.held ≡ []
        → next_open lane q ≡ some (c, i)
        → r ≡ (start c (take_dir slot lane c i q), given (first_ticket c))
        → LanedOutcome slot lane q r
    retries :
        (c : Bytes) (rest : List Bytes)
        → next_open lane q ≡ none
        → first_retry (λ d. not q.lanes || lane_match q d lane) q.retry_queue ≡ some (c, rest)
        → q.in_flight ≡ 0
        → r
          ≡ give_retry c
              (record q { cursor = insert lane (length q.cases) q.cursor; retry_queue = rest })
        → LanedOutcome slot lane q r
    departs :
        read [] slot q.held ≡ []
        → next_open lane q ≡ none
        → r ≡ depart slot (passed lane q)
        → LanedOutcome slot lane q r

  module _ (m : Machine) (slot : Bytes) (lane : Lane) (q : Queue Machine)
      (laned : q.lanes ≡ true) where
    retry-LanedOutcome :
        read [] slot q.held ≡ []
        → next_open lane q ≡ none
        → LanedOutcome slot lane q (claim_retry slot lane (passed lane q))
    unfolding claim_retry lane_match
    retry-LanedOutcome empty nothing = elim (Bool-cases (q.in_flight == 0)) [
      | inr busy ↦ rw busy (departs empty nothing refl)
      | inl idle ↦ rw idle (
          go (ground arith) (first_retry (λ d. not q.lanes || lane_match q d lane) q.retry_queue)
            refl)
    ]
      where
        go :
            q.in_flight ≡ 0
            → (o : Option (Bytes × List Bytes))
            → first_retry (λ d. not q.lanes || lane_match q d lane) q.retry_queue ≡ o
            → LanedOutcome slot lane q (retried slot (passed lane q) o)
        go idle none e = departs empty nothing refl
        go idle (some (c, rest)) e = retries c rest nothing e idle refl

    laned-LanedOutcome :
        read [] slot q.held ≡ [] → LanedOutcome slot lane q (claim_laned slot lane q)
    unfolding claim_laned scan
    laned-LanedOutcome empty = elim (Option-cases (next_open lane q)) [
      | inl nothing ↦ rw nothing (retry-LanedOutcome empty nothing)
      | inr ((c, i), found) ↦ rw found (first c i empty found refl)
    ]

    held-LanedOutcome :
        (xs : List Bytes)
        → read [] slot q.held ≡ xs
        → LanedOutcome slot lane q (claim_held m slot lane q xs)
    unfolding claim_held
    held-LanedOutcome [] e = simp laned (laned-LanedOutcome e)
    held-LanedOutcome (c ∷ rest) e = held_next c rest e refl

    pub claim-LanedOutcome : LanedOutcome slot lane q (claim_once m slot lane q)
    unfolding claim_once
    claim-LanedOutcome = elim (Bool-cases q.stopped) [
      | inl s ↦ simp s (ends s refl)
      | inr s ↦ simp s (held-LanedOutcome (read [] slot q.held) refl)
    ]
