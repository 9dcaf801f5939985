-- ===== src/Dispatch/Plain.antt =====
-- A claim on a queue without lanes: its five outcomes.
use cubrid_testkit.Prelude.{
  ℕ, ◌+◌, ◌≡◌, refl, ap, ltb→lt, Bool, true, false, not, ◌||◌, List, [], ◌∷◌, some, arith, Bytes,
  length, drop-ne-nil, drop-eq-nil, get_elem?, Bool-cases, Option-cases, inl, inr, ◌⊎◌, ◌≢◌, ltb,
  ◌==◌, nat_eq,
}
use cubrid_testkit.Prelude.Dict.{lookup}
use cubrid_testkit.Dispatch.Lanes.{Lane, Ticket}
use cubrid_testkit.Dispatch.Queue.{Queue, window, admissible, take_at, start, lane_match}
use cubrid_testkit.Dispatch.Claim.{
  Answer, given, over, again, first_retry, depart, give_retry, retried, claim_retry, claim_plain,
  claim_once,
}
use cubrid_testkit.Dispatch.Window.{Choice, admissible-Choice, admissible-none}

abbrev pub first_ticket : Bytes → Ticket
first_ticket c = record { test_case = c; retry = 0 }

first_retry_head :
    (fits : Bytes → Bool) (c : Bytes) (cs : List Bytes)
    → fits c ≡ true
    → first_retry fits (c ∷ cs) ≡ some (c, cs)
unfolding first_retry
first_retry_head fits c cs h = ground arith

module _ {Machine : Type 0} where
  -- No lanes, and so nothing held.
  pub record IsPlain (q : Queue Machine) : Type 0 where
    pub laneless : q.lanes ≡ false
    pub unheld : q.held ≡ []

  pub data Outcome (m : Machine) (slot : Bytes) (q : Queue Machine) (r : Queue Machine × Answer)
      : Type 0 where
    ends : q.stopped ≡ true → r ≡ (q, over) → Outcome m slot q r
    first :
        (c : Bytes) (k : ℕ)
        → get_elem? (window q) k ≡ some c
        → Choice m q c k
        → r ≡ (start c (take_at (q.next + k) q), given (first_ticket c))
        → Outcome m slot q r
    waits : window q ≢ [] → q.running ≢ [] → r ≡ (q, again) → Outcome m slot q r
    retries :
        (c : Bytes) (rest : List Bytes)
        → window q ≡ []
        → q.in_flight ≡ 0
        → q.retry_queue ≡ c ∷ rest
        → r ≡ give_retry c (record q { retry_queue = rest })
        → Outcome m slot q r
    departs :
        window q ≡ []
        → (q.in_flight ≢ 0) ⊎ (q.retry_queue ≡ [])
        → r ≡ depart slot q
        → Outcome m slot q r

  module _ (m : Machine) (slot : Bytes) (lane : Lane) (q : Queue Machine) (plain : IsPlain q) where
    retry-Outcome : window q ≡ [] → Outcome m slot q (claim_retry slot lane q)
    unfolding claim_retry
    retry-Outcome w = elim (Bool-cases (q.in_flight == 0)) [
      | inr busy ↦ rw busy (departs w (inl (ground arith)) refl)
      | inl idle ↦
          let idle' : q.in_flight ≡ 0 = ground arith in simp idle (go idle' q.retry_queue refl)
    ]
      where
        go :
            q.in_flight ≡ 0
            → (rq : List Bytes) → q.retry_queue ≡ rq
            → Outcome m slot q
                (retried slot q (first_retry (λ c. not q.lanes || lane_match q c lane) rq))
        go idle [] e = departs w (inr e) refl
        go idle (c ∷ rest) e =
            let fits : (not q.lanes || lane_match q c lane) ≡ true =
              ground (arith, plain.laneless) in
            rw (first_retry_head (λ d. not q.lanes || lane_match q d lane) c rest fits)
              (retries c rest w idle e refl)

    plain-Outcome : Outcome m slot q (claim_plain m slot lane q)
    unfolding claim_plain
    plain-Outcome = elim (Option-cases (admissible m q)) [
      | inr ((c, at), found) ↦
          let (k, e, g, why) = admissible-Choice m q {c = c} {at = at} found in
          rw found (first c k g why (ap (λ j. (start c (take_at j q), given (first_ticket c))) e))
      | inl missed ↦ rw missed (elim (Bool-cases (ltb q.next (length q.cases))) [
        | inl more ↦
            let w : window q ≢ [] = drop-ne-nil q.next q.cases (ltb→lt _ _ more) in
            rw more (waits w (admissible-none m q missed w) refl)
        | inr done ↦ rw done (retry-Outcome (drop-eq-nil q.next q.cases (ground arith)))
      ])
    ]

    pub claim-Outcome : Outcome m slot q (claim_once m slot lane q)
    unfolding claim_once lookup
    claim-Outcome = elim (Bool-cases q.stopped) [
      | inl s ↦ simp s (ends s refl)
      | inr s ↦ simp (s, plain.unheld, lookup) (simp plain.laneless plain-Outcome)
    ]
