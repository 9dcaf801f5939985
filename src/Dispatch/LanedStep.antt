-- ===== src/Dispatch/LanedStep.antt =====
-- With lanes: a first attempt, and every claim, keeps the invariant.
use cubrid_testkit.Prelude.{
  ℕ, suc, ◌+◌, ◌*◌, ◌≤◌, ◌<◌, ◌≡◌, ap, sym, ◌∙◌, false, List, [], ◌∷◌, ◌++◌, some, arith, Bytes,
  length, get_elem?, get_elem?-drop, drop, Bool-cases, inl, inr, ◌==◌, nat_eq, bytes_eq,
  bytes_beq_iff, count, count_self, count-append, if◌then◌else◌,
}
use cubrid_testkit.Prelude.Dict.{Dict, read, insert}
use cubrid_testkit.Dispatch.Lanes.{Lane, dir_of, lane_eq}
use cubrid_testkit.Dispatch.Queue.{Queue, start, lane_match}
use cubrid_testkit.Dispatch.Claim.{Answer, given, depart, take_dir, hold_siblings}
use cubrid_testkit.Dispatch.Plain.{first_ticket}
use cubrid_testkit.Dispatch.LanedClaim.{LanedOutcome, passed}
use cubrid_testkit.Dispatch.Holding.{
  held_count, held_count-insert, first_retry-count, find_free-at, hold_siblings-count, free-take,
}
use cubrid_testkit.Dispatch.Run.{World, answered}
use cubrid_testkit.Dispatch.Invariant.{attempts, OutNumbered-other}
use cubrid_testkit.Dispatch.LanedInvariant.{LanedInv, open_cases, kept, give-LanedInv}

held_with :
    (a slot : Bytes) (held : Dict Bytes (List Bytes)) (xs : List Bytes)
    → read [] slot held ≡ []
    → held_count a (if length xs == 0 then held else insert slot (read [] slot held ++ xs) held)
      ≡ held_count a held + count a xs
unfolding count
held_with a slot held [] e = omega arith
held_with a slot held (x ∷ xs) e = ground (
  arith,
  held_count-insert a slot (read [] slot held ++ x ∷ xs) held,
  count-append a (read [] slot held) (x ∷ xs),
  ap (count a) e,
)

module _ {Machine : Type 0} (cases : List Bytes) (max_retry : ℕ) where
  module _ (distinct : (c : Bytes) → count c cases ≤ 1) where
    -- A first attempt: the case leaves the open ones, and its siblings are held.
    module _ (w : World Machine) (v : LanedInv cases max_retry w) (slot : Bytes) (lane : Lane)
        (c : Bytes) (i : ℕ) (empty : read [] slot w.queue.held ≡ [])
        (case_at : get_elem? w.queue.cases i ≡ some c)
        (open_at : get_elem? w.queue.taken i ≡ some false) where
      siblings : List Bytes
      siblings =
          (hold_siblings (dir_of c) (drop (i + 1) w.queue.cases) (drop (i + 1) w.queue.taken)).1

      taken_balance :
          (a : Bytes)
          → count a (open_cases (take_dir slot lane c i w.queue)) + count a (c ∷ siblings)
            ≡ count a (open_cases w.queue)
      unfolding take_dir siblings count
      taken_balance a =
          let next : i + 1 ≡ suc i = omega arith in
          rw next (
            free-take w.queue.cases w.queue.taken i c a _ _ case_at open_at (
              hold_siblings-count (dir_of c) (drop (suc i) w.queue.cases)
                (drop (suc i) w.queue.taken) a))

      held_balance :
          (a : Bytes)
          → held_count a (take_dir slot lane c i w.queue).held
            ≡ held_count a w.queue.held + count a siblings
      unfolding take_dir siblings
      held_balance a = held_with a slot w.queue.held siblings empty

      here : 0 < count c (open_cases w.queue)
      here = omega (arith, taken_balance c, count_self c siblings)

      not_kept :
          (attempts c w.out ≡ 0)
          × (kept c w.queue ≡ 0)
          × (attempts c w.handed ≡ 0)
          × (count c cases ≡ 1)
          × (count c siblings ≡ 0)
      not_kept = omega (
        arith,
        here,
        v.balance c,
        distinct c,
        v.fresh c here,
        taken_balance c,
        count_self c siblings,
      )

      first_bounded :
          (a : Bytes) → attempts a (first_ticket c ∷ w.handed) ≤ suc max_retry * count a cases
      unfolding count
      first_bounded a = elim (Bool-cases (c == a)) [
        | inl same ↦
            let e : c ≡ a = (bytes_beq_iff c a).0 same in
            let never : attempts a w.handed ≡ 0 = rw (← e) not_kept.2 in
            let once : count a cases ≡ 1 = rw (← e) not_kept.3 in
            rw same (rw (never, once) (omega arith))
        | inr other ↦ rw other (v.bounded a)
      ]

      first-LanedInv :
          LanedInv cases max_retry
            (answered w (start c (take_dir slot lane c i w.queue), given (first_ticket c)))
      unfolding answered start count take_dir siblings
      first-LanedInv = record {
        laned = v.laned;
        bound = v.bound;
        flight = omega (arith, v.flight);
        balance = λ a. ground (arith, v.balance a, taken_balance a, held_balance a);
        queued_waits = λ a h. ground (arith, v.queued_waits a h, held_balance a);
        fresh = λ a p. ground (
          arith,
          v.fresh a,
          taken_balance a,
          not_kept,
          v.balance a,
          distinct a,
          bytes_beq_iff c a,
        );
        uncounted = λ a p. ground (arith, v.uncounted a, taken_balance a);
        waiting = λ a p. ground (
          arith,
          v.waiting a,
          v.fresh a,
          v.uncounted a,
          taken_balance a,
          held_balance a,
          not_kept,
          bytes_beq_iff c a,
        );
        waiting_low = λ a p. ground (
          arith,
          v.waiting_low a,
          v.uncounted a,
          taken_balance a,
          held_balance a,
          bytes_beq_iff c a,
        );
        out_numbered = (
          ground (arith, not_kept, bytes_beq_iff c c),
          OutNumbered-other (first_ticket c) w.handed w.out not_kept.0 v.out_numbered,
        );
        numbered = (omega (arith, not_kept), v.numbered);
        bounded = first_bounded;
      }

    depart-LanedInv :
        (slot : Bytes) (lane : Lane) (w : World Machine)
        → LanedInv cases max_retry w
        → LanedInv cases max_retry (answered w (depart slot (passed lane w.queue)))
    unfolding answered depart
    depart-LanedInv slot lane w v = record {
      laned = v.laned;
      bound = v.bound;
      flight = v.flight;
      balance = v.balance;
      queued_waits = v.queued_waits;
      fresh = v.fresh;
      uncounted = v.uncounted;
      waiting = v.waiting;
      waiting_low = v.waiting_low;
      out_numbered = v.out_numbered;
      numbered = v.numbered;
      bounded = v.bounded;
    }

    pub LanedOutcome-LanedInv :
        (slot : Bytes) (lane : Lane) (w : World Machine) (r : Queue Machine × Answer)
        → LanedInv cases max_retry w
        → LanedOutcome slot lane w.queue r
        → LanedInv cases max_retry (answered w r)
    LanedOutcome-LanedInv slot lane w r v (LanedOutcome.ends s e) = rw e (unfold answered in v)
    LanedOutcome-LanedInv slot lane w r v (LanedOutcome.departs a nothing e) =
        rw e (depart-LanedInv slot lane w v)
    LanedOutcome-LanedInv slot lane w r v (LanedOutcome.held_next c rest h e) = rw e (
        give-LanedInv cases max_retry distinct w v c (insert slot rest w.queue.held)
          w.queue.retry_queue w.queue.cursor
          (λ a. omega (
            arith,
            held_count-insert a slot rest w.queue.held,
            ap (count a) h,
            count-append a (c ∷ []) rest,
          )))
    LanedOutcome-LanedInv slot lane w r v (LanedOutcome.retries c rest nothing f idle e) = rw e (
        give-LanedInv cases max_retry distinct w v c w.queue.held rest
          (insert lane (length w.queue.cases) w.queue.cursor)
          (λ a. omega (
            arith,
            first_retry-count _ w.queue.retry_queue c rest a f,
            count-append a (c ∷ []) rest,
          )))
    LanedOutcome-LanedInv slot lane w r v (LanedOutcome.first c i h f e) =
        let from = read 0 lane w.queue.cursor in
        let (k, at, g, n, fit) =
          find_free-at (λ d. lane_match w.queue d lane) from (drop from w.queue.cases)
            (drop from w.queue.taken) c i f in
        let i≡ : from + k ≡ i = sym at in
        rw e (
          first-LanedInv w v slot lane c i h
            (sym (ap (get_elem? w.queue.cases) i≡) ∙ sym (get_elem?-drop from k w.queue.cases) ∙ g)
            (sym (ap (get_elem? w.queue.taken) i≡) ∙ sym (get_elem?-drop from k w.queue.taken) ∙ n))
