-- ===== src/Dispatch/Invariant.antt =====
-- The invariant of a run without lanes, over distinct cases.
use cubrid_testkit.Prelude.{
  ℕ, suc, ◌+◌, ◌*◌, ◌≤◌, ◌<◌, ◌≡◌, ap, true, false, List, [], ◌∷◌, some, arith, Bytes, length,
  get_elem?, get_elem?-lt, Bool-cases, inl, inr, ◌==◌, nat_eq, bytes_eq, bytes_beq_iff, count,
  count_self, count-append, count-remove_at,
}
use cubrid_testkit.Prelude.Dict.{read, lookup-delete}
use cubrid_testkit.Dispatch.Lanes.{Ticket}
use cubrid_testkit.Dispatch.Queue.{Queue, window, take_at, start}
use cubrid_testkit.Dispatch.Claim.{Answer, given, depart, give_retry}
use cubrid_testkit.Dispatch.Window.{window-take_at}
use cubrid_testkit.Dispatch.Plain.{IsPlain, Outcome, first_ticket}
use cubrid_testkit.Dispatch.Run.{World, cases_of, answered}

-- How many attempts at a case the tickets are.
abbrev pub attempts : Bytes → List Ticket → ℕ
attempts c ts = count c (cases_of ts)

-- Every ticket's retry number is the count of the attempts at its case before it.
abbrev pub Numbered : List Ticket → Type 0
Numbered [] = Unit
Numbered (t ∷ ts) = (t.retry ≡ attempts t.test_case ts) × Numbered ts

-- What a ticket that is out says is what was handed out.
abbrev pub OutNumbered : List Ticket → List Ticket → Type 0
OutNumbered handed [] = Unit
OutNumbered handed (t ∷ ts) = (attempts t.test_case handed ≡ suc t.retry) × OutNumbered handed ts

-- A ticket for `c` goes out, and `c` was not out: the other tickets keep their numbers.
pub OutNumbered-other :
    (t : Ticket) (handed out : List Ticket)
    → attempts t.test_case out ≡ 0
    → OutNumbered handed out
    → OutNumbered (t ∷ handed) out
unfolding count
OutNumbered-other t handed [] h n = tt
OutNumbered-other t handed (u ∷ out) h n = (
  ground (arith, bytes_beq_iff t.test_case u.test_case, bytes_beq_iff u.test_case t.test_case),
  OutNumbered-other t handed out (ground arith) n.1,
)

module _ {Machine : Type 0} (cases : List Bytes) (max_retry : ℕ) where
  pub record Inv (w : World Machine) : Type 0 where
    pub plain : IsPlain w.queue
    pub bound : w.queue.max_retry ≡ max_retry
    pub flight : w.queue.in_flight ≡ length w.out
    pub balance :
        (c : Bytes)
        → count c cases
          ≡ count c (window w.queue)
            + attempts c w.out
            + count c w.queue.retry_queue
            + count c w.retired
    pub queued_waits :
        (c : Bytes) → read false c w.queue.queued ≡ true → 0 < count c w.queue.retry_queue
    pub running_out : (c : Bytes) → count c w.queue.running ≤ attempts c w.out
    pub fresh : (c : Bytes) → 0 < count c (window w.queue) → attempts c w.handed ≡ 0
    pub waiting :
        (c : Bytes)
        → 0 < count c w.queue.retry_queue
        → attempts c w.handed ≡ read 0 c w.queue.retry_count
    pub waiting_low :
        (c : Bytes) → 0 < count c w.queue.retry_queue → read 0 c w.queue.retry_count ≤ max_retry
    pub out_numbered : OutNumbered w.handed w.out
    pub numbered : Numbered w.handed
    pub bounded : (c : Bytes) → attempts c w.handed ≤ suc max_retry * count c cases

  module _ (distinct : (c : Bytes) → count c cases ≤ 1) where
    depart-Inv : (slot : Bytes) (w : World Machine) → Inv w → Inv (answered w (depart slot w.queue))
    unfolding answered depart
    depart-Inv slot w v = record {
      plain = record { laneless = v.plain.laneless; unheld = v.plain.unheld };
      bound = v.bound;
      flight = v.flight;
      balance = v.balance;
      queued_waits = v.queued_waits;
      running_out = v.running_out;
      fresh = v.fresh;
      waiting = v.waiting;
      waiting_low = v.waiting_low;
      out_numbered = v.out_numbered;
      numbered = v.numbered;
      bounded = v.bounded;
    }

    module _ (w : World Machine) (v : Inv w) (c : Bytes) (k : ℕ)
        (at : get_elem? (window w.queue) k ≡ some c) where
      taken_balance :
          (a : Bytes)
          → count a (window w.queue) ≡ count a (c ∷ window (take_at (w.queue.next + k) w.queue))
      taken_balance a =
          rw (window-take_at w.queue k (get_elem?-lt (window w.queue) k at))
            (count-remove_at a (window w.queue) k at)

      here : 0 < count c (window w.queue)
      here =
          omega (arith, taken_balance c, count_self c (window (take_at (w.queue.next + k) w.queue)))

      not_out :
          (attempts c w.out ≡ 0)
          × (count c w.queue.retry_queue ≡ 0)
          × (attempts c w.handed ≡ 0)
          × (count c cases ≡ 1)
      not_out = omega (arith, here, v.balance c, distinct c, v.fresh c here)

      first_bounded :
          (a : Bytes) → attempts a (first_ticket c ∷ w.handed) ≤ suc max_retry * count a cases
      unfolding count
      first_bounded a = elim (Bool-cases (c == a)) [
        | inl same ↦
            let e : c ≡ a = (bytes_beq_iff c a).0 same in
            let never : attempts a w.handed ≡ 0 = rw (← e) not_out.2 in
            let once : count a cases ≡ 1 = rw (← e) not_out.3 in
            rw same (rw (never, once) (omega arith))
        | inr other ↦ rw other (v.bounded a)
      ]

      first-Inv :
          Inv (answered w (start c (take_at (w.queue.next + k) w.queue), given (first_ticket c)))
      unfolding answered start take_at count
      first-Inv = record {
        plain = record { laneless = v.plain.laneless; unheld = v.plain.unheld };
        bound = v.bound;
        flight = omega (arith, v.flight);
        balance = λ a. ground (arith, v.balance a, taken_balance a);
        queued_waits = v.queued_waits;
        running_out = λ a. ground (arith, v.running_out a, count-append a w.queue.running (c ∷ []));
        fresh = λ a p. ground (
          arith,
          v.fresh a,
          taken_balance a,
          not_out,
          v.balance a,
          distinct a,
          bytes_beq_iff c a,
        );
        waiting = λ a p. ground (arith, v.waiting a p, not_out, bytes_beq_iff c a);
        waiting_low = v.waiting_low;
        out_numbered = (
          ground (arith, not_out, bytes_beq_iff c c),
          OutNumbered-other (first_ticket c) w.handed w.out not_out.0 v.out_numbered,
        );
        numbered = (omega (arith, not_out), v.numbered);
        bounded = first_bounded;
      }

    module _ (w : World Machine) (v : Inv w) (c : Bytes) (rest : List Bytes)
        (rq : w.queue.retry_queue ≡ c ∷ rest) where
      abbrev retry_ticket : Ticket
      retry_ticket = record { test_case = c; retry = read 0 c w.queue.retry_count }

      waiting_count : (a : Bytes) → count a w.queue.retry_queue ≡ count a (c ∷ rest)
      waiting_count a = ap (count a) rq

      alone :
          (attempts c w.out ≡ 0)
          × (count c rest ≡ 0)
          × (count c cases ≡ 1)
          × (attempts c w.handed ≡ read 0 c w.queue.retry_count)
          × (read 0 c w.queue.retry_count ≤ max_retry)
      alone =
          let waits : 0 < count c w.queue.retry_queue =
            omega (arith, waiting_count c, count_self c rest) in
          omega (
            arith,
            v.balance c,
            distinct c,
            waiting_count c,
            count_self c rest,
            v.waiting c waits,
            v.waiting_low c waits,
          )

      retry_bounded :
          (a : Bytes) → attempts a (retry_ticket ∷ w.handed) ≤ suc max_retry * count a cases
      unfolding count
      retry_bounded a = elim (Bool-cases (c == a)) [
        | inl same ↦
            let e : c ≡ a = (bytes_beq_iff c a).0 same in
            let low : attempts a w.handed ≤ max_retry = rw (← e) (omega (arith, alone)) in
            let once : count a cases ≡ 1 = rw (← e) alone.2 in
            rw same (rw once (omega (arith, low)))
        | inr other ↦ rw other (v.bounded a)
      ]

      retry-Inv : Inv (answered w (give_retry c (record (w.queue) { retry_queue = rest })))
      unfolding answered give_retry count
      retry-Inv = record {
        plain = record { laneless = v.plain.laneless; unheld = v.plain.unheld };
        bound = v.bound;
        flight = omega (arith, v.flight);
        balance = λ a. ground (arith, v.balance a, waiting_count a);
        queued_waits = λ a h. ground (
          arith,
          v.queued_waits a,
          waiting_count a,
          lookup-delete c a w.queue.queued,
          bytes_beq_iff c a,
        );
        running_out = λ a. ground (arith, v.running_out a);
        fresh = λ a p.
            ground (
              arith,
              v.fresh a,
              alone,
              v.balance a,
              distinct a,
              waiting_count a,
              bytes_beq_iff c a,
            );
        waiting = λ a p. ground (arith, v.waiting a, alone, waiting_count a, bytes_beq_iff c a);
        waiting_low = λ a p. ground (arith, v.waiting_low a, waiting_count a);
        out_numbered = (
          ground (arith, alone, bytes_beq_iff c c),
          OutNumbered-other retry_ticket w.handed w.out alone.0 v.out_numbered,
        );
        numbered = (omega (arith, alone), v.numbered);
        bounded = retry_bounded;
      }

    pub Outcome-Inv :
        (m : Machine) (slot : Bytes) (w : World Machine) (r : Queue Machine × Answer)
        → Inv w
        → Outcome m slot w.queue r
        → Inv (answered w r)
    Outcome-Inv m slot w r v (Outcome.ends s e) = rw e (unfold answered in v)
    Outcome-Inv m slot w r v (Outcome.waits a b e) = rw e (unfold answered in v)
    Outcome-Inv m slot w r v (Outcome.departs a b e) = rw e (depart-Inv slot w v)
    Outcome-Inv m slot w r v (Outcome.first c k g why e) = rw e (first-Inv w v c k g)
    Outcome-Inv m slot w r v (Outcome.retries c rest empty idle rq e) =
        rw e (retry-Inv w v c rest rq)
