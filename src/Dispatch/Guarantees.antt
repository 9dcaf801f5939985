-- ===== src/Dispatch/Guarantees.antt =====
-- What holds of every run of a queue without lanes over distinct cases, whatever the workers do and
-- whatever the policies answer.
use cubrid_testkit.Prelude.{
  ℕ, suc, ◌+◌, ◌*◌, ◌≤◌, ◌<◌, ◌≡◌, refl, sym, ap, true, false, List, [], ◌∷◌, arith, ◌∙◌, Bytes,
  length, nil_of_length, nil_of_counts, length_of_counts, length-map, drop-eq-nil, drop-ne-nil, leb,
  ltb→lt, leb→le, Bool-cases, inl, inr, ◌⊎◌, ◌≢◌, ltb, nat_eq, bytes_eq, count,
}
use mathlib.Core.Bool.{false≢true}
use cubrid_testkit.Prelude.Dict.{lookup, read}
use cubrid_testkit.Dispatch.Lanes.{Lane, Ticket}
use cubrid_testkit.Dispatch.Queue.{Queue, window, new, set_policy}
use cubrid_testkit.Dispatch.Claim.{Answer, given, again, claim_once, depart, give_retry}
use cubrid_testkit.Dispatch.Complete.{stop, finished}
use cubrid_testkit.Dispatch.Plain.{IsPlain, Outcome, first_ticket, claim-Outcome}
use cubrid_testkit.Dispatch.Run.{
  World, Event, claims, completes, stops, governs, cases_of, step, run, run_keeps, initial,
}
use cubrid_testkit.Dispatch.Invariant.{Inv, attempts, Numbered, Outcome-Inv}
use cubrid_testkit.Dispatch.Completion.{completed-Inv}

abbrev pub AreDistinct : List Bytes → Type 0
AreDistinct cases = (c : Bytes) → count c cases ≤ 1

module _ {Machine : Type 0} (q : Queue Machine) (plain : IsPlain q) (live : q.stopped ≡ false) where
  finished-parts : finished q ≡ true → (q.retry_queue ≡ []) × (q.in_flight ≡ 0) × (window q ≡ [])
  unfolding finished
  finished-parts h =
      let done : leb (length q.cases) q.next ≡ true =
        ground (arith, plain.laneless, plain.unheld) in
      (ground arith, ground arith, drop-eq-nil q.next q.cases (leb→le _ _ done))

  unfinished-parts : finished q ≡ false → q.in_flight ≡ 0 → (window q ≢ []) ⊎ (q.retry_queue ≢ [])
  unfolding finished
  unfinished-parts h idle = elim (Bool-cases (ltb q.next (length q.cases))) [
    | inl more ↦ inl (drop-ne-nil q.next q.cases (ltb→lt _ _ more))
    | inr none' ↦ inr (λ e. ground (arith, plain.laneless, plain.unheld))
  ]

module _ {Machine : Type 0} (cases : List Bytes) (max_retry : ℕ) where
  abbrev pub fresh_run : List (Event Machine) → World Machine
  fresh_run es = run (initial (new cases max_retry)) es

  initial-Inv : Inv cases max_retry (initial {Machine = Machine} (new cases max_retry))
  unfolding initial new count lookup
  initial-Inv = record {
    plain = record { laneless = refl; unheld = refl };
    bound = refl;
    flight = refl;
    balance = λ c. omega arith;
    queued_waits = λ c h. ground arith;
    running_out = λ c. omega arith;
    fresh = λ c h. refl;
    waiting = λ c h. elim h [ ];
    waiting_low = λ c h. elim h [ ];
    out_numbered = tt;
    numbered = tt;
    bounded = λ c. omega arith;
  }

  module _ (distinct : AreDistinct cases) where
    step-Inv :
        (w : World Machine) (e : Event Machine)
        → Inv cases max_retry w
        → Inv cases max_retry (step w e)
    unfolding step
    step-Inv w (claims m slot lane) v =
        Outcome-Inv cases max_retry distinct m slot w (claim_once m slot lane w.queue) v
          (claim-Outcome m slot lane w.queue v.plain)
    step-Inv w (completes i success has_core) v =
        completed-Inv cases max_retry distinct w i success has_core v
    step-Inv w stops v =
        unfold stop in
        record {
          plain = record { laneless = v.plain.laneless; unheld = v.plain.unheld };
          bound = v.bound;
          flight = v.flight;
          balance = v.balance;
          queued_waits = v.queued_waits;
          running_out = v.running_out;
          fresh = v.fresh;
          waiting = v.waiting;
          waiting_low = v.waiting_low;
          out_numbered = v.out_numbered;
          numbered = v.numbered;
          bounded = v.bounded;
        }
    step-Inv w (governs hard soft) v =
        unfold set_policy in
        record {
          plain = record { laneless = v.plain.laneless; unheld = v.plain.unheld };
          bound = v.bound;
          flight = v.flight;
          balance = v.balance;
          queued_waits = v.queued_waits;
          running_out = v.running_out;
          fresh = v.fresh;
          waiting = v.waiting;
          waiting_low = v.waiting_low;
          out_numbered = v.out_numbered;
          numbered = v.numbered;
          bounded = v.bounded;
        }

    pub fresh_run-Inv : (es : List (Event Machine)) → Inv cases max_retry (fresh_run es)
    fresh_run-Inv es = run_keeps step-Inv (initial (new cases max_retry)) es initial-Inv

    nothing_runs : (w : World Machine) → Inv cases max_retry w → w.out ≡ [] → w.queue.running ≡ []
    unfolding count
    nothing_runs w v none_out =
        nil_of_counts w.queue.running
          (λ c. omega (arith, v.running_out c, ap (attempts c) none_out))

    module _ (w : World Machine) (v : Inv cases max_retry w) (none_out : w.out ≡ []) (m : Machine)
        (slot : Bytes) where
      Outcome-given :
          (r : Queue Machine × Answer)
          → w.queue.stopped ≡ false
          → finished w.queue ≡ false
          → Outcome m slot w.queue r
          → (t : Ticket) × (r.1 ≡ given t)
      Outcome-given r live more (Outcome.ends s e) = absurd (false≢true (sym live ∙ s))
      Outcome-given r live more (Outcome.first c k g why e) = (first_ticket c, ap (λ p. p.1) e)
      Outcome-given r live more (Outcome.waits a busy e) = absurd (busy (nothing_runs w v none_out))
      Outcome-given r live more (Outcome.retries c rest a b rq e) = (
        record { test_case = c; retry = read 0 c w.queue.retry_count },
        ap (λ p. p.1) e ∙ (unfold give_retry in refl),
      )
      Outcome-given r live more (Outcome.departs empty why e) =
          let idle : w.queue.in_flight ≡ 0 = omega (arith, v.flight, ap length none_out) in
          elim (unfinished-parts w.queue v.plain live more idle) [
            | inl waiting ↦ absurd (waiting empty)
            | inr retry ↦ elim why [ inl busy ↦ absurd (busy idle) | inr nil ↦ absurd (retry nil) ]
          ]

      Outcome-not-again : (r : Queue Machine × Answer) → Outcome m slot w.queue r → r.1 ≢ again
      Outcome-not-again r (Outcome.waits a busy e) h = busy (nothing_runs w v none_out)
      Outcome-not-again r (Outcome.ends s e) h = cc (ap (λ p. p.1) e)
      Outcome-not-again r (Outcome.first c k g why e) h = cc (ap (λ p. p.1) e)
      Outcome-not-again r (Outcome.retries c rest a b rq e) h =
          unfold give_retry in cc (ap (λ p. p.1) e)
      Outcome-not-again r (Outcome.departs empty why e) h = unfold depart in cc (ap (λ p. p.1) e)

    -- At every moment each case waits, runs, waits for a retry or has its verdict, as often as the
    -- run was given it.
    pub conservation :
        (es : List (Event Machine)) (c : Bytes)
        → let w = fresh_run es in
          count c (window w.queue)
            + attempts c w.out
            + count c w.queue.retry_queue
            + count c w.retired
          ≡ count c cases
    conservation es c = sym ((fresh_run-Inv es).balance c)

    -- The tickets of a case are its attempts in order: each bears the number of those before it, and
    -- there are at most `max_retry` after the first; a path that is no case of the run has none.
    pub attempts_bounded :
        (es : List (Event Machine))
        → Numbered (fresh_run es).handed
          × ((c : Bytes) → attempts c (fresh_run es).handed ≤ suc max_retry * count c cases)
    attempts_bounded es = ((fresh_run-Inv es).numbered, (fresh_run-Inv es).bounded)

    -- No run hands out more than `max_retry + 1` tickets for each case it was given, so the workers'
    -- loops end.
    pub handed_total :
        (es : List (Event Machine)) → length (fresh_run es).handed ≤ suc max_retry * length cases
    handed_total es = omega (
      arith,
      length-map (fresh_run es).handed (λ (t : Ticket). t.test_case),
      length_of_counts (suc max_retry) (cases_of (fresh_run es).handed) cases distinct
          (fresh_run-Inv es).bounded,
    )

    -- A run that is finished and was not stopped has a verdict for each case, and none is out.
    pub finished_retired :
        (es : List (Event Machine))
        → (fresh_run es).queue.stopped ≡ false
        → finished (fresh_run es).queue ≡ true
        → ((fresh_run es).out ≡ []) × ((c : Bytes) → count c (fresh_run es).retired ≡ count c cases)
    unfolding count
    finished_retired es live done =
        let v = fresh_run-Inv es in
        let (rq, idle, empty) = finished-parts (fresh_run es).queue v.plain live done in
        let none_out : (fresh_run es).out ≡ [] =
          nil_of_length (fresh_run es).out (omega (arith, v.flight)) in
        (
          none_out,
          λ c.
              omega
                (arith, v.balance c, ap (count c) rq, ap (count c) empty, ap (attempts c) none_out),
        )

    -- While a run without lanes is neither stopped nor finished and no ticket is out, every claim gets a
    -- ticket, whatever the policies refuse.
    pub claim_progress :
        (es : List (Event Machine)) (m : Machine) (slot : Bytes) (lane : Lane)
        → (fresh_run es).queue.stopped ≡ false
        → finished (fresh_run es).queue ≡ false
        → (fresh_run es).out ≡ []
        → (t : Ticket) × ((claim_once m slot lane (fresh_run es).queue).1 ≡ given t)
    claim_progress es m slot lane live more idle =
        let v = fresh_run-Inv es in
        Outcome-given (fresh_run es) v idle m slot (claim_once m slot lane (fresh_run es).queue)
          live more (claim-Outcome m slot lane (fresh_run es).queue v.plain)

    -- A claimant is told to ask again only while a ticket is out.
    pub again_busy :
        (es : List (Event Machine)) (m : Machine) (slot : Bytes) (lane : Lane)
        → (claim_once m slot lane (fresh_run es).queue).1 ≡ again
        → (fresh_run es).out ≢ []
    again_busy es m slot lane waits none_out =
        let v = fresh_run-Inv es in
        Outcome-not-again (fresh_run es) v none_out m slot
          (claim_once m slot lane (fresh_run es).queue)
          (claim-Outcome m slot lane (fresh_run es).queue v.plain) waits

module _ {Machine : Type 0} where
  -- Without lanes a second or later attempt is handed out only when the first pass has no case left
  -- to hand out and nothing is in flight, and then it is the oldest one that waits.
  pub retry_quiet :
      (m : Machine) (slot : Bytes) (lane : Lane) (q : Queue Machine) (t : Ticket)
      → IsPlain q
      → (claim_once m slot lane q).1 ≡ given t
      → 0 < t.retry
      → (window q ≡ [])
        × (q.in_flight ≡ 0)
        × ((rest : List Bytes) × (q.retry_queue ≡ t.test_case ∷ rest))
  unfolding give_retry depart
  retry_quiet m slot lane q t plain h r =
      go (claim_once m slot lane q) (claim-Outcome m slot lane q plain) h r
    where
      go :
          (a : Queue Machine × Answer)
          → Outcome m slot q a
          → a.1 ≡ given t
          → 0 < t.retry
          → (window q ≡ [])
            × (q.in_flight ≡ 0)
            × ((rest : List Bytes) × (q.retry_queue ≡ t.test_case ∷ rest))
      go a (Outcome.ends s e) h r = absurd (cc (ap (λ p. p.1) e))
      go a (Outcome.first c k g why e) h r = ground (arith, ap (λ p. p.1) e)
      go a (Outcome.waits x y e) h r = absurd (cc (ap (λ p. p.1) e))
      go a (Outcome.retries c rest empty idle rq e) h r =
          (empty, idle, (rest, ground (arith, rq, ap (λ p. p.1) e)))
      go a (Outcome.departs x y e) h r = absurd (cc (ap (λ p. p.1) e))
