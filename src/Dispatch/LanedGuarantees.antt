-- ===== src/Dispatch/LanedGuarantees.antt =====
-- What holds of every run with lanes over distinct cases, whatever the workers do.
use cubrid_testkit.Prelude.{
  ℕ, ◌+◌, ◌≡◌, refl, ap, Bool, true, false, List, [], ◌∷◌, arith, Bytes, length, nil_of_length,
  Bool-cases, inl, inr, nat_eq, bytes_eq, count, replicate, ◌==◌,
}
use cubrid_testkit.Prelude.Dict.{Dict, lookup}
use cubrid_testkit.Dispatch.Lanes.{Lane}
use cubrid_testkit.Dispatch.Queue.{Queue, new, assign, affinity, set_policy}
use cubrid_testkit.Dispatch.Claim.{claim_once}
use cubrid_testkit.Dispatch.Complete.{stop, finished, first_pass_done, none_held, all_true}
use cubrid_testkit.Dispatch.Run.{
  World, Event, claims, completes, stops, governs, step, run, run_keeps, initial,
}
use cubrid_testkit.Dispatch.Invariant.{attempts}
use cubrid_testkit.Dispatch.Holding.{free, held_count}
use cubrid_testkit.Dispatch.LanedClaim.{claim-LanedOutcome}
use cubrid_testkit.Dispatch.LanedInvariant.{LanedInv, open_cases}
use cubrid_testkit.Dispatch.LanedStep.{LanedOutcome-LanedInv}
use cubrid_testkit.Dispatch.LanedCompletion.{completed-LanedInv}
use cubrid_testkit.Dispatch.Guarantees.{AreDistinct}

free_new : (cases : List Bytes) → free cases (replicate (length cases) false) ≡ cases
unfolding free
free_new [] = refl
free_new (c ∷ cases) = ap (λ z. c ∷ z) (free_new cases)

free_done : (cs : List Bytes) (ts : List Bool) → all_true ts ≡ true → free cs ts ≡ []
unfolding free all_true
free_done [] ts h = refl
free_done (c ∷ cs) [] h = refl
free_done (c ∷ cs) (t ∷ ts) h = ground (arith, free_done cs ts)

held_none :
    (c : Bytes) (held : Dict Bytes (List Bytes)) → none_held held ≡ true → held_count c held ≡ 0
unfolding none_held held_count count
held_none c [] h = refl
held_none c ((slot, []) ∷ rest) h = omega (arith, held_none c rest h)
held_none c ((slot, x ∷ xs) ∷ rest) h = ground (arith, h)

module _ {Machine : Type 0} (q : Queue Machine) (laned : q.lanes ≡ true)
    (live : q.stopped ≡ false) where
  laned-parts :
      finished q ≡ true
      → (q.retry_queue ≡ []) × (q.in_flight ≡ 0) × (none_held q.held ≡ true) × (open_cases q ≡ [])
  unfolding finished first_pass_done
  laned-parts h =
      let (over', held, done) : (length q.retry_queue ≡ 0)
          × (none_held q.held ≡ true)
          × (all_true q.taken ≡ true) =
        ground arith in
      (ground arith, ground arith, held, free_done q.cases q.taken done)

module _ {Machine : Type 0} (cases : List Bytes) (max_retry : ℕ) (by_dir : Dict Bytes Lane) where
  -- The queue as a run with lanes sets it up.
  abbrev pub laned_queue : Queue Machine
  laned_queue = affinity (assign by_dir (new cases max_retry))

  abbrev pub laned_run : List (Event Machine) → World Machine
  laned_run es = run (initial laned_queue) es

  -- Only the lanes of the directories depend on the map.
  pub laned_lem :
      (lane_of : Dict Bytes Lane) × (laned_queue
        ≡ record (new cases max_retry) { lane_of = lane_of; lanes = true })
  unfolding affinity assign new
  laned_lem = elim (Bool-cases (length by_dir == 0)) [
    | inl empty ↦ ([], rw empty refl)
    | inr some' ↦ ((assign by_dir (new {Machine = Machine} cases max_retry)).lane_of, rw some' refl)
  ]

  pub initial-LanedInv : LanedInv cases max_retry (initial laned_queue)
  unfolding initial new count lookup held_count
  initial-LanedInv =
      let (lane_of, e) = laned_lem in
      rw e (record {
        laned = refl;
        bound = refl;
        flight = refl;
        balance = λ c. omega (arith, ap (count c) (free_new cases));
        queued_waits = λ c h. ground arith;
        fresh = λ c h. refl;
        uncounted = λ c h. refl;
        waiting = λ c h. elim h [ ];
        waiting_low = λ c h. elim h [ ];
        out_numbered = tt;
        numbered = tt;
        bounded = λ c. omega arith;
      })

  module _ (distinct : AreDistinct cases) where
    pub step-LanedInv :
        (w : World Machine) (e : Event Machine)
        → LanedInv cases max_retry w
        → LanedInv cases max_retry (step w e)
    unfolding step
    step-LanedInv w (claims m slot lane) v =
        LanedOutcome-LanedInv cases max_retry distinct slot lane w (claim_once m slot lane w.queue)
          v (claim-LanedOutcome m slot lane w.queue v.laned)
    step-LanedInv w (completes i success has_core) v =
        completed-LanedInv cases max_retry distinct w i success has_core v
    step-LanedInv w stops v =
        unfold stop in
        record {
          laned = v.laned;
          bound = v.bound;
          flight = v.flight;
          balance = v.balance;
          queued_waits = v.queued_waits;
          fresh = v.fresh;
          uncounted = v.uncounted;
          waiting = v.waiting;
          waiting_low = v.waiting_low;
          out_numbered = v.out_numbered;
          numbered = v.numbered;
          bounded = v.bounded;
        }
    step-LanedInv w (governs hard soft) v =
        unfold set_policy in
        record {
          laned = v.laned;
          bound = v.bound;
          flight = v.flight;
          balance = v.balance;
          queued_waits = v.queued_waits;
          fresh = v.fresh;
          uncounted = v.uncounted;
          waiting = v.waiting;
          waiting_low = v.waiting_low;
          out_numbered = v.out_numbered;
          numbered = v.numbered;
          bounded = v.bounded;
        }

    pub laned_run-LanedInv : (es : List (Event Machine)) → LanedInv cases max_retry (laned_run es)
    laned_run-LanedInv es = run_keeps step-LanedInv (initial laned_queue) es initial-LanedInv

    -- With lanes too, whatever the workers do, each case is open, out, held for the slot that owns
    -- its directory, waits for a retry or has its verdict, as often as the run was given it.
    pub laned_conservation :
        (es : List (Event Machine)) (c : Bytes)
        → let w = laned_run es in
          count c (open_cases w.queue)
            + attempts c w.out
            + held_count c w.queue.held
            + count c w.queue.retry_queue
            + count c w.retired
          ≡ count c cases
    laned_conservation es c = omega (arith, (laned_run-LanedInv es).balance c)

    -- With lanes too, a run that is finished and was not stopped has a verdict for each case, and
    -- none is out.
    pub laned_finished :
        (es : List (Event Machine))
        → (laned_run es).queue.stopped ≡ false
        → finished (laned_run es).queue ≡ true
        → ((laned_run es).out ≡ []) × ((c : Bytes) → count c (laned_run es).retired ≡ count c cases)
    unfolding count
    laned_finished es live done =
        let v = laned_run-LanedInv es in
        let (rq, idle, held, opened) = laned-parts (laned_run es).queue v.laned live done in
        let none_out : (laned_run es).out ≡ [] =
          nil_of_length (laned_run es).out (omega (arith, v.flight, idle)) in
        (
          none_out,
          λ c. omega (
            arith,
            v.balance c,
            ap (count c) rq,
            ap (count c) opened,
            ap (attempts c) none_out,
            held_none c (laned_run es).queue.held held,
          ),
        )
