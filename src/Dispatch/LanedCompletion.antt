-- ===== src/Dispatch/LanedCompletion.antt =====
-- The end of a ticket, with lanes: the case retires, or waits for the owner of its directory.
use cubrid_testkit.Prelude.{
  ℕ, suc, ◌+◌, ◌-◌, ◌≤◌, ◌≡◌, refl, Bool, true, false, List, [], ◌∷◌, ◌++◌, Option, none, some,
  arith, Bytes, get_elem?, take, drop, Bool-cases, Option-cases, inl, inr, ltb, nat_eq, bytes_eq,
  bytes_beq_iff, count, count-append,
}
use cubrid_testkit.Prelude.Dict.{Dict, lookup, insert, read, lookup-insert, lookup-delete}
use cubrid_testkit.Dispatch.Lanes.{Ticket, dir_of}
use cubrid_testkit.Dispatch.Queue.{Queue, stop_case}
use cubrid_testkit.Dispatch.Complete.{retrying, placed, enqueue, complete}
use cubrid_testkit.Dispatch.Run.{World, completed}
use cubrid_testkit.Dispatch.Invariant.{attempts}
use cubrid_testkit.Dispatch.Completion.{
  attempts-remove_at, OutNumbered-at, OutNumbered-remove_at, length-remove_at,
}
use cubrid_testkit.Dispatch.Holding.{held_count, held_count-insert}
use cubrid_testkit.Dispatch.LanedInvariant.{LanedInv, open_cases, kept}

module _ {Machine : Type 0} where
  -- Where a case that waits again is kept: the lists that hold it, and nothing else, change.
  record Keeps (c : Bytes) (q r : Queue Machine) : Type 0 where
    held : Dict Bytes (List Bytes)
    retry_queue : List Bytes
    result : r ≡ record q { held = held; retry_queue = retry_queue }
    counts : (a : Bytes) → held_count a held + count a retry_queue ≡ kept a q + count a (c ∷ [])

  queued-Keeps :
      (c : Bytes) (q : Queue Machine)
      → Keeps c q (record q { retry_queue = q.retry_queue ++ c ∷ [] })
  queued-Keeps c q = record {
    held = q.held;
    retry_queue = q.retry_queue ++ c ∷ [];
    result = refl;
    counts = λ a. omega (arith, count-append a q.retry_queue (c ∷ []));
  }

  placed-Keeps : (c : Bytes) (o : Option Bytes) (q : Queue Machine) → Keeps c q (placed c o q)
  unfolding placed
  placed-Keeps c none q = queued-Keeps c q
  placed-Keeps c (some owner) q = elim (Bool-cases (read false owner q.departed)) [
    | inl gone ↦ rw gone (queued-Keeps c q)
    | inr stays ↦ rw stays (record {
      held = insert owner (read [] owner q.held ++ c ∷ []) q.held;
      retry_queue = q.retry_queue;
      result = refl;
      counts = λ a. omega (
        arith,
        held_count-insert a owner (read [] owner q.held ++ c ∷ []) q.held,
        count-append a (read [] owner q.held) (c ∷ []),
      );
    })
  ]

  enqueue-laned :
      (c : Bytes) (retry : ℕ) (q : Queue Machine)
      → q.lanes ≡ true
      → retry ≤ q.max_retry
      → read false c q.queued ≡ false
      → enqueue c retry q
        ≡ placed c (lookup (dir_of c) q.owner) (record q {
          retry_count = insert c retry q.retry_count;
          queued = insert c true q.queued;
        })
  unfolding enqueue
  enqueue-laned c retry q laned low fresh =
      let e : ltb q.max_retry retry ≡ false = ground arith in simp (e, fresh) (simp laned)

  module _ (cases : List Bytes) (max_retry : ℕ) (distinct : (c : Bytes) → count c cases ≤ 1) where
    module _ (w : World Machine) (v : LanedInv cases max_retry w) (i : ℕ) (t : Ticket)
        (at : get_elem? w.out i ≡ some t) where
      others : List Ticket
      others = take i w.out ++ drop (suc i) w.out

      alone :
          (attempts t.test_case others ≡ 0)
          × (kept t.test_case w.queue ≡ 0)
          × (count t.test_case (open_cases w.queue) ≡ 0)
          × (count t.test_case w.retired ≡ 0)
      unfolding count others
      alone = ground (
        arith,
        v.balance t.test_case,
        distinct t.test_case,
        attempts-remove_at t.test_case w.out i t at,
        bytes_beq_iff t.test_case t.test_case,
      )

      number : attempts t.test_case w.handed ≡ suc t.retry
      number = OutNumbered-at w.handed w.out i t v.out_numbered at

      not_queued : read false t.test_case w.queue.queued ≡ false
      not_queued = ground (arith, v.queued_waits t.test_case, alone)

      retire-LanedInv :
          (success has_core : Bool)
          → retrying t success has_core w.queue ≡ false
          → LanedInv cases max_retry (completed w i success has_core (some t))
      unfolding completed complete count
      retire-LanedInv success has_core r = simp r (record {
        laned = v.laned;
        bound = v.bound;
        flight = omega (arith, v.flight, length-remove_at w.out i t at);
        balance = λ a. ground (arith, v.balance a, attempts-remove_at a w.out i t at);
        queued_waits =
            λ a h. ground (arith, v.queued_waits a, lookup-delete t.test_case a w.queue.queued);
        fresh = v.fresh;
        uncounted = λ a p. ground (
          arith,
          v.uncounted a p,
          alone,
          bytes_beq_iff t.test_case a,
          lookup-delete t.test_case a w.queue.retry_count,
        );
        waiting = λ a p. ground (
          arith,
          v.waiting a p,
          alone,
          bytes_beq_iff t.test_case a,
          lookup-delete t.test_case a w.queue.retry_count,
        );
        waiting_low = λ a p.
            ground (arith, v.waiting_low a p, lookup-delete t.test_case a w.queue.retry_count);
        out_numbered = OutNumbered-remove_at w.handed w.out i v.out_numbered;
        numbered = v.numbered;
        bounded = v.bounded;
      })

      -- The queue as `enqueue` places the case.
      left : Queue Machine
      left =
          record (stop_case t.test_case (record (w.queue) { in_flight = w.queue.in_flight - 1 })) {
            retry_count = insert t.test_case (t.retry + 1) w.queue.retry_count;
            queued = insert t.test_case true w.queue.queued;
          }

      left-LanedInv :
          (q : Queue Machine)
          → Keeps t.test_case left q
          → t.retry + 1 ≤ max_retry
          → LanedInv cases max_retry (record w { queue = q; out = others })
      unfolding left others stop_case count
      left-LanedInv q k low = rw k.result (record {
        laned = v.laned;
        bound = v.bound;
        flight = omega (arith, v.flight, length-remove_at w.out i t at);
        balance = λ a. ground (arith, v.balance a, attempts-remove_at a w.out i t at, k.counts a);
        queued_waits = λ a h. ground (
          arith,
          v.queued_waits a,
          k.counts a,
          lookup-insert t.test_case a true w.queue.queued,
          bytes_beq_iff t.test_case a,
        );
        fresh = v.fresh;
        uncounted = λ a p. ground (
          arith,
          v.uncounted a p,
          alone,
          bytes_beq_iff t.test_case a,
          lookup-insert t.test_case a (t.retry + 1) w.queue.retry_count,
        );
        waiting = λ a p. ground (
          arith,
          v.waiting a,
          number,
          k.counts a,
          bytes_beq_iff t.test_case a,
          lookup-insert t.test_case a (t.retry + 1) w.queue.retry_count,
        );
        waiting_low = λ a p. ground (
          arith,
          v.waiting_low a,
          low,
          k.counts a,
          bytes_beq_iff t.test_case a,
          lookup-insert t.test_case a (t.retry + 1) w.queue.retry_count,
        );
        out_numbered = OutNumbered-remove_at w.handed w.out i v.out_numbered;
        numbered = v.numbered;
        bounded = v.bounded;
      })

      again-LanedInv :
          (success has_core : Bool)
          → retrying t success has_core w.queue ≡ true
          → LanedInv cases max_retry (completed w i success has_core (some t))
      unfolding completed complete left others stop_case
      again-LanedInv success has_core r =
          let low : t.retry + 1 ≤ w.queue.max_retry = ground arith in
          simp
            (
              r,
              enqueue-laned t.test_case (t.retry + 1)
                  (stop_case t.test_case (record (w.queue) { in_flight = w.queue.in_flight - 1 }))
                  v.laned low not_queued,
            )
            (left-LanedInv _
              (placed-Keeps t.test_case (lookup (dir_of t.test_case) w.queue.owner) left)
              (omega (arith, low, v.bound)))

    -- A case that is out is not kept as well.
    pub not_kept_out :
        (w : World Machine)
        → LanedInv cases max_retry w
        → (i : ℕ) (t : Ticket) → get_elem? w.out i ≡ some t
        → count t.test_case w.queue.retry_queue ≡ 0
    not_kept_out w v i t at = omega (arith, alone w v i t at)

    pub completed-LanedInv :
        (w : World Machine) (i : ℕ) (success has_core : Bool)
        → LanedInv cases max_retry w
        → LanedInv cases max_retry (completed w i success has_core (get_elem? w.out i))
    completed-LanedInv w i success has_core v = elim (Option-cases (get_elem? w.out i)) [
      | inl nothing ↦ rw nothing (unfold completed in v)
      | inr (t, at) ↦ rw at (elim (Bool-cases (retrying t success has_core w.queue)) [
        | inl r ↦ again-LanedInv w v i t at success has_core r
        | inr r ↦ retire-LanedInv w v i t at success has_core r
      ])
    ]
