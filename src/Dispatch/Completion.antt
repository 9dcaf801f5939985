-- ===== src/Dispatch/Completion.antt =====
-- The end of a ticket, without lanes: the case retires, or goes to the end of the retry queue.
use cubrid_testkit.Prelude.{
  ℕ, zero, suc, ◌+◌, ◌-◌, ◌≤◌, ◌≡◌, Bool, true, false, List, [], ◌∷◌, ◌++◌, some, arith, Bytes,
  length, length-append, length-take, length-drop, get_elem?, get_elem?-lt, take, drop, Bool-cases,
  Option-cases, inl, inr, ltb, ◌==◌, nat_eq, bytes_eq, bytes_beq_iff, count, count-append,
  if◌then◌else◌,
}
use cubrid_testkit.Prelude.Dict.{insert, read, lookup-insert, lookup-delete}
use cubrid_testkit.Dispatch.Lanes.{Ticket}
use cubrid_testkit.Dispatch.Queue.{Queue, window, stop_case, remove_first}
use cubrid_testkit.Dispatch.Complete.{retrying, enqueue, complete}
use cubrid_testkit.Dispatch.Run.{World, completed}
use cubrid_testkit.Dispatch.Invariant.{Inv, attempts, OutNumbered}

pub count-remove_first :
    (a c : Bytes) (rs : List Bytes)
    → count a (remove_first c rs) ≡ (if c == a then count a rs - 1 else count a rs)
unfolding remove_first count
count-remove_first a c [] = ground arith
count-remove_first a c (r ∷ rs) =
    ground
      (arith, count-remove_first a c rs, bytes_beq_iff r c, bytes_beq_iff r a, bytes_beq_iff c a)

pub attempts-remove_at :
    (a : Bytes) (ts : List Ticket) (i : ℕ) (t : Ticket)
    → get_elem? ts i ≡ some t
    → attempts a ts ≡ attempts a (t ∷ (take i ts ++ drop (suc i) ts))
unfolding count
attempts-remove_at a [] i t h = ground arith
attempts-remove_at a (u ∷ us) zero t h = ground arith
attempts-remove_at a (u ∷ us) (suc i) t h = ground (arith, attempts-remove_at a us i t h)

pub OutNumbered-remove_at :
    (handed ts : List Ticket) (i : ℕ)
    → OutNumbered handed ts
    → OutNumbered handed (take i ts ++ drop (suc i) ts)
OutNumbered-remove_at handed [] zero n = tt
OutNumbered-remove_at handed [] (suc i) n = tt
OutNumbered-remove_at handed (u ∷ us) zero n = n.1
OutNumbered-remove_at handed (u ∷ us) (suc i) n = (n.0, OutNumbered-remove_at handed us i n.1)

pub OutNumbered-at :
    (handed ts : List Ticket) (i : ℕ) (t : Ticket)
    → OutNumbered handed ts
    → get_elem? ts i ≡ some t
    → attempts t.test_case handed ≡ suc t.retry
OutNumbered-at handed [] i t n h = ground arith
OutNumbered-at handed (u ∷ us) zero t n h = ground arith
OutNumbered-at handed (u ∷ us) (suc i) t n h = OutNumbered-at handed us i t n.1 h

pub length-remove_at :
    (ts : List Ticket) (i : ℕ) (t : Ticket)
    → get_elem? ts i ≡ some t
    → length ts ≡ suc (length (take i ts ++ drop (suc i) ts))
length-remove_at ts i t h = omega (
  arith,
  get_elem?-lt ts i h,
  length-append (take i ts) (drop (suc i) ts),
  length-take i ts,
  length-drop (suc i) ts,
)

module _ {Machine : Type 0} where
  enqueue-plain :
      (c : Bytes) (retry : ℕ) (q : Queue Machine)
      → q.lanes ≡ false
      → retry ≤ q.max_retry
      → read false c q.queued ≡ false
      → enqueue c retry q ≡ record q {
        retry_count = insert c retry q.retry_count;
        queued = insert c true q.queued;
        retry_queue = q.retry_queue ++ c ∷ [];
      }
  unfolding enqueue
  enqueue-plain c retry q plain low fresh =
      let e : ltb q.max_retry retry ≡ false = ground arith in simp (e, fresh) (simp plain)

  module _ (cases : List Bytes) (max_retry : ℕ) (distinct : (c : Bytes) → count c cases ≤ 1) where
    module _ (w : World Machine) (v : Inv cases max_retry w) (i : ℕ) (t : Ticket)
        (at : get_elem? w.out i ≡ some t) where
      others : List Ticket
      others = take i w.out ++ drop (suc i) w.out

      out_count : (a : Bytes) → attempts a w.out ≡ attempts a (t ∷ others)
      unfolding others
      out_count a = attempts-remove_at a w.out i t at

      alone :
          (attempts t.test_case others ≡ 0)
          × (count t.test_case w.queue.retry_queue ≡ 0)
          × (count t.test_case (window w.queue) ≡ 0)
          × (count t.test_case w.retired ≡ 0)
      unfolding count
      alone = ground (
        arith,
        v.balance t.test_case,
        distinct t.test_case,
        out_count t.test_case,
        bytes_beq_iff t.test_case t.test_case,
      )

      number : attempts t.test_case w.handed ≡ suc t.retry
      number = OutNumbered-at w.handed w.out i t v.out_numbered at

      not_queued : read false t.test_case w.queue.queued ≡ false
      not_queued = ground (arith, v.queued_waits t.test_case, alone)

      retire-Inv :
          (success has_core : Bool)
          → retrying t success has_core w.queue ≡ false
          → Inv cases max_retry (completed w i success has_core (some t))
      unfolding completed complete count
      retire-Inv success has_core r = simp r (record {
        plain = record { laneless = v.plain.laneless; unheld = v.plain.unheld };
        bound = v.bound;
        flight = omega (arith, v.flight, length-remove_at w.out i t at);
        balance = λ a. ground (arith, v.balance a, attempts-remove_at a w.out i t at);
        queued_waits =
            λ a h. ground (arith, v.queued_waits a, lookup-delete t.test_case a w.queue.queued);
        running_out = λ a. ground (
          arith,
          v.running_out a,
          attempts-remove_at a w.out i t at,
          count-remove_first a t.test_case w.queue.running,
        );
        fresh = v.fresh;
        waiting = λ a p. ground (
          arith,
          v.waiting a p,
          alone,
          bytes_beq_iff t.test_case a,
          lookup-delete t.test_case a w.queue.retry_count,
        );
        waiting_low = λ a p.
            ground (arith, v.waiting_low a p, lookup-delete t.test_case a w.queue.retry_count);
        out_numbered = OutNumbered-remove_at w.handed w.out i v.out_numbered;
        numbered = v.numbered;
        bounded = v.bounded;
      })

      again-Inv :
          (success has_core : Bool)
          → retrying t success has_core w.queue ≡ true
          → Inv cases max_retry (completed w i success has_core (some t))
      unfolding completed complete count
      again-Inv success has_core r =
          let low : t.retry + 1 ≤ w.queue.max_retry = ground arith in
          simp
            (
              r,
              enqueue-plain t.test_case (t.retry + 1)
                  (stop_case t.test_case (record (w.queue) { in_flight = w.queue.in_flight - 1 }))
                  v.plain.laneless low not_queued,
            )
            (record {
              plain = record { laneless = v.plain.laneless; unheld = v.plain.unheld };
              bound = v.bound;
              flight = omega (arith, v.flight, length-remove_at w.out i t at);
              balance = λ a. ground (
                arith,
                v.balance a,
                attempts-remove_at a w.out i t at,
                count-append a w.queue.retry_queue (t.test_case ∷ []),
              );
              queued_waits = λ a h. ground (
                arith,
                v.queued_waits a,
                lookup-insert t.test_case a true w.queue.queued,
                count-append a w.queue.retry_queue (t.test_case ∷ []),
                bytes_beq_iff t.test_case a,
              );
              running_out = λ a. ground (
                arith,
                v.running_out a,
                attempts-remove_at a w.out i t at,
                count-remove_first a t.test_case w.queue.running,
              );
              fresh = v.fresh;
              waiting = λ a p. ground (
                arith,
                v.waiting a,
                number,
                bytes_beq_iff t.test_case a,
                lookup-insert t.test_case a (t.retry + 1) w.queue.retry_count,
                count-append a w.queue.retry_queue (t.test_case ∷ []),
              );
              waiting_low = λ a p. ground (
                arith,
                v.waiting_low a,
                v.bound,
                bytes_beq_iff t.test_case a,
                lookup-insert t.test_case a (t.retry + 1) w.queue.retry_count,
                count-append a w.queue.retry_queue (t.test_case ∷ []),
              );
              out_numbered = OutNumbered-remove_at w.handed w.out i v.out_numbered;
              numbered = v.numbered;
              bounded = v.bounded;
            })

    pub completed-Inv :
        (w : World Machine) (i : ℕ) (success has_core : Bool)
        → Inv cases max_retry w
        → Inv cases max_retry (completed w i success has_core (get_elem? w.out i))
    completed-Inv w i success has_core v = elim (Option-cases (get_elem? w.out i)) [
      | inl nothing ↦ rw nothing (unfold completed in v)
      | inr (t, at) ↦ rw at (elim (Bool-cases (retrying t success has_core w.queue)) [
        | inl r ↦ again-Inv w v i t at success has_core r
        | inr r ↦ retire-Inv w v i t at success has_core r
      ])
    ]
