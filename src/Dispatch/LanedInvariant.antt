-- ===== src/Dispatch/LanedInvariant.antt =====
-- The invariant of a run with lanes, over distinct cases, and that the ticket of a kept case keeps it.
use cubrid_testkit.Prelude.{
  ℕ, suc, ◌+◌, ◌*◌, ◌≤◌, ◌<◌, ◌≡◌, true, false, List, [], ◌∷◌, arith, Bytes, length, Bool-cases,
  inl, inr, ◌==◌, nat_eq, bytes_eq, bytes_beq_iff, count, count_self,
}
use cubrid_testkit.Prelude.Dict.{Dict, read, lookup-delete}
use cubrid_testkit.Dispatch.Lanes.{Lane, Ticket, lane_eq}
use cubrid_testkit.Dispatch.Queue.{Queue}
use cubrid_testkit.Dispatch.Claim.{give_retry}
use cubrid_testkit.Dispatch.Holding.{free, held_count}
use cubrid_testkit.Dispatch.Run.{World, answered}
use cubrid_testkit.Dispatch.Invariant.{attempts, Numbered, OutNumbered, OutNumbered-other}

module _ {Machine : Type 0} where
  -- The cases of the first pass that no slot has claimed or holds.
  abbrev pub open_cases : Queue Machine → List Bytes
  open_cases q = free q.cases q.taken

  -- How often a case waits for a slot, as a sibling or for a retry.
  abbrev pub kept : Bytes → Queue Machine → ℕ
  kept c q = held_count c q.held + count c q.retry_queue

module _ {Machine : Type 0} (cases : List Bytes) (max_retry : ℕ) where
  pub record LanedInv (w : World Machine) : Type 0 where
    pub laned : w.queue.lanes ≡ true
    pub bound : w.queue.max_retry ≡ max_retry
    pub flight : w.queue.in_flight ≡ length w.out
    pub balance :
        (c : Bytes)
        → count c cases
          ≡ count c (open_cases w.queue) + attempts c w.out + kept c w.queue + count c w.retired
    pub queued_waits : (c : Bytes) → read false c w.queue.queued ≡ true → 0 < kept c w.queue
    pub fresh : (c : Bytes) → 0 < count c (open_cases w.queue) → attempts c w.handed ≡ 0
    pub uncounted :
        (c : Bytes) → 0 < count c (open_cases w.queue) → read 0 c w.queue.retry_count ≡ 0
    pub waiting :
        (c : Bytes) → 0 < kept c w.queue → attempts c w.handed ≡ read 0 c w.queue.retry_count
    pub waiting_low : (c : Bytes) → 0 < kept c w.queue → read 0 c w.queue.retry_count ≤ max_retry
    pub out_numbered : OutNumbered w.handed w.out
    pub numbered : Numbered w.handed
    pub bounded : (c : Bytes) → attempts c w.handed ≤ suc max_retry * count c cases

  module _ (distinct : (c : Bytes) → count c cases ≤ 1) where
    -- A ticket for a case that is kept: the held lists and the retry queue lose it, and it goes out.
    module _ (w : World Machine) (v : LanedInv w) (c : Bytes) (held : Dict Bytes (List Bytes))
        (retry_queue : List Bytes) (cursor : Dict Lane ℕ)
        (kept_eq : (a : Bytes)
          → kept a w.queue ≡ held_count a held + count a retry_queue + count a (c ∷ [])) where
      abbrev retry_ticket : Ticket
      retry_ticket = record { test_case = c; retry = read 0 c w.queue.retry_count }

      kept_alone :
          (attempts c w.out ≡ 0)
          × (held_count c held + count c retry_queue ≡ 0)
          × (count c cases ≡ 1)
          × (attempts c w.handed ≡ read 0 c w.queue.retry_count)
          × (read 0 c w.queue.retry_count ≤ max_retry)
          × (count c (open_cases w.queue) ≡ 0)
      kept_alone =
          let waits : 0 < kept c w.queue = omega (arith, kept_eq c, count_self c []) in
          omega (
            arith,
            v.balance c,
            distinct c,
            kept_eq c,
            count_self c [],
            v.waiting c waits,
            v.waiting_low c waits,
          )

      kept_bounded :
          (a : Bytes) → attempts a (retry_ticket ∷ w.handed) ≤ suc max_retry * count a cases
      unfolding count
      kept_bounded a = elim (Bool-cases (c == a)) [
        | inl same ↦
            let e : c ≡ a = (bytes_beq_iff c a).0 same in
            let low : attempts a w.handed ≤ max_retry = rw (← e) (omega (arith, kept_alone)) in
            let once : count a cases ≡ 1 = rw (← e) kept_alone.2 in
            rw same (rw once (omega (arith, low)))
        | inr other ↦ rw other (v.bounded a)
      ]

      pub give-LanedInv : LanedInv (
          answered w (
            give_retry c
              (record (w.queue) { held = held; retry_queue = retry_queue; cursor = cursor })))
      unfolding answered give_retry count
      give-LanedInv = record {
        laned = v.laned;
        bound = v.bound;
        flight = omega (arith, v.flight);
        balance = λ a. ground (arith, v.balance a, kept_eq a);
        queued_waits = λ a h. ground (
          arith,
          v.queued_waits a,
          kept_eq a,
          lookup-delete c a w.queue.queued,
          bytes_beq_iff c a,
        );
        fresh = λ a p. ground (arith, v.fresh a p, kept_alone, bytes_beq_iff c a);
        uncounted = v.uncounted;
        waiting = λ a p. ground (arith, v.waiting a, kept_alone, kept_eq a, bytes_beq_iff c a);
        waiting_low = λ a p. ground (arith, v.waiting_low a, kept_eq a);
        out_numbered = (
          ground (arith, kept_alone, bytes_beq_iff c c),
          OutNumbered-other retry_ticket w.handed w.out kept_alone.0 v.out_numbered,
        );
        numbered = (omega (arith, kept_alone), v.numbered);
        bounded = kept_bounded;
      }
