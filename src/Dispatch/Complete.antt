-- ===== src/Dispatch/Complete.antt =====
-- internal/dispatch/dispatch.go: `Complete`, `enqueue`, and the ends of a run.
use cubrid_testkit.Prelude.{
  ℕ, ◌+◌, ◌-◌, Bool, true, false, not, ◌&&◌, ◌||◌, List, [], ◌∷◌, ◌++◌, Option, none, some, ltb,
  leb, nat_eq, bytes_eq, if◌then◌else◌, Bytes, length,
}
use cubrid_testkit.Prelude.Dict.{Dict, lookup, insert, delete, read}
use cubrid_testkit.Dispatch.Lanes.{lane_eq, Ticket, dir_of}
use cubrid_testkit.Dispatch.Queue.{Queue, stop_case}

unfoldable pub all_true : List Bool → Bool
all_true [] = true
all_true (t ∷ ts) = let rest = all_true ts in if not t then false else rest

unfoldable pub none_held : Dict Bytes (List Bytes) → Bool
none_held [] = true
none_held ((slot, held) ∷ rest) = let r = none_held rest in if ltb 0 (length held) then false else r

module _ {Machine : Type 0} where
  -- Where `enqueue` puts a case: with the owner of its directory, or in the general queue.
  unfoldable pub placed : Bytes → Option Bytes → Queue Machine → Queue Machine
  placed c none q = record q { retry_queue = q.retry_queue ++ c ∷ [] }
  placed c (some owner) q =
      if not (read false owner q.departed)
      then record q { held = insert owner (read [] owner q.held ++ c ∷ []) q.held }
      else record q { retry_queue = q.retry_queue ++ c ∷ [] }

  -- `enqueue`
  unfoldable pub enqueue : Bytes → ℕ → Queue Machine → Queue Machine
  unfolding placed
  enqueue c retry q =
      if ltb q.max_retry retry
      then q
      else (let q' = record q { retry_count = insert c retry q.retry_count } in
          if read false c q.queued
          then q'
          else placed c (if q.lanes then lookup (dir_of c) q.owner else none)
              (record q' { queued = insert c true q.queued }))

  -- The test of `Complete`.
  abbrev pub retrying : Ticket → Bool → Bool → Queue Machine → Bool
  retrying t success has_core q = not success && not has_core && ltb t.retry q.max_retry

  unfoldable pub forget : Bytes → Queue Machine → Queue Machine
  forget c q = record q { retry_count = delete c q.retry_count; queued = delete c q.queued }

  -- `Complete`
  unfoldable pub complete : Ticket → Bool → Bool → Queue Machine → Queue Machine × Bool
  unfolding forget enqueue stop_case
  complete t success has_core q =
      let q' = stop_case t.test_case (record q { in_flight = q.in_flight - 1 }) in
      let r = retrying t success has_core q in
      (if r then enqueue t.test_case (t.retry + 1) q' else forget t.test_case q', r)

  -- Nothing of the first pass is left unclaimed.
  unfoldable pub first_pass_done : Queue Machine → Bool
  unfolding all_true
  first_pass_done q = if not q.lanes then leb (length q.cases) q.next else all_true q.taken

  -- `Drained`
  unfoldable pub drained : Queue Machine → Bool
  unfolding first_pass_done
  drained q =
      if q.stopped then true else if ltb 0 (length q.retry_queue) then false else first_pass_done q

  -- `Finished`
  unfoldable pub finished : Queue Machine → Bool
  unfolding first_pass_done none_held
  finished q =
      if q.stopped
      then true
      else if ltb 0 (length q.retry_queue) || ltb 0 q.in_flight
      then false
      else if not (none_held q.held)
      then false
      else first_pass_done q

  -- `Stop`
  unfoldable pub stop : Queue Machine → Queue Machine
  stop q = record q { stopped = true }
