-- ===== src/Dispatch/Run.antt =====
-- A run of the queue: workers claim, complete what they were given, and may stop it, in any order.
use cubrid_testkit.Prelude.{
  ℕ, suc, Bool, List, [], ◌∷◌, ◌++◌, Option, none, some, Bytes, get_elem?, take, drop, map,
  if◌then◌else◌,
}
use cubrid_testkit.Dispatch.Admission.{Policy}
use cubrid_testkit.Dispatch.Lanes.{Lane, Ticket}
use cubrid_testkit.Dispatch.Queue.{Queue, set_policy}
use cubrid_testkit.Dispatch.Claim.{Answer, given, over, again, claim_once}
use cubrid_testkit.Dispatch.Complete.{complete, stop}

-- What the workers do: a claim by a slot, the end of the i-th ticket that is out, a stop, or new
-- admission rules.
pub data Event (Machine : Type 0) : Type 0 where
  claims : Machine → Bytes → Lane → Event Machine
  completes : ℕ → Bool → Bool → Event Machine
  stops : Event Machine
  governs : Option (Policy Machine) → Option (Policy Machine) → Event Machine

-- The queue, the tickets that are out, all that were handed out, and the cases with a verdict.
pub record World (Machine : Type 0) : Type 0 where
  pub queue : Queue Machine
  pub out : List Ticket
  pub handed : List Ticket
  pub retired : List Bytes

abbrev pub cases_of : List Ticket → List Bytes
cases_of ts = map (λ (t : Ticket). t.test_case) ts

module _ {Machine : Type 0} where
  unfoldable pub answered : World Machine → Queue Machine × Answer → World Machine
  answered w (q, given t) = record w { queue = q; out = t ∷ w.out; handed = t ∷ w.handed }
  answered w (q, over) = record w { queue = q }
  answered w (q, again) = record w { queue = q }

  unfoldable pub completed : World Machine → ℕ → Bool → Bool → Option Ticket → World Machine
  completed w i success has_core none = w
  completed w i success has_core (some t) =
      let (q, retrying) = complete t success has_core w.queue in
      record w {
        queue = q;
        out = take i w.out ++ drop (suc i) w.out;
        retired = if retrying then w.retired else t.test_case ∷ w.retired;
      }

  unfoldable pub step : World Machine → Event Machine → World Machine
  step w (claims m slot lane) = answered w (claim_once m slot lane w.queue)
  step w (completes i success has_core) = completed w i success has_core (get_elem? w.out i)
  step w stops = record w { queue = stop w.queue }
  step w (governs hard soft) = record w { queue = set_policy hard soft w.queue }

  unfoldable pub run : World Machine → List (Event Machine) → World Machine
  run w [] = w
  run w (e ∷ es) = run (step w e) es

  unfoldable pub initial : Queue Machine → World Machine
  initial q = record { queue = q; out = []; handed = []; retired = [] }

  -- What every step keeps, a run keeps.
  pub run_keeps :
      {P : World Machine → Type 0}
      → ((w : World Machine) (e : Event Machine) → P w → P (step w e))
      → (w : World Machine) (es : List (Event Machine)) → P w
      → P (run w es)
  unfolding run
  run_keeps keeps w [] v = v
  run_keeps keeps w (e ∷ es) v = run_keeps keeps (step w e) es (keeps w e v)
