-- ===== src/Ctl/ControlTests.antt =====
-- The controller on a script for one client.
use cubrid_testkit.Prelude.{
  ℕ, ◌≡◌, refl, true, false, List, Option, none, some, [], ◌∷◌, arith, nat_eq, Bytes,
}
use cubrid_testkit.Prelude.Strings.{codes}
use cubrid_testkit.Ctl.Sends.{sent_of}
use cubrid_testkit.Ctl.Client.{ready, started}
use cubrid_testkit.Ctl.Command.{classify_statement}
use cubrid_testkit.Ctl.Service.{Turn, World, Select, quiet, heard, chunk}
use cubrid_testkit.Ctl.Control.{find_client, control, give, ids}
use cubrid_testkit.Ctl.Case.{compounds}
use cubrid_testkit.Ctl.Orders.{IsGiven, give-IsGiven}
use cubrid_testkit.Ctl.Outcomes.{Holds}
use cubrid_testkit.Ctl.Script.{InOrder, statements_for, control-InOrder}
use cubrid_testkit.Ctl.Ends.{UsedOf}
use cubrid_testkit.Ctl.Termination.{turns_for, control_ends}
use cubrid_testkit.Ctl.Gone.{Succeeds, control-Succeeds}

abbrev turn : Select → Turn
turn s = record { probe = λ t. false; late = false; probe_late = λ t. false; select = s }

abbrev late_turn : Turn
late_turn = record (turn (quiet (λ id. false))) { late = true }

-- The client reports that it is ready.
abbrev reports : Turn
reports = turn (heard (λ id. record { spoken = chunk (codes "(1) is ready."); errors = [] }))

abbrev exits : Turn
exits = turn (quiet (λ id. true))

abbrev one_client : List Turn → World
one_client ts = record {
  clients = record (started 1) { status = ready } ∷ [];
  notices = [];
  turns = ts;
  answers = λ n t. false;
  breaks = λ n id. false;
}

abbrev script : List (Bytes × ℕ)
script = (codes "C1: commit;", 1) ∷ []

-- The client is given the statement, and goes when it is told to.
abbrev quits : World
quits = one_client (exits ∷ reports ∷ exits ∷ exits ∷ [])

-- Four waits that run into their limits are enough for one statement and one client.
abbrev hangs : World
hangs = one_client (late_turn ∷ late_turn ∷ late_turn ∷ late_turn ∷ [])

abbrev ended_with : Option (ℕ × World) → Option (ℕ × List (ℕ × Bytes))
ended_with none = none
ended_with (some (status, v)) = some (status, sent_of v.notices)

quits_sent : ended_with (control script quits) ≡ some (0, (1, codes "commit;") ∷ [])
unfolding control started find_client
quits_sent = refl

hangs_sent : ended_with (control script hangs) ≡ some (1, (1, codes "commit;") ∷ [])
unfolding control started find_client
hangs_sent = refl

group_joined :
    compounds (codes "C1:{insert a;" ∷ codes "insert b;" ∷ codes "};" ∷ codes "commit;" ∷ [])
    ≡ (codes "C1: insert a;insert b;", 2) ∷ (codes "commit;", 1) ∷ []
unfolding compounds
group_joined = refl

give-IsGiven_example :
    Holds
      (λ ok v. IsGiven (classify_statement (codes "C1: commit;")) 1 quits v)
      (give (classify_statement (codes "C1: commit;")) 1 quits)
give-IsGiven_example = give-IsGiven (classify_statement (codes "C1: commit;")) 1 quits

control-InOrder_example : InOrder (statements_for script) quits (control script quits)
control-InOrder_example = control-InOrder script quits

control-Succeeds_example : Succeeds (ids quits.clients) (control script quits)
control-Succeeds_example = control-Succeeds script quits

control_ends_example : UsedOf (turns_for script hangs) hangs.turns (control script hangs)
unfolding started
control_ends_example = control_ends script hangs (omega arith)
