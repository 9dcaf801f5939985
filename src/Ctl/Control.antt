-- ===== src/Ctl/Control.antt =====
-- internal/ctl/controller.go: the statement loop and what it does for each statement.
use cubrid_testkit.Prelude.{
  ℕ, Bool, true, false, not, ◌&&◌, ◌||◌, List, [], ◌∷◌, Option, none, some, ltb, if◌then◌else◌,
  ◌==◌, nat_eq, Bytes, length,
}
use cubrid_testkit.Ctl.Command.{
  Kind, to_client, setup, wait_ready, wait_blocked, wait_unblocked, sleep, deadlock_pause, retired,
  unknown, Command, classify_statement, skip_white,
}
use cubrid_testkit.Ctl.Client.{
  Client, is_finished, is_ready, Notice, sent, echo, empty_statement, out_of_range, broken_pipe,
  not_responding, wait_warning, wait_error, all_blocked_error, lock_table, refused, syntax_error,
  close, given,
}
use cubrid_testkit.Ctl.Service.{
  Probe, World, M, ◌>>=◌, ◌>>◌, return, report, ask, put_clients, Goal, service_until, service,
}

-- `r.clients[id-1]`, by the number that a client has from its start.
unfoldable pub find_client : ℕ → List Client → Option Client
find_client id [] = none
find_client id (c ∷ cs) = if c.id == id then some c else find_client id cs

-- A write to the client with a number.
unfoldable pub change : (Client → Client) → ℕ → List Client → List Client
change f id [] = []
change f id (c ∷ cs) = if c.id == id then f c ∷ cs else c ∷ change f id cs

-- A test on the client with a number, false where there is none.
abbrev pub holds_of : (Client → Bool) → ℕ → List Client → Bool
holds_of p id cs = elim (find_client id cs) [ none ↦ false | some c ↦ p c ]

abbrev pub until_ready : ℕ → Goal
until_ready id probe = holds_of (λ c. is_ready c.status || is_finished c.status) id

abbrev until_blocked : ℕ → Goal
until_blocked id probe = holds_of (λ c. is_finished c.status || probe c.tran_index) id

abbrev until_unblocked : ℕ → Goal
until_unblocked id probe = holds_of (λ c. is_finished c.status || not (probe c.tran_index)) id

abbrev pub until_finished : ℕ → Goal
until_finished id probe = holds_of (λ c. is_finished c.status) id

abbrev pub is_gone : ℕ → World → Bool
is_gone id w = holds_of (λ c. is_finished c.status) id w.clients

abbrev pub is_waiting : ℕ → World → Bool
is_waiting id w = holds_of (λ c. is_ready c.status) id w.clients

-- `client`: whether the number is in range
unfoldable pub in_range : ℕ → M Bool
unfolding report ask
in_range id = do
  ok ← ask (λ w. ltb 0 id && not (ltb (length w.clients) id))
  if ok then return true else (report (out_of_range id) >> return false)

-- `send`: the client owes its answers from here on, also where the pipe breaks.
unfoldable pub send_statement : ℕ → Bytes → ℕ → M Bool
unfolding change given report ask put_clients
send_statement id text substatements = do
  put_clients (change (given substatements) id)
  broken ← ask (λ w. w.breaks (length w.notices) id)
  if broken
      then (report (broken_pipe id) >> return false)
      else (report (sent id text) >> return true)

unfoldable pub send_if_ready : ℕ → Bytes → ℕ → M Bool
unfolding send_statement report ask
send_if_ready id text substatements = do
  up ← ask (is_waiting id)
  if up then send_statement id text substatements else (report (not_responding id) >> return false)

-- The part of `toClient` behind the look at the client's number.
unfoldable pub give_to_known : Command → ℕ → M Bool
unfolding send_if_ready service_until report ask
give_to_known cmd substatements = do
  gone ← ask (is_gone cmd.client)
  if gone then return true else (do
    answered ← service_until false (until_ready cmd.client)
    if answered
        then send_if_ready cmd.client cmd.text substatements
        else (report (not_responding cmd.client) >> return false))

-- `toClient`
unfoldable pub give : Command → ℕ → M Bool
unfolding in_range give_to_known
give cmd substatements = do
  known ← in_range cmd.client
  if known then give_to_known cmd substatements else return false

-- `allBlocked`
unfoldable pub live_blocked : Probe → List Client → Bool
live_blocked probe [] = true
live_blocked probe (c ∷ cs) = (is_finished c.status || probe c.tran_index) && live_blocked probe cs

unfoldable pub any_live : List Client → Bool
any_live [] = false
any_live (c ∷ cs) = not (is_finished c.status) || any_live cs

unfoldable pub all_blocked : Probe → List Client → Bool
unfolding live_blocked any_live
all_blocked probe cs = live_blocked probe cs && any_live cs

-- The second wait of each of the three, after a warning.
unfoldable pub again_until : ℕ → Goal → M Bool
unfolding service_until report
again_until id done = do
  report (wait_warning id)
  come ← service_until false done
  if come then return true else (report (wait_error id) >> return false)

unfoldable pub give_up_if : (World → Bool) → Notice → M Bool → M Bool
unfolding report ask
give_up_if test n go_on = do
  hopeless ← ask test
  if hopeless then (report n >> return false) else go_on

-- A first wait, the test on which it is given up, and a second wait.
unfoldable pub two_waits : ℕ → Goal → (World → Bool) → Notice → M Bool
unfolding service_until again_until give_up_if
two_waits id done hopeless n = do
  come ← service_until false done
  if come then return true else give_up_if hopeless n (again_until id done)

-- `waitReady`
unfoldable pub wait_until_ready : ℕ → M Bool
unfolding two_waits all_blocked
wait_until_ready id =
    two_waits id (until_ready id) (λ w. all_blocked (w.answers (length w.notices)) w.clients)
      all_blocked_error

-- `waitBlocked`: a client that is ready cannot be blocked any more.
unfoldable pub wait_until_blocked : ℕ → M Bool
unfolding two_waits
wait_until_blocked id = two_waits id (until_blocked id) (is_waiting id) (wait_error id)

-- `waitUnblocked`
unfoldable pub wait_until_unblocked : ℕ → M Bool
unfolding two_waits
wait_until_unblocked id = two_waits id (until_unblocked id) (λ w. false) (wait_error id)

-- A wait for a client that the statement names, on whose failure the lock table is printed.
unfoldable pub named_wait : (ℕ → M Bool) → ℕ → M Bool
unfolding in_range report
named_wait wait id = do
  known ← in_range id
  come ← if known then wait id else return false
  if come then return true else (report lock_table >> return false)

-- What one statement does, and whether the loop goes on behind it.
unfoldable pub obey : Kind → Command → ℕ → Bytes → M Bool
unfolding give named_wait wait_until_ready wait_until_blocked wait_until_unblocked service report
obey to_client cmd substatements s = give cmd substatements
obey setup cmd substatements s = return true
obey wait_ready cmd substatements s = named_wait wait_until_ready cmd.client
obey wait_blocked cmd substatements s = named_wait wait_until_blocked cmd.client
obey wait_unblocked cmd substatements s = named_wait wait_until_unblocked cmd.client
obey sleep cmd substatements s = return true
obey deadlock_pause cmd substatements s = service >> (service >> (service >> return true))
obey retired cmd substatements s = report (refused s) >> return false
obey unknown cmd substatements s = report (syntax_error s) >> return false

abbrev pub is_for_client : Kind → Bool
is_for_client to_client = true
is_for_client _ = false

-- One turn of `loop`: a statement of the script, with the number of statements in it.
unfoldable pub control_statement : Bytes → ℕ → M Bool
unfolding obey report skip_white classify_statement
control_statement stmt substatements =
    let s = skip_white stmt in
    let cmd = classify_statement s in
    if length s == 0
    then (report empty_statement >> return true)
    else if is_for_client cmd.kind
    then obey cmd.kind cmd substatements s
    else (report (echo s) >> obey cmd.kind cmd substatements s)

-- The `quit;` that a waiting client is sent at the end; a broken pipe closes the client.
unfoldable pub quit_client : ℕ → M Bool
unfolding change close report ask put_clients
quit_client id = do
  up ← ask (is_waiting id)
  broken ← ask (λ w. w.breaks (length w.notices) id)
  if up && broken
      then (report (broken_pipe id) >> (put_clients (change close id) >> return false))
      else return true

-- The part of `endOfInput` for one client: whether it is gone.
unfoldable pub end_client : ℕ → M Bool
unfolding quit_client service_until report ask
end_client id = do
  gone ← ask (is_gone id)
  if gone then return true else (do
    told ← quit_client id
    if told
        then (do
          ended ← service_until false (until_finished id)
          if ended then return true else (report (not_responding id) >> return false))
        else return true)

-- `endOfInput`, from the clients' numbers: the exit status.
unfoldable pub end_of_input : List ℕ → M ℕ
unfolding end_client
end_of_input [] = return 0
end_of_input (id ∷ ids) = do gone ← end_client id; if gone then end_of_input ids else return 1

abbrev pub ids : List Client → List ℕ
ids [] = []
ids (c ∷ cs) = c.id ∷ ids cs

-- `loop`, on the statements of the script with the number of statements in each: the exit status. What
-- is read does not depend on the clients.
unfoldable pub control : List (Bytes × ℕ) → M ℕ
unfolding control_statement end_of_input
control [] = λ w. end_of_input (ids w.clients) w
control ((stmt, substatements) ∷ script) = do
  goes_on ← control_statement stmt substatements
  if goes_on then control script else return 1
