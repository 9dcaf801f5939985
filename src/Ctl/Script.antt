-- ===== src/Ctl/Script.antt =====
-- The order in which a script's statements reach the clients.
use cubrid_testkit.Prelude.{
  ℕ, ◌≡◌, refl, sym, Bool, true, false, ◌&&◌, List, [], ◌∷◌, ◌++◌, Option, none, some,
  if◌then◌else◌, ◌==◌, nat_eq, Bytes, length, inl, inr,
}
use mathlib.Core.Path.{subst}
use cubrid_testkit.Ctl.Client.{
  Notice, sent, given, echo, empty_statement, refused, syntax_error, not_responding, broken_pipe,
  close,
}
use cubrid_testkit.Ctl.Command.{
  Kind, to_client, setup, wait_ready, wait_blocked, wait_unblocked, sleep, deadlock_pause, retired,
  unknown, Command, classify_statement, skip_white,
}
use cubrid_testkit.Ctl.Service.{World, M, ◌>>=◌, ◌>>◌, return, report, ask, put_clients, service}
use cubrid_testkit.Ctl.Control.{
  change, is_waiting, give, named_wait, wait_until_ready, wait_until_blocked, wait_until_unblocked,
  obey, is_for_client, control_statement, quit_client, end_client, end_of_input, ids, control,
  is_gone, until_finished,
}
use cubrid_testkit.Ctl.Follow.{given-Follows, close-Follows}
use cubrid_testkit.Ctl.Sends.{Statement, sent_by, Sends, Sends-trans, followed, changed_only}
use cubrid_testkit.Ctl.Outcomes.{
  Holds, sequence, SendsIn, IsMute, then-IsMute, return-IsMute, report-IsMute, refusal-IsMute,
  if-IsMute, ask-IsMute, wait-IsMute,
}
use cubrid_testkit.Ctl.Orders.{
  IsGiven, give-IsGiven, named_wait-IsMute, waits-IsMute, service-IsMute, or_refusal-IsMute,
}

-- Some statements of a list, in the order of the list.
pub data Within : List Statement → List Statement → Type 0 where
  none_left : Within [] []
  passed : (s : Statement) {l ss : List Statement} → Within l ss → Within l (s ∷ ss)
  taken : (s : Statement) {l ss : List Statement} → Within l ss → Within (s ∷ l) (s ∷ ss)

Within-nil : (ss : List Statement) → Within [] ss
Within-nil [] = none_left
Within-nil (s ∷ ss) = passed s (Within-nil ss)

Within-append :
    {a s : List Statement} (b t : List Statement)
    → Within a s
    → Within b t
    → Within (a ++ b) (s ++ t)
Within-append b t none_left k = k
Within-append b t (passed s h) k = passed s (Within-append b t h k)
Within-append b t (taken s h) k = taken s (Within-append b t h k)

-- The statement that a line of the script has for a client.
abbrev pub for_client : Command → List Statement
for_client cmd = if is_for_client cmd.kind then (cmd.client, cmd.text) ∷ [] else []

abbrev pub statement_of : Bytes → List Statement
statement_of stmt =
    let s = skip_white stmt in if length s == 0 then [] else for_client (classify_statement s)

abbrev pub statements_for : List (Bytes × ℕ) → List Statement
statements_for [] = []
statements_for ((stmt, n) ∷ script) = statement_of stmt ++ statements_for script

-- What was sent stands in the list `ss`, in its order.
abbrev pub IsInOrder : List Statement → World → World → Type 0
IsInOrder ss w v = (l : List Statement) × Sends l w v × Within l ss

abbrev pub InOrder : {A : Type 0} → List Statement → World → Option (A × World) → Type 0
InOrder {A = A} ss w = Holds {A = A} (λ a v. IsInOrder ss w v)

mute-InOrder :
    {A : Type 0} (ss : List Statement) (w : World) (r : Option (A × World))
    → SendsIn [] w r
    → InOrder ss w r
mute-InOrder ss w none h = tt
mute-InOrder ss w (some (a, v)) h = ([], h, Within-nil ss)

IsGiven-InOrder :
    (cmd : Command) (n : ℕ) (w v : World)
    → IsGiven cmd n w v
    → IsInOrder ((cmd.client, cmd.text) ∷ []) w v
IsGiven-InOrder cmd n w v (inl quiet) = ([], quiet, Within-nil ((cmd.client, cmd.text) ∷ []))
IsGiven-InOrder cmd n w v (inr (u, s, up, done)) =
    let l : List Statement = (cmd.client, cmd.text) ∷ [] in
    let sends : Sends l w v = subst (Sends l w) (sym done) (
      Sends-trans [] l w u _ s (
        followed l u (change (given n) cmd.client u.clients) (sent cmd.client cmd.text ∷ [])
          (given-Follows n cmd.client u.clients up) refl)) in
    (l, sends, taken (cmd.client, cmd.text) none_left)

given-InOrder :
    (cmd : Command) (n : ℕ) (w : World) (r : Option (Bool × World))
    → Holds (λ ok v. IsGiven cmd n w v) r
    → InOrder ((cmd.client, cmd.text) ∷ []) w r
given-InOrder cmd n w none h = tt
given-InOrder cmd n w (some (ok, v)) h = IsGiven-InOrder cmd n w v h

-- Only a statement for a client is sent.
obey-InOrder :
    (k : Kind) (cmd : Command) (n : ℕ) (s : Bytes) (w : World)
    → InOrder (if is_for_client k then (cmd.client, cmd.text) ∷ [] else []) w (obey k cmd n s w)
unfolding obey
obey-InOrder to_client cmd n s w = given-InOrder cmd n w (give cmd n w) (give-IsGiven cmd n w)
obey-InOrder setup cmd n s w = mute-InOrder [] w (some (true, w)) (return-IsMute true w)
obey-InOrder wait_ready cmd n s w =
    mute-InOrder [] w (named_wait wait_until_ready cmd.client w)
      (named_wait-IsMute wait_until_ready cmd.client (waits-IsMute cmd.client).0 w)
obey-InOrder wait_blocked cmd n s w =
    mute-InOrder [] w (named_wait wait_until_blocked cmd.client w)
      (named_wait-IsMute wait_until_blocked cmd.client (waits-IsMute cmd.client).1 w)
obey-InOrder wait_unblocked cmd n s w =
    mute-InOrder [] w (named_wait wait_until_unblocked cmd.client w)
      (named_wait-IsMute wait_until_unblocked cmd.client (waits-IsMute cmd.client).2 w)
obey-InOrder sleep cmd n s w = mute-InOrder [] w (some (true, w)) (return-IsMute true w)
obey-InOrder deadlock_pause cmd n s w =
    mute-InOrder [] w ((service >> (service >> (service >> return true))) w) (
      then-IsMute service _ service-IsMute
        (λ _.
          then-IsMute service _ service-IsMute
            (λ _. then-IsMute service _ service-IsMute (λ _. return-IsMute true)))
        w)
obey-InOrder retired cmd n s w =
    mute-InOrder [] w ((report (refused s) >> return false) w) (refusal-IsMute (refused s) refl w)
obey-InOrder unknown cmd n s w =
    mute-InOrder [] w ((report (syntax_error s) >> return false) w)
      (refusal-IsMute (syntax_error s) refl w)

joined :
    {B : Type 0} (ss ts : List Statement) (w v : World) (r : Option (B × World))
    → IsInOrder ss w v
    → InOrder ts v r
    → InOrder (ss ++ ts) w r
joined ss ts w v none h k = tt
joined ss ts w v (some (b, u)) (a, s, i) (l, t, j) =
    (a ++ l, Sends-trans a l w v u s t, Within-append l ts i j)

-- Two steps in sequence, each of which sends in its order.
in_sequence :
    {A B : Type 0} (m : M A) (f : A → M B) (ss ts : List Statement) (w : World)
    → InOrder ss w (m w)
    → ((a : A) (v : World) → InOrder ts v (f a v))
    → InOrder (ss ++ ts) w ((m >>= f) w)
in_sequence m f ss ts w h k =
    sequence m f (λ a v. IsInOrder ss w v) (λ b u. IsInOrder (ss ++ ts) w u) w h
      (λ a v first. joined ss ts w v (f a v) first (k a v))

chosen-InOrder :
    (nothing client : Bool) (skip go_on : M Bool) (n : Notice) (l : List Statement) (w : World)
    → sent_by n ≡ []
    → IsMute skip
    → ((v : World) → InOrder (if client then l else []) v (go_on v))
    → InOrder
        (if nothing then [] else if client then l else [])
        w
        ((if nothing then skip else if client then go_on else (report n >> go_on)) w)
chosen-InOrder true client skip go_on n l w e h k = mute-InOrder _ w (skip w) (h w)
chosen-InOrder false true skip go_on n l w e h k = k w
chosen-InOrder false false skip go_on n l w e h k =
    in_sequence (report n) (λ _. go_on) [] [] w
      (mute-InOrder [] w (report n w) (report-IsMute n e w)) (λ _ v. k v)

pub control_statement-InOrder :
    (stmt : Bytes) (n : ℕ) (w : World) → InOrder (statement_of stmt) w (control_statement stmt n w)
unfolding control_statement
control_statement-InOrder stmt n w =
    let s = skip_white stmt in
    let cmd = classify_statement s in
    chosen-InOrder (length s == 0) (is_for_client cmd.kind) (report empty_statement >> return true)
      (obey cmd.kind cmd n s) (echo s) ((cmd.client, cmd.text) ∷ []) w refl
      (then-IsMute (report empty_statement) (λ _. return true) (report-IsMute empty_statement refl)
        (λ _. return-IsMute true))
      (obey-InOrder cmd.kind cmd n s)

closed-IsMute : (id : ℕ) → IsMute (put_clients (change close id))
unfolding put_clients
closed-IsMute id w = changed_only w (change close id w.clients) (close-Follows id w.clients)

quit_client-IsMute : (id : ℕ) → IsMute (quit_client id)
unfolding quit_client
quit_client-IsMute id =
    let broken_now : World → Bool = λ w. w.breaks (length w.notices) id in
    then-IsMute (ask (is_waiting id)) _ (ask-IsMute (is_waiting id)) (λ up.
      then-IsMute (ask broken_now) _ (ask-IsMute broken_now) (λ broken.
        if-IsMute (up && broken)
          (report (broken_pipe id) >> (put_clients (change close id) >> return false)) (return true)
          (then-IsMute (report (broken_pipe id))
            (λ _. put_clients (change close id) >> return false)
            (report-IsMute (broken_pipe id) refl)
            (λ _.
              then-IsMute (put_clients (change close id)) (λ _. return false) (closed-IsMute id)
                (λ _. return-IsMute false)))
          (return-IsMute true)))

end_client-IsMute : (id : ℕ) → IsMute (end_client id)
unfolding end_client
end_client-IsMute id = then-IsMute (ask (is_gone id)) _ (ask-IsMute (is_gone id)) (λ gone.
    if-IsMute gone (return true) _ (return-IsMute true) (
      then-IsMute (quit_client id) _ (quit_client-IsMute id) (λ told.
        if-IsMute told _ (return true)
          (wait-IsMute (until_finished id) _
            (λ ended. or_refusal-IsMute ended (not_responding id) refl))
          (return-IsMute true))))

pub end_of_input-IsMute : (left : List ℕ) → IsMute (end_of_input left)
unfolding end_of_input
end_of_input-IsMute [] = return-IsMute {A = ℕ} 0
end_of_input-IsMute (id ∷ left) = then-IsMute (end_client id) _ (end_client-IsMute id) (λ gone.
    if-IsMute gone (end_of_input left) (return 1) (end_of_input-IsMute left)
      (return-IsMute {A = ℕ} 1))

or_stop :
    (script : List (Bytes × ℕ)) (goes_on : Bool) (v : World)
    → InOrder (statements_for script) v (control script v)
    → InOrder (statements_for script) v ((if goes_on then control script else return 1) v)
or_stop script true v h = h
or_stop script false v h =
    let one : ℕ = 1 in mute-InOrder (statements_for script) v (return one v) (return-IsMute one v)

-- Whatever the clients and the server do, the statements that a run sends are statements that the
-- script has for a client, each at most once, to the client that it names, and in the script's order.
-- No client changes its number, and none comes back that has finished.
pub control-InOrder :
    (script : List (Bytes × ℕ)) (w : World) → InOrder (statements_for script) w (control script w)
unfolding control
control-InOrder [] w =
    mute-InOrder [] w (end_of_input (ids w.clients) w) (end_of_input-IsMute (ids w.clients) w)
control-InOrder ((stmt, n) ∷ script) w =
    in_sequence (control_statement stmt n) _ (statement_of stmt) (statements_for script) w
      (control_statement-InOrder stmt n w)
      (λ goes_on v. or_stop script goes_on v (control-InOrder script v))
