-- ===== src/Ctl/Termination.antt =====
-- Every run of the controller ends.
use cubrid_testkit.Prelude.{
  ℕ, suc, ◌+◌, ◌*◌, ◌≤◌, ◌≡◌, ap, Bool, true, false, not, ◌&&◌, ltb, List, [], ◌∷◌, Option, none,
  some, arith, if◌then◌else◌, ◌==◌, nat_eq, Bytes, length,
}
use cubrid_testkit.Ctl.Client.{
  Notice, not_responding, wait_warning, wait_error, lock_table, out_of_range, refused, syntax_error,
  echo, empty_statement, all_blocked_error,
}
use cubrid_testkit.Ctl.Command.{
  Kind, to_client, setup, wait_ready, wait_blocked, wait_unblocked, sleep, deadlock_pause, retired,
  unknown, Command, classify_statement, skip_white,
}
use cubrid_testkit.Ctl.Service.{
  World, M, ◌>>=◌, ◌>>◌, return, report, ask, put_clients, Goal, service,
}
use cubrid_testkit.Ctl.Control.{
  is_gone, in_range, send_statement, send_if_ready, give_to_known, give, until_ready,
  until_finished, again_until, give_up_if, two_waits, wait_until_ready, wait_until_blocked,
  wait_until_unblocked, named_wait, obey, is_for_client, control_statement, quit_client, end_client,
  end_of_input, ids, control,
}
use cubrid_testkit.Ctl.Outcomes.{Holds}
use cubrid_testkit.Ctl.Script.{control_statement-InOrder, statement_of, IsInOrder}
use cubrid_testkit.Ctl.Ends.{
  lates, UsedOf, EndsIn, used_more, used_wider, then_ends, return_ends, wider, if_ends, report_ends,
  ask_ends, refusal_ends, service_until_ends, then_quick, then_wait, quick, accept_or,
}

in_range_ends : (id : ℕ) → EndsIn 0 (in_range id)
unfolding in_range
in_range_ends id =
    let test : World → Bool = λ w. ltb 0 id && not (ltb (length w.clients) id) in
    then_quick 0 (ask test) _ (ask_ends test) (λ ok. accept_or ok (out_of_range id))

send_if_ready_ends : (id : ℕ) (text : Bytes) (n : ℕ) → EndsIn 0 (send_if_ready id text n)
unfolding send_if_ready send_statement ask put_clients report
send_if_ready_ends id text n w h = ground arith

give_ends : (cmd : Command) (n : ℕ) → EndsIn 1 (give cmd n)
unfolding give give_to_known
give_ends cmd n =
    let id = cmd.client in
    let go : M Bool = give_to_known cmd n in
    then_quick 1 (in_range id) _ (in_range_ends id) (λ known.
      if_ends 1 known go (return false)
        (then_quick 1 (ask (is_gone id)) _ (ask_ends (is_gone id)) (λ gone.
          if_ends 1 gone (return true) _ (quick 1 (return true) (return_ends true)) (
            then_wait 0 (until_ready id) _ (λ answered.
              if_ends 0 answered (send_if_ready id cmd.text n)
                (report (not_responding id) >> return false) (send_if_ready_ends id cmd.text n)
                (refusal_ends (not_responding id) false)))))
        (quick 1 (return false) (return_ends false)))

two_waits_ends :
    (id : ℕ) (done : Goal) (test : World → Bool) (n : Notice) → EndsIn 2 (two_waits id done test n)
unfolding two_waits give_up_if again_until
two_waits_ends id done test n = then_wait 1 done _ (λ come.
    if_ends 1 come (return true) _ (quick 1 (return true) (return_ends true)) (
      then_quick 1 (ask test) _ (ask_ends test) (λ hopeless.
        if_ends 1 hopeless (report n >> return false) _
          (quick 1 (report n >> return false) (refusal_ends n false))
          (then_quick 1 (report (wait_warning id)) _ (report_ends (wait_warning id))
            (λ _. then_wait 0 done _ (λ b. accept_or b (wait_error id)))))))

named_wait_ends : (wait : ℕ → M Bool) (id : ℕ) → EndsIn 2 (wait id) → EndsIn 2 (named_wait wait id)
unfolding named_wait
named_wait_ends wait id h = then_quick 2 (in_range id) _ (in_range_ends id) (λ known.
    let waits : M Bool = if known then wait id else return false in
    let then_answer : M Bool =
      waits >>= (λ come. if come then return true else (report lock_table >> return false)) in
    wider (2 + 0) 2 then_answer (omega arith) (
      then_ends 2 0 waits _
        (if_ends 2 known (wait id) (return false) h (quick 2 (return false) (return_ends false)))
        (λ come. accept_or come lock_table)))

waits_end :
    (id : ℕ)
    → EndsIn 2 (wait_until_ready id)
      × EndsIn 2 (wait_until_blocked id)
      × EndsIn 2 (wait_until_unblocked id)
unfolding wait_until_ready wait_until_blocked wait_until_unblocked
waits_end id = (
  two_waits_ends id _ _ all_blocked_error,
  two_waits_ends id _ _ (wait_error id),
  two_waits_ends id _ (λ w. false) (wait_error id),
)

service_ends : EndsIn 1 service
unfolding service
service_ends = service_until_ends true (λ probe clients. false)

pause_ends : EndsIn 3 (service >> (service >> (service >> return true)))
pause_ends = then_ends 1 2 service _ service_ends (λ _.
    then_ends 1 1 service _ service_ends
      (λ _. then_ends 1 0 service _ service_ends (λ _. return_ends true)))

obey_ends : (k : Kind) (cmd : Command) (n : ℕ) (s : Bytes) → EndsIn 3 (obey k cmd n s)
unfolding obey
obey_ends to_client cmd n s = wider 1 3 (give cmd n) (omega arith) (give_ends cmd n)
obey_ends setup cmd n s = quick 3 (return true) (return_ends true)
obey_ends wait_ready cmd n s =
    wider 2 3 (named_wait wait_until_ready cmd.client) (omega arith)
      (named_wait_ends wait_until_ready cmd.client (waits_end cmd.client).0)
obey_ends wait_blocked cmd n s =
    wider 2 3 (named_wait wait_until_blocked cmd.client) (omega arith)
      (named_wait_ends wait_until_blocked cmd.client (waits_end cmd.client).1)
obey_ends wait_unblocked cmd n s =
    wider 2 3 (named_wait wait_until_unblocked cmd.client) (omega arith)
      (named_wait_ends wait_until_unblocked cmd.client (waits_end cmd.client).2)
obey_ends sleep cmd n s = quick 3 (return true) (return_ends true)
obey_ends deadlock_pause cmd n s = pause_ends
obey_ends retired cmd n s =
    quick 3 (report (refused s) >> return false) (refusal_ends (refused s) false)
obey_ends unknown cmd n s =
    quick 3 (report (syntax_error s) >> return false) (refusal_ends (syntax_error s) false)

control_statement_ends : (stmt : Bytes) (n : ℕ) → EndsIn 3 (control_statement stmt n)
unfolding control_statement
control_statement_ends stmt n =
    let s = skip_white stmt in
    let cmd = classify_statement s in
    let go : M Bool = obey cmd.kind cmd n s in
    if_ends 3 (length s == 0) (report empty_statement >> return true) _
      (quick 3 (report empty_statement >> return true) (refusal_ends empty_statement true))
      (if_ends 3 (is_for_client cmd.kind) go (report (echo s) >> go) (obey_ends cmd.kind cmd n s) (
        then_quick 3 (report (echo s)) (λ _. go) (report_ends (echo s))
          (λ _. obey_ends cmd.kind cmd n s)))

quit_client_ends : (id : ℕ) → EndsIn 0 (quit_client id)
unfolding quit_client ask put_clients report
quit_client_ends id w h = ground arith

end_client_ends : (id : ℕ) → EndsIn 1 (end_client id)
unfolding end_client
end_client_ends id = then_quick 1 (ask (is_gone id)) _ (ask_ends (is_gone id)) (λ gone.
    if_ends 1 gone (return true) _ (quick 1 (return true) (return_ends true)) (
      then_quick 1 (quit_client id) _ (quit_client_ends id) (λ told.
        if_ends 1 told _ (return true)
          (then_wait 0 (until_finished id) _ (λ ended. accept_or ended (not_responding id)))
          (quick 1 (return true) (return_ends true)))))

end_of_input_ends : (left : List ℕ) → EndsIn (length left) (end_of_input left)
unfolding end_of_input
end_of_input_ends [] = return_ends {A = ℕ} 0
end_of_input_ends (id ∷ left) =
    let go : M ℕ = end_client id >>= (λ gone. if gone then end_of_input left else return 1) in
    wider (1 + length left) (suc (length left)) go (omega arith) (
      then_ends 1 (length left) (end_client id) _ (end_client_ends id) (λ gone.
        if_ends (length left) gone (end_of_input left) (return 1) (end_of_input_ends left)
          (quick {A = ℕ} (length left) (return 1) (return_ends {A = ℕ} 1))))

-- The late turns that a run uses up at most.
abbrev pub turns_for : List (Bytes × ℕ) → World → ℕ
turns_for script w = 3 * length script + length (ids w.clients)

behind_statement :
    (stmt : Bytes) (n : ℕ) (script : List (Bytes × ℕ)) (w : World) (r : Option (Bool × World))
    → 3 * suc (length script) + length (ids w.clients) ≤ lates w.turns
    → UsedOf 3 w.turns r
    → Holds (λ b v. IsInOrder (statement_of stmt) w v) r
    → ((v : World)
        → turns_for script v ≤ lates v.turns
        → UsedOf (turns_for script v) v.turns (control script v))
    → UsedOf
        (3 * suc (length script) + length (ids w.clients))
        w.turns
        (elim r [ none ↦ none | some (b, v) ↦ (if b then control script else return 1) v ])
behind_statement stmt n script w none h u o k = absurd u
behind_statement stmt n script w (some (false, v)) h u o k = omega (arith, u)
behind_statement stmt n script w (some (true, v)) h u (l, s, i) k =
    let same : length (ids v.clients) ≡ length (ids w.clients) = ap length s.same_ids in
    let room : turns_for script v ≤ lates v.turns = omega (arith, h, u, same) in
    used_wider (3 + turns_for script v) (3 * suc (length script) + length (ids w.clients)) w.turns
      (control script v) (omega (arith, same))
      (used_more 3 (turns_for script v) w.turns v (control script v) u (k v room))

-- A run whose waits run into their limits often enough ends: three times for each statement of the
-- script and once for each client is enough, whatever the clients and the server do.
pub control_ends :
    (script : List (Bytes × ℕ)) (w : World)
    → turns_for script w ≤ lates w.turns
    → UsedOf (turns_for script w) w.turns (control script w)
unfolding control
control_ends [] w h =
    used_wider (length (ids w.clients)) (turns_for [] w) w.turns (end_of_input (ids w.clients) w)
      (omega arith) (end_of_input_ends (ids w.clients) w (omega (arith, h)))
control_ends ((stmt, n) ∷ script) w h =
    behind_statement stmt n script w (control_statement stmt n w) h
      (control_statement_ends stmt n w (omega (arith, h))) (control_statement-InOrder stmt n w)
      (control_ends script)
