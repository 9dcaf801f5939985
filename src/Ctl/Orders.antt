-- ===== src/Ctl/Orders.antt =====
-- What the controller sends, and to whom.
use cubrid_testkit.Prelude.{
  ℕ, ◌≡◌, ◌⊎◌, refl, Bool, true, false, not, ◌&&◌, ltb, [], ◌∷◌, ◌++◌, Option, none, some,
  if◌then◌else◌, length, Bool-cases, inl, inr,
}
use cubrid_testkit.Ctl.Client.{
  Notice, wait_warning, wait_error, lock_table, out_of_range, not_responding, broken_pipe, sent,
  given, all_blocked_error,
}
use cubrid_testkit.Ctl.Command.{Command}
use cubrid_testkit.Ctl.Service.{
  World, M, ◌>>◌, return, report, ask, put_clients, Goal, service_until, service,
}
use cubrid_testkit.Ctl.Control.{
  in_range, again_until, give_up_if, two_waits, wait_until_ready, wait_until_blocked,
  wait_until_unblocked, named_wait, send_statement, send_if_ready, give, until_ready, is_waiting,
  is_gone, change, give_to_known,
}
use cubrid_testkit.Ctl.Follow.{given-Follows}
use cubrid_testkit.Ctl.Sends.{sent_by, Sends, Sends-trans, followed}
use cubrid_testkit.Ctl.Outcomes.{
  Holds, sequence, SendsIn, behind, IsMute, then-IsMute, return-IsMute, if-IsMute, report-IsMute,
  refusal-IsMute, service_until-IsMute, wait-IsMute, ask-IsMute,
}

pub or_refusal-IsMute :
    (b : Bool) (n : Notice)
    → sent_by n ≡ []
    → IsMute (if b then return true else (report n >> return false))
or_refusal-IsMute b n e =
    if-IsMute b (return true) (report n >> return false) (return-IsMute true) (refusal-IsMute n e)

in_range-IsMute : (id : ℕ) → IsMute (in_range id)
unfolding in_range
in_range-IsMute id =
    then-IsMute (ask (λ w. ltb 0 id && not (ltb (length w.clients) id))) _
      (ask-IsMute (λ w. ltb 0 id && not (ltb (length w.clients) id)))
      (λ ok. or_refusal-IsMute ok (out_of_range id) refl)

again_until-IsMute : (id : ℕ) (done : Goal) → IsMute (again_until id done)
unfolding again_until
again_until-IsMute id done =
    then-IsMute (report (wait_warning id)) _ (report-IsMute (wait_warning id) refl)
      (λ _. wait-IsMute done _ (λ b. or_refusal-IsMute b (wait_error id) refl))

give_up_if-IsMute :
    (test : World → Bool) (n : Notice) (m : M Bool)
    → sent_by n ≡ []
    → IsMute m
    → IsMute (give_up_if test n m)
unfolding give_up_if
give_up_if-IsMute test n m e h =
    then-IsMute (ask test) _ (ask-IsMute test)
      (λ hopeless. if-IsMute hopeless (report n >> return false) m (refusal-IsMute n e) h)

pub two_waits-IsMute :
    (id : ℕ) (done : Goal) (test : World → Bool) (n : Notice)
    → sent_by n ≡ []
    → IsMute (two_waits id done test n)
unfolding two_waits
two_waits-IsMute id done test n e = wait-IsMute done _ (λ b.
    if-IsMute b (return true) (give_up_if test n (again_until id done)) (return-IsMute true)
      (give_up_if-IsMute test n (again_until id done) e (again_until-IsMute id done)))

pub named_wait-IsMute :
    (wait : ℕ → M Bool) (id : ℕ) → IsMute (wait id) → IsMute (named_wait wait id)
unfolding named_wait
named_wait-IsMute wait id h = then-IsMute (in_range id) _ (in_range-IsMute id) (λ known.
    then-IsMute (if known then wait id else return false) _
      (if-IsMute known (wait id) (return false) h (return-IsMute false))
      (λ come. or_refusal-IsMute come lock_table refl))

pub service-IsMute : IsMute service
unfolding service
service-IsMute = service_until-IsMute true (λ probe clients. false)

-- The command sends nothing; or at a moment at which its client is ready, its text goes to that
-- client, which owes the answers to its statements from then on.
abbrev pub IsGiven : Command → ℕ → World → World → Type 0
IsGiven cmd substatements w v =
    Sends [] w v
    ⊎ (u : World) × Sends [] w u
      × (is_waiting cmd.client u ≡ true)
      × (v ≡ record u {
        clients = change (given substatements) cmd.client u.clients;
        notices = u.notices ++ sent cmd.client cmd.text ∷ [];
      })

-- The commands that are sent, or not.
abbrev Gives : Command → ℕ → World → Option (Bool × World) → Type 0
Gives cmd n w = Holds (λ ok v. IsGiven cmd n w v)

mute-Gives :
    (cmd : Command) (n : ℕ) (w u : World) (r : Option (Bool × World))
    → Sends [] w u
    → SendsIn [] u r
    → Gives cmd n w r
mute-Gives cmd n w u none s h = tt
mute-Gives cmd n w u (some (ok, v)) s h = inl (Sends-trans [] [] w u v s h)

send_if_ready-Gives :
    (cmd : Command) (n : ℕ) (w u : World)
    → Sends [] w u
    → Gives cmd n w (send_if_ready cmd.client cmd.text n u)
unfolding send_if_ready send_statement report ask put_clients
send_if_ready-Gives cmd n w u s = elim (Bool-cases (is_waiting cmd.client u)) [
  | inr busy ↦ rw busy (
      mute-Gives cmd n w u ((report (not_responding cmd.client) >> return false) u) s
        (refusal-IsMute (not_responding cmd.client) refl u))
  | inl up ↦ elim (Bool-cases (u.breaks (length u.notices) cmd.client)) [
    | inl broken ↦
        rw (up, broken)
          (inl (
            Sends-trans [] [] w u _ s (
              followed [] u (change (given n) cmd.client u.clients) (broken_pipe cmd.client ∷ [])
                (given-Follows n cmd.client u.clients up) refl)))
    | inr whole ↦ rw (up, whole) (inr (u, s, up, refl))
  ]
]

if-Gives :
    (cmd : Command) (n : ℕ) (w u : World) (b : Bool) (m k : M Bool)
    → Gives cmd n w (m u)
    → Gives cmd n w (k u)
    → Gives cmd n w ((if b then m else k) u)
if-Gives cmd n w u true m k h g = h
if-Gives cmd n w u false m k h g = g

give_to_known-Gives :
    (cmd : Command) (n : ℕ) (w u : World) → Sends [] w u → Gives cmd n w (give_to_known cmd n u)
unfolding give_to_known
give_to_known-Gives cmd n w u s =
    let no_answer = refusal-IsMute (not_responding cmd.client) refl in
    elim (Bool-cases (is_gone cmd.client u)) [
      | inl gone ↦ rw (gone, ask) (inl s)
      | inr live ↦
          rw (live, ask)
            (sequence (service_until false (until_ready cmd.client)) _ (λ b x. Sends [] w x)
              (λ ok v. IsGiven cmd n w v) u
              (behind [] [] w u (service_until false (until_ready cmd.client) u) s
                (service_until-IsMute false (until_ready cmd.client) u))
              (λ b x t.
                if-Gives cmd n w x b (send_if_ready cmd.client cmd.text n)
                  (report (not_responding cmd.client) >> return false)
                  (send_if_ready-Gives cmd n w x t)
                  (mute-Gives cmd n w x ((report (not_responding cmd.client) >> return false) x) t
                    (no_answer x))))
    ]

-- A command is sent only to a client that is ready, once; or nothing is sent at all.
pub give-IsGiven : (cmd : Command) (n : ℕ) (w : World) → Gives cmd n w (give cmd n w)
unfolding give
give-IsGiven cmd n w =
    sequence (in_range cmd.client) _ (λ ok u. Sends [] w u) (λ ok v. IsGiven cmd n w v) w
      (in_range-IsMute cmd.client w)
      (λ known u s.
        if-Gives cmd n w u known (give_to_known cmd n) (return false)
          (give_to_known-Gives cmd n w u s) (inl s))

-- The three waits send nothing, whatever they wait for.
pub waits-IsMute :
    (id : ℕ)
    → IsMute (wait_until_ready id)
      × IsMute (wait_until_blocked id)
      × IsMute (wait_until_unblocked id)
unfolding wait_until_ready wait_until_blocked wait_until_unblocked
waits-IsMute id = (
  two_waits-IsMute id _ _ all_blocked_error refl,
  two_waits-IsMute id _ _ (wait_error id) refl,
  two_waits-IsMute id _ (λ w. false) (wait_error id) refl,
)
