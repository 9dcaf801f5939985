-- ===== src/Ctl/Gone.antt =====
-- A run that succeeds leaves no client behind.
use cubrid_testkit.Prelude.{
  ℕ, ◌≡◌, refl, sym, ap, ◌∙◌, Bool, true, false, not, ◌&&◌, List, [], ◌∷◌, Option, none, some,
  if◌then◌else◌, ◌==◌, nat_eq, Bytes, length, Bool-cases, inl, inr,
}
use mathlib.Core.Path.{subst}
use cubrid_testkit.Ctl.Client.{Client, is_finished, is_ready, close, not_responding}
use cubrid_testkit.Ctl.Service.{
  Turn, World, ◌>>=◌, ◌>>◌, return, report, ask, put_clients, select_once, serve_turns,
  service_until,
}
use cubrid_testkit.Ctl.Control.{
  change, holds_of, is_waiting, is_gone, find_client, until_finished, quit_client, end_client,
  end_of_input, ids, control_statement, control,
}
use cubrid_testkit.Ctl.Follow.{then_too, gone_in, holds_of-cons}
use cubrid_testkit.Ctl.Sends.{Sends}
use cubrid_testkit.Ctl.Outcomes.{Holds, sequence}
use cubrid_testkit.Ctl.Script.{
  control_statement-InOrder, end_of_input-IsMute, statement_of, IsInOrder,
}

-- If a step answers yes, a test on the clients holds where it ends.
abbrev Proves : (List Client → Bool) → Option (Bool × World) → Type 0
Proves goal = Holds (λ b v. then_too b (goal v.clients) ≡ true)

self_true : (b : Bool) → then_too b b ≡ true
self_true true = refl
self_true false = refl

serve-Proves :
    (plain : Bool) (goal : List Client → Bool) (ts : List Turn) (w : World)
    → Proves goal (serve_turns plain (λ probe. goal) ts w)
unfolding serve_turns
serve-Proves plain goal [] w = tt
serve-Proves plain goal (t ∷ ts) w = elim (Bool-cases (goal w.clients)) [
  | inl come ↦ rw come come
  | inr waiting ↦ elim (Bool-cases t.late) [
    | inl late ↦ rw (waiting, late) refl
    | inr early ↦
        let w' = (select_once t.select w).0 in
        let spoke = (select_once t.select w).1 in
        elim (Bool-cases (plain && not spoke)) [
          | inl silence ↦ rw (waiting, early, silence) refl
          | inr on ↦ rw (waiting, early, on) (serve-Proves plain goal ts w')
        ]
  ]
]

closed_gone :
    (id : ℕ) (cs : List Client)
    → holds_of (λ c. is_ready c.status) id cs ≡ true
    → gone_in id (change close id cs) ≡ true
unfolding change close
closed_gone id [] h = unfold find_client in h
closed_gone id (c ∷ cs) h =
    let up : Client → Bool = λ d. is_ready d.status in
    let gone : Client → Bool = λ d. is_finished d.status in
    elim (Bool-cases (c.id == id)) [
      | inl this ↦
          rw this
            (holds_of-cons gone id (close c) cs ∙ ap (λ b. if b then true else gone_in id cs) this)
      | inr other ↦
          let behind : holds_of up id cs ≡ true =
            rw other at (sym (holds_of-cons up id c cs) ∙ h) in
          rw other (
            holds_of-cons gone id c (change close id cs)
            ∙ ap (λ b. if b then is_finished c.status else gone_in id (change close id cs)) other
            ∙ closed_gone id cs behind)
    ]

-- Where the pipe to a client is broken, the client is closed.
quit_client-gone :
    (id : ℕ) (w : World)
    → Holds (λ told v. (if told then true else gone_in id v.clients) ≡ true) (quit_client id w)
unfolding quit_client ask put_clients report
quit_client-gone id w =
    let broken = w.breaks (length w.notices) id in
    elim (Bool-cases (is_waiting id w)) [
      | inr busy ↦ rw busy refl
      | inl up ↦ elim (Bool-cases broken) [
        | inl gone ↦ rw (up, gone) (closed_gone id w.clients up)
        | inr whole ↦ rw (up, whole) refl
      ]
    ]

or_else-Proves :
    (id : ℕ) (ended : Bool) (v : World)
    → then_too ended (gone_in id v.clients) ≡ true
    → Proves
        (gone_in id)
        ((if ended then return true else (report (not_responding id) >> return false)) v)
unfolding report
or_else-Proves id true v h = h
or_else-Proves id false v h = refl

told_gone :
    (id : ℕ) (told : Bool) (v : World)
    → (if told then true else gone_in id v.clients) ≡ true
    → Proves (gone_in id) (
        (if told
            then (service_until false (until_finished id) >>= (λ ended.
                if ended then return true else (report (not_responding id) >> return false)))
            else return true)
          v)
unfolding service_until
told_gone id true v h =
    sequence (service_until false (until_finished id)) _
      (λ ended x. then_too ended (gone_in id x.clients) ≡ true)
      (λ ok x. then_too ok (gone_in id x.clients) ≡ true) v
      (serve-Proves false (gone_in id) v.turns v) (or_else-Proves id)
told_gone id false v h = h

end_client-Proves : (id : ℕ) (w : World) → Proves (gone_in id) (end_client id w)
unfolding end_client ask
end_client-Proves id w = elim (Bool-cases (is_gone id w)) [
  | inl gone ↦ rw gone gone
  | inr live ↦ rw live (
      sequence (quit_client id) _ (λ told v. (if told then true else gone_in id v.clients) ≡ true)
        (λ ok v. then_too ok (gone_in id v.clients) ≡ true) w (quit_client-gone id w)
        (told_gone id))
]

abbrev pub all_gone : List ℕ → List Client → Bool
all_gone [] cs = true
all_gone (id ∷ left) cs = gone_in id cs && all_gone left cs

-- The exit status 0 says that the clients in the list are gone.
abbrev pub Succeeds : List ℕ → Option (ℕ × World) → Type 0
Succeeds left = Holds (λ status v. then_too (status == 0) (all_gone left v.clients) ≡ true)

more_gone :
    (id : ℕ) (left : List ℕ) (v : World) (r : Option (ℕ × World))
    → gone_in id v.clients ≡ true
    → Holds (λ status u. Sends [] v u) r
    → Succeeds left r
    → Succeeds (id ∷ left) r
more_gone id left v none gone s h = tt
more_gone id left v (some (status, u)) gone s h =
    let still : gone_in id u.clients ≡ true =
      sym (ap (λ b. then_too b (gone_in id u.clients)) gone) ∙ s.stays id in
    ap (λ b. then_too (status == 0) (b && all_gone left u.clients)) still ∙ h

after_one :
    (id : ℕ) (left : List ℕ) (ok : Bool) (v : World)
    → then_too ok (gone_in id v.clients) ≡ true
    → Succeeds left (end_of_input left v)
    → Succeeds (id ∷ left) ((if ok then end_of_input left else return 1) v)
after_one id left true v gone h =
    more_gone id left v (end_of_input left v) gone (end_of_input-IsMute left v) h
after_one id left false v gone h = refl

end_of_input-Succeeds : (left : List ℕ) (w : World) → Succeeds left (end_of_input left w)
unfolding end_of_input
end_of_input-Succeeds [] w = refl
end_of_input-Succeeds (id ∷ left) w =
    sequence (end_client id) _ (λ ok v. then_too ok (gone_in id v.clients) ≡ true)
      (λ status v. then_too (status == 0) (all_gone (id ∷ left) v.clients) ≡ true) w
      (end_client-Proves id w)
      (λ ok v gone. after_one id left ok v gone (end_of_input-Succeeds left v))

numbers_kept :
    (w v : World) (r : Option (ℕ × World))
    → ids v.clients ≡ ids w.clients
    → Succeeds (ids v.clients) r
    → Succeeds (ids w.clients) r
numbers_kept w v r same h = subst (λ z. Succeeds z r) same h

goes_on-Succeeds :
    (script : List (Bytes × ℕ)) (w : World) (goes_on : Bool) (v : World)
    → ids v.clients ≡ ids w.clients
    → Succeeds (ids v.clients) (control script v)
    → Succeeds (ids w.clients) ((if goes_on then control script else return 1) v)
goes_on-Succeeds script w true v same h = numbers_kept w v (control script v) same h
goes_on-Succeeds script w false v same h = refl

-- A run that ends with the exit status 0 has seen every client go.
pub control-Succeeds :
    (script : List (Bytes × ℕ)) (w : World) → Succeeds (ids w.clients) (control script w)
unfolding control
control-Succeeds [] w = end_of_input-Succeeds (ids w.clients) w
control-Succeeds ((stmt, n) ∷ script) w =
    sequence (control_statement stmt n) _ (λ b v. IsInOrder (statement_of stmt) w v)
      (λ status u. then_too (status == 0) (all_gone (ids w.clients) u.clients) ≡ true) w
      (control_statement-InOrder stmt n w)
      (λ goes_on v (l, s, i).
        goes_on-Succeeds script w goes_on v s.same_ids (control-Succeeds script v))
