-- ===== src/Ctl/Follow.antt =====
-- What no step of the controller changes of a client: its number, and that it is finished.
use cubrid_testkit.Prelude.{
  ℕ, zero, suc, ◌≡◌, refl, sym, ap, ◌∙◌, Bool, true, false, List, [], ◌∷◌, Option, none, some,
  arith, if◌then◌else◌, ◌==◌, nat_eq, Bool-cases, inl, inr,
}
use mathlib.Core.Path.{subst}
use cubrid_testkit.Ctl.Client.{
  Client, Status, running, ready, finished, is_finished, is_ready, as_text, index_in, wrap,
  marks_from, account, read_output, close, given,
}
use cubrid_testkit.Ctl.Service.{
  Said, Spoken, silent, end_of_output, chunk, hear, hear_client, hear_all, reap,
}
use cubrid_testkit.Ctl.Control.{find_client, change, holds_of, ids}

-- A Boolean implication.
abbrev pub then_too : Bool → Bool → Bool
then_too a b = if a then b else true

abbrev pub FollowsOne : Client → Client → Type 0
FollowsOne c d = (d.id ≡ c.id) × (then_too (is_finished c.status) (is_finished d.status) ≡ true)

abbrev pub Follows : List Client → List Client → Type 0
Follows [] [] = Unit
Follows [] (d ∷ ds) = ⊥
Follows (c ∷ cs) [] = ⊥
Follows (c ∷ cs) (d ∷ ds) = FollowsOne c d × Follows cs ds

self_implied : (b : Bool) → then_too b b ≡ true
self_implied true = refl
self_implied false = refl

anything_implied : (b : Bool) → then_too b true ≡ true
anything_implied true = refl
anything_implied false = refl

pub Follows-self : (cs : List Client) → Follows cs cs
Follows-self [] = tt
Follows-self (c ∷ cs) = ((refl, self_implied (is_finished c.status)), Follows-self cs)

pub Follows-ids : (cs ds : List Client) → Follows cs ds → ids ds ≡ ids cs
Follows-ids [] [] h = refl
Follows-ids [] (d ∷ ds) h = absurd h
Follows-ids (c ∷ cs) [] h = absurd h
Follows-ids (c ∷ cs) (d ∷ ds) h = ap (λ z. z ∷ ids ds) h.0.0 ∙ ap (◌∷◌ c.id) (Follows-ids cs ds h.1)

abbrev pub gone_in : ℕ → List Client → Bool
gone_in = holds_of (λ c. is_finished c.status)

abbrev held : (Client → Bool) → Option Client → Bool
held p o = elim o [ none ↦ false | some c ↦ p c ]

held_if :
    (b : Bool) (p : Client → Bool) (c : Client) (o : Option Client)
    → held p (if b then some c else o) ≡ (if b then p c else held p o)
held_if true p c o = refl
held_if false p c o = refl

pub holds_of-cons :
    (p : Client → Bool) (id : ℕ) (c : Client) (cs : List Client)
    → holds_of p id (c ∷ cs) ≡ (if c.id == id then p c else holds_of p id cs)
unfolding find_client
holds_of-cons p id c cs = held_if (c.id == id) p c (find_client id cs)

pub Follows-gone :
    (id : ℕ) (cs ds : List Client) → Follows cs ds → then_too (gone_in id cs) (gone_in id ds) ≡ true
unfolding find_client
Follows-gone id [] [] h = refl
Follows-gone id [] (d ∷ ds) h = absurd h
Follows-gone id (c ∷ cs) [] h = absurd h
Follows-gone id (c ∷ cs) (d ∷ ds) h =
    let gone : Client → Bool = λ z. is_finished z.status in
    ground (
      arith,
      holds_of-cons gone id c cs,
      holds_of-cons gone id d ds,
      Follows-gone id cs ds h.1,
      h.0.0,
      h.0.1,
    )

account-id : (n : ℕ) (c : Client) → (account n c).id ≡ c.id
unfolding account
account-id zero c = refl
account-id (suc n) c = account-id n _

hear-FollowsOne :
    (s : Said) (p : Spoken) (c : Client)
    → is_finished c.status ≡ false
    → FollowsOne c (hear s p c).0
unfolding hear close read_output
hear-FollowsOne s silent c h = (refl, self_implied (is_finished c.status))
hear-FollowsOne s end_of_output c h = (refl, anything_implied (is_finished c.status))
hear-FollowsOne s (chunk raw) c h =
    let text = as_text raw in
    (
      account-id (marks_from 0 (wrap text)) (record c { tran_index = index_in text c.tran_index }),
      rw h refl,
    )

hear_client-FollowsOne : (said : ℕ → Said) (c : Client) → FollowsOne c (hear_client said c).0
unfolding hear_client
hear_client-FollowsOne said c = elim (Bool-cases (is_finished c.status)) [
  | inl gone ↦
      let same : hear_client said c ≡ (c, []) = rw gone refl in
      subst (λ z. FollowsOne c z.0) (sym same) (refl, self_implied (is_finished c.status))
  | inr live ↦
      let s = said c.id in
      let heard_now : hear_client said c ≡ hear s s.spoken c = rw live refl in
      subst (λ z. FollowsOne c z.0) (sym heard_now) (hear-FollowsOne s s.spoken c live)
]

pub hear_all-Follows : (said : ℕ → Said) (cs : List Client) → Follows cs (hear_all said cs).0
unfolding hear_all
hear_all-Follows said [] = tt
hear_all-Follows said (c ∷ cs) = (hear_client-FollowsOne said c, hear_all-Follows said cs)

pub reap-Follows : (exited : ℕ → Bool) (cs : List Client) → Follows cs (reap exited cs)
unfolding reap
reap-Follows exited [] = tt
reap-Follows exited (c ∷ cs) = (ground arith, reap-Follows exited cs)

abbrev up : Client → Bool
up c = is_ready c.status

ready_live : (s : Status) → is_ready s ≡ true → is_finished s ≡ false
ready_live running h = refl
ready_live ready h = refl
ready_live finished h = cc

-- A client that is ready may be given a statement.
pub given-Follows :
    (n id : ℕ) (cs : List Client)
    → holds_of (λ c. is_ready c.status) id cs ≡ true
    → Follows cs (change (given n) id cs)
unfolding change given
given-Follows n id [] h = tt
given-Follows n id (c ∷ cs) h = elim (Bool-cases (c.id == id)) [
  | inl this ↦
      let is_up : is_ready c.status ≡ true = rw this at (sym (holds_of-cons up id c cs) ∙ h) in
      let live = ready_live c.status is_up in rw this ((refl, rw live refl), Follows-self cs)
  | inr other ↦
      let behind : holds_of up id cs ≡ true = rw other at (sym (holds_of-cons up id c cs) ∙ h) in
      rw other ((refl, self_implied (is_finished c.status)), given-Follows n id cs behind)
]

pub close-Follows : (id : ℕ) (cs : List Client) → Follows cs (change close id cs)
unfolding change close
close-Follows id [] = tt
close-Follows id (c ∷ cs) = elim (Bool-cases (c.id == id)) [
  | inl this ↦ rw this ((refl, anything_implied (is_finished c.status)), Follows-self cs)
  | inr other ↦ rw other ((refl, self_implied (is_finished c.status)), close-Follows id cs)
]
