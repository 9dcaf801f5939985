-- ===== src/Ctl/Sends.antt =====
-- What a step of the controller has sent to the clients when it ends.
use cubrid_testkit.Prelude.{
  ℕ, ◌≡◌, refl, sym, ap, ◌∙◌, Bool, true, false, List, [], ◌∷◌, ◌++◌, Option, none, some, arith,
  Bytes, Bool-cases, inl, inr,
}
use mathlib.Core.Bool.{false≢true}
use mathlib.Core.List.{append_assoc, append-nil}
use cubrid_testkit.Ctl.Client.{
  Client, is_finished, Notice, sent, output, invalid_index, read_output, index_in, as_text, wrap,
}
use cubrid_testkit.Ctl.Service.{
  Said, Spoken, silent, end_of_output, chunk, hear, hear_client, hear_all, errors_of, Select,
  interrupted, quiet, heard, selected, select_once, all_finished, Turn, World,
}
use cubrid_testkit.Ctl.Control.{ids}
use cubrid_testkit.Ctl.Follow.{
  Follows, then_too, gone_in, Follows-self, Follows-ids, Follows-gone, hear_all-Follows,
  reap-Follows,
}

-- The statements that were sent, each with its client, in order.
abbrev pub Statement : Type 0
Statement = ℕ × Bytes

abbrev pub sent_by : Notice → List Statement
sent_by (sent id text) = (id, text) ∷ []
sent_by _ = []

abbrev pub sent_of : List Notice → List Statement
sent_of [] = []
sent_of (n ∷ notices) = sent_by n ++ sent_of notices

pub sent_of-append : (a b : List Notice) → sent_of (a ++ b) ≡ sent_of a ++ sent_of b
sent_of-append [] b = refl
sent_of-append (n ∷ a) b =
    ap (λ z. sent_by n ++ z) (sent_of-append a b)
    ∙ sym (append_assoc (sent_by n) (sent_of a) (sent_of b))

-- From one world to the next the statements `l` were sent; the clients keep their numbers, and one
-- that has finished stays so.
pub record Sends (l : List Statement) (w w' : World) : Type 0 where
  pub told : sent_of w'.notices ≡ sent_of w.notices ++ l
  pub same_ids : ids w'.clients ≡ ids w.clients
  pub stays : (id : ℕ) → then_too (gone_in id w.clients) (gone_in id w'.clients) ≡ true

then_too_trans : (a b c : Bool) → then_too a b ≡ true → then_too b c ≡ true → then_too a c ≡ true
then_too_trans true true c h k = k
then_too_trans true false c h k = absurd (false≢true h)
then_too_trans false b c h k = refl

pub Sends-trans :
    (a b : List Statement) (w v u : World) → Sends a w v → Sends b v u → Sends (a ++ b) w u
Sends-trans a b w v u h k = record {
  told = k.told ∙ ap (λ z. z ++ b) h.told ∙ append_assoc (sent_of w.notices) a b;
  same_ids = k.same_ids ∙ h.same_ids;
  stays = λ id.
      then_too_trans (gone_in id w.clients) (gone_in id v.clients) (gone_in id u.clients)
        (h.stays id) (k.stays id);
}

-- A change of the clients that follows them, with notices behind.
pub followed :
    (l : List Statement) (w : World) (cs : List Client) (notices : List Notice)
    → Follows w.clients cs
    → sent_of notices ≡ l
    → Sends l w (record w { clients = cs; notices = w.notices ++ notices })
followed l w cs notices f e = record {
  told = sent_of-append w.notices notices ∙ ap (λ z. sent_of w.notices ++ z) e;
  same_ids = Follows-ids w.clients cs f;
  stays = λ id. Follows-gone id w.clients cs f;
}

-- The same with nothing printed.
pub changed_only :
    (w : World) (cs : List Client) → Follows w.clients cs → Sends [] w (record w { clients = cs })
changed_only w cs f = record {
  told = sym (append-nil (sent_of w.notices));
  same_ids = Follows-ids w.clients cs f;
  stays = λ id. Follows-gone id w.clients cs f;
}

pub Sends-self : (w : World) → Sends [] w w
Sends-self w = changed_only w w.clients (Follows-self w.clients)

pub turns_dropped :
    (l : List Statement) (w v : World) (ts : List Turn)
    → Sends l w v
    → Sends l w (record v { turns = ts })
turns_dropped l w v ts h = record { told = h.told; same_ids = h.same_ids; stays = h.stays }

errors_of-mute : (s : Said) (c : Client) → sent_of (errors_of s c) ≡ []
unfolding errors_of
errors_of-mute s c = ground arith

header : ℕ → Option ℕ → List Notice → List Notice
header id tran rest = elim tran [ none ↦ invalid_index id ∷ rest | some t ↦ rest ]

header-mute :
    (id : ℕ) (tran : Option ℕ) (text : Bytes)
    → sent_of (header id tran (output id tran text ∷ [])) ≡ []
unfolding header
header-mute id none text = refl
header-mute id (some t) text = refl

read_output-mute : (raw : Bytes) (c : Client) → sent_of (read_output raw c).1 ≡ []
unfolding read_output header
read_output-mute raw c = header-mute c.id (index_in (as_text raw) c.tran_index) (wrap (as_text raw))

hear-mute : (s : Said) (p : Spoken) (c : Client) → sent_of (hear s p c).1 ≡ []
unfolding hear
hear-mute s silent c = errors_of-mute s c
hear-mute s end_of_output c = refl
hear-mute s (chunk raw) c =
    let c' = (read_output raw c).0 in
    sent_of-append (read_output raw c).1 (errors_of s c')
    ∙ ap (λ z. z ++ sent_of (errors_of s c')) (read_output-mute raw c)
    ∙ errors_of-mute s c'

hear_client-mute : (said : ℕ → Said) (c : Client) → sent_of (hear_client said c).1 ≡ []
unfolding hear_client
hear_client-mute said c = elim (Bool-cases (is_finished c.status)) [
  | inl gone ↦ rw gone refl
  | inr live ↦ rw live (hear-mute (said c.id) (said c.id).spoken c)
]

hear_all-mute : (said : ℕ → Said) (cs : List Client) → sent_of (hear_all said cs).1 ≡ []
unfolding hear_all
hear_all-mute said [] = refl
hear_all-mute said (c ∷ cs) =
    sent_of-append (hear_client said c).1 (hear_all said cs).1
    ∙ ap (λ z. z ++ sent_of (hear_all said cs).1) (hear_client-mute said c)
    ∙ hear_all-mute said cs

selected-mute : (s : Select) (w : World) → Sends [] w (selected s w).0
unfolding selected
selected-mute interrupted w = Sends-self w
selected-mute (quiet exited) w = changed_only w _ (reap-Follows exited w.clients)
selected-mute (heard said) w =
    followed [] w (hear_all said w.clients).0 (hear_all said w.clients).1
      (hear_all-Follows said w.clients) (hear_all-mute said w.clients)

pub select_once-mute : (s : Select) (w : World) → Sends [] w (select_once s w).0
unfolding select_once
select_once-mute s w = elim (Bool-cases (all_finished w.clients)) [
  | inl over ↦ rw over (Sends-self w)
  | inr live ↦ rw live (selected-mute s w)
]
