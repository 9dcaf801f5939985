-- ===== src/Ctl/Service.antt =====
-- internal/ctl/controller.go: serviceUntil, selectOnce and reap. What the clients and the server do is
-- a list of turns, one for each round of the loop; `none` means that the turns have run out.
use cubrid_testkit.Prelude.{
  ℕ, Bool, true, false, not, ◌&&◌, List, [], ◌∷◌, ◌++◌, Option, none, some, if◌then◌else◌, ◌==◌,
  nat_eq, Bytes, length,
}
use cubrid_testkit.Ctl.Client.{
  Client, finished, is_finished, Notice, error_output, as_text, read_output, close,
}

-- What is read from a client's standard output.
pub data Spoken : Type 0 where
  silent : Spoken
  end_of_output : Spoken
  chunk : Bytes → Spoken

-- What one client has said; `errors` is empty where its standard error is silent.
pub record Said : Type 0 where
  pub spoken : Spoken
  pub errors : Bytes

-- How a select ends: by a signal, with nothing, where `exited` tells which processes are gone, or with
-- what the clients said, each by its number.
pub data Select : Type 0 where
  interrupted : Select
  quiet : (ℕ → Bool) → Select
  heard : (ℕ → Said) → Select

-- What the server answers about a transaction: that it waits for a lock.
abbrev pub Probe : Type 0
Probe = Option ℕ → Bool

-- One round of `serviceUntil`: the server's answers where `done` is asked, whether the limit has run
-- out by then, the answers where it is asked once more, and how the select ends.
pub record Turn : Type 0 where
  pub probe : Probe
  pub late : Bool
  pub probe_late : Probe
  pub select : Select

-- The clients, what was printed, the turns to come; and, at each moment as the number of notices
-- printed, what the server answers outside of the loop, and whether the pipe to a client is broken.
pub record World : Type 0 where
  pub clients : List Client
  pub notices : List Notice
  pub turns : List Turn
  pub answers : ℕ → Probe
  pub breaks : ℕ → ℕ → Bool

-- A step of the controller.
abbrev pub M : Type 0 → Type 0
M A = World → Option (A × World)

infixl 5 ◌>>=◌ ◌>>◌
abbrev pub ◌>>=◌ : {A B : Type 0} → M A → (A → M B) → M B
◌>>=◌ m f w = elim (m w) [ none ↦ none | some (a, w') ↦ f a w' ]

abbrev pub ◌>>◌ : {A B : Type 0} → M A → M B → M B
m >> k = m >>= λ _. k

abbrev pub return : {A : Type 0} → A → M A
return a w = some (a, w)

unfoldable pub report : Notice → M (Unit {0})
report n w = some (tt, record w { notices = w.notices ++ n ∷ [] })

-- A look at the world, and a change of the clients.
unfoldable pub ask : (World → Bool) → M Bool
ask test w = some (test w, w)

unfoldable pub put_clients : (List Client → List Client) → M (Unit {0})
put_clients f w = some (tt, record w { clients = f w.clients })

-- The last part of `selectOnce`, for one client.
unfoldable pub errors_of : Said → Client → List Notice
unfolding as_text
errors_of s c =
    if length s.errors == 0 then [] else error_output c.id c.tran_index (as_text s.errors) ∷ []

unfoldable pub hear : Said → Spoken → Client → Client × List Notice
unfolding errors_of close read_output
hear s silent c = (c, errors_of s c)
hear s end_of_output c = (close c, [])
hear s (chunk raw) c = let (c', said) = read_output raw c in (c', said ++ errors_of s c')

unfoldable pub hear_client : (ℕ → Said) → Client → Client × List Notice
unfolding hear
hear_client said c =
    let s = said c.id in if is_finished c.status then (c, []) else hear s s.spoken c

unfoldable pub hear_all : (ℕ → Said) → List Client → List Client × List Notice
unfolding hear_client
hear_all said [] = ([], [])
hear_all said (c ∷ cs) =
    let (c', now) = hear_client said c in
    let (cs', later) = hear_all said cs in (c' ∷ cs', now ++ later)

-- `reap`
unfoldable pub reap : (ℕ → Bool) → List Client → List Client
reap exited [] = []
reap exited (c ∷ cs) = (if exited c.id then record c { status = finished } else c) ∷ reap exited cs

abbrev pub all_finished : List Client → Bool
all_finished [] = true
all_finished (c ∷ cs) = is_finished c.status && all_finished cs

unfoldable pub selected : Select → World → World × Bool
unfolding reap hear_all
selected interrupted w = (w, true)
selected (quiet exited) w = (record w { clients = reap exited w.clients }, false)
selected (heard said) w =
    let (cs, notices) = hear_all said w.clients in
    (record w { clients = cs; notices = w.notices ++ notices }, true)

-- `selectOnce`: whether anything was read
unfoldable pub select_once : Select → World → World × Bool
unfolding selected
select_once s w = if all_finished w.clients then (w, false) else selected s w

-- What `serviceUntil` waits for.
abbrev pub Goal : Type 0
Goal = Probe → List Client → Bool

-- The loop of `serviceUntil`; `plain` is set for a limit of serviceQuiet.
unfoldable pub serve_turns : Bool → Goal → List Turn → M Bool
unfolding select_once
serve_turns plain done [] w = none
serve_turns plain done (t ∷ ts) w =
    let (w', spoke) = select_once t.select w in
    let rest = serve_turns plain done ts w' in
    if done t.probe w.clients
    then some (true, record w { turns = ts })
    else if t.late
    then some (done t.probe_late w.clients, record w { turns = ts })
    else if plain && not spoke
    then some (false, record w' { turns = ts })
    else rest

-- `serviceUntil`
unfoldable pub service_until : Bool → Goal → M Bool
unfolding serve_turns
service_until plain done w = serve_turns plain done w.turns w

-- `service`
unfoldable pub service : M Bool
unfolding service_until
service = service_until true (λ probe clients. false)
