-- ===== src/Ctl/Command.antt =====
-- internal/ctl/command.go: what a statement asks the controller to do. A client number and a count
-- of seconds are never negative.
use cubrid_testkit.Prelude.{
  ℕ, ◌+◌, Bool, not, ◌&&◌, ◌||◌, List, [], ◌∷◌, ◌++◌, Option, none, some, ltb, nat_beq,
  if◌then◌else◌, Bytes, length, drop,
}
use cubrid_testkit.Prelude.Strings.{
  codes, has_prefix, index, to_lower, trim_left, span_digits, atoi_digits,
}
use cubrid_testkit.Ctl.Tables.{is_space}

pub data Kind : Type 0 where
  to_client setup wait_ready wait_blocked wait_unblocked sleep deadlock_pause retired unknown : Kind

pub record Command : Type 0 where
  pub kind : Kind
  pub client : ℕ
  pub text : Bytes
  pub name : Bytes
  pub seconds : ℕ

-- `Command{}` with its kind.
abbrev pub plain_command : Kind → Command
plain_command kind = record { kind = kind; client = 0; text = []; name = []; seconds = 0 }

-- `var retired`
abbrev pub retired_commands : List Bytes
retired_commands =
    codes "wait for"
    ∷ codes "reconnect"
    ∷ codes "rendezvous with"
    ∷ codes "execute"
    ∷ codes "allocate client"
    ∷ codes "no-op"
    ∷ []

-- `skipWhite`
unfoldable pub skip_white : Bytes → Bytes
unfolding trim_left
skip_white = trim_left is_space

-- `firstInt`
unfoldable pub first_int : Bytes → Option ℕ
unfolding span_digits atoi_digits
first_int s = atoi_digits (span_digits s).0

is_c : ℕ → Bool
is_c c = nat_beq c b'C' || nat_beq c b'c'

-- The client of a `Cn:` prefix, from the digits and what stands behind them.
unfoldable pub addressed : Bytes → Option ℕ → Bytes → Command
addressed s (some n) (c ∷ rest) =
    if nat_beq c b':' && ltb 0 n
    then record (plain_command to_client) { client = n; text = skip_white rest }
    else record (plain_command to_client) { client = 1; text = s }
addressed s _ _ = record (plain_command to_client) { client = 1; text = s }

-- `toClient`
unfoldable pub client_command : Bytes → Command
unfolding is_c addressed skip_white span_digits atoi_digits
client_command [] = record (plain_command to_client) { client = 1; text = [] }
client_command (c ∷ rest) =
    let (digits, behind) = span_digits rest in
    if is_c c
    then addressed (c ∷ rest) (atoi_digits digits) behind
    else record (plain_command to_client) { client = 1; text = c ∷ rest }

abbrev unknown_command : Bytes → Command
unknown_command name = record (plain_command unknown) { name = name }

-- The subcommands of a wait.
wait_of : ℕ → Bytes → Bytes → Command
wait_of n rest low =
    if has_prefix low (codes "blocked;")
    then record (plain_command wait_blocked) { client = n }
    else if has_prefix low (codes "unblocked;")
    then record (plain_command wait_unblocked) { client = n }
    else if has_prefix low (codes "ready;")
    then record (plain_command wait_ready) { client = n }
    else if has_prefix low (codes "finished;")
    then record (plain_command retired) { name = codes "wait until c<n> finished" }
    else unknown_command (codes "wait until c" ++ rest)

wait_number : Bytes → Option ℕ → Command
unfolding wait_of
wait_number rest none = unknown_command (codes "wait until c" ++ rest)
wait_number rest (some n) =
    let behind = (span_digits rest).1 in wait_of n behind (to_lower (skip_white behind))

-- `waitCommand`
unfoldable pub wait_command : Bytes → Command
unfolding wait_number first_int skip_white to_lower has_prefix
wait_command rest = wait_number rest (first_int rest)

sleep_command : Bytes → Option ℕ → Command
sleep_command body none = unknown_command body
sleep_command body (some n) = record (plain_command sleep) { seconds = n }

-- The loop over `retired`.
refused : Bytes → Bytes → List Bytes → Command
refused body low [] = unknown_command body
refused body low (r ∷ rs) =
    let rest = refused body low rs in
    if has_prefix low r then record (plain_command retired) { name = r } else rest

-- What follows `mc:`.
master_command : Bytes → Bytes → Command
unfolding sleep_command refused
master_command body low =
    if has_prefix low (codes "setup")
    then plain_command setup
    else if has_prefix low (codes "pause for deadlock resolution;")
    then plain_command deadlock_pause
    else if has_prefix low (codes "wait until c")
    then wait_command (drop (length (codes "wait until c")) body)
    else if has_prefix low (codes "sleep")
    then sleep_command body (first_int (skip_white (drop (length (codes "sleep")) body)))
    else refused body low retired_commands

-- `Classify`
unfoldable pub classify_statement : Bytes → Command
unfolding master_command client_command wait_command
classify_statement stmt =
    let s = skip_white stmt in
    let body = skip_white (drop 3 s) in
    if not (has_prefix (to_lower s) (codes "mc:"))
    then client_command s
    else master_command body (to_lower body)

count_or_one : Option ℕ → ℕ
count_or_one none = 1
count_or_one (some n) = n

clients_at : Bytes → Option ℕ → ℕ
unfolding count_or_one
clients_at stmt none = 1
clients_at stmt (some i) =
    count_or_one (first_int (skip_white (drop (i + length (codes "num_clients = ")) stmt)))

-- `NumClients`
unfoldable pub num_clients : Bytes → ℕ
unfolding clients_at first_int skip_white to_lower index
num_clients stmt = clients_at stmt (index (to_lower stmt) (codes "num_clients = "))
