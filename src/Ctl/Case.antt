-- ===== src/Ctl/Case.antt =====
-- internal/ctl/parse.go: NextCompound, and internal/ctl/controller.go: Run, on the statements that the
-- reader gives. The database, the case file and the start of the processes are taken to be there.
use cubrid_testkit.Prelude.{
  ℕ, zero, suc, ◌+◌, ◌-◌, Bool, true, false, ◌&&◌, ◌||◌, List, [], ◌∷◌, ◌++◌, map, Option, none,
  some, ltb, if◌then◌else◌, ◌==◌, nat_eq, Bytes, take, drop, get_elem?,
}
use cubrid_testkit.Prelude.Strings.{codes, index}
use cubrid_testkit.Ctl.Command.{num_clients}
use cubrid_testkit.Ctl.Client.{Client, started, close}
use cubrid_testkit.Ctl.Service.{M, ◌>>=◌, ◌>>◌, return, put_clients}
use cubrid_testkit.Ctl.Control.{wait_until_ready, control, ids}

is_byte_at : ℕ → ℕ → Bytes → Bool
is_byte_at c i s = elim (get_elem? s i) [ none ↦ false | some x ↦ x == c ]

-- The text of a statement that opens a group, its brace made a space.
unfoldable pub opened : Bytes → Option Bytes
unfolding index is_byte_at
opened s = elim (index s (codes "{")) [
  | none ↦ none
  | some i ↦
      if i == 0
      then some (b' ' ∷ drop 1 s)
      else if is_byte_at b':' (i - 1) s || ltb 1 i && is_byte_at b':' (i - 2) s
      then some (take i s ++ b' ' ∷ drop (i + 1) s)
      else none
]

unfoldable pub is_closing : Bytes → Bool
unfolding is_byte_at
is_closing s = is_byte_at b'}' 0 s && (is_byte_at b';' 1 s || is_byte_at b';' 2 s)

-- The results of `NextCompound`, one after the other; the first argument is the group that is open,
-- with the number of statements in it.
unfoldable pub compounds_from : Option (Bytes × ℕ) → List Bytes → List (Bytes × ℕ)
unfolding opened is_closing
compounds_from none [] = []
compounds_from (some group) [] = group ∷ []
compounds_from none (s ∷ rest) = elim (opened s) [
  | none ↦ (s, 1) ∷ compounds_from none rest
  | some b ↦ compounds_from (some (b, 1)) rest
]
compounds_from (some (b, count)) (s ∷ rest) = elim (is_closing s) [
  | true ↦ (b, count) ∷ compounds_from none rest
  | false ↦ compounds_from (some (b ++ s, count + 1)) rest
]

-- `NextCompound`, to the end of the file
unfoldable pub compounds : List Bytes → List (Bytes × ℕ)
unfolding compounds_from
compounds = compounds_from none

-- The clients from number `first` on.
unfoldable pub clients_from : ℕ → ℕ → List Client
unfolding started
clients_from first zero = []
clients_from first (suc n) = started first ∷ clients_from (first + 1) n

-- Every client is given the readiness test.
unfoldable pub all_ready : List ℕ → M Bool
unfolding wait_until_ready
all_ready [] = return true
all_ready (id ∷ left) = do
  ready ← wait_until_ready id
  if ready then all_ready left else return false

-- How many clients the first statement asks for.
unfoldable pub clients_wanted : List Bytes → ℕ
unfolding num_clients
clients_wanted [] = 1
clients_wanted (s ∷ rest) = num_clients s

run_clients : List Bytes → ℕ → M ℕ
unfolding all_ready control compounds clients_from put_clients
run_clients stmts n = do
  put_clients (λ cs. clients_from 1 n)
  ready ← all_ready (ids (clients_from 1 n))
  status ← if ready then control (compounds stmts) else return 1
  put_clients (map close)
  return status

-- `Run`: the exit status. All clients are closed when it returns.
unfoldable pub run_case : List Bytes → M ℕ
unfolding run_clients clients_wanted
run_case stmts = let n = clients_wanted stmts in if n == 0 then return 1 else run_clients stmts n
