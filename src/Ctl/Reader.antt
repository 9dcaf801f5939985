-- ===== src/Ctl/Reader.antt =====
-- internal/ctl/parse.go: `Reader` and its methods. `input` is what the file has not given yet. A
-- loop takes fuel, and `none` means that the fuel ran out, which the theorems exclude.
use cubrid_testkit.Prelude.{
  ℕ, zero, suc, ◌+◌, Bool, true, false, List, [], ◌∷◌, ◌++◌, Option, none, some, leb, ltb, nat_beq,
  if◌then◌else◌, Bytes, length, drop,
}
use cubrid_testkit.Ctl.Tables.{
  State, accept, copy, Action, copy_input, copy_input_and_insert_ws, hold, copy_hold_and_input,
  copy_hold_and_insert_ws, insert_ws, skip, quit, next_state, action_table, classify,
}

pub record Reader : Type 0 where
  pub input : Bytes
  pub raw : Bytes
  pub next : ℕ
  pub line : ℕ

-- `NewReader`
unfoldable pub new_reader : Bytes → Reader
new_reader input = record { input = input; raw = []; next = 0; line = 0 }

-- The bytes left in the current line, and all that are left.
abbrev pub left_in_line : Reader → Bytes
left_in_line p = drop p.next p.raw

abbrev pub unread : Reader → Bytes
unread p = left_in_line p ++ p.input

-- One fgets of at most `n` bytes, the newline kept: the line, and what follows.
unfoldable pub fgets : ℕ → Bytes → Bytes × Bytes
fgets zero s = ([], s)
fgets (suc n) [] = ([], [])
fgets (suc n) (c ∷ s) =
    let (line, rest) = fgets n s in if nat_beq c 0x0a then (c ∷ [], s) else (c ∷ line, rest)

-- `rawBufSize - 1`
abbrev pub raw_buf_room : ℕ
raw_buf_room = 1023

-- `readRaw`
unfoldable pub read_raw : Reader → Reader × Bool
read_raw p =
    let (line, rest) = fgets raw_buf_room p.input in
    (record { input = rest; raw = line; next = 0; line = p.line + 1 }, ltb 0 (length line))

-- The locals of `Next`: `out`, `st`, `pending` and `held`.
pub record Scan : Type 0 where
  pub out : Bytes
  pub st : State
  pub pending : Bool
  pub held : ℕ

unfoldable pub fresh_scan : Scan
fresh_scan = record { out = []; st = copy; pending = false; held = b'?' }

-- The closure `deposit`.
unfoldable pub deposit : ℕ → Scan → Scan
deposit ch s =
    if s.pending
    then record s {
      out = (if ltb 0 (length s.out) then s.out ++ b' ' ∷ [] else s.out) ++ ch ∷ [];
      pending = false;
    }
    else record s { out = s.out ++ ch ∷ [] }

-- The cases of the inner `switch`.
unfoldable pub act : Action → ℕ → Scan → Scan
unfolding deposit
act copy_input ch s = deposit ch s
act copy_input_and_insert_ws ch s = record (deposit ch s) { pending = true }
act hold ch s = record s { held = ch }
act copy_hold_and_input ch s = let s' = deposit s.held s in record s' { out = s'.out ++ ch ∷ [] }
act copy_hold_and_insert_ws ch s = record (deposit s.held s) { pending = true }
act insert_ws ch s = record s { pending = true }
act skip ch s = s
act quit ch s = s

-- One turn of the inner loop.
unfoldable pub feed : ℕ → Scan → Scan
unfolding act
feed ch s =
    let cc = classify ch in act (action_table s.st cc) ch (record s { st = next_state s.st cc })

abbrev pub is_accept : State → Bool
is_accept accept = true
is_accept _ = false

pub record Scanned : Type 0 where
  pub scan : Scan
  pub at : ℕ
  pub accepted : Bool

-- The inner loop over the bytes left in the line, from index `at`.
unfoldable pub scan_line : Scan → ℕ → Bytes → Scanned
scan_line s at [] = record { scan = s; at = at; accepted = false }
scan_line s at (ch ∷ rest) =
    let s' = feed ch s in
    elim (is_accept s'.st) [
      | true ↦ record { scan = s'; at = suc at; accepted = true }
      | false ↦ scan_line s' (suc at) rest
    ]

-- What is returned at the end of the input.
unfoldable pub at_end : Scan → Option Bytes
at_end s = if ltb 0 (length s.out) then some s.out else none

-- The outer loop of `Next`: a new line where the current one is used up, then the inner loop.
unfoldable pub next_from : ℕ → Reader → Scan → Option (Reader × Option Bytes)
next_from zero p s = none
next_from (suc fuel) p s =
    let used_up = leb (length p.raw) p.next in
    let refilled : Reader × Bool = if used_up then read_raw p else (p, true) in
    let q = refilled.0 in
    let scanned = scan_line s q.next (left_in_line q) in
    let q' = record q { next = scanned.at } in
    elim refilled.1 [
      | false ↦ some (q, at_end s)
      | true ↦ elim scanned.accepted [
        | true ↦ some (q', some scanned.scan.out)
        | false ↦ next_from fuel q' scanned.scan
      ]
    ]

-- The lines that a reader can still read, and one turn to see the end.
abbrev pub fuel_for : Reader → ℕ
fuel_for p = suc (suc (length p.input))

-- `Next`
unfoldable pub next_statement : Reader → Option (Reader × Option Bytes)
unfolding next_from
next_statement p = next_from (fuel_for p) p fresh_scan

-- The loop of `Statements`.
unfoldable pub statements_from : ℕ → Reader → Option (List Bytes)
statements_from zero p = none
statements_from (suc fuel) p = elim (next_statement p) [
  | none ↦ none
  | some (p', none) ↦ some []
  | some (p', some s) ↦ elim (statements_from fuel p') [ none ↦ none | some rest ↦ some (s ∷ rest) ]
]

-- `Statements`
unfoldable pub statements : Bytes → Option (List Bytes)
unfolding statements_from
statements input = statements_from (suc (length input)) (new_reader input)
