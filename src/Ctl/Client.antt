-- ===== src/Ctl/Client.antt =====
-- internal/ctl/client.go: what the controller keeps of a client, and what it makes of what the client
-- says. What is printed is a list of notices; the process and its pipes answer as the world says.
use cubrid_testkit.Prelude.{
  ℕ, zero, suc, ◌+◌, Bool, true, false, ◌&&◌, ◌||◌, List, [], ◌∷◌, Option, none, some, leb,
  if◌then◌else◌, ◌==◌, nat_eq, Bytes, length, drop,
}
use cubrid_testkit.Prelude.Strings.{codes, has_prefix, index, span_digits, atoi_digits, trim_left}
use cubrid_testkit.Prelude.Dict.{or_default}

-- `clientState`
pub data Status : Type 0 where
  running ready finished : Status

-- `negsuc n` is -(n + 1).
pub data ℤ : Type 0 where
  pos : ℕ → ℤ
  negsuc : ℕ → ℤ

abbrev pub less_one : ℤ → ℤ
less_one (pos zero) = negsuc 0
less_one (pos (suc n)) = pos n
less_one (negsuc n) = negsuc (suc n)

-- `client`, less its process and its pipes; `tran_index` is none for -1.
pub record Client : Type 0 where
  pub id : ℕ
  pub tran_index : Option ℕ
  pub pending : ℤ
  pub status : Status

-- The client that `startClient` returns.
unfoldable pub started : ℕ → Client
started id = record { id = id; tran_index = none; pending = pos 1; status = running }

abbrev pub is_finished : Status → Bool
is_finished finished = true
is_finished _ = false

abbrev pub is_ready : Status → Bool
is_ready ready = true
is_ready _ = false

-- What the controller prints; `sent` is a statement that a client was given.
pub data Notice : Type 0 where
  sent : ℕ → Bytes → Notice
  output : ℕ → Option ℕ → Bytes → Notice
  invalid_index : ℕ → Notice
  error_output : ℕ → Option ℕ → Bytes → Notice
  echo : Bytes → Notice
  empty_statement : Notice
  out_of_range : ℕ → Notice
  broken_pipe : ℕ → Notice
  not_responding : ℕ → Notice
  wait_warning : ℕ → Notice
  wait_error : ℕ → Notice
  all_blocked_error : Notice
  lock_table : Notice
  refused : Bytes → Notice
  syntax_error : Bytes → Notice

-- The chunk up to its first NUL byte.
unfoldable pub as_text : Bytes → Bytes
as_text [] = []
as_text (c ∷ s) = let rest = as_text s in if c == 0 then [] else c ∷ rest

-- `leadingInt`; an index beyond the 64-bit int counts as 0.
unfoldable pub leading_int : Bytes → ℕ
unfolding trim_left span_digits atoi_digits
leading_int b =
    let digits = span_digits (trim_left (λ c. c == b' ' || leb 0x09 c && leb c 0x0d) b) in
    or_default 0 (atoi_digits digits.0)

unfoldable pub wrap_from : Bytes → Bytes
wrap_from [] = 0x0a ∷ []
wrap_from (c ∷ []) = c ∷ 0x0a ∷ []
wrap_from (c ∷ d ∷ s) =
    let rest = wrap_from (d ∷ s) in if c == 0x0a then c ∷ b'|' ∷ b' ' ∷ rest else c ∷ rest

-- `wrap`
unfoldable pub wrap : Bytes → Bytes
unfolding wrap_from
wrap chunk = b'|' ∷ b' ' ∷ wrap_from chunk

abbrev pub ready_mark : Bytes
ready_mark = codes ") is ready."

-- How often the mark stands in a text, counted from the left without overlap; `passed` bytes of a
-- mark are still to pass over.
unfoldable pub marks_from : ℕ → Bytes → ℕ
unfolding has_prefix
marks_from passed [] = 0
marks_from (suc n) (c ∷ s) = marks_from n s
marks_from zero (c ∷ s) =
    let marked = has_prefix (c ∷ s) ready_mark in
    let rest = marks_from (if marked then 10 else 0) s in if marked then suc rest else rest

-- One statement less to wait for, for each mark.
unfoldable pub account : ℕ → Client → Client
account zero c = c
account (suc n) c =
    let left = less_one c.pending in
    account n (record c { pending = left; status = elim left [ pos zero ↦ ready | _ ↦ c.status ] })

unfoldable pub index_in : Bytes → Option ℕ → Option ℕ
unfolding index leading_int
index_in chunk old = elim (index chunk (codes "Transaction index = ")) [
  | none ↦ old
  | some i ↦ some (leading_int (drop (i + length (codes "Transaction index = ")) chunk))
]

-- `readOutput`, of a chunk that is not empty.
unfoldable pub read_output : Bytes → Client → Client × List Notice
unfolding as_text index_in wrap marks_from account
read_output raw c =
    let chunk = as_text raw in
    let tran = index_in chunk c.tran_index in
    let wrapped = wrap chunk in
    let header = output c.id tran wrapped ∷ [] in
    (
      account (marks_from 0 wrapped) (record c { tran_index = tran }),
      elim tran [ none ↦ invalid_index c.id ∷ header | some t ↦ header ],
    )

-- `close`: the process is reaped, or killed.
unfoldable pub close : Client → Client
close c = record c { status = finished }

-- The part of `send` that stands before the write.
unfoldable pub given : ℕ → Client → Client
given substatements c = record c { pending = pos substatements; status = running }
