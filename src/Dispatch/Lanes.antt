-- ===== src/Dispatch/Lanes.antt =====
-- internal/dispatch/dispatch.go: lanes, tickets and the directory of a case.
use cubrid_testkit.Prelude.{
  ℕ, ◌+◌, ◌≡◌, Bool, true, false, [], Option, none, some, arith, ltb, Key, nat_eq, bytes_eq, Bytes,
  length, take,
}
use cubrid_testkit.Prelude.Strings.{codes, last_index}

pub data Lane : Type 0 where
  lane_any lane_fast lane_slow : Lane

abbrev pub lane_beq : Lane → Lane → Bool
lane_beq lane_any lane_any = true
lane_beq lane_fast lane_fast = true
lane_beq lane_slow lane_slow = true
lane_beq _ _ = false

pub lane_beq_sound : (a b : Lane) → lane_beq a b ≡ true → a ≡ b
lane_beq_sound a b h = ground arith

pub lane_beq_complete : (a b : Lane) → a ≡ b → lane_beq a b ≡ true
lane_beq_complete a b h = ground arith

instance abbrev pub lane_eq : Key Lane
lane_eq = record { same = lane_beq; same_iff = λ a b. (lane_beq_sound a b, lane_beq_complete a b) }

-- `Lane.String`
unfoldable pub lane_string : Lane → Bytes
lane_string lane_fast = codes "tmpfs"
lane_string lane_slow = codes "disk"
lane_string lane_any = []

pub record Ticket : Type 0 where
  pub test_case : Bytes
  pub retry : ℕ

unfoldable pub is_retry : Ticket → Bool
is_retry t = ltb 0 t.retry

-- `casePath[:at+len("/cases")]`, or the whole path
unfoldable pub cut_at : Bytes → Option ℕ → Bytes
cut_at path none = path
cut_at path (some at) = take (at + length (codes "/cases")) path

unfoldable pub dir_of : Bytes → Bytes
unfolding cut_at
dir_of path = cut_at path (last_index path (codes "/cases/"))
