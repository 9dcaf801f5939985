-- ===== src/Ctl/Tables.antt =====
-- internal/ctl/tables.go: the states, the character classes and the two tables of the reader. A row
-- of a table is the clauses of one state; a catch-all stands for the columns that agree.
use cubrid_testkit.Prelude.{ℕ, Bool, ◌||◌, nat_beq, if◌then◌else◌}

pub data State : Type 0 where
  accept copy one_slash in_c_comment one_star one_dash in_sql_comment : State
  in_dq_string in_dq_string_escape in_sq_string in_sq_string_one_sq in_sq_string_escape : State

pub data Class : Type 0 where
  nl ws sq dq escape slash star dash semi other : Class

pub data Action : Type 0 where
  copy_input copy_input_and_insert_ws hold copy_hold_and_input copy_hold_and_insert_ws : Action
  insert_ws skip quit : Action

unfoldable pub next_state : State → Class → State
next_state accept _ = accept
next_state copy sq = in_sq_string
next_state copy dq = in_dq_string
next_state copy slash = one_slash
next_state copy dash = one_dash
next_state copy semi = accept
next_state copy _ = copy
next_state one_slash slash = one_slash
next_state one_slash star = in_c_comment
next_state one_slash semi = accept
next_state one_slash _ = copy
next_state in_c_comment star = one_star
next_state in_c_comment _ = in_c_comment
next_state one_star slash = copy
next_state one_star star = one_star
next_state one_star _ = in_c_comment
next_state one_dash dash = in_sql_comment
next_state one_dash semi = accept
next_state one_dash _ = copy
next_state in_sql_comment nl = copy
next_state in_sql_comment _ = in_sql_comment
next_state in_dq_string dq = copy
next_state in_dq_string escape = in_dq_string_escape
next_state in_dq_string _ = in_dq_string
next_state in_dq_string_escape _ = in_dq_string
next_state in_sq_string sq = in_sq_string_one_sq
next_state in_sq_string escape = in_sq_string_escape
next_state in_sq_string _ = in_sq_string
next_state in_sq_string_one_sq sq = in_sq_string
next_state in_sq_string_one_sq semi = accept
next_state in_sq_string_one_sq _ = copy
next_state in_sq_string_escape _ = in_sq_string

unfoldable pub action_table : State → Class → Action
action_table accept _ = quit
action_table copy nl = insert_ws
action_table copy ws = insert_ws
action_table copy slash = hold
action_table copy dash = hold
action_table copy _ = copy_input
action_table one_slash nl = copy_hold_and_insert_ws
action_table one_slash ws = copy_hold_and_insert_ws
action_table one_slash slash = copy_input
action_table one_slash star = skip
action_table one_slash _ = copy_hold_and_input
action_table in_c_comment _ = skip
action_table one_star slash = insert_ws
action_table one_star _ = skip
action_table one_dash nl = copy_hold_and_insert_ws
action_table one_dash ws = copy_hold_and_insert_ws
action_table one_dash dash = skip
action_table one_dash _ = copy_hold_and_input
action_table in_sql_comment nl = insert_ws
action_table in_sql_comment _ = skip
action_table in_dq_string escape = hold
action_table in_dq_string _ = copy_input
action_table in_dq_string_escape nl = skip
action_table in_dq_string_escape _ = copy_hold_and_input
action_table in_sq_string escape = hold
action_table in_sq_string _ = copy_input
action_table in_sq_string_one_sq _ = copy_input
action_table in_sq_string_escape nl = skip
action_table in_sq_string_escape _ = copy_hold_and_input

-- C's isspace in the C locale.
abbrev pub is_space : ℕ → Bool
is_space c =
    nat_beq c b' '
    || nat_beq c 0x09
    || nat_beq c 0x0d
    || nat_beq c 0x0a
    || nat_beq c 0x0c
    || nat_beq c 0x0b

-- The table of the 256 bytes: the eight that the source sets last go first here.
unfoldable pub classify : ℕ → Class
classify c =
    if nat_beq c 0x0a
    then nl
    else if nat_beq c 0x27
    then sq
    else if nat_beq c 0x22
    then dq
    else if nat_beq c 0x5c
    then escape
    else if nat_beq c b'/'
    then slash
    else if nat_beq c b'*'
    then star
    else if nat_beq c b'-'
    then dash
    else if nat_beq c b';'
    then semi
    else if is_space c
    then ws
    else other
