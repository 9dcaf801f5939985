-- ===== src/Harepl/BatchTests.antt =====
-- A case, its script and the output of csql, on concrete texts.
use cubrid_testkit.Prelude.{
  ◌≡◌, refl, true, List, [], ◌∷◌, ◌++◌, map, none, some, arith, Bytes, bytes_beq, elem,
}
use cubrid_testkit.Prelude.Strings.{codes, join, trim_left, trim_right}
use cubrid_testkit.Harepl.Statements.{case_statements, is_read, is_directive, is_write}
use cubrid_testkit.Harepl.Batch.{
  newline, script_of, new_batch_with, run_batch, segments, marked_line,
}
use cubrid_testkit.Harepl.Answers.{Sent, printed}
use cubrid_testkit.Harepl.Attribution.{run_batch-printed}
use cubrid_testkit.Harepl.Segments.{AreSegments, all_stmts, all_idx, segments_lem}
use cubrid_testkit.Harepl.Cutting.{is_whole}
use cubrid_testkit.Harepl.Scripts.{case_statements-script_of}

-- Blocks and quotes keep their semicolons, and a comment is dropped.
abbrev a_case : Bytes
a_case =
    codes "create procedure p() as begin a; if x then b; end if; end;select ';' from t; -- c"
    ++ newline ∷ codes "select 2"

a_case_cut :
    case_statements a_case
    ≡ codes "create procedure p() as begin a; if x then b; end if; end"
      ∷ codes "select ';' from t"
      ∷ codes "select 2"
      ∷ []
unfolding case_statements trim_right bytes_beq elem
a_case_cut = refl

-- A star behind a comment opens another one: the rest of the text is lost.
star_behind_comment :
    case_statements (codes "select 1 /* two */* 3; select 4;") ≡ codes "select 1" ∷ []
unfolding case_statements trim_right bytes_beq
star_behind_comment = refl

serial_is_write : is_write (codes "SELECT s.next_value FROM db_root") ≡ true
unfolding is_write trim_right bytes_beq
serial_is_write = refl

abbrev two_statements : List Bytes
two_statements = codes "create procedure p() as begin a; end" ∷ codes "select ';' from t" ∷ []

case_statements-script_of_example : case_statements (script_of two_statements) ≡ two_statements
unfolding is_whole trim_left bytes_beq elem
case_statements-script_of_example =
    case_statements-script_of two_statements (((refl, refl), refl), (((refl, refl), refl), tt))

segments_lem_example :
    AreSegments (segments two_statements)
    × (all_stmts (segments two_statements) ≡ two_statements)
    × (all_idx (segments two_statements) ≡ 0 ∷ 1 ∷ [])
unfolding is_read is_directive trim_right
segments_lem_example = segments_lem two_statements

abbrev login : Sent
login = (codes "call login ('u1') on class db_user", none) ∷ []

abbrev reads : Sent
reads =
    (codes "select a from t", some (codes "SELECT ", codes "  a" ∷ codes "  1" ∷ []))
    ∷ (codes "select b" ++ newline ∷ codes "from t", none)
    ∷ (codes "show tables", some (codes "SHOW ", codes "  t" ∷ []))
    ∷ []

abbrev output : Bytes
output = join ([] ∷ printed 1 (login ++ reads)) (newline ∷ [])

run_batch-printed_example :
    run_batch (λ script. output) (new_batch_with (map (λ z. z.0) login) (map (λ z. z.0) reads))
    ≡ (codes "  a" ++ newline ∷ codes "  1") ∷ [] ∷ codes "  t" ∷ []
unfolding join elem marked_line trim_right
run_batch-printed_example =
    run_batch-printed (λ script. output) [] [] login reads ((refl, refl), tt) (tt, tt)
      (
        (refl, refl, ((refl, refl), ((refl, refl), tt))),
        (tt, ((refl, refl, ((refl, refl), tt)), tt)),
      )
      (omega arith) refl
