-- ===== src/Ctl/Tests.antt =====
-- The reader and the commands on concrete texts.
use cubrid_testkit.Prelude.{◌≡◌, ◌≢◌, refl, true, false, [], ◌∷◌, ◌++◌, some, arith, Bytes}
use cubrid_testkit.Prelude.Strings.{codes}
use cubrid_testkit.Ctl.Tables.{
  accept, copy, in_sq_string_one_sq, next_state, action_table, classify,
}
use cubrid_testkit.Ctl.Reader.{Reader, unread, fresh_scan, feed, at_end, next_statement, statements}
use cubrid_testkit.Ctl.Split.{split, split_all, InLine}
use cubrid_testkit.Ctl.Statements.{next_statement-split, statements-split_all}
use cubrid_testkit.Ctl.Lexemes.{scan_of, string_verbatim}

abbrev script : Bytes
script = codes "C1: insert 'a;b'; /* no; */ C2: commit;"

abbrev at_script : Reader
at_script = record { input = script; raw = []; next = 0; line = 0 }

next_statement-split_example :
    (p' : Reader) × (next_statement at_script ≡ some (p', (split fresh_scan (unread at_script)).0))
    × (unread p' ≡ (split fresh_scan (unread at_script)).1)
    × InLine p'
next_statement-split_example = next_statement-split at_script (omega arith)

script_statements : split_all 40 script ≡ codes "C1: insert 'a;b';" ∷ codes "C2: commit;" ∷ []
unfolding split_all split fresh_scan feed classify next_state action_table at_end
script_statements = refl

statements-split_all_example : statements script ≡ some (split_all 40 script)
statements-split_all_example = statements-split_all script

string_verbatim_example :
    split (scan_of (codes "in") copy true b'?') (codes "'; '" ++ codes ");")
    ≡ split (scan_of (codes "in '; '") in_sq_string_one_sq false b'?') (codes ");")
string_verbatim_example =
    string_verbatim (codes "in") true b'?' (codes "; ") (codes ");")
      (omega arith, (omega arith, tt)) (omega arith, (omega arith, tt))

first_statement : split fresh_scan (codes "a; b;") ≡ (some (codes "a;"), codes " b;")
unfolding split fresh_scan feed classify next_state action_table
first_statement = refl

copy-accept : fresh_scan.st ≢ accept
unfolding fresh_scan
copy-accept e = cc
