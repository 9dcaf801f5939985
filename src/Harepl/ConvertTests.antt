-- ===== src/Harepl/ConvertTests.antt =====
-- The conversion of a case's statements, on concrete texts.
use cubrid_testkit.Prelude.{◌≡◌, refl, true, [], ◌∷◌, ◌++◌, Bytes, bytes_beq}
use cubrid_testkit.Prelude.Strings.{codes, onto_first}
use cubrid_testkit.Harepl.Convert.{Conversion, split_top_level}
use cubrid_testkit.Harepl.Inserts.{apply_conversion, key_text}
use cubrid_testkit.Harepl.Pieces.{pieces_of, split_top_level-pieces_of}

abbrev create_t : Bytes
create_t = codes "create table t (a numeric(3,1), b int)"

-- The conversion of a case that has created `t`.
abbrev with_t : Conversion
with_t = (codes "t", codes "a" ∷ codes "b" ∷ []) ∷ []

t_converted : apply_conversion [] create_t ≡ record {
  cols = with_t;
  out = codes "create table t (a numeric(3,1), b int" ++ (key_text ++ codes ")");
  changed = true;
}
unfolding apply_conversion bytes_beq
t_converted = refl

insert_converted :
    (apply_conversion with_t (codes "insert into T values (1, 2)")).out
    ≡ codes "insert into T (a, b) values (1, 2)"
unfolding apply_conversion bytes_beq
insert_converted = refl

-- The text of a literal is converted like a statement.
literal_converted :
    (apply_conversion with_t (codes "insert into log (m) values ('insert into t values')")).out
    ≡ codes "insert into log (m) values ('insert into t (a, b) values')"
unfolding apply_conversion bytes_beq
literal_converted = refl

split_top_level-pieces_of_example :
    split_top_level (codes "a numeric(3,1), b int")
    ≡ pieces_of 0 0 0 (codes "a numeric(3,1), b int")
split_top_level-pieces_of_example = split_top_level-pieces_of (codes "a numeric(3,1), b int")

two_pieces :
    pieces_of 0 0 0 (codes "a numeric(3,1), b int") ≡ codes "a numeric(3,1)" ∷ codes " b int" ∷ []
unfolding pieces_of onto_first
two_pieces = refl
