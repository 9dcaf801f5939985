-- ===== src/Conf/Tests.antt =====
-- A configuration file on concrete texts.
use cubrid_testkit.Prelude.{
  ℕ, ◌≡◌, refl, arith, inl, List, [], ◌∷◌, ◌++◌, none, some, Bytes, bytes_eq, bytes_beq, nat_eq,
  ◌==◌, if◌then◌else◌, elem,
}
use cubrid_testkit.Prelude.Dict.{lookup, insert}
use cubrid_testkit.Prelude.Strings.{codes, trim_left, trim_right, has_prefix}
use cubrid_testkit.Conf.Text.{
  escaped, after_backslash, unescape_from, unescape, trim_key, split_from, split_entry,
  leading_backslashes, trailing_backslashes, replace_all, substitute,
}
use cubrid_testkit.Conf.Config.{Config, empty_config, set_value, override, get}
use cubrid_testkit.Conf.Parse.{
  parsed, failed, bad_escape, take_entry, take_line, lines_of, parse_from, parse,
}
use cubrid_testkit.Conf.Escapes.{escape, utf8, unescape-escape}
use cubrid_testkit.Conf.Consistency.{
  IsConsistent, IsConsistentParsed, empty_config-IsConsistent, set_value-get, parse-IsConsistent,
  set_value-IsConsistent,
}
use cubrid_testkit.Conf.Reads.{override-get}

abbrev file : Bytes
file =
    codes "# a comment"
    ++ 0x0a ∷ codes "port : 1523"
    ++ 0x0a ∷ codes "dir=${CTP_HOME}/a"
    ++ 0x5c ∷ 0x0a ∷ codes "  b"

abbrev read_config : Config
read_config = record {
  path = [];
  values = (codes "port", codes "1523") ∷ (codes "dir", codes "/ctp/ab") ∷ [];
  key_order = codes "port" ∷ codes "dir" ∷ [];
}

parse-file : parse (some (codes "/home/a")) (codes "/ctp") file ≡ parsed read_config
unfolding parse lines_of parse_from take_line take_entry leading_backslashes trailing_backslashes
    has_prefix trim_left trim_right split_entry split_from trim_key unescape unescape_from
    after_backslash escaped substitute replace_all set_value insert lookup bytes_beq elem
parse-file = refl

bad_escape_line : parse none [] (codes "a=" ++ 0x5c ∷ codes "u12") ≡ failed (bad_escape 1)
unfolding parse lines_of parse_from take_line take_entry leading_backslashes trailing_backslashes
    has_prefix trim_left trim_right split_entry split_from trim_key unescape unescape_from
    after_backslash elem
bad_escape_line = refl

-- A text with a blank, a backslash, a newline, and letters that are not ASCII.
abbrev foreign_text : List ℕ
foreign_text = codes "a b" ++ 0x5c ∷ 0x0a ∷ 0xe9 ∷ 0x20ac ∷ []

foreign_escaped :
    escape foreign_text
    ≡ codes "a"
      ++ 0x5c ∷ codes " b"
      ++ 0x5c ∷ 0x5c ∷ 0x5c ∷ codes "n"
      ++ 0x5c ∷ codes "u00E9"
      ++ 0x5c ∷ codes "u20AC"
unfolding escape
foreign_escaped = refl

unescape-escape_example : unescape (escape foreign_text) ≡ some (utf8 foreign_text)
unescape-escape_example = unescape-escape foreign_text (
  inl (omega arith),
  (
    inl (omega arith),
    (
      inl (omega arith),
      (inl (omega arith), (inl (omega arith), (inl (omega arith), (inl (omega arith), tt)))),
    ),
  ),
)

set_value-get_example :
    get (set_value (codes "port") (codes "1") read_config) (codes "dir")
    ≡ (if codes "port" == codes "dir" then some (codes "1") else get read_config (codes "dir"))
set_value-get_example = set_value-get (codes "port") (codes "1") (codes "dir") read_config

override-get_example :
    get (override ((codes "port", codes "1") ∷ []) read_config) (codes "port")
    ≡ elim (lookup (codes "port") ((codes "port", codes "1") ∷ [])) [
      | some v ↦ some v
      | none ↦ get read_config (codes "port")
    ]
override-get_example = override-get ((codes "port", codes "1") ∷ []) read_config (codes "port")

parse-IsConsistent_example : IsConsistentParsed (parse none (codes "/ctp") file)
parse-IsConsistent_example = parse-IsConsistent none (codes "/ctp") file

abbrev role_config : Config
role_config =
    set_value (codes "default.async") (codes "on")
      (set_value (codes "port") (codes "1") empty_config)

role_config-IsConsistent : IsConsistent role_config
role_config-IsConsistent =
    set_value-IsConsistent (codes "default.async") (codes "on")
      (set_value (codes "port") (codes "1") empty_config)
      (set_value-IsConsistent (codes "port") (codes "1") empty_config empty_config-IsConsistent)
