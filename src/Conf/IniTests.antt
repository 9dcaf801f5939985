-- ===== src/Conf/IniTests.antt =====
-- A configuration file with sections, on concrete texts.
use cubrid_testkit.Prelude.{◌≡◌, refl, [], ◌∷◌, ◌++◌, none, some, Bytes, bytes_eq, bytes_beq, elem}
use mathlib.Core.Option as Opt
use cubrid_testkit.Prelude.Strings.{codes, trim_left, trim_right, has_prefix}
use cubrid_testkit.Prelude.Dict.{lookup, insert}
use cubrid_testkit.Conf.Text.{substitute, replace_all}
use cubrid_testkit.Conf.Parse.{lines_of}
use cubrid_testkit.Conf.Ini.{
  index_byte, cut_value, store, ini_entry, ini_line, ini_lines, load_ini, ini_get, ini_get_or,
}
use cubrid_testkit.Conf.Sections.{Entry, IsWritable, ini_text, last_value, load_ini-ini_text}

abbrev cluster_mode : Entry
cluster_mode = record { section = codes "cubrid.conf"; key = codes "ha_mode"; value = codes "on" }

abbrev node_mode : Entry
node_mode = record { section = codes "cubrid_ha.conf"; key = codes "ha_mode"; value = codes "off" }

cluster_mode-IsWritable : IsWritable cluster_mode
unfolding elem
cluster_mode-IsWritable = record {
  section_trimmed = (refl, refl);
  section_plain = refl;
  key_trimmed = (refl, refl);
  key_begins = refl;
  key_plain = refl;
  value_trimmed = (refl, refl);
  header_line = (refl, refl);
  value_line = (refl, refl);
}

node_mode-IsWritable : IsWritable node_mode
unfolding elem
node_mode-IsWritable = record {
  section_trimmed = (refl, refl);
  section_plain = refl;
  key_trimmed = (refl, refl);
  key_begins = refl;
  key_plain = refl;
  value_trimmed = (refl, refl);
  header_line = (refl, refl);
  value_line = (refl, refl);
}

load_ini-ini_text_example :
    Opt.map
      (ini_get (codes "cubrid.conf") (codes "ha_mode"))
      (load_ini none (codes "/ctp") (ini_text (cluster_mode ∷ node_mode ∷ [])))
    ≡ some (
        last_value
          (substitute none (codes "/ctp"))
          (codes "cubrid.conf")
          (codes "ha_mode")
          (cluster_mode ∷ node_mode ∷ [])
          none)
load_ini-ini_text_example =
    load_ini-ini_text none (codes "/ctp") (codes "cubrid.conf") (codes "ha_mode")
      (cluster_mode ∷ node_mode ∷ []) (cluster_mode-IsWritable, (node_mode-IsWritable, tt))

abbrev file : Bytes
file =
    codes "; modes"
    ++ 0x0a ∷ codes " [ sql ] "
    ++ 0x0d ∷ 0x0a ∷ codes "dir = ${CTP_HOME}/a=b"
    ++ 0x0a ∷ codes "alone"

dir_of_file :
    Opt.map (ini_get (codes "sql") (codes "dir")) (load_ini none (codes "/ctp") file)
    ≡ some (some (codes "/ctp/a=b"))
unfolding load_ini lines_of ini_lines ini_line ini_entry index_byte cut_value store ini_get
    substitute replace_all lookup insert bytes_beq trim_left trim_right has_prefix
dir_of_file = refl

alone_of_file :
    Opt.map (ini_get_or (codes "sql") (codes "alone") (codes "x")) (load_ini none [] file) ≡ some []
unfolding load_ini lines_of ini_lines ini_line ini_entry index_byte cut_value store ini_get_or
    ini_get substitute replace_all lookup insert bytes_beq trim_left trim_right has_prefix
alone_of_file = refl

unterminated : load_ini none [] (codes "[sql") ≡ none
unfolding load_ini lines_of ini_lines ini_line index_byte trim_left trim_right
unterminated = refl
