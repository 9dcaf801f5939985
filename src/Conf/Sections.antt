-- ===== src/Conf/Sections.antt =====
-- The sections of a configuration file are kept apart.
use cubrid_testkit.Prelude.{
  ℕ, ◌≡◌, refl, sym, ap, ◌∙◌, Bool, true, false, ◌&&◌, ◌||◌, List, [], ◌∷◌, ◌++◌, Option, none,
  some, arith, if◌then◌else◌, ◌==◌, nat_eq, nat_beq, Bytes, leb, bytes_eq, bytes_beq_iff, elem,
  length, take, Bool-cases, inl, inr,
}
use mathlib.Core.Path.{subst}
use mathlib.Core.Option as Opt
use mathlib.Core.List.{append_assoc, reverse, reverse-append}
use cubrid_testkit.Prelude.Strings.{trim_right}
use cubrid_testkit.Prelude.Dict.{lookup, insert, or_default, lookup-insert}
use cubrid_testkit.Prelude.Trim.{
  is_white, trim_space, BeginsInk, IsTrimmed, trim_left-ink, trim_right-ink, trim_space-trimmed,
}
use cubrid_testkit.Conf.Text.{substitute}
use cubrid_testkit.Conf.Parse.{max_token, drop_cr, lines_of}
use cubrid_testkit.Conf.Ini.{
  Ini, Place, index_byte, cut_value, store, ini_entry, ini_line, ini_lines, load_ini, ini_get,
}

pub ini_get-store :
    (section key s k value : Bytes) (ini : Ini)
    → ini_get s k (store section key value ini)
      ≡ (if section == s && key == k then some value else ini_get s k ini)
unfolding ini_get store
ini_get-store section key s k value ini =
    let found =
      lookup-insert section s (insert key value (or_default [] (lookup section ini))) ini in
    elim (Bool-cases (section == s)) [
      | inl same ↦
          let there : section ≡ s = (bytes_beq_iff section s).0 same in
          let kept : lookup s (store section key value ini)
              ≡ some (insert key value (or_default [] (lookup section ini))) =
            found
            ∙ ap
                (λ z.
                  if z
                  then some (insert key value (or_default [] (lookup section ini)))
                  else lookup s ini)
                same in
          rw (kept, same)
            (lookup-insert key k value (or_default [] (lookup section ini))
              ∙ ap (λ z. if key == k then some value else lookup k (or_default [] (lookup z ini)))
                  there)
      | inr other ↦
          let kept : lookup s (store section key value ini) ≡ lookup s ini =
            found
            ∙ ap
                (λ z.
                  if z
                  then some (insert key value (or_default [] (lookup section ini)))
                  else lookup s ini)
                other in
          rw (kept, other) refl
    ]

-- What is written of an entry: its section's header, and its line.
pub record Entry : Type 0 where
  pub section : Bytes
  pub key : Bytes
  pub value : Bytes

abbrev pub header : Entry → Bytes
header e = b'[' ∷ (e.section ++ b']' ∷ [])

abbrev pub entry_line : Entry → Bytes
entry_line e = e.key ++ b'=' ∷ e.value

abbrev pub ini_text : List Entry → Bytes
ini_text [] = []
ini_text (e ∷ es) = header e ++ 0x0a ∷ (entry_line e ++ 0x0a ∷ ini_text es)

-- A line that the scanner gives as it is written.
abbrev pub IsLine : Bytes → Type 0
IsLine s = (elem 0x0a s ≡ false) × (leb max_token (length s) ≡ false)

abbrev begins_entry : Bytes → Bool
begins_entry [] = false
begins_entry (c ∷ s) = if c == b'#' || c == b';' then false else if c == b'[' then false else true

-- An entry that can stand in a file.
pub record IsWritable (e : Entry) : Type 0 where
  pub section_trimmed : IsTrimmed e.section
  pub section_plain : elem b']' e.section ≡ false
  pub key_trimmed : IsTrimmed e.key
  pub key_begins : begins_entry e.key ≡ true
  pub key_plain : elem b'=' e.key ≡ false
  pub value_trimmed : IsTrimmed e.value
  pub header_line : IsLine (header e)
  pub value_line : IsLine (entry_line e)

abbrev pub AllWritable : List Entry → Type 0
AllWritable [] = Unit
AllWritable (e ∷ es) = IsWritable e × AllWritable es

-- The value that a section has last been given for a key.
abbrev pub last_value : (Bytes → Bytes) → Bytes → Bytes → List Entry → Option Bytes → Option Bytes
last_value f s k [] last = last
last_value f s k (e ∷ es) last =
    last_value f s k es (if e.section == s && e.key == k then some (f e.value) else last)

index_byte-append :
    (c : ℕ) (s : Bytes) → elem c s ≡ false → index_byte c (s ++ c ∷ []) ≡ some (length s)
unfolding index_byte elem
index_byte-append c [] h = ground arith
index_byte-append c (x ∷ s) h = ground (arith, index_byte-append c s, h)

cut_value-append :
    (key value : Bytes) → elem b'=' key ≡ false → cut_value (key ++ b'=' ∷ value) ≡ (key, value)
unfolding cut_value elem
cut_value-append [] value h = refl
cut_value-append (c ∷ key) value h = ground (arith, cut_value-append key value, h)

take_whole : (s t : Bytes) → take (length s) (s ++ t) ≡ s
take_whole [] t = refl
take_whole (c ∷ s) t = ap (◌∷◌ c) (take_whole s t)

lines_of-append :
    (line rest : Bytes)
    → elem 0x0a line ≡ false
    → lines_of (line ++ 0x0a ∷ rest) ≡ line ∷ lines_of rest
unfolding lines_of elem
lines_of-append [] rest h = refl
lines_of-append (c ∷ line) rest h =
    let other : nat_beq c 0x0a ≡ false = ground (arith, h) in
    let tail = lines_of-append line rest (ground (arith, h)) in rw (other, lines_of) (rw tail refl)

kept_cr :
    (s r : Bytes)
    → BeginsInk r
    → elim r as (λ z. Bytes) [ [] ↦ [] | c ∷ front ↦ if nat_beq c 0x0d then reverse front else s ]
      ≡ s
kept_cr s [] h = absurd h
kept_cr s (c ∷ r) h = ground (arith, h)

reverse-header : (e : Entry) → BeginsInk (reverse (header e))
reverse-header e = subst BeginsInk (sym (reverse-append (b'[' ∷ e.section) (b']' ∷ []))) refl

BeginsInk-append : (s t : Bytes) → BeginsInk s → BeginsInk (s ++ t)
BeginsInk-append [] t h = absurd h
BeginsInk-append (c ∷ s) t h = h

reverse-entry_line : (e : Entry) → IsTrimmed e.value → BeginsInk (reverse (entry_line e))
reverse-entry_line e v =
    subst BeginsInk
      (sym (
        ap reverse (sym (append_assoc e.key (b'=' ∷ []) e.value))
        ∙ reverse-append (e.key ++ b'=' ∷ []) e.value))
      (BeginsInk-append (reverse e.value) (reverse (e.key ++ b'=' ∷ [])) v.1)

module _ (user : Option Bytes) (home : Bytes) (p : Place) where
  line_read :
      (key value : Bytes)
      → BeginsInk key
      → BeginsInk (reverse value)
      → begins_entry key ≡ true
      → ini_line user home (trim_space (key ++ b'=' ∷ value)) p
        ≡ some (ini_entry user home (key ++ b'=' ∷ value) p)
  unfolding ini_line
  line_read [] value k v b = absurd k
  line_read (c ∷ key) value k v b =
      let apart = append_assoc (c ∷ key) (b'=' ∷ []) value in
      let whole : trim_space ((c ∷ key) ++ b'=' ∷ value) ≡ (c ∷ key) ++ b'=' ∷ value =
        ap (trim_right is_white) (trim_left-ink (c ∷ key) (b'=' ∷ value) k ∙ sym apart)
        ∙ trim_right-ink ((c ∷ key) ++ b'=' ∷ []) value v
        ∙ apart in
      rw whole (ground (arith, b))

module _ (user : Option Bytes) (home : Bytes) (e : Entry) (v : IsWritable e) (p : Place) where
  header_read :
      ini_line user home (trim_space (header e)) p ≡ some (record p { section = e.section })
  unfolding ini_line index_byte
  header_read =
      let whole : trim_space (header e) ≡ header e =
        trim_space-trimmed (header e) (refl, reverse-header e) in
      rw whole (
        rw (index_byte-append b']' e.section v.section_plain, ini_line)
          (ap (λ z. some (record p { section = z }))
            (ap (λ z. trim_space (take z (e.section ++ b']' ∷ []))) (omega arith)
              ∙ ap trim_space (take_whole e.section (b']' ∷ []))
              ∙ trim_space-trimmed e.section v.section_trimmed)))

  entry_read :
      ini_line user home (trim_space (entry_line e)) p
      ≡ some (record p { read = store p.section e.key (substitute user home e.value) p.read })
  unfolding ini_entry
  entry_read =
      line_read user home p e.key e.value v.key_trimmed.0 v.value_trimmed.1 v.key_begins
      ∙ rw
          (
            cut_value-append e.key e.value v.key_plain,
            trim_space-trimmed e.key v.key_trimmed,
            trim_space-trimmed e.value v.value_trimmed,
          )
          refl

module _ (user : Option Bytes) (home : Bytes) (s k : Bytes) where
  abbrev answer : Option Place → Option (Option Bytes)
  answer o = Opt.map (ini_get s k) (Opt.map (λ p. p.read) o)

  line_step :
      (line text : Bytes) (p p' : Place)
      → IsLine line
      → BeginsInk (reverse line)
      → ini_line user home (trim_space line) p ≡ some p'
      → ini_lines user home (lines_of (line ++ 0x0a ∷ text)) p
        ≡ ini_lines user home (lines_of text) p'
  unfolding ini_lines
  line_step line text p p' w ends e =
      let kept : ini_line user home (trim_space (drop_cr line)) p ≡ some p' =
        ap (λ z. ini_line user home (trim_space z) p) (kept_cr line (reverse line) ends) ∙ e in
      rw (lines_of-append line text w.0) (rw (w.1, ini_lines) (rw (kept, ini_lines) refl))

  entries_read :
      (es : List Entry) (p : Place)
      → AllWritable es
      → answer (ini_lines user home (lines_of (ini_text es)) p)
        ≡ some (last_value (substitute user home) s k es (ini_get s k p.read))
  unfolding ini_lines lines_of
  entries_read [] p w = refl
  entries_read (e ∷ es) p w =
      let opened : Place = record p { section = e.section } in
      let value = substitute user home e.value in
      let stored : Place = record opened { read = store e.section e.key value p.read } in
      ap answer (
        line_step (header e) (entry_line e ++ 0x0a ∷ ini_text es) p opened w.0.header_line
          (reverse-header e) (header_read user home e w.0 p)
        ∙ line_step (entry_line e) (ini_text es) opened stored w.0.value_line
            (reverse-entry_line e w.0.value_trimmed) (entry_read user home e w.0 opened))
      ∙ entries_read es stored w.1
      ∙ ap (λ z. some (last_value (substitute user home) s k es z))
          (ini_get-store e.section e.key s k value p.read)

  -- A file that is written from entries, each under its section's header, is read with no error, and
  -- then a section answers for a key with the value that an entry of that section and that key gave
  -- last, with the home directory put in, and has none where no entry is of both. No section, key or
  -- value is empty or has white space at its ends; no section has a closing bracket, no key an equals
  -- sign, and no key begins as a comment or a header does. No line has a newline in it or reaches the
  -- scanner's limit.
  pub load_ini-ini_text :
      (es : List Entry)
      → AllWritable es
      → Opt.map (ini_get s k) (load_ini user home (ini_text es))
        ≡ some (last_value (substitute user home) s k es none)
  unfolding load_ini ini_get lookup
  load_ini-ini_text es w = entries_read es (record { section = []; read = [] }) w
