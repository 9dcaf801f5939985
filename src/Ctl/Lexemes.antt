-- ===== src/Ctl/Lexemes.antt =====
-- What the reader makes of comments, quoted strings and semicolons.
use cubrid_testkit.Prelude.{
  ℕ, ◌≡◌, ◌≢◌, refl, sym, ap, ◌∙◌, Bool, true, false, [], ◌∷◌, ◌++◌, Option, some, if◌then◌else◌,
  Bytes, arith, ◌⊎◌, inl, inr, Bool-cases, length, ltb,
}
use mathlib.Core.List.{append_assoc}
use mathlib.Core.Bool.{false≢true}
use cubrid_testkit.Prelude.Strings.{codes}
use cubrid_testkit.Ctl.Tables.{
  State, accept, copy, one_slash, in_c_comment, one_dash, in_sql_comment, in_sq_string,
  in_sq_string_one_sq, Class, semi, Action, next_state, action_table, classify,
}
use cubrid_testkit.Ctl.Reader.{Scan, deposit, act, feed, is_accept}
use cubrid_testkit.Ctl.Split.{split}

-- No byte of the text is `c`.
abbrev pub Without : ℕ → Bytes → Type 0
Without c [] = Unit
Without c (b ∷ bs) = (b ≢ c) × Without c bs

abbrev pub scan_of : Bytes → State → Bool → ℕ → Scan
scan_of out st pending held = record { out = out; st = st; pending = pending; held = held }

-- How the splitter goes on after a byte.
abbrev resume : Scan → Bytes → Option Bytes × Bytes
resume s rest = elim (is_accept s.st) [ true ↦ (some s.out, rest) | false ↦ split s rest ]

split-step : (c : ℕ) (s t : Scan) (rest : Bytes) → feed c s ≡ t → split s (c ∷ rest) ≡ resume t rest
unfolding split
split-step c s t rest e = ap (λ z. resume z rest) e

module _ (out : Bytes) (pending : Bool) (held : ℕ) where
  stay_in_c_comment :
      (c : ℕ)
      → c ≢ b'*'
      → feed c (scan_of out in_c_comment pending held) ≡ scan_of out in_c_comment pending held
  unfolding feed classify next_state action_table
  stay_in_c_comment c h = ground arith

  stay_in_sql_comment :
      (c : ℕ)
      → c ≢ 0x0a
      → feed c (scan_of out in_sql_comment pending held) ≡ scan_of out in_sql_comment pending held
  unfolding feed classify next_state action_table
  stay_in_sql_comment c h = ground arith

  c_comment_body :
      (body rest : Bytes)
      → Without b'*' body
      → split (scan_of out in_c_comment pending held) (body ++ (codes "*/" ++ rest))
        ≡ split (scan_of out copy true held) rest
  unfolding split feed classify next_state action_table
  c_comment_body [] rest w = refl
  c_comment_body (c ∷ body) rest w =
      split-step c (scan_of out in_c_comment pending held) _ (body ++ (codes "*/" ++ rest))
        (stay_in_c_comment c w.0)
      ∙ c_comment_body body rest w.1

  sql_comment_body :
      (body rest : Bytes)
      → Without 0x0a body
      → split (scan_of out in_sql_comment pending held) (body ++ 0x0a ∷ rest)
        ≡ split (scan_of out copy true held) rest
  unfolding split feed classify next_state action_table
  sql_comment_body [] rest w = refl
  sql_comment_body (c ∷ body) rest w =
      split-step c (scan_of out in_sql_comment pending held) _ (body ++ 0x0a ∷ rest)
        (stay_in_sql_comment c w.0)
      ∙ sql_comment_body body rest w.1

-- After ordinary text, a C comment with no star in it reads as white space: nothing of it is in the
-- statement, and a semicolon in it ends none.
pub c_comment_dropped :
    (out : Bytes) (pending : Bool) (held : ℕ) (body rest : Bytes)
    → Without b'*' body
    → split (scan_of out copy pending held) (codes "/*" ++ (body ++ (codes "*/" ++ rest)))
      ≡ split (scan_of out copy true b'/') rest
unfolding split feed classify next_state action_table
c_comment_dropped out pending held body rest = c_comment_body out pending b'/' body rest

-- After ordinary text, an SQL comment up to the end of its line reads as white space: nothing of it
-- is in the statement, and a semicolon in it ends none.
pub sql_comment_dropped :
    (out : Bytes) (pending : Bool) (held : ℕ) (body rest : Bytes)
    → Without 0x0a body
    → split (scan_of out copy pending held) (codes "--" ++ (body ++ 0x0a ∷ rest))
      ≡ split (scan_of out copy true b'-') rest
unfolding split feed classify next_state action_table
sql_comment_dropped out pending held body rest = sql_comment_body out pending b'-' body rest

stay_in_sq_string :
    (out : Bytes) (held c : ℕ)
    → c ≢ 0x27
    → c ≢ 0x5c
    → feed c (scan_of out in_sq_string false held) ≡ scan_of (out ++ c ∷ []) in_sq_string false held
unfolding feed classify next_state action_table
stay_in_sq_string out held c h k = ground arith

sq_string_body :
    (out : Bytes) (held : ℕ) (body rest : Bytes)
    → Without 0x27 body
    → Without 0x5c body
    → split (scan_of out in_sq_string false held) (body ++ 0x27 ∷ rest)
      ≡ split (scan_of (out ++ (body ++ 0x27 ∷ [])) in_sq_string_one_sq false held) rest
unfolding split feed classify next_state action_table
sq_string_body out held [] rest w v = refl
sq_string_body out held (c ∷ body) rest w v =
    split-step c (scan_of out in_sq_string false held) _ (body ++ 0x27 ∷ rest)
      (stay_in_sq_string out held c w.0 v.0)
    ∙ sq_string_body (out ++ c ∷ []) held body rest w.1 v.1
    ∙ ap (λ z. split (scan_of z in_sq_string_one_sq false held) rest)
        (append_assoc out (c ∷ []) (body ++ 0x27 ∷ []))

-- The text so far, with the space that a run of white space before the next byte leaves.
abbrev pub spaced : Bytes → Bool → Bytes
spaced out pending = if pending then (if ltb 0 (length out) then out ++ b' ' ∷ [] else out) else out

-- A single-quoted string that opens in ordinary text (not behind a `-` or a `/`), with no quote and no
-- backslash in it, is copied byte for byte, its white space, comments and semicolons included.
pub string_verbatim :
    (out : Bytes) (pending : Bool) (held : ℕ) (body rest : Bytes)
    → Without 0x27 body
    → Without 0x5c body
    → split (scan_of out copy pending held) (0x27 ∷ (body ++ 0x27 ∷ rest))
      ≡ split
          (scan_of
            (spaced out pending ++ 0x27 ∷ [] ++ (body ++ 0x27 ∷ []))
            in_sq_string_one_sq
            false
            held)
          rest
unfolding split feed classify next_state action_table
string_verbatim out true held body rest w v =
    sq_string_body (spaced out true ++ 0x27 ∷ []) held body rest w v
string_verbatim out false held body rest w v = sq_string_body (out ++ 0x27 ∷ []) held body rest w v

out-deposit :
    (ch : ℕ) (out : Bytes) (st : State) (pending : Bool) (held : ℕ)
    → (deposit ch (scan_of out st pending held)).out ≡ spaced out pending ++ ch ∷ []
unfolding deposit
out-deposit ch out st true held = refl
out-deposit ch out st false held = refl

classify-semi : (ch : ℕ) → classify ch ≡ semi → ch ≡ b';'
unfolding classify
classify-semi ch h = ground arith

st-act : (a : Action) (ch : ℕ) (s : Scan) → (act a ch s).st ≡ s.st
unfolding act
st-act a ch s = ground arith

act_accept :
    (st : State) (cc : Class) (out : Bytes) (pending : Bool) (held ch : ℕ)
    → st ≢ accept
    → next_state st cc ≡ accept
    → (cc ≡ semi)
      × ((before : Bytes) × ((act (action_table st cc) ch (scan_of out accept pending held)).out
            ≡ before ++ ch ∷ []))
unfolding act next_state action_table
act_accept accept cc out pending held ch h e = absurd (h refl)
act_accept copy semi out pending held ch h e =
    (refl, (spaced out pending, out-deposit ch out accept pending held))
act_accept one_slash semi out pending held ch h e = (
  refl,
  (
    spaced out pending ++ held ∷ [],
    ap (λ z. z ++ ch ∷ []) (out-deposit held out accept pending held),
  ),
)
act_accept one_dash semi out pending held ch h e = (
  refl,
  (
    spaced out pending ++ held ∷ [],
    ap (λ z. z ++ ch ∷ []) (out-deposit held out accept pending held),
  ),
)
act_accept in_sq_string_one_sq semi out pending held ch h e =
    (refl, (spaced out pending, out-deposit ch out accept pending held))
act_accept _ _ out pending held ch h e = ground arith

accept-eq : (st : State) → is_accept st ≡ true → st ≡ accept
accept-eq st h = ground arith

feed_accept :
    (ch : ℕ) (s : Scan)
    → s.st ≢ accept
    → is_accept (feed ch s).st ≡ true
    → (before : Bytes) × ((feed ch s).out ≡ before ++ b';' ∷ [])
unfolding feed
feed_accept ch s h e =
    let to_accept : next_state s.st (classify ch) ≡ accept =
      sym (
        st-act (action_table s.st (classify ch)) ch
          (record s { st = next_state s.st (classify ch) }))
      ∙ accept-eq _ e in
    let (cc, found) = act_accept s.st (classify ch) s.out s.pending s.held ch h to_accept in
    (
      found.0,
      ap (λ z. (act (action_table s.st (classify ch)) ch (scan_of s.out z s.pending s.held)).out)
            to_accept
          ∙ found.1
          ∙ ap (λ z. found.0 ++ z ∷ []) (classify-semi ch cc),
    )

-- Every statement ends in its semicolon, but for one that the end of the text cuts off.
pub split_terminated :
    (s : Scan) (text : Bytes) (t rest : Bytes)
    → s.st ≢ accept
    → split s text ≡ (some t, rest)
    → ((before : Bytes) × (t ≡ before ++ b';' ∷ [])) ⊎ (rest ≡ [])
unfolding split
split_terminated s [] t rest h e = inr (sym (ap (λ z. z.1) e))
split_terminated s (ch ∷ text) t rest h e = elim (Bool-cases (is_accept (feed ch s).st)) [
  | inl yes' ↦
      let (before, ends) = feed_accept ch s h yes' in
      let same : (feed ch s).out ≡ t = ground (arith, rw (yes', split) at e) in
      inl (before, sym same ∙ ends)
  | inr no' ↦
      split_terminated (feed ch s) text t rest (λ a. false≢true (sym no' ∙ ap is_accept a))
        (rw (no', split) at e)
]
