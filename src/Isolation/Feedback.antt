-- ===== src/Isolation/Feedback.antt =====
-- internal/runner/isolationsuite/verdict.go: what the verdict gives to the feedback.
use cubrid_testkit.Prelude.{
  ℕ, suc, ◌≡◌, refl, sym, ap, ◌∙◌, Bool, true, false, List, [], ◌∷◌, ◌++◌, Option, none, some,
  arith, if◌then◌else◌, ◌==◌, nat_eq, Bytes, elem, Bool-cases, inl, inr,
}
use cubrid_testkit.Prelude.Strings.{codes, has_prefix, index}
use cubrid_testkit.Prelude.Dict.{is_some}
use cubrid_testkit.Isolation.Verdict.{Verdict}

abbrev pub diff_banner : Bytes
diff_banner =
    codes "==================================================================="
    ++ codes " D I F F "
    ++ codes "==================================================================="

unfoldable pub item_lines : List Bytes → Bytes
item_lines [] = []
item_lines (x ∷ xs) = x ++ 0x0a ∷ item_lines xs

-- `resultText`
unfoldable pub result_text : Verdict → Bytes → Bytes
unfolding item_lines
result_text v diff =
    if v.ok
    then item_lines v.items
    else item_lines v.items ++ (diff_banner ++ 0x0a ∷ (diff ++ 0x0a ∷ []))

abbrev pub windows_ending : Bytes
windows_ending = 0x0d ∷ 0x0a ∷ []

unfoldable pub with_returns : Bytes → Bytes
with_returns [] = []
with_returns (c ∷ s) =
    let rest = with_returns s in if c == 0x0a then 0x0d ∷ 0x0a ∷ rest else c ∷ rest

-- `crlf`
unfoldable pub crlf : Bytes → Bytes
unfolding with_returns index
crlf diff = if is_some (index diff windows_ending) then diff else with_returns diff

with_returns-plain : (s : Bytes) → elem 0x0a s ≡ false → with_returns s ≡ s
unfolding with_returns elem
with_returns-plain [] h = refl
with_returns-plain (c ∷ s) h = ground (arith, with_returns-plain s, h)

ending_kept :
    (b : Bool) (o : Option ℕ)
    → is_some o ≡ true
    → is_some (if b then some 0 else elim o [ none ↦ none | some i ↦ some (suc i) ]) ≡ true
ending_kept true o h = refl
ending_kept false none h = absurd cc
ending_kept false (some i) h = refl

index-with_returns :
    (s : Bytes) → elem 0x0a s ≡ true → is_some (index (with_returns s) windows_ending) ≡ true
unfolding with_returns elem index has_prefix
index-with_returns [] h = absurd cc
index-with_returns (c ∷ s) h = elim (Bool-cases (c == 0x0a)) [
  | inl newline ↦ rw newline refl
  | inr other ↦ rw other (
      ending_kept (has_prefix (c ∷ with_returns s) windows_ending)
        (index (with_returns s) windows_ending) (index-with_returns s (ground (arith, h, other))))
]

crlf_kept : (diff : Bytes) → is_some (index diff windows_ending) ≡ true → crlf diff ≡ diff
unfolding crlf
crlf_kept diff has = rw has refl

crlf_put :
    (diff : Bytes) → is_some (index diff windows_ending) ≡ false → crlf diff ≡ with_returns diff
unfolding crlf
crlf_put diff lacks = rw lacks refl

-- The worker's line endings are put in once: a diff that has them stays as it is.
crlf-crlf : (diff : Bytes) → crlf (crlf diff) ≡ crlf diff
crlf-crlf diff = elim (Bool-cases (is_some (index diff windows_ending))) [
  | inl has ↦ ap crlf (crlf_kept diff has)
  | inr lacks ↦ elim (Bool-cases (elem 0x0a diff)) [
    | inl lines ↦
        ap crlf (crlf_put diff lacks)
        ∙ crlf_kept (with_returns diff) (index-with_returns diff lines)
        ∙ sym (crlf_put diff lacks)
    | inr line ↦ ap crlf (crlf_put diff lacks ∙ with_returns-plain diff line)
  ]
]
