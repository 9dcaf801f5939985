-- ===== src/Isolation/Passing.antt =====
-- Which outputs pass.
use cubrid_testkit.Prelude.{
  ℕ, suc, ◌≡◌, refl, ap, ◌∙◌, Bool, true, false, ◌&&◌, not, List, [], ◌∷◌, ◌++◌, Option, none, some,
  if◌then◌else◌, ◌==◌, nat_eq, Bytes, bytes_eq, elem,
}
use mathlib.Core.Path.{ap₂}
use cubrid_testkit.Prelude.Strings.{codes, has_prefix, index, last_index}
use cubrid_testkit.Prelude.Dict.{is_some}
use cubrid_testkit.Isolation.Verdict.{
  Verdict, ok_marker, nok_marker, core_marker, fatal_marker, add_line, extract_from, extract_items,
  is_after, is_nil, judge,
}

if_is_nil :
    (b : Bool) (x y : List Bytes)
    → is_nil x ≡ false
    → is_nil y ≡ false
    → is_nil (if b then x else y) ≡ false
if_is_nil true x y hx hy = hx
if_is_nil false x y hx hy = hy

is_nil-add_line : (source : Bytes) (out : List Bytes) → is_nil (add_line source out) ≡ false
unfolding add_line elem
is_nil-add_line source [] = refl
is_nil-add_line source (x ∷ out) = if_is_nil _ (x ∷ out) (x ∷ (out ++ _ ∷ [])) refl refl

extract_from-kept :
    (find : Bytes) (within : Bool) (s : Bytes) (out : List Bytes)
    → is_nil out ≡ false
    → is_nil (extract_from find within s out) ≡ false
unfolding extract_from
extract_from-kept find within [] out h = h
extract_from-kept find within (c ∷ s) out h =
    if_is_nil (within && not (c == 0x0a)) _ _ (extract_from-kept find true s out h) (
      if_is_nil (has_prefix (c ∷ s) find) _ _
        (extract_from-kept find true s (add_line (c ∷ s) out) (is_nil-add_line (c ∷ s) out))
        (extract_from-kept find false s out h))

found_is_nil :
    (b : Bool) (x y : List Bytes) (o : Option ℕ)
    → is_nil x ≡ false
    → is_nil y ≡ not (is_some o)
    → is_nil (if b then x else y)
      ≡ not (is_some (if b then some 0 else elim o [ none ↦ none | some i ↦ some (suc i) ]))
found_is_nil true x y o hx hy = hx
found_is_nil false x y none hx hy = hy
found_is_nil false x y (some i) hx hy = hy

is_nil-extract_from :
    (p : ℕ) (ps s : Bytes)
    → is_nil (extract_from (p ∷ ps) false s []) ≡ not (is_some (index s (p ∷ ps)))
unfolding extract_from index has_prefix
is_nil-extract_from p ps [] = refl
is_nil-extract_from p ps (c ∷ s) =
    found_is_nil (has_prefix (c ∷ s) (p ∷ ps)) _ _ (index s (p ∷ ps))
      (extract_from-kept (p ∷ ps) true s (add_line (c ∷ s) []) (is_nil-add_line (c ∷ s) []))
      (is_nil-extract_from p ps s)

is_nil-append : (a b : List Bytes) → is_nil (a ++ b) ≡ is_nil a && is_nil b
is_nil-append [] b = refl
is_nil-append (x ∷ a) b = refl

passed :
    (a n f : Bool) (v w : Verdict)
    → v.ok ≡ false
    → w.ok ≡ not a && n
    → (if (not a && n) && not f then v else w).ok ≡ f && not a && n
passed true n true v w hv hw = hw
passed true n false v w hv hw = hw
passed false true true v w hv hw = hw
passed false true false v w hv hw = hv
passed false false true v w hv hw = hw
passed false false false v w hv hw = hw

-- A case passes exactly when its output has an OK marker that no NOK marker begins after, and neither
-- a core file nor a fatal error is found in it anywhere, whatever comes after it.
pub judge_lem :
    (output : Bytes)
    → (judge output).ok
      ≡ is_some (last_index output ok_marker)
        && not (is_after (last_index output nok_marker) (last_index output ok_marker))
        && (not (is_some (index output core_marker)) && not (is_some (index output fatal_marker)))
unfolding judge extract_items
judge_lem output =
    let after = is_after (last_index output nok_marker) (last_index output ok_marker) in
    let found = is_some (last_index output ok_marker) in
    passed after (is_nil (extract_items output core_marker ++ extract_items output fatal_marker))
      found _ _ refl refl
    ∙ ap (λ z. found && not after && z)
        (is_nil-append (extract_items output core_marker) (extract_items output fatal_marker)
          ∙ ap₂ ◌&&◌ (is_nil-extract_from b'f' (codes "ound core file") output)
              (is_nil-extract_from b'f' (codes "ound fatal error") output))
