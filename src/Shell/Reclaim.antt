-- ===== src/Shell/Reclaim.antt =====
-- A reclaim: what of the tree goes, what stays, and how many bytes that gives back.
use cubrid_testkit.Prelude.{
  ℕ, ◌+◌, ◌≡◌, ◌≢◌, refl, sym, ap, ◌∙◌, Bool, true, false, List, [], ◌∷◌, Option, none, some, arith,
  if◌then◌else◌, ◌==◌, Bytes, bytes_eq, bytes_beq_iff, Bool-cases, inl, inr,
}
use cubrid_testkit.Shell.Tree.{
  Node, file, dir, Entries, no_entry, entry, find, tree_bytes, entries_bytes, keep, drop_additions,
  drop_node, added_bytes, added_node,
}

-- What stands at a path: a directory, or a file with its blocks.
pub data Kind : Type 0 where
  directory : Kind
  blocks : ℕ → Kind

unfoldable pub kind_at : List Bytes → Option Node → Option Kind
unfolding find
kind_at path none = none
kind_at [] (some (file n)) = some (blocks n)
kind_at [] (some (dir entries)) = some directory
kind_at (x ∷ path) (some (file n)) = none
kind_at (x ∷ path) (some (dir entries)) = kind_at path (find x entries)

-- Whether a path leaves the pristine tree below directories that both trees have.
unfoldable pub is_added : List Bytes → Option Node → Option Node → Bool
unfolding find
is_added path n none = true
is_added path none (some p) = false
is_added (x ∷ path) (some (dir entries)) (some (dir pristine)) =
    is_added path (find x entries) (find x pristine)
is_added path (some n) (some p) = false

dropped : Option Node → Option Node → Option Node
dropped none p = none
dropped (some n) p = drop_node n p

drop_node-none : (n : Node) → drop_node n none ≡ none
unfolding drop_node
drop_node-none (file b) = refl
drop_node-none (dir entries) = refl

drop_node-some : (n p : Node) → drop_node n (some p) ≢ none
unfolding drop_node
drop_node-some (file b) p e = cc e
drop_node-some (dir entries) (file b) e = cc e
drop_node-some (dir entries) (dir pristine) e = cc e

none_left : (n : Node) (o : Option Node) → drop_node n o ≡ none → o ≡ none
none_left n none e = refl
none_left n (some p) e = absurd (drop_node-some n p e)

find-keep :
    (x y : Bytes) (o : Option Node) (rest : Entries)
    → y == x ≡ false
    → find x (keep y o rest) ≡ find x rest
unfolding find keep
find-keep x y none rest other = refl
find-keep x y (some n) rest other = rw other refl

find_kept :
    (x y : Bytes) (o : Option Node) (rest : Entries)
    → y == x ≡ true
    → (o ≡ none → find x rest ≡ none)
    → find x (keep y o rest) ≡ o
unfolding find keep
find_kept x y none rest same gone = gone refl
find_kept x y (some n) rest same gone = rw same refl

find-gone :
    (x : Bytes) (live pristine : Entries)
    → find x pristine ≡ none
    → find x (drop_additions live pristine) ≡ none
unfolding find drop_additions
find-gone x no_entry pristine h = refl
find-gone x (entry y n rest) pristine h = elim (Bool-cases (y == x)) [
  | inl same ↦
      let gone : find y pristine ≡ none =
        ap (λ z. find z pristine) ((bytes_beq_iff y x).0 same) ∙ h in
      find_kept x y (drop_node n (find y pristine)) (drop_additions rest pristine) same
        (λ e. find-gone x rest pristine h)
      ∙ ap (drop_node n) gone
      ∙ drop_node-none n
  | inr other ↦
      find-keep x y (drop_node n (find y pristine)) (drop_additions rest pristine) other
      ∙ find-gone x rest pristine h
]

find-drop_additions :
    (x : Bytes) (live pristine : Entries)
    → find x (drop_additions live pristine) ≡ dropped (find x live) (find x pristine)
unfolding find drop_additions dropped
find-drop_additions x no_entry pristine = refl
find-drop_additions x (entry y n rest) pristine = elim (Bool-cases (y == x)) [
  | inl same ↦
      let y≡x : find y pristine ≡ find x pristine =
        ap (λ z. find z pristine) ((bytes_beq_iff y x).0 same) in
      rw same (
        find_kept x y (drop_node n (find y pristine)) (drop_additions rest pristine) same
          (λ e. find-gone x rest pristine (sym y≡x ∙ none_left n (find y pristine) e))
        ∙ ap (drop_node n) y≡x)
  | inr other ↦ rw other (
      find-keep x y (drop_node n (find y pristine)) (drop_additions rest pristine) other
      ∙ find-drop_additions x rest pristine)
]

dropped-is_added :
    (path : List Bytes) (n p : Option Node)
    → kind_at path (dropped n p) ≡ (if is_added path n p then none else kind_at path n)
unfolding kind_at is_added dropped drop_node
dropped-is_added path none none = refl
dropped-is_added path none (some p) = refl
dropped-is_added path (some (file b)) none = refl
dropped-is_added path (some (dir live)) none = refl
dropped-is_added [] (some (file b)) (some p) = refl
dropped-is_added (x ∷ path) (some (file b)) (some p) = refl
dropped-is_added [] (some (dir live)) (some (file b)) = refl
dropped-is_added (x ∷ path) (some (dir live)) (some (file b)) = refl
dropped-is_added [] (some (dir live)) (some (dir pristine)) = refl
dropped-is_added (x ∷ path) (some (dir live)) (some (dir pristine)) =
    ap (kind_at path) (find-drop_additions x live pristine)
    ∙ dropped-is_added path (find x live) (find x pristine)

-- After a reclaim a path is what it was, unless it leaves the pristine tree below directories that
-- both trees have: then nothing stands there.
pub drop_additions-is_added :
    (path : List Bytes) (live pristine : Entries)
    → kind_at path (some (dir (drop_additions live pristine))) ≡ (
        if is_added path (some (dir live)) (some (dir pristine))
        then none
        else kind_at path (some (dir live)))
drop_additions-is_added path live pristine =
    unfold dropped in
    unfold drop_node in dropped-is_added path (some (dir live)) (some (dir pristine))

abbrev node_bytes : Option Node → ℕ
node_bytes none = 0
node_bytes (some n) = tree_bytes n

kept_bytes :
    (x : Bytes) (o : Option Node) (rest : Entries)
    → entries_bytes (keep x o rest) ≡ node_bytes o + entries_bytes rest
unfolding keep tree_bytes
kept_bytes x none rest = omega arith
kept_bytes x (some n) rest = refl

mutual
  unfolding drop_additions keep added_bytes tree_bytes

  reclaimed :
      (live pristine : Entries)
      → entries_bytes (drop_additions live pristine) + added_bytes live pristine
        ≡ entries_bytes live
  reclaimed no_entry pristine = omega arith
  reclaimed (entry x n rest) pristine = omega (
    arith,
    reclaimed_node n (find x pristine),
    reclaimed rest pristine,
    kept_bytes x (drop_node n (find x pristine)) (drop_additions rest pristine),
  )

  reclaimed_node :
      (n : Node) (p : Option Node) → node_bytes (drop_node n p) + added_node n p ≡ tree_bytes n
  reclaimed_node (file b) none = omega arith
  reclaimed_node (file b) (some p) = omega arith
  reclaimed_node (dir es) none = omega arith
  reclaimed_node (dir es) (some (file b)) = omega arith
  reclaimed_node (dir es) (some (dir ps)) = reclaimed es ps

added_left : Option Node → Option Node → ℕ
added_left none p = 0
added_left (some n) p = added_node n p

added_keep :
    (x : Bytes) (o : Option Node) (rest pristine : Entries)
    → added_bytes (keep x o rest) pristine
      ≡ added_left o (find x pristine) + added_bytes rest pristine
unfolding keep added_bytes added_left
added_keep x none rest pristine = omega arith
added_keep x (some n) rest pristine = refl

mutual
  unfolding drop_additions added_bytes added_left

  settled : (live pristine : Entries) → added_bytes (drop_additions live pristine) pristine ≡ 0
  settled no_entry pristine = refl
  settled (entry x n rest) pristine = omega (
    arith,
    added_keep x (drop_node n (find x pristine)) (drop_additions rest pristine) pristine,
    settled_node n (find x pristine),
    settled rest pristine,
  )

  settled_node : (n : Node) (p : Option Node) → added_left (drop_node n p) p ≡ 0
  settled_node (file b) none = refl
  settled_node (file b) (some p) = refl
  settled_node (dir es) none = refl
  settled_node (dir es) (some (file b)) = refl
  settled_node (dir es) (some (dir ps)) = settled es ps

-- What is recorded as added is what a reclaim gives back, and after it nothing is added any more.
pub drop_additions-bytes :
    (live pristine : Entries)
    → (entries_bytes (drop_additions live pristine) + added_bytes live pristine
        ≡ entries_bytes live)
      × (added_bytes (drop_additions live pristine) pristine ≡ 0)
drop_additions-bytes live pristine = (reclaimed live pristine, settled live pristine)
