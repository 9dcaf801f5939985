-- ===== src/Harepl/Segments.antt =====
-- The runs of reads and writes into which a case falls.
use cubrid_testkit.Prelude.{
  ℕ, ◌+◌, ◌<◌, ◌≡◌, ◌≢◌, refl, sym, ap, ◌∙◌, Bool, true, false, List, [], ◌∷◌, ◌++◌, arith,
  if◌then◌else◌, Bytes, length, length-append, Bool-cases, inl, inr,
}
use mathlib.Core.List.{append_assoc, append-nil}
use cubrid_testkit.Harepl.Statements.{is_read, is_directive}
use cubrid_testkit.Harepl.Batch.{Segment, add_statement, segments_from, segments}

-- The statements of a case that are no directives of csql, and their places in it.
abbrev pub judged_statements : List Bytes → List Bytes
judged_statements [] = []
judged_statements (s ∷ stmts) =
    if is_directive s then judged_statements stmts else s ∷ judged_statements stmts

abbrev pub judged_places : ℕ → List Bytes → List ℕ
judged_places i [] = []
judged_places i (s ∷ stmts) =
    if is_directive s then judged_places (i + 1) stmts else i ∷ judged_places (i + 1) stmts

abbrev pub all_stmts : List Segment → List Bytes
all_stmts [] = []
all_stmts (g ∷ segs) = g.stmts ++ all_stmts segs

abbrev pub all_idx : List Segment → List ℕ
all_idx [] = []
all_idx (g ∷ segs) = g.idx ++ all_idx segs

abbrev AllOfKind : Bool → List Bytes → Type 0
AllOfKind r [] = Unit
AllOfKind r (s ∷ stmts) = (is_read s ≡ r) × AllOfKind r stmts

-- A segment is not empty, its statements are of its kind, and each has its place.
pub record IsSegment (g : Segment) : Type 0 where
  pub nonempty : 0 < length g.stmts
  pub of_kind : AllOfKind g.reads g.stmts
  pub placed : length g.idx ≡ length g.stmts

-- Two segments that stand side by side differ in kind.
abbrev pub AreSegments : List Segment → Type 0
AreSegments [] = Unit
AreSegments (g ∷ []) = IsSegment g
AreSegments (g ∷ h ∷ segs) = IsSegment g × (g.reads ≢ h.reads) × AreSegments (h ∷ segs)

AllOfKind-snoc :
    (r : Bool) (stmts : List Bytes) (s : Bytes)
    → AllOfKind r stmts
    → is_read s ≡ r
    → AllOfKind r (stmts ++ s ∷ [])
AllOfKind-snoc r [] s h k = (k, tt)
AllOfKind-snoc r (t ∷ stmts) s h k = (h.0, AllOfKind-snoc r stmts s h.1 k)

abbrev grown : Segment → ℕ → Bytes → Segment
grown g i s = record g { stmts = g.stmts ++ s ∷ []; idx = g.idx ++ i ∷ [] }

abbrev fresh : ℕ → Bytes → Segment
fresh i s = record { reads = is_read s; stmts = s ∷ []; idx = i ∷ [] }

grown-IsSegment :
    (g : Segment) (i : ℕ) (s : Bytes) → IsSegment g → is_read s ≡ g.reads → IsSegment (grown g i s)
grown-IsSegment g i s v e = record {
  nonempty = omega (arith, length-append g.stmts (s ∷ []));
  of_kind = AllOfKind-snoc g.reads g.stmts s v.of_kind e;
  placed = omega (arith, length-append g.stmts (s ∷ []), length-append g.idx (i ∷ []), v.placed);
}

fresh-IsSegment : (i : ℕ) (s : Bytes) → IsSegment (fresh i s)
fresh-IsSegment i s = record { nonempty = omega arith; of_kind = (refl, tt); placed = refl }

-- Whether a statement of kind `r` joins a segment, as the code compares them.
abbrev joins : Bool → Bool → Bool
joins own r = if own then r else if r then false else true

joins_iff : (own r : Bool) → joins own r ≡ true → r ≡ own
joins_iff true r h = h
joins_iff false true h = sym h
joins_iff false false h = refl

apart_iff : (own r : Bool) → joins own r ≡ false → own ≢ r
apart_iff true r h e = cc
apart_iff false true h e = cc
apart_iff false false h e = cc

abbrev put_last : Segment → ℕ → Bytes → Bool → List Segment
put_last g i s b = if b then grown g i s ∷ [] else g ∷ fresh i s ∷ []

put_last-AreSegments :
    (g : Segment) (i : ℕ) (s : Bytes) (b : Bool)
    → joins g.reads (is_read s) ≡ b
    → IsSegment g
    → AreSegments (put_last g i s b)
put_last-AreSegments g i s true e v = grown-IsSegment g i s v (joins_iff g.reads (is_read s) e)
put_last-AreSegments g i s false e v = (v, apart_iff g.reads (is_read s) e, fresh-IsSegment i s)

put_next-AreSegments :
    (f g : Segment) (i : ℕ) (s : Bytes) (b : Bool)
    → IsSegment f
    → f.reads ≢ g.reads
    → AreSegments (put_last g i s b)
    → AreSegments (f ∷ put_last g i s b)
put_next-AreSegments f g i s true vf ne v = (vf, ne, v)
put_next-AreSegments f g i s false vf ne v = (vf, ne, v)

added-AreSegments :
    (i : ℕ) (s : Bytes) (segs : List Segment)
    → AreSegments segs
    → AreSegments (add_statement (is_read s) i s segs)
unfolding add_statement
added-AreSegments i s [] h = fresh-IsSegment i s
added-AreSegments i s (g ∷ []) h = put_last-AreSegments g i s (joins g.reads (is_read s)) refl h
added-AreSegments i s (f ∷ g ∷ []) h =
    put_next-AreSegments f g i s (joins g.reads (is_read s)) h.0 h.1
      (put_last-AreSegments g i s (joins g.reads (is_read s)) refl h.2)
added-AreSegments i s (e ∷ f ∷ g ∷ segs) h = (h.0, h.1, added-AreSegments i s (f ∷ g ∷ segs) h.2)

put_last_stmts :
    (g : Segment) (i : ℕ) (s : Bytes) (b : Bool)
    → all_stmts (put_last g i s b) ≡ (g.stmts ++ []) ++ s ∷ []
put_last_stmts g i s true = simp (append-nil)
put_last_stmts g i s false = simp (append-nil)

put_last_idx :
    (g : Segment) (i : ℕ) (s : Bytes) (b : Bool)
    → all_idx (put_last g i s b) ≡ (g.idx ++ []) ++ i ∷ []
put_last_idx g i s true = simp (append-nil)
put_last_idx g i s false = simp (append-nil)

added_stmts :
    (i : ℕ) (s : Bytes) (segs : List Segment)
    → all_stmts (add_statement (is_read s) i s segs) ≡ all_stmts segs ++ s ∷ []
unfolding add_statement
added_stmts i s [] = refl
added_stmts i s (g ∷ []) = put_last_stmts g i s (joins g.reads (is_read s))
added_stmts i s (f ∷ g ∷ segs) =
    ap (λ z. f.stmts ++ z) (added_stmts i s (g ∷ segs))
    ∙ sym (append_assoc f.stmts (all_stmts (g ∷ segs)) (s ∷ []))

added_idx :
    (i : ℕ) (s : Bytes) (segs : List Segment)
    → all_idx (add_statement (is_read s) i s segs) ≡ all_idx segs ++ i ∷ []
unfolding add_statement
added_idx i s [] = refl
added_idx i s (g ∷ []) = put_last_idx g i s (joins g.reads (is_read s))
added_idx i s (f ∷ g ∷ segs) =
    ap (λ z. f.idx ++ z) (added_idx i s (g ∷ segs))
    ∙ sym (append_assoc f.idx (all_idx (g ∷ segs)) (i ∷ []))

from_lem :
    (i : ℕ) (stmts : List Bytes) (out : List Segment)
    → AreSegments out
    → AreSegments (segments_from i stmts out)
      × (all_stmts (segments_from i stmts out) ≡ all_stmts out ++ judged_statements stmts)
      × (all_idx (segments_from i stmts out) ≡ all_idx out ++ judged_places i stmts)
unfolding segments_from
from_lem i [] out h = (h, sym (append-nil (all_stmts out)), sym (append-nil (all_idx out)))
from_lem i (s ∷ stmts) out h = elim (Bool-cases (is_directive s)) [
  | inl skipped ↦ rw skipped (from_lem (i + 1) stmts out h)
  | inr taken ↦
      let out' = add_statement (is_read s) i s out in
      let rest = from_lem (i + 1) stmts out' (added-AreSegments i s out h) in
      rw taken (
        rest.0,
        rest.1
            ∙ ap (λ z. z ++ judged_statements stmts) (added_stmts i s out)
            ∙ append_assoc (all_stmts out) (s ∷ []) (judged_statements stmts),
        rest.2
            ∙ ap (λ z. z ++ judged_places (i + 1) stmts) (added_idx i s out)
            ∙ append_assoc (all_idx out) (i ∷ []) (judged_places (i + 1) stmts),
      )
]

-- The segments of a case are runs of one kind, none of them empty, and neighbours differ in kind.
-- Together they hold the statements that are no directives, in their order, with their places.
pub segments_lem :
    (stmts : List Bytes)
    → AreSegments (segments stmts)
      × (all_stmts (segments stmts) ≡ judged_statements stmts)
      × (all_idx (segments stmts) ≡ judged_places 0 stmts)
unfolding segments
segments_lem stmts = from_lem 0 stmts [] tt
