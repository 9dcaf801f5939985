-- ===== src/Ctl/Split.antt =====
-- The reader against a splitter of the whole text: what the line buffer cannot change.
use cubrid_testkit.Prelude.{
  ℕ, zero, suc, ◌+◌, ◌-◌, ◌≤◌, ◌<◌, ◌≡◌, refl, sym, ap, ◌∙◌, Bool, true, false, List, [], ◌∷◌, ◌++◌,
  Option, none, some, leb, leb→le, if◌then◌else◌, Bytes, length, drop, arith, Bool-cases, inl, inr,
  length-append, drop-eq-nil, drop-drop, length-drop,
}
use mathlib.Core.Bool.{false≢true}
use cubrid_testkit.Ctl.Reader.{
  Reader, left_in_line, unread, fgets, raw_buf_room, read_raw, Scan, fresh_scan, feed, is_accept,
  Scanned, scan_line, at_end, next_from,
}

-- The text of one statement, and the rest of the text: the machine on all the bytes at once.
unfoldable pub split : Scan → Bytes → Option Bytes × Bytes
split s [] = (at_end s, [])
split s (ch ∷ rest) =
    let s' = feed ch s in
    elim (is_accept s'.st) [ true ↦ (some s'.out, rest) | false ↦ split s' rest ]

-- The statements of a text.
unfoldable pub split_all : ℕ → Bytes → List Bytes
split_all zero text = []
split_all (suc fuel) text =
    let (statement, rest) = split fresh_scan text in
    elim statement [ none ↦ [] | some s ↦ s ∷ split_all fuel rest ]

at-le : (s : Scan) (at : ℕ) (line : Bytes) → at ≤ (scan_line s at line).at
unfolding scan_line
at-le s at [] = omega arith
at-le s at (ch ∷ line) = ground (arith, at-le (feed ch s) (suc at) line)

-- A line that ends a statement: the splitter stops at the same byte, whatever follows the line.
accepted_lem :
    (s : Scan) (at : ℕ) (line rest : Bytes)
    → (scan_line s at line).accepted ≡ true
    → split s (line ++ rest)
      ≡ (some (scan_line s at line).scan.out, drop ((scan_line s at line).at - at) line ++ rest)
unfolding scan_line split
accepted_lem s at [] rest h = ground arith
accepted_lem s at (ch ∷ line) rest h =
    let s' = feed ch s in
    elim (Bool-cases (is_accept s'.st)) [
      | inl yes' ↦
          let one : suc at - at ≡ 1 = omega arith in rw (yes', scan_line, split) (rw one refl)
      | inr no' ↦
          let k = (scan_line s' (suc at) line).at in
          let more : k - at ≡ suc (k - suc at) = omega (arith, at-le s' (suc at) line) in
          rw (no', scan_line, split)
            (rw more (accepted_lem s' (suc at) line rest (rw (no', scan_line) at h)))
    ]

-- A line that ends none: the splitter goes on with what follows the line.
unaccepted_lem :
    (s : Scan) (at : ℕ) (line rest : Bytes)
    → (scan_line s at line).accepted ≡ false
    → (split s (line ++ rest) ≡ split (scan_line s at line).scan rest)
      × ((scan_line s at line).at ≡ at + length line)
unfolding scan_line split
unaccepted_lem s at [] rest h = (refl, omega arith)
unaccepted_lem s at (ch ∷ line) rest h =
    let s' = feed ch s in
    elim (Bool-cases (is_accept s'.st)) [
      | inl yes' ↦ absurd (false≢true (sym (rw (yes', scan_line) at h)))
      | inr no' ↦
          let (same, end) = unaccepted_lem s' (suc at) line rest (rw (no', scan_line) at h) in
          rw (no', scan_line, split) (same, omega (arith, end))
    ]

fgets-append : (n : ℕ) (s : Bytes) → (fgets n s).0 ++ (fgets n s).1 ≡ s
unfolding fgets
fgets-append zero s = refl
fgets-append (suc n) [] = refl
fgets-append (suc n) (c ∷ s) = ground (arith, fgets-append n s)

fgets-nonempty : (n : ℕ) (s : Bytes) → length (fgets (suc n) s).0 ≡ 0 → s ≡ []
unfolding fgets
fgets-nonempty n [] h = refl
fgets-nonempty n (c ∷ s) h = ground arith

-- The reader has not gone past the end of its line.
abbrev pub InLine : Reader → Type 0
InLine p = p.next ≤ length p.raw

at-le-length : (s : Scan) (at : ℕ) (line : Bytes) → (scan_line s at line).at ≤ at + length line
unfolding scan_line
at-le-length s at [] = omega arith
at-le-length s at (ch ∷ line) = ground (arith, at-le-length (feed ch s) (suc at) line)

-- What one `Next` does: the statement is the splitter's, and so is what it leaves unread.
pub data Reads (p : Reader) (s : Scan) (r : Option (Reader × Option Bytes)) : Type 0 where
  reads :
      (p' : Reader) (o : Option Bytes)
      → r ≡ some (p', o)
      → split s (unread p) ≡ (o, unread p')
      → InLine p'
      → Reads p s r

abbrev scanned : Reader → Scan → Scanned
scanned p s = scan_line s p.next (left_in_line p)

abbrev scanned_reader : Reader → Scan → Reader
scanned_reader p s = record p { next = (scanned p s).at }

module _ (p : Reader) (s : Scan) (inside : InLine p) where
  scanned-InLine : InLine (scanned_reader p s)
  scanned-InLine = omega (arith, at-le-length s p.next (left_in_line p), length-drop p.next p.raw)

  scanned-accepted :
      (scanned p s).accepted ≡ true
      → split s (unread p) ≡ (some (scanned p s).scan.out, unread (scanned_reader p s))
  scanned-accepted h =
      accepted_lem s p.next (left_in_line p) p.input h
      ∙ ap (λ z. (some (scanned p s).scan.out, z ++ p.input))
          (drop-drop ((scanned p s).at - p.next) p.next p.raw
            ∙ ap (λ k. drop k p.raw) (omega (arith, at-le s p.next (left_in_line p))))

  scanned-unaccepted :
      (scanned p s).accepted ≡ false
      → (split s (unread p) ≡ split (scanned p s).scan (unread (scanned_reader p s)))
        × (left_in_line (scanned_reader p s) ≡ [])
  scanned-unaccepted h =
      let (same, end) = unaccepted_lem s p.next (left_in_line p) p.input h in
      let used : left_in_line (scanned_reader p s) ≡ [] =
        drop-eq-nil (scanned p s).at p.raw (omega (arith, end, length-drop p.next p.raw)) in
      (same ∙ ap (λ z. split (scanned p s).scan (z ++ p.input)) (sym used), used)

-- Turns that a reader still needs: one for each line left, and one to see the end.
abbrev pub turns : Reader → ℕ
turns p = length p.input + (if leb (length p.raw) p.next then 0 else 1)

abbrev after_scan : ℕ → Scanned → Reader → Option (Reader × Option Bytes)
after_scan fuel scanned' q' = elim scanned'.accepted [
  | true ↦ some (q', some scanned'.scan.out)
  | false ↦ next_from fuel q' scanned'.scan
]

abbrev turn : ℕ → Scan → Reader × Bool → Option (Reader × Option Bytes)
turn fuel s (q, more) = elim more [
  | false ↦ some (q, at_end s)
  | true ↦ after_scan fuel (scanned q s) (scanned_reader q s)
]

if_cases {ℓ κ} :
    {A : Type ℓ} (P : A → Type κ) (b : Bool) (x y : A)
    → (b ≡ true → P x)
    → (b ≡ false → P y)
    → P (if b then x else y)
if_cases P true x y h k = h refl
if_cases P false x y h k = k refl

elim_cases {ℓ κ} :
    {A : Type ℓ} (P : A → Type κ) (b : Bool) (x y : A)
    → (b ≡ true → P x)
    → (b ≡ false → P y)
    → P (elim b [ true ↦ x | false ↦ y ])
elim_cases P true x y h k = h refl
elim_cases P false x y h k = k refl

Reads-of_split :
    (p q : Reader) (s t : Scan) (r : Option (Reader × Option Bytes))
    → split s (unread p) ≡ split t (unread q)
    → Reads q t r
    → Reads p s r
Reads-of_split p q s t r e (Reads.reads p' o a b c) = Reads.reads p' o a (e ∙ b) c

refill_lem :
    (p : Reader)
    → InLine p
    → leb (length p.raw) p.next ≡ true
    → (unread (read_raw p).0 ≡ unread p)
      × InLine (read_raw p).0
      × ((read_raw p).1 ≡ false → (unread p ≡ []) × (unread (read_raw p).0 ≡ []))
      × ((read_raw p).1 ≡ true → length (read_raw p).0.input < length p.input)
unfolding read_raw
refill_lem p inside used =
    let empty : left_in_line p ≡ [] = drop-eq-nil p.next p.raw (leb→le _ _ used) in
    let whole = fgets-append raw_buf_room p.input in
    let sizes : length (fgets raw_buf_room p.input).0 + length (fgets raw_buf_room p.input).1
        ≡ length p.input =
      sym (length-append (fgets raw_buf_room p.input).0 (fgets raw_buf_room p.input).1)
      ∙ ap length whole in
    (
      whole ∙ ap (λ z. z ++ p.input) (sym empty),
      omega arith,
      λ h.
          let nothing : p.input ≡ [] = fgets-nonempty 1022 p.input (ground arith) in
          (ap (λ z. z ++ p.input) empty ∙ nothing, whole ∙ nothing),
      λ h. ground (arith, sizes),
    )

module _ (fuel : ℕ)
    (ih : (p : Reader) (s : Scan)
      → InLine p
      → turns p < fuel
      → Reads p s (next_from fuel p s)) where
  scan-Reads :
      (q : Reader) (s : Scan)
      → InLine q
      → length q.input < fuel
      → Reads q s (after_scan fuel (scanned q s) (scanned_reader q s))
  scan-Reads q s inside enough =
      elim_cases (Reads q s) (scanned q s).accepted _ _
        (λ yes'.
          Reads.reads (scanned_reader q s) (some (scanned q s).scan.out) refl
            (scanned-accepted q s inside yes') (scanned-InLine q s inside))
        (λ no'.
          let (same, used) = scanned-unaccepted q s inside no' in
          let end : leb (length q.raw) (scanned q s).at ≡ true =
            ground (arith, ap length used, length-drop (scanned q s).at q.raw) in
          Reads-of_split q (scanned_reader q s) s (scanned q s).scan _ same (
            ih (scanned_reader q s) (scanned q s).scan (scanned-InLine q s inside)
              (rw end (omega arith))))

  refill-Reads :
      (p : Reader) (s : Scan)
      → InLine p
      → length p.input ≤ fuel
      → leb (length p.raw) p.next ≡ true
      → Reads p s (turn fuel s (read_raw p))
  unfolding split
  refill-Reads p s inside enough used =
      let (same, inside', nothing, shorter) = refill_lem p inside used in
      elim_cases (Reads p s) (read_raw p).1 _ _
        (λ more.
          Reads-of_split p (read_raw p).0 s s _ (ap (split s) (sym same))
            (scan-Reads (read_raw p).0 s inside' (omega (arith, shorter more))))
        (λ end.
          let (none_left, none_left') = nothing end in
          Reads.reads (read_raw p).0 (at_end s) refl
            (ap (split s) none_left ∙ ap (λ z. (at_end s, z)) (sym none_left')) inside')

-- With a turn for each byte left the reader comes to an answer, and it is the splitter's.
pub next_from-Reads :
    (fuel : ℕ) (p : Reader) (s : Scan) → InLine p → turns p < fuel → Reads p s (next_from fuel p s)
unfolding next_from
next_from-Reads zero p s inside enough = elim enough [ ]
next_from-Reads (suc fuel) p s inside enough =
    if_cases (λ r. Reads p s (turn fuel s r)) (leb (length p.raw) p.next) (read_raw p) (p, true)
      (λ used. refill-Reads fuel (next_from-Reads fuel) p s inside (ground arith) used)
      (λ here. scan-Reads fuel (next_from-Reads fuel) p s inside (ground arith))
