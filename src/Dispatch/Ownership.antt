-- ===== src/Dispatch/Ownership.antt =====
-- With lanes: a directory belongs to the slot that claimed its first case.
use cubrid_testkit.Prelude.{
  ℕ, suc, ◌+◌, ◌-◌, ◌&&◌, ◌<◌, ◌≡◌, ◌≢◌, refl, sym, ap, ◌∙◌, Bool, true, false, not, List, [], ◌∷◌,
  ◌++◌, none, some, arith, Bytes, length, take, drop, get_elem?, get_elem?-drop, get_elem?-lt, ◌==◌,
  nat_eq, bytes_eq, bytes_beq_iff, if◌then◌else◌, Bool-cases, inl, inr, count, count-append, ltb,
}
use mathlib.Core.Bool.{false≢true}
use mathlib.Core.Path.{subst}
use cubrid_testkit.Prelude.Dict.{Dict, lookup, insert, read, lookup-insert}
use cubrid_testkit.Dispatch.Lanes.{
  Lane, lane_any, lane_fast, lane_slow, dir_of, lane_eq, lane_beq_sound,
}
use cubrid_testkit.Dispatch.Queue.{Queue, lane_match, start}
use cubrid_testkit.Dispatch.Claim.{hold_siblings, take_dir}
use cubrid_testkit.Dispatch.LanedClaim.{next_open}
use cubrid_testkit.Dispatch.Sweep.{OpenAt, find_free-passed, hold_siblings-OpenAt, taken-OpenAt}

hold_siblings-dir :
    (dir : Bytes) (cs : List Bytes) (ts : List Bool) (c : Bytes)
    → 0 < count c (hold_siblings dir cs ts).1
    → dir_of c ≡ dir
unfolding hold_siblings count
hold_siblings-dir dir [] ts c h = elim h [ ]
hold_siblings-dir dir (x ∷ cs) [] c h = elim h [ ]
hold_siblings-dir dir (x ∷ cs) (t ∷ ts) c h = elim (Bool-cases (not t && dir_of x == dir)) [
  | inr other ↦ hold_siblings-dir dir cs ts c (rw (other, hold_siblings) at h)
  | inl sibling ↦ elim (Bool-cases (x == c)) [
    | inl same ↦
        ap dir_of (sym ((bytes_beq_iff x c).0 same))
        ∙ (bytes_beq_iff (dir_of x) dir).0 (ground (arith, sibling))
    | inr different ↦
        hold_siblings-dir dir cs ts c (ground (arith, different, rw (sibling, hold_siblings) at h))
  ]
]

-- A directory that gets an owner leaves the other directories theirs.
pub still_owned :
    (owner : Dict Bytes Bytes) (slot a b s : Bytes)
    → lookup a owner ≡ none
    → lookup b owner ≡ some s
    → lookup b (insert a slot owner) ≡ some s
still_owned owner slot a b s unowned e = elim (Bool-cases (a == b)) [
  | inl same ↦ absurd (cc (sym unowned ∙ ap (λ z. lookup z owner) ((bytes_beq_iff a b).0 same) ∙ e))
  | inr different ↦ ground (arith, lookup-insert a b slot owner, e)
]

-- The held lists after a claim of a directory that no slot owned.
held_siblings :
    (held : Dict Bytes (List Bytes)) (owner : Dict Bytes Bytes) (slot c : Bytes) (xs : List Bytes)
    → read [] slot held ≡ []
    → lookup (dir_of c) owner ≡ none
    → ((s d : Bytes) → 0 < count d (read [] s held) → lookup (dir_of d) owner ≡ some s)
    → ((x : Bytes) → 0 < count x xs → dir_of x ≡ dir_of c)
    → (s d : Bytes)
    → 0
      < count d
          (read [] s (if length xs == 0 then held else insert slot (read [] slot held ++ xs) held))
    → lookup (dir_of d) (insert (dir_of c) slot owner) ≡ some s
unfolding count
held_siblings held owner slot c [] empty unowned own all s d h =
    still_owned owner slot (dir_of c) (dir_of d) s unowned (own s d h)
held_siblings held owner slot c (x ∷ xs) empty unowned own all s d h =
    let held' = read [] slot held ++ x ∷ xs in
    elim (Bool-cases (slot == s)) [
      | inl same ↦
          let sibling : 0 < count d (x ∷ xs) = ground (
            arith,
            h,
            ap (count d) empty,
            count-append d (read [] slot held) (x ∷ xs),
            lookup-insert slot s held' held,
          ) in
          ground (
            arith,
            lookup-insert (dir_of c) (dir_of d) slot owner,
            all d sibling,
            bytes_beq_iff slot s,
            bytes_beq_iff (dir_of c) (dir_of d),
          )
      | inr different ↦
          still_owned owner slot (dir_of c) (dir_of d) s unowned
            (own s d (ground (arith, h, lookup-insert slot s held' held)))
    ]

module _ {Machine : Type 0} where
  -- Whether a case fits a lane is a matter of its directory.
  lane_match-dir :
      (q : Queue Machine) (c d : Bytes) (lane : Lane)
      → dir_of c ≡ dir_of d
      → lane_match q c lane ≡ lane_match q d lane
  unfolding lane_match
  lane_match-dir q c d lane_any e = refl
  lane_match-dir q c d lane_fast e = ap (λ z. read lane_fast z q.lane_of == lane_fast) e
  lane_match-dir q c d lane_slow e = ap (λ z. read lane_fast z q.lane_of == lane_slow) e

  pub lane_match_same :
      (q r : Queue Machine) (c : Bytes) (lane : Lane)
      → q.lane_of ≡ r.lane_of
      → lane_match r c lane ≡ lane_match q c lane
  unfolding lane_match
  lane_match_same q r c lane_any e = refl
  lane_match_same q r c lane_fast e = ap (λ z. read lane_fast (dir_of c) z == lane_fast) (sym e)
  lane_match_same q r c lane_slow e = ap (λ z. read lane_fast (dir_of c) z == lane_slow) (sym e)

  pub record IsOwned (q : Queue Machine) : Type 0 where
    -- An open case is of a directory that no slot owns.
    pub unowned :
        (k : ℕ) (c : Bytes) → OpenAt q.cases q.taken k c → lookup (dir_of c) q.owner ≡ none
    -- A slot holds only cases of its own directories.
    pub own :
        (slot c : Bytes) → 0 < count c (read [] slot q.held) → lookup (dir_of c) q.owner ≡ some slot
    -- A lane's cursor has passed no open case that fits the lane.
    pub swept :
        (lane : Lane) (k : ℕ) (c : Bytes)
        → k < read 0 lane q.cursor
        → OpenAt q.cases q.taken k c
        → lane_match q c lane ≡ false

  module _ (q : Queue Machine) (v : IsOwned q) (slot : Bytes) (lane : Lane) (c : Bytes) (k : ℕ)
      (empty : read [] slot q.held ≡ [])
      (found : next_open lane q ≡ some (c, read 0 lane q.cursor + k))
      (here : OpenAt q.cases q.taken (read 0 lane q.cursor + k) c)
      (fits : lane_match q c lane ≡ true) where
    abbrev from : ℕ
    from = read 0 lane q.cursor

    -- Nothing open stands before the case that fits its lane.
    before :
        (j : ℕ) (d : Bytes)
        → j < from + k
        → OpenAt q.cases q.taken j d
        → lane_match q d lane ≡ false
    before j d l o = elim (Bool-cases (ltb j from)) [
      | inl early ↦ v.swept lane j d (ground arith) o
      | inr late ↦
          let at : from + (j - from) ≡ j = ground arith in
          find_free-passed (λ x. lane_match q x lane) from k (drop from q.cases) (drop from q.taken)
            c found (j - from) d (ground arith)
            (
              get_elem?-drop from (j - from) q.cases ∙ ap (get_elem? q.cases) at ∙ o.0,
              get_elem?-drop from (j - from) q.taken ∙ ap (get_elem? q.taken) at ∙ o.1,
            )
    ]

    marks : List Bool
    marks = (hold_siblings (dir_of c) (drop (from + k + 1) q.cases) (drop (from + k + 1) q.taken)).0

    -- What is open after the claim was open, stands before it or behind it, and is of another directory.
    still_open :
        (j : ℕ) (d : Bytes)
        → OpenAt q.cases (take (from + k) q.taken ++ true ∷ marks) j d
        → OpenAt q.cases q.taken j d × (dir_of d ≢ dir_of c) × (from + k ≢ j)
    unfolding marks
    still_open j d o =
        let i = from + k in
        elim (taken-OpenAt q.cases q.taken marks i j d (get_elem?-lt q.taken i here.1) o) [
          | inl (early, was) ↦ (
            was,
            λ e. false≢true (sym (before j d early was) ∙ lane_match-dir q d c lane e ∙ fits),
            λ e. omega (arith, early, e),
          )
          | inr (m, at, behind) ↦
              let next : i + 1 ≡ suc i = omega arith in
              let behind' =
                subst
                  (λ z.
                    OpenAt (drop (suc i) q.cases)
                      (hold_siblings (dir_of c) (drop z q.cases) (drop z q.taken)).0 m d)
                  next behind in
              let (was, other) =
                hold_siblings-OpenAt (dir_of c) (drop (suc i) q.cases) (drop (suc i) q.taken) m d
                  behind' in
              (
                (
                  ap (get_elem? q.cases) at ∙ sym (get_elem?-drop (suc i) m q.cases) ∙ was.0,
                  ap (get_elem? q.taken) at ∙ sym (get_elem?-drop (suc i) m q.taken) ∙ was.1,
                ),
                other,
                λ e. omega (arith, at, e),
              )
        ]

    siblings : List Bytes
    siblings =
        (hold_siblings (dir_of c) (drop (from + k + 1) q.cases) (drop (from + k + 1) q.taken)).1

    held_own :
        (s d : Bytes)
        → 0 < count d (read [] s (take_dir slot lane c (from + k) q).held)
        → lookup (dir_of d) (insert (dir_of c) slot q.owner) ≡ some s
    unfolding take_dir siblings
    held_own s d h =
        held_siblings q.held q.owner slot c siblings empty (v.unowned (from + k) c here) v.own
          (λ x p.
            hold_siblings-dir (dir_of c) (drop (from + k + 1) q.cases) (drop (from + k + 1) q.taken)
              x p)
          s d h

    open_unowned :
        (j : ℕ) (d : Bytes)
        → OpenAt q.cases (take (from + k) q.taken ++ true ∷ marks) j d
        → lookup (dir_of d) (insert (dir_of c) slot q.owner) ≡ none
    open_unowned j d o =
        let (was, other, apart) = still_open j d o in
        let different : dir_of c == dir_of d ≡ false =
          ground (arith, other, bytes_beq_iff (dir_of c) (dir_of d)) in
        ground (arith, lookup-insert (dir_of c) (dir_of d) slot q.owner, v.unowned j d was)

    open_swept :
        (l : Lane) (j : ℕ) (d : Bytes)
        → j < read 0 l (insert lane (from + k + 1) q.cursor)
        → OpenAt q.cases (take (from + k) q.taken ++ true ∷ marks) j d
        → lane_match q d l ≡ false
    open_swept l j d early o =
        let (was, other, apart) = still_open j d o in
        elim (Bool-cases (lane == l)) [
          | inl same ↦
              subst (λ z. lane_match q d z ≡ false) (lane_beq_sound lane l same)
                (before j d (ground (arith, apart, lookup-insert lane l (from + k + 1) q.cursor))
                  was)
          | inr different ↦
              v.swept l j d (ground (arith, lookup-insert lane l (from + k + 1) q.cursor)) was
        ]

    pub take_dir-IsOwned : IsOwned (start c (take_dir slot lane c (from + k) q))
    unfolding take_dir start marks
    take_dir-IsOwned = record {
      unowned = open_unowned;
      own = held_own;
      swept = λ l j d early o. lane_match_same q _ d l refl ∙ open_swept l j d early o;
    }
