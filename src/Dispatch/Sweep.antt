-- ===== src/Dispatch/Sweep.antt =====
-- With lanes: what the scan by directory has passed over.
use cubrid_testkit.Prelude.{
  ℕ, zero, suc, ◌+◌, ◌<◌, ◌≡◌, ◌≢◌, ap, ◌∙◌, Bool, true, false, not, ◌&&◌, ◌||◌, List, [], ◌∷◌,
  ◌++◌, none, some, arith, Bytes, length, take, drop, get_elem?, ◌==◌, nat_eq, bytes_eq,
  bytes_beq_iff, Bool-cases, inl, inr, ◌⊎◌,
}
use cubrid_testkit.Dispatch.Lanes.{dir_of, lane_eq}
use cubrid_testkit.Dispatch.Claim.{find_free, hold_siblings}
use cubrid_testkit.Dispatch.Holding.{find_free-at}

-- The case at index `k` is neither claimed nor held.
abbrev pub OpenAt : List Bytes → List Bool → ℕ → Bytes → Type 0
OpenAt cs ts k c = (get_elem? cs k ≡ some c) × (get_elem? ts k ≡ some false)

pub find_free-passed :
    (fits : Bytes → Bool) (i k : ℕ) (cs : List Bytes) (ts : List Bool) (c : Bytes)
    → find_free fits i cs ts ≡ some (c, i + k)
    → (j : ℕ) (d : Bytes) → j < k
    → OpenAt cs ts j d
    → fits d ≡ false
unfolding find_free
find_free-passed fits i k [] ts c h j d l o = absurd cc
find_free-passed fits i k (x ∷ cs) [] c h j d l o = absurd cc
find_free-passed fits i k (x ∷ cs) (t ∷ ts) c h zero d l o = elim (Bool-cases (t || not (fits x))) [
  | inl past ↦ ground (arith, past, o)
  | inr found ↦ absurd (ground (arith, rw found at h))
]
find_free-passed fits i k (x ∷ cs) (t ∷ ts) c h (suc j) d l o =
    elim (Bool-cases (t || not (fits x))) [
      | inl past ↦
          let further : find_free fits (suc i) cs ts ≡ some (c, i + k) = rw past at h in
          let (n, e, g, o2, f) = find_free-at fits (suc i) cs ts c (i + k) further in
          find_free-passed fits (suc i) n cs ts c (further ∙ ap (λ z. some (c, z)) e) j d
            (omega (arith, e)) o
      | inr found ↦ absurd (ground (arith, rw found at h))
    ]

pub find_free-none :
    (fits : Bytes → Bool) (i : ℕ) (cs : List Bytes) (ts : List Bool)
    → find_free fits i cs ts ≡ none
    → (j : ℕ) (d : Bytes) → OpenAt cs ts j d
    → fits d ≡ false
unfolding find_free
find_free-none fits i [] ts h j d o = absurd (cc o.0)
find_free-none fits i (x ∷ cs) [] h j d o = absurd (cc o.1)
find_free-none fits i (x ∷ cs) (t ∷ ts) h zero d o = ground (arith, h, o)
find_free-none fits i (x ∷ cs) (t ∷ ts) h (suc j) d o = elim (Bool-cases (t || not (fits x))) [
  | inl past ↦ find_free-none fits (suc i) cs ts (rw past at h) j d o
  | inr found ↦ absurd (cc (rw found at h))
]

-- What is open behind the case was open before, and is of another directory.
pub hold_siblings-OpenAt :
    (dir : Bytes) (cs : List Bytes) (ts : List Bool) (j : ℕ) (d : Bytes)
    → OpenAt cs (hold_siblings dir cs ts).0 j d
    → OpenAt cs ts j d × (dir_of d ≢ dir)
unfolding hold_siblings
hold_siblings-OpenAt dir [] ts j d o = absurd (cc o.0)
hold_siblings-OpenAt dir (c ∷ cs) [] j d o = absurd (cc o.1)
hold_siblings-OpenAt dir (c ∷ cs) (t ∷ ts) zero d o = elim (Bool-cases (not t && dir_of c == dir)) [
  | inl sibling ↦ absurd (cc ((rw (sibling, hold_siblings) at o).1))
  | inr other ↦
      let c≡d : c ≡ d = ground (arith, o.0) in
      let unheld : t ≡ false = ground (arith, (rw (other, hold_siblings) at o).1) in
      (
        (o.0, ap some unheld),
        rw (← c≡d) (ground (arith, other, unheld, bytes_beq_iff (dir_of c) dir)),
      )
]
hold_siblings-OpenAt dir (c ∷ cs) (t ∷ ts) (suc j) d o =
    elim (Bool-cases (not t && dir_of c == dir)) [
      | inl sibling ↦ hold_siblings-OpenAt dir cs ts j d (rw (sibling, hold_siblings) at o)
      | inr other ↦ hold_siblings-OpenAt dir cs ts j d (rw (other, hold_siblings) at o)
    ]

-- What is open after a case is taken at `i`: something before it, or behind it by the new marks.
pub taken-OpenAt :
    (cs : List Bytes) (ts : List Bool) (marks : List Bool) (i j : ℕ) (d : Bytes)
    → i < length ts
    → OpenAt cs (take i ts ++ true ∷ marks) j d
    → ((j < i) × OpenAt cs ts j d)
      ⊎ ((m : ℕ) × (j ≡ suc i + m) × OpenAt (drop (suc i) cs) marks m d)
taken-OpenAt [] ts marks i j d l o = absurd (cc o.0)
taken-OpenAt (c ∷ cs) [] marks i j d l o = absurd (omega arith)
taken-OpenAt (c ∷ cs) (t ∷ ts) marks zero zero d l o = absurd (cc o.1)
taken-OpenAt (c ∷ cs) (t ∷ ts) marks zero (suc j) d l o = inr (j, omega arith, o)
taken-OpenAt (c ∷ cs) (t ∷ ts) marks (suc i) zero d l o = inl (omega arith, o)
taken-OpenAt (c ∷ cs) (t ∷ ts) marks (suc i) (suc j) d l o =
    elim (taken-OpenAt cs ts marks i j d (omega arith) o) [
      | inl (before, was) ↦ inl (omega arith, was)
      | inr (m, e, behind) ↦ inr (m, omega (arith, e), behind)
    ]
