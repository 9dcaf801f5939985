-- ===== src/Dispatch/Window.antt =====
-- The waiting cases: what `admissible` offers and what `take` leaves.
use cubrid_testkit.Prelude.{
  ℕ, zero, suc, ◌+◌, ◌-◌, ◌<◌, ◌≡◌, refl, sym, ap, ◌∙◌, true, false, ◌&&◌, List, [], ◌∷◌, ◌++◌,
  Option, none, some, arith, ◌==◌, nat_eq, bytes_eq, Bytes, length, get_elem?, take, drop,
  drop_of_length, drop-drop, length-take, length-drop, nat_beq_refl, Bool-cases, inl, inr, ◌⊎◌, ◌≢◌,
}
use cubrid_testkit.Dispatch.Admission.{Policy, admits}
use cubrid_testkit.Dispatch.Queue.{
  Queue, window, scan_policy, or_else, last_resort, admissible, take_at,
}

or_else-cases :
    (a b : Option (Bytes × ℕ)) {r : Bytes × ℕ}
    → or_else a b ≡ some r
    → (a ≡ some r) ⊎ ((a ≡ none) × (b ≡ some r))
or_else-cases none b h = inr (refl, h)
or_else-cases (some a) b h = inl h

-- The slice after `take`, from the new `next` on.
drop_shifted :
    (n k : ℕ) (xs : List Bytes)
    → n < length xs
    → drop
        (n + 1)
        (take (n + 1) xs ++ (take (n + suc k - n) (drop n xs) ++ drop (n + suc k + 1) xs))
      ≡ take (suc k) (drop n xs) ++ drop (suc (suc k)) (drop n xs)
drop_shifted n k xs h =
    let e : n + suc k - n ≡ suc k = omega arith in
    let len : length (take (n + 1) xs) ≡ n + 1 = omega (arith, length-take (n + 1) xs) in
    let d : n + suc (suc k) ≡ n + suc k + 1 = omega arith in
    rw (drop-drop (suc (suc k)) n xs) (
      rw (d, e)
        (ap (λ j. drop j (take (n + 1) xs ++ (take (suc k) (drop n xs) ++ drop (n + suc k + 1) xs)))
            (sym len)
          ∙ drop_of_length (take (n + 1) xs) (take (suc k) (drop n xs) ++ drop (n + suc k + 1) xs)))

module _ {Machine : Type 0} where
  abbrev pub Refused :
      Machine → Option (Policy Machine) → Option (Policy Machine) → List Bytes → List Bytes → Type 0
  Refused m p q running [] = Unit
  Refused m p q running (c ∷ cs) =
      ((admits p m c running && admits q m c running) ≡ false) × Refused m p q running cs

  scan_policy_lem :
      (m : Machine) (p q : Option (Policy Machine)) (running : List Bytes) (i : ℕ) (cs : List Bytes)
      {c : Bytes} {at : ℕ}
      → scan_policy m p q running i cs ≡ some (c, at)
      → (k : ℕ) × (at ≡ i + k)
        × (get_elem? cs k ≡ some c)
        × ((admits p m c running && admits q m c running) ≡ true)
        × Refused m p q running (take k cs)
  unfolding scan_policy
  scan_policy_lem m p q running i [] h = ground arith
  scan_policy_lem m p q running i (d ∷ ds) {c} {at} h =
      elim (Bool-cases (admits p m d running && admits q m d running)) [
        | inl yes' ↦ (0, ground arith, ground arith, ground arith, tt)
        | inr no' ↦
            let (k, e, g, a, r) =
              scan_policy_lem m p q running (suc i) ds {c = c} {at = at} (rw no' at h) in
            (suc k, omega arith, g, a, (no', r))
      ]

  scan_policy-none :
      (m : Machine) (p q : Option (Policy Machine)) (running : List Bytes) (i : ℕ) (cs : List Bytes)
      → scan_policy m p q running i cs ≡ none
      → Refused m p q running cs
  unfolding scan_policy
  scan_policy-none m p q running i [] h = tt
  scan_policy-none m p q running i (d ∷ ds) h =
      elim (Bool-cases (admits p m d running && admits q m d running)) [
        | inl yes' ↦ ground arith
        | inr no' ↦ (no', scan_policy-none m p q running (suc i) ds (rw no' at h))
      ]

  -- Why a case is offered: both rules admit it and refuse every case before it; or no case pleases
  -- both and the constraint admits it first; or the constraint refuses all and nothing runs.
  pub data Choice (m : Machine) (q : Queue Machine) (c : Bytes) (k : ℕ) : Type 0 where
    both :
        (admits q.hard m c q.running && admits q.soft m c q.running) ≡ true
        → Refused m q.hard q.soft q.running (take k (window q))
        → Choice m q c k
    constraint :
        admits q.hard m c q.running ≡ true
        → Refused m q.hard q.soft q.running (window q)
        → Refused m q.hard none q.running (take k (window q))
        → Choice m q c k
    idle : k ≡ 0 → q.running ≡ [] → Refused m q.hard none q.running (window q) → Choice m q c k

  last_resort_lem :
      (q : Queue Machine) (cs : List Bytes) {c : Bytes} {at : ℕ}
      → last_resort q cs ≡ some (c, at)
      → (at ≡ q.next) × (get_elem? cs 0 ≡ some c) × (q.running ≡ [])
  unfolding last_resort
  last_resort_lem q [] h = ground arith
  last_resort_lem q (d ∷ ds) h = ground arith

  -- What `admissible` offers is a waiting case, chosen by the rules.
  pub admissible-Choice :
      (m : Machine) (q : Queue Machine) {c : Bytes} {at : ℕ}
      → admissible m q ≡ some (c, at)
      → (k : ℕ) × (at ≡ q.next + k) × (get_elem? (window q) k ≡ some c) × Choice m q c k
  unfolding admissible
  admissible-Choice m q {c} {at} h =
      elim (or_else-cases (scan_policy m q.hard q.soft q.running q.next (window q)) _ h) [
        | inl found ↦
            let (k, e, g, a, r) =
              scan_policy_lem m q.hard q.soft q.running q.next (window q) {c = c} {at = at} found in
            (k, e, g, both a r)
        | inr (missed, later) ↦
            elim (or_else-cases (scan_policy m q.hard none q.running q.next (window q)) _ later) [
              | inl found ↦
                  let (k, e, g, a, r) =
                    scan_policy_lem m q.hard none q.running q.next (window q) {c = c} {at = at}
                      found in
                  (
                    k,
                    e,
                    g,
                    constraint (ground arith)
                        (scan_policy-none m q.hard q.soft q.running q.next (window q) missed) r,
                  )
              | inr (missed', last) ↦
                  let (e, g, idle') = last_resort_lem q (window q) {c = c} {at = at} last in
                  (
                    0,
                    omega arith,
                    g,
                    idle refl idle'
                        (scan_policy-none m q.hard none q.running q.next (window q) missed'),
                  )
            ]
      ]

  -- A claimant is refused a waiting case only while something runs.
  pub admissible-none :
      (m : Machine) (q : Queue Machine) → admissible m q ≡ none → window q ≢ [] → q.running ≢ []
  unfolding admissible last_resort
  admissible-none m q h w r = ground arith

  -- Taking a case keeps the other waiting cases, in their order.
  pub window-take_at :
      (q : Queue Machine) (k : ℕ)
      → k < length (window q)
      → window (take_at (q.next + k) q) ≡ take k (window q) ++ drop (suc k) (window q)
  unfolding take_at
  window-take_at q zero h =
      let e : q.next + 0 ≡ q.next = omega arith in
      rw e (rw (nat_beq_refl q.next) (sym (drop-drop 1 q.next q.cases)))
  window-take_at q (suc k) h =
      let e : (q.next + suc k == q.next) ≡ false = ground arith in
      rw e (drop_shifted q.next k q.cases (omega (arith, length-drop q.next q.cases)))
