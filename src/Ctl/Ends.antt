-- ===== src/Ctl/Ends.antt =====
-- A run ends, where the limits of its waits run out.
use cubrid_testkit.Prelude.{
  ℕ, suc, ◌+◌, ◌≤◌, Bool, true, false, not, ◌&&◌, List, [], ◌∷◌, Option, none, some, arith,
  if◌then◌else◌, nat_eq, Bool-cases, inl, inr,
}
use cubrid_testkit.Ctl.Client.{Notice}
use cubrid_testkit.Ctl.Service.{
  Turn, World, M, ◌>>=◌, ◌>>◌, return, report, ask, select_once, Goal, serve_turns, service_until,
}

-- How many of the turns find that the limit has run out.
abbrev pub lates : List Turn → ℕ
lates [] = 0
lates (t ∷ ts) = if t.late then suc (lates ts) else lates ts

-- The step has ended, and has used up `k` of the late turns at most.
abbrev pub UsedOf : {A : Type 0} → ℕ → List Turn → Option (A × World) → Type 0
UsedOf k ts none = ⊥
UsedOf k ts (some (a, v)) = lates ts ≤ lates v.turns + k

-- With `k` late turns to come the step ends, and uses up no more.
abbrev pub EndsIn : {A : Type 0} → ℕ → M A → Type 0
EndsIn k m = (w : World) → k ≤ lates w.turns → UsedOf k w.turns (m w)

pub used_more :
    {B : Type 0} (j k : ℕ) (ts : List Turn) (v : World) (r : Option (B × World))
    → lates ts ≤ lates v.turns + j
    → UsedOf k v.turns r
    → UsedOf (j + k) ts r
used_more j k ts v none h u = absurd u
used_more j k ts v (some (b, x)) h u = omega (arith, h, u)

pub used_wider :
    {A : Type 0} (j k : ℕ) (ts : List Turn) (r : Option (A × World))
    → j ≤ k
    → UsedOf j ts r
    → UsedOf k ts r
used_wider j k ts none le u = absurd u
used_wider j k ts (some (a, v)) le u = omega (arith, le, u)

used_both :
    {A B : Type 0} (j k : ℕ) (ts : List Turn) (r : Option (A × World)) (f : A → M B)
    → j + k ≤ lates ts
    → UsedOf j ts r
    → ((a : A) → EndsIn k (f a))
    → UsedOf (j + k) ts (elim r [ none ↦ none | some (a, v) ↦ f a v ])
used_both j k ts none f h u e = absurd u
used_both j k ts (some (a, v)) f h u e = used_more j k ts v (f a v) u (e a v (omega (arith, h, u)))

pub then_ends :
    {A B : Type 0} (j k : ℕ) (m : M A) (f : A → M B)
    → EndsIn j m
    → ((a : A) → EndsIn k (f a))
    → EndsIn (j + k) (m >>= f)
then_ends j k m f h e w lt = used_both j k w.turns (m w) f lt (h w (omega (arith, lt))) e

pub return_ends : {A : Type 0} (a : A) → EndsIn 0 (return a)
return_ends a w h = omega arith

pub wider : {A : Type 0} (j k : ℕ) (m : M A) → j ≤ k → EndsIn j m → EndsIn k m
wider j k m le h w lt = used_wider j k w.turns (m w) le (h w (omega (arith, le, lt)))

pub if_ends :
    {A : Type 0} (k : ℕ) (b : Bool) (m n : M A)
    → EndsIn k m
    → EndsIn k n
    → EndsIn k (if b then m else n)
if_ends k true m n h g = h
if_ends k false m n h g = g

pub report_ends : (n : Notice) → EndsIn 0 (report n)
unfolding report
report_ends n w h = omega arith

pub ask_ends : (test : World → Bool) → EndsIn 0 (ask test)
unfolding ask
ask_ends test w h = omega arith

pub refusal_ends : (n : Notice) (b : Bool) → EndsIn 0 (report n >> return b)
unfolding report
refusal_ends n b w h = omega arith

serve_ends :
    (plain : Bool) (done : Goal) (ts : List Turn) (w : World)
    → 1 ≤ lates ts
    → UsedOf 1 ts (serve_turns plain done ts w)
unfolding serve_turns
serve_ends plain done [] w h = elim h [ ]
serve_ends plain done (t ∷ ts) w h = elim (Bool-cases (done t.probe w.clients)) [
  | inl come ↦ rw come (ground arith)
  | inr waiting ↦ elim (Bool-cases t.late) [
    | inl late ↦ rw (waiting, late) (omega arith)
    | inr early ↦
        let w' = (select_once t.select w).0 in
        let spoke = (select_once t.select w).1 in
        let some_left : 1 ≤ lates ts = rw early at h in
        elim (Bool-cases (plain && not spoke)) [
          | inl silence ↦ rw (waiting, early, silence) (omega arith)
          | inr on ↦ rw (waiting, early, on) (serve_ends plain done ts w' some_left)
        ]
  ]
]

pub service_until_ends : (plain : Bool) (done : Goal) → EndsIn 1 (service_until plain done)
unfolding service_until
service_until_ends plain done w h = serve_ends plain done w.turns w h

-- A step that waits for nothing, and what follows it.
pub then_quick :
    {A B : Type 0} (k : ℕ) (m : M A) (f : A → M B)
    → EndsIn 0 m
    → ((a : A) → EndsIn k (f a))
    → EndsIn k (m >>= f)
then_quick k m f h e = wider (0 + k) k (m >>= f) (omega arith) (then_ends 0 k m f h e)

-- A wait, and what follows it.
pub then_wait :
    {B : Type 0} (k : ℕ) (done : Goal) (f : Bool → M B)
    → ((b : Bool) → EndsIn k (f b))
    → EndsIn (1 + k) (service_until false done >>= f)
then_wait k done f e = then_ends 1 k (service_until false done) f (service_until_ends false done) e

pub quick : {A : Type 0} (k : ℕ) (m : M A) → EndsIn 0 m → EndsIn k m
quick k m h = wider 0 k m (omega arith) h

pub accept_or :
    (b : Bool) (n : Notice) → EndsIn 0 (if b then return true else (report n >> return false))
accept_or b n =
    if_ends 0 b (return true) (report n >> return false) (return_ends true) (refusal_ends n false)
