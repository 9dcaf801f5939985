-- ===== src/Ctl/Outcomes.antt =====
-- A rule for the steps of the controller in sequence, and the steps that send nothing.
use cubrid_testkit.Prelude.{
  ◌≡◌, ap, Bool, true, false, not, ◌&&◌, List, [], ◌∷◌, ◌++◌, Option, none, some, if◌then◌else◌,
  Bool-cases, inl, inr,
}
use cubrid_testkit.Ctl.Client.{Notice}
use cubrid_testkit.Ctl.Service.{
  select_once, Turn, World, M, ◌>>=◌, ◌>>◌, return, report, ask, Goal, serve_turns, service_until,
}
use cubrid_testkit.Ctl.Sends.{
  Statement, sent_by, Sends, Sends-self, Sends-trans, followed, turns_dropped, select_once-mute,
}
use cubrid_testkit.Ctl.Follow.{Follows-self}

-- What is true of the value and the world that a step ends with; where the turns run out it does not
-- end.
abbrev pub Holds : {A : Type 0} → (A → World → Type 0) → Option (A × World) → Type 0
Holds Q none = Unit
Holds Q (some (a, w)) = Q a w

ended :
    {A B : Type 0} (r : Option (A × World)) (f : A → M B) (P : A → World → Type 0)
    (Q : B → World → Type 0)
    → Holds P r
    → ((a : A) (v : World) → P a v → Holds Q (f a v))
    → Holds Q (elim r [ none ↦ none | some (a, v) ↦ f a v ])
ended none f P Q h k = tt
ended (some (a, v)) f P Q h k = k a v h

-- The rule for two steps in sequence.
pub sequence :
    {A B : Type 0} (m : M A) (f : A → M B) (P : A → World → Type 0) (Q : B → World → Type 0)
    (w : World)
    → Holds P (m w)
    → ((a : A) (v : World) → P a v → Holds Q (f a v))
    → Holds Q ((m >>= f) w)
sequence m f P Q w h k = ended (m w) f P Q h k

-- What was sent in the first step stands before what is sent in the second.
abbrev pub SendsIn : {A : Type 0} → List Statement → World → Option (A × World) → Type 0
SendsIn {A = A} l w = Holds {A = A} (λ a v. Sends l w v)

pub behind :
    {A : Type 0} (a b : List Statement) (w v : World) (r : Option (A × World))
    → Sends a w v
    → SendsIn b v r
    → SendsIn (a ++ b) w r
behind a b w v none h k = tt
behind a b w v (some (x, u)) h k = Sends-trans a b w v u h k

pub then_sends :
    {A B : Type 0} (m : M A) (f : A → M B) (a b : List Statement) (w : World)
    → SendsIn a w (m w)
    → ((x : A) (v : World) → SendsIn b v (f x v))
    → SendsIn (a ++ b) w ((m >>= f) w)
then_sends m f a b w h k =
    sequence m f (λ x v. Sends a w v) (λ y u. Sends (a ++ b) w u) w h
      (λ x v s. behind a b w v (f x v) s (k x v))

-- The step sends nothing.
abbrev pub IsMute : {A : Type 0} → M A → Type 0
IsMute m = (w : World) → SendsIn [] w (m w)

pub then-IsMute :
    {A B : Type 0} (m : M A) (f : A → M B) → IsMute m → ((a : A) → IsMute (f a)) → IsMute (m >>= f)
then-IsMute m f h k w = then_sends m f [] [] w (h w) k

pub return-IsMute : {A : Type 0} (a : A) → IsMute (return a)
return-IsMute a w = Sends-self w

pub if-IsMute :
    {A : Type 0} (b : Bool) (m k : M A) → IsMute m → IsMute k → IsMute (if b then m else k)
if-IsMute true m k h g = h
if-IsMute false m k h g = g

pub report-IsMute : (n : Notice) → sent_by n ≡ [] → IsMute (report n)
unfolding report
report-IsMute n e w =
    followed [] w w.clients (n ∷ []) (Follows-self w.clients) (ap (λ z. z ++ []) e)

pub ask-IsMute : (test : World → Bool) → IsMute (ask test)
unfolding ask
ask-IsMute test w = Sends-self w

-- A refusal, and the notice before it.
pub refusal-IsMute : (n : Notice) → sent_by n ≡ [] → IsMute (report n >> return false)
refusal-IsMute n e =
    then-IsMute (report n) (λ _. return false) (report-IsMute n e) (λ _. return-IsMute false)

serve_turns-mute :
    (plain : Bool) (done : Goal) (ts : List Turn) (w : World)
    → SendsIn [] w (serve_turns plain done ts w)
unfolding serve_turns
serve_turns-mute plain done [] w = tt
serve_turns-mute plain done (t ∷ ts) w = elim (Bool-cases (done t.probe w.clients)) [
  | inl come ↦ rw come (turns_dropped [] w w ts (Sends-self w))
  | inr waiting ↦ elim (Bool-cases t.late) [
    | inl late ↦ rw (waiting, late) (turns_dropped [] w w ts (Sends-self w))
    | inr early ↦
        let (w', spoke) = select_once t.select w in
        let step : Sends [] w w' = select_once-mute t.select w in
        elim (Bool-cases (plain && not spoke)) [
          | inl silence ↦ rw (waiting, early, silence) (turns_dropped [] w w' ts step)
          | inr on ↦
              rw (waiting, early, on)
                (behind [] [] w w' (serve_turns plain done ts w') step
                  (serve_turns-mute plain done ts w'))
        ]
  ]
]

pub service_until-IsMute : (plain : Bool) (done : Goal) → IsMute (service_until plain done)
unfolding service_until
service_until-IsMute plain done w = serve_turns-mute plain done w.turns w

-- A wait, and an answer to how it ended.
pub wait-IsMute :
    (done : Goal) (k : Bool → M Bool)
    → ((b : Bool) → IsMute (k b))
    → IsMute (service_until false done >>= k)
wait-IsMute done k h = then-IsMute (service_until false done) k (service_until-IsMute false done) h
