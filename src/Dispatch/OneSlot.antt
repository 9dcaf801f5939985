-- ===== src/Dispatch/OneSlot.antt =====
-- With lanes: the first attempts of a directory's cases all go to one slot.
use cubrid_testkit.Prelude.{
  ℕ, ◌≡◌, refl, sym, ap, ◌∙◌, List, some, arith, Bytes, get_elem?, nat_eq, bytes_eq, Option-cases,
  inl, inr, count,
}
use mathlib.Core.Path.{subst}
use cubrid_testkit.Prelude.Dict.{Dict, lookup}
use cubrid_testkit.Dispatch.Lanes.{Lane, lane_eq, dir_of, Ticket}
use cubrid_testkit.Dispatch.Queue.{Queue, set_policy, new}
use cubrid_testkit.Dispatch.Claim.{Answer, given, over, again, claim_once}
use cubrid_testkit.Dispatch.Complete.{complete, stop}
use cubrid_testkit.Dispatch.Run.{
  World, Event, claims, completes, stops, governs, answered, completed, step, run, run_keeps,
  initial,
}
use cubrid_testkit.Dispatch.LanedClaim.{claim-LanedOutcome}
use cubrid_testkit.Dispatch.LanedInvariant.{LanedInv}
use cubrid_testkit.Dispatch.LanedCompletion.{not_kept_out}
use cubrid_testkit.Dispatch.Ownership.{IsOwned}
use cubrid_testkit.Dispatch.Owners.{Claimed, LanedOutcome-Claimed, changed-IsOwned}
use cubrid_testkit.Dispatch.Settled.{IsCounted, complete-Settled}
use cubrid_testkit.Dispatch.Guarantees.{AreDistinct}
use cubrid_testkit.Dispatch.LanedGuarantees.{
  laned_run, laned_queue, laned_lem, step-LanedInv, initial-LanedInv,
}

some_inj : {a b : Bytes} → some a ≡ some b → a ≡ b
some_inj e = cc e

module _ {Machine : Type 0} where
  answered_queue : (w : World Machine) (r : Queue Machine × Answer) → (answered w r).queue ≡ r.0
  unfolding answered
  answered_queue w (q, given t) = refl
  answered_queue w (q, over) = refl
  answered_queue w (q, again) = refl

  -- Every open directory is unowned, what slots hold is theirs, and what waits was tried.
  pub record OwnedInv (cases : List Bytes) (max_retry : ℕ) (w : World Machine) : Type 0 where
    pub base : LanedInv cases max_retry w
    pub owned : IsOwned w.queue
    pub counted : IsCounted w.queue

module _ {Machine : Type 0} (cases : List Bytes) (max_retry : ℕ) (by_dir : Dict Bytes Lane) where
  initial-OwnedInv :
      OwnedInv {Machine = Machine} cases max_retry (initial (laned_queue cases max_retry by_dir))
  unfolding initial new lookup count
  initial-OwnedInv =
      let (lane_of, e) = laned_lem {Machine = Machine} cases max_retry by_dir in
      record {
        base = initial-LanedInv cases max_retry by_dir;
        owned = rw e (record {
          unowned = λ k c o. refl;
          own = λ slot c h. elim h [ ];
          swept = λ lane k c h o. elim h [ ];
        });
        counted = rw e (λ c h. elim h [ ]);
      }

  module _ (distinct : AreDistinct cases) where
    -- What a step does to the owners: it keeps those there are.
    record Kept (w u : World Machine) : Type 0 where
      inv : OwnedInv cases max_retry u
      keeps :
          (dir s : Bytes) → lookup dir w.queue.owner ≡ some s → lookup dir u.queue.owner ≡ some s

    queue-Kept :
        (w u : World Machine) (q : Queue Machine)
        → LanedInv cases max_retry u
        → u.queue ≡ q
        → IsOwned q
        → IsCounted q
        → ((dir s : Bytes) → lookup dir w.queue.owner ≡ some s → lookup dir q.owner ≡ some s)
        → Kept w u
    queue-Kept w u q base e owned counted keeps = record {
      inv = record {
        base = base;
        owned = subst IsOwned (sym e) owned;
        counted = subst IsCounted (sym e) counted;
      };
      keeps = λ dir s h. ap (λ z. lookup dir z.owner) e ∙ keeps dir s h;
    }

    claim_once-Claimed :
        (m : Machine) (slot : Bytes) (lane : Lane) (w : World Machine)
        → OwnedInv cases max_retry w
        → Claimed slot w.queue (claim_once m slot lane w.queue)
    claim_once-Claimed m slot lane w v =
        LanedOutcome-Claimed slot lane w.queue (claim_once m slot lane w.queue) v.owned
          (claim-LanedOutcome m slot lane w.queue v.base.laned)

    step-Kept :
        (w : World Machine) (e : Event Machine) → OwnedInv cases max_retry w → Kept w (step w e)
    unfolding step
    step-Kept w (claims m slot lane) v =
        let r = claim_once-Claimed m slot lane w v in
        queue-Kept w _ (claim_once m slot lane w.queue).0
          (step-LanedInv cases max_retry by_dir distinct w (claims m slot lane) v.base)
          (answered_queue w (claim_once m slot lane w.queue)) r.owned
          (λ c p. rw r.tries (v.counted c (omega (arith, r.counts c, p)))) r.keeps
    step-Kept w (completes i success has_core) v =
        let base =
          step-LanedInv cases max_retry by_dir distinct w (completes i success has_core) v.base in
        elim (Option-cases (get_elem? w.out i)) [
          | inl nothing ↦
              queue-Kept w _ w.queue base (rw nothing (unfold completed in refl)) v.owned v.counted
                (λ dir s h. h)
          | inr (t, at) ↦
              let s =
                complete-Settled t success has_core w.queue v.base.laned
                  (not_kept_out cases max_retry distinct w v.base i t at) v.owned v.counted in
              queue-Kept w _ (complete t success has_core w.queue).0 base
                (rw at (unfold completed in refl)) s.owned s.counted
                (λ dir slot h. ap (lookup dir) s.same_owner ∙ h)
        ]
    step-Kept w stops v =
        queue-Kept w _ (stop w.queue) (step-LanedInv cases max_retry by_dir distinct w stops v.base)
          refl
          (unfold stop in
            changed-IsOwned w.queue _ v.owned refl refl refl refl v.owned.own v.owned.swept)
          (unfold stop in v.counted) (unfold stop in λ dir s h. h)
    step-Kept w (governs hard soft) v =
        queue-Kept w _ (set_policy hard soft w.queue)
          (step-LanedInv cases max_retry by_dir distinct w (governs hard soft) v.base) refl
          (unfold set_policy in
            changed-IsOwned w.queue _ v.owned refl refl refl refl v.owned.own v.owned.swept)
          (unfold set_policy in v.counted) (unfold set_policy in λ dir s h. h)

    laned_run-OwnedInv :
        (es : List (Event Machine)) → OwnedInv cases max_retry (laned_run cases max_retry by_dir es)
    laned_run-OwnedInv es =
        run_keeps (λ w e v. (step-Kept w e v).inv) (initial (laned_queue cases max_retry by_dir)) es
          initial-OwnedInv

    owner_stays :
        (dir s : Bytes) (w : World Machine) (es : List (Event Machine))
        → OwnedInv cases max_retry w
        → lookup dir w.queue.owner ≡ some s
        → OwnedInv cases max_retry (run w es) × (lookup dir (run w es).queue.owner ≡ some s)
    owner_stays dir s w es v h =
        run_keeps {P = λ u. OwnedInv cases max_retry u × (lookup dir u.queue.owner ≡ some s)}
          (λ u e (i, o). let k = step-Kept u e i in (k.inv, k.keeps dir s o)) w es (v, h)

    -- With lanes, when a slot is given a first attempt, and later in the run a slot is given a first
    -- attempt of a case of the same directory, the two slots are the same.
    pub one_slot :
        (before after : List (Event Machine)) (m m' : Machine) (slot slot' : Bytes)
        (lane lane' : Lane) (t t' : Ticket)
        → let w = laned_run cases max_retry by_dir before in
          (claim_once m slot lane w.queue).1 ≡ given t
          → t.retry ≡ 0
          → (claim_once m' slot' lane' (run (step w (claims m slot lane)) after).queue).1 ≡ given t'
          → t'.retry ≡ 0
          → dir_of t.test_case ≡ dir_of t'.test_case
          → slot ≡ slot'
    one_slot before after m m' slot slot' lane lane' t t' g first g' first' same =
        let v = laned_run-OwnedInv before in
        let w = laned_run cases max_retry by_dir before in
        let r = claim_once-Claimed m slot lane w v in
        let owns : lookup (dir_of t.test_case) (claim_once m slot lane w.queue).0.owner
            ≡ some slot =
          r.owns v.counted t g first in
        let u = step w (claims m slot lane) in
        let (v', stays) =
          owner_stays (dir_of t.test_case) slot u after (step-Kept w (claims m slot lane) v).inv (
            unfold step in
            ap (λ z. lookup (dir_of t.test_case) z.owner)
              (answered_queue w (claim_once m slot lane w.queue))
            ∙ owns) in
        let r' = claim_once-Claimed m' slot' lane' (run u after) v' in
        let kept' = r'.keeps (dir_of t.test_case) slot stays in
        let owns' = r'.owns v'.counted t' g' first' in
        some_inj (
          sym kept'
          ∙ ap (λ z. lookup z (claim_once m' slot' lane' (run u after).queue).0.owner) same
          ∙ owns')
