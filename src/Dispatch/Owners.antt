-- ===== src/Dispatch/Owners.antt =====
-- With lanes: every step of a run keeps who owns which directory.
use cubrid_testkit.Prelude.{
  ℕ, ◌+◌, ◌-◌, ◌≤◌, ◌<◌, ◌≡◌, refl, sym, ap, ◌∙◌, true, false, List, [], ◌∷◌, none, some, arith,
  Bytes, length, drop, get_elem?, get_elem?-drop, ◌==◌, nat_eq, bytes_eq, bytes_beq_iff, Bool-cases,
  inl, inr, count, count-append, count_self, ltb,
}
use mathlib.Core.Path.{subst}
use cubrid_testkit.Prelude.Dict.{lookup, insert, read, lookup-insert}
use cubrid_testkit.Dispatch.Lanes.{Lane, lane_eq, lane_beq_sound, dir_of, Ticket}
use cubrid_testkit.Dispatch.Queue.{Queue, lane_match, start}
use cubrid_testkit.Dispatch.Claim.{Answer, given, take_dir, give_retry, depart}
use cubrid_testkit.Dispatch.Plain.{first_ticket}
use cubrid_testkit.Dispatch.LanedClaim.{LanedOutcome, next_open}
use cubrid_testkit.Dispatch.Holding.{find_free-at, first_retry-count}
use cubrid_testkit.Dispatch.Sweep.{OpenAt, find_free-none}
use cubrid_testkit.Dispatch.Ownership.{IsOwned, lane_match_same, take_dir-IsOwned, still_owned}

module _ {Machine : Type 0} where
  -- Only what is held and what the cursors have passed may change.
  pub changed-IsOwned :
      (q r : Queue Machine)
      → IsOwned q
      → r.cases ≡ q.cases
      → r.taken ≡ q.taken
      → r.owner ≡ q.owner
      → r.lane_of ≡ q.lane_of
      → ((s d : Bytes) → 0 < count d (read [] s r.held) → lookup (dir_of d) q.owner ≡ some s)
      → ((l : Lane) (j : ℕ) (d : Bytes)
          → j < read 0 l r.cursor
          → OpenAt q.cases q.taken j d
          → lane_match q d l ≡ false)
      → IsOwned r
  changed-IsOwned q r v cases_eq taken_eq owner_eq lanes_eq own swept = record {
    unowned = λ j d o.
        ap (lookup (dir_of d)) owner_eq
        ∙ v.unowned j d (
          sym (ap (λ z. get_elem? z j) cases_eq) ∙ o.0,
          sym (ap (λ z. get_elem? z j) taken_eq) ∙ o.1,
        );
    own = λ s d h. ap (lookup (dir_of d)) owner_eq ∙ own s d h;
    swept = λ l j d early o.
        lane_match_same q r d l (sym lanes_eq)
        ∙ swept l j d early (
          sym (ap (λ z. get_elem? z j) cases_eq) ∙ o.0,
          sym (ap (λ z. get_elem? z j) taken_eq) ∙ o.1,
        );
  }

  -- A scan that finds nothing has passed no open case of its lane.
  passed_swept :
      (lane : Lane) (q : Queue Machine)
      → IsOwned q
      → next_open lane q ≡ none
      → (l : Lane) (j : ℕ) (d : Bytes) → j < read 0 l (insert lane (length q.cases) q.cursor)
      → OpenAt q.cases q.taken j d
      → lane_match q d l ≡ false
  passed_swept lane q v nothing l j d early o =
      let from = read 0 lane q.cursor in
      elim (Bool-cases (lane == l)) [
        | inr different ↦
            v.swept l j d (ground (arith, lookup-insert lane l (length q.cases) q.cursor)) o
        | inl same ↦
            subst (λ z. lane_match q d z ≡ false) (lane_beq_sound lane l same)
              (elim (Bool-cases (ltb j from)) [
                | inl before ↦ v.swept lane j d (ground arith) o
                | inr behind ↦
                    let at : from + (j - from) ≡ j = ground arith in
                    find_free-none (λ x. lane_match q x lane) from (drop from q.cases)
                      (drop from q.taken) nothing (j - from) d
                      (
                        get_elem?-drop from (j - from) q.cases ∙ ap (get_elem? q.cases) at ∙ o.0,
                        get_elem?-drop from (j - from) q.taken ∙ ap (get_elem? q.taken) at ∙ o.1,
                      )
              ])
      ]

  rest_own :
      (q : Queue Machine)
      → IsOwned q
      → (slot c : Bytes) (rest : List Bytes) → read [] slot q.held ≡ c ∷ rest
      → (s d : Bytes) → 0 < count d (read [] s (insert slot rest q.held))
      → lookup (dir_of d) q.owner ≡ some s
  rest_own q v slot c rest h s d p = elim (Bool-cases (slot == s)) [
    | inr different ↦ v.own s d (ground (arith, p, lookup-insert slot s rest q.held))
    | inl same ↦
        let e : slot ≡ s = (bytes_beq_iff slot s).0 same in
        let behind : 0 < count d rest = ground (arith, p, lookup-insert slot s rest q.held) in
        v.own s d (
          subst (λ z. 0 < count d (read [] z q.held)) e
            (omega (arith, ap (count d) h, count-append d (c ∷ []) rest)))
  ]

  -- What a claim does to the owners.
  pub record Claimed (slot : Bytes) (q : Queue Machine) (r : Queue Machine × Answer) : Type 0 where
    pub owned : IsOwned r.0
    pub keeps : (dir s : Bytes) → lookup dir q.owner ≡ some s → lookup dir r.0.owner ≡ some s
    pub counts : (c : Bytes) → count c r.0.retry_queue ≤ count c q.retry_queue
    pub tries : r.0.retry_count ≡ q.retry_count
    pub owns :
        ((c : Bytes) → 0 < count c q.retry_queue → 0 < read 0 c q.retry_count)
        → (t : Ticket) → r.1 ≡ given t
        → t.retry ≡ 0
        → lookup (dir_of t.test_case) r.0.owner ≡ some slot

  first-Claimed :
      (q : Queue Machine) (v : IsOwned q) (slot : Bytes) (lane : Lane) (c : Bytes) (k : ℕ)
      → read [] slot q.held ≡ []
      → next_open lane q ≡ some (c, read 0 lane q.cursor + k)
      → OpenAt q.cases q.taken (read 0 lane q.cursor + k) c
      → lane_match q c lane ≡ true
      → Claimed slot q
          (start c (take_dir slot lane c (read 0 lane q.cursor + k) q), given (first_ticket c))
  unfolding take_dir start
  first-Claimed q v slot lane c k empty found here fits = record {
    owned = take_dir-IsOwned q v slot lane c k empty found here fits;
    keeps = λ dir s h. still_owned q.owner slot (dir_of c) dir s (v.unowned _ c here) h;
    counts = λ a. omega arith;
    tries = refl;
    owns = λ counted t g first.
        let same : c ≡ t.test_case = ground (arith, g) in
        ground (
          arith,
          lookup-insert (dir_of c) (dir_of t.test_case) slot q.owner,
          bytes_beq_iff (dir_of c) (dir_of t.test_case),
          ap dir_of same,
        );
  }

  pub LanedOutcome-Claimed :
      (slot : Bytes) (lane : Lane) (q : Queue Machine) (r : Queue Machine × Answer)
      → IsOwned q
      → LanedOutcome slot lane q r
      → Claimed slot q r
  LanedOutcome-Claimed slot lane q r v (LanedOutcome.ends s e) = rw e (record {
    owned = v;
    keeps = λ dir o h. h;
    counts = λ c. omega arith;
    tries = refl;
    owns = λ counted t g first. absurd (cc g);
  })
  LanedOutcome-Claimed slot lane q r v (LanedOutcome.departs empty nothing e) = rw e (
      unfold depart in
      record {
        owned = changed-IsOwned q _ v refl refl refl refl v.own (passed_swept lane q v nothing);
        keeps = λ dir o h. h;
        counts = λ c. omega arith;
        tries = refl;
        owns = λ counted t g first. absurd (cc g);
      })
  LanedOutcome-Claimed slot lane q r v (LanedOutcome.held_next c rest h e) = rw e (
      unfold give_retry in
      record {
        owned = changed-IsOwned q _ v refl refl refl refl (rest_own q v slot c rest h) v.swept;
        keeps = λ dir o h. h;
        counts = λ c. omega arith;
        tries = refl;
        owns = λ counted t g first.
            let same : c ≡ t.test_case = ground (arith, g) in
            ap (λ z. lookup (dir_of z) q.owner) (sym same)
            ∙ v.own slot c (omega (arith, ap (count c) h, count_self c rest));
      })
  LanedOutcome-Claimed slot lane q r v (LanedOutcome.retries c rest nothing f idle e) =
      let counts : (a : Bytes) → count a q.retry_queue ≡ count a (c ∷ rest) =
        λ a. first_retry-count _ q.retry_queue c rest a f in
      rw e (
        unfold give_retry in
        record {
          owned = changed-IsOwned q _ v refl refl refl refl v.own (passed_swept lane q v nothing);
          keeps = λ dir o h. h;
          counts = λ a. omega (arith, counts a, count-append a (c ∷ []) rest);
          tries = refl;
          owns = λ counted t g first.
              let tried : 0 < read 0 c q.retry_count =
                counted c (omega (arith, counts c, count_self c rest)) in
              absurd (ground (arith, g));
        })
  LanedOutcome-Claimed slot lane q r v (LanedOutcome.first c i h f e) =
      let from = read 0 lane q.cursor in
      let (k, at, g, n, fit) =
        find_free-at (λ d. lane_match q d lane) from (drop from q.cases) (drop from q.taken) c i
          f in
      let here : OpenAt q.cases q.taken (from + k) c =
        (sym (get_elem?-drop from k q.cases) ∙ g, sym (get_elem?-drop from k q.taken) ∙ n) in
      rw (e, at) (first-Claimed q v slot lane c k h (f ∙ ap (λ z. some (c, z)) at) here fit)
