-- ===== src/Dispatch/Settled.antt =====
-- With lanes: the end of a ticket leaves the owners as they are.
use cubrid_testkit.Prelude.{
  ℕ, ◌+◌, ◌-◌, ◌<◌, ◌≡◌, refl, sym, ap, ◌∙◌, Bool, true, false, [], ◌∷◌, ◌++◌, Option, none, some,
  arith, Bytes, ◌==◌, nat_eq, bytes_eq, if◌then◌else◌, bytes_beq_iff, Bool-cases, inl, inr, count,
  count-append, ltb,
}
use cubrid_testkit.Prelude.Dict.{lookup, insert, read, lookup-insert, lookup-delete}
use cubrid_testkit.Dispatch.Lanes.{lane_eq, dir_of, Ticket}
use cubrid_testkit.Dispatch.Queue.{Queue, stop_case}
use cubrid_testkit.Dispatch.Complete.{placed, enqueue, forget, complete, retrying}
use cubrid_testkit.Dispatch.Ownership.{IsOwned}
use cubrid_testkit.Dispatch.Owners.{changed-IsOwned}

module _ {Machine : Type 0} where
  -- What waits in the general queue was tried before.
  abbrev pub IsCounted : Queue Machine → Type 0
  IsCounted q = (c : Bytes) → 0 < count c q.retry_queue → 0 < read 0 c q.retry_count

  pub record Settled (q r : Queue Machine) : Type 0 where
    pub owned : IsOwned r
    pub same_owner : r.owner ≡ q.owner
    pub counted : IsCounted r

  module _ (c : Bytes) (q : Queue Machine) (v : IsOwned q) (counted : IsCounted q) where
    waits-Settled :
        0 < read 0 c q.retry_count → Settled q (record q { retry_queue = q.retry_queue ++ c ∷ [] })
    unfolding count
    waits-Settled tried = record {
      owned = changed-IsOwned q _ v refl refl refl refl v.own v.swept;
      same_owner = refl;
      counted = λ a p.
          ground
            (arith, counted a, tried, count-append a q.retry_queue (c ∷ []), bytes_beq_iff c a);
    }

    kept_own :
        (owner : Bytes)
        → lookup (dir_of c) q.owner ≡ some owner
        → (s d : Bytes)
        → 0 < count d (read [] s (insert owner (read [] owner q.held ++ c ∷ []) q.held))
        → lookup (dir_of d) q.owner ≡ some s
    unfolding count
    kept_own owner e s d p =
        let held' = read [] owner q.held ++ c ∷ [] in
        elim (Bool-cases (owner == s)) [
          | inr different ↦ v.own s d (ground (arith, p, lookup-insert owner s held' q.held))
          | inl same ↦
              let more : 0 < count d held' =
                ground (arith, p, lookup-insert owner s held' q.held) in
              elim (Bool-cases (c == d)) [
                | inl same' ↦
                    ap (λ z. lookup (dir_of z) q.owner) (sym ((bytes_beq_iff c d).0 same'))
                    ∙ e
                    ∙ ap some ((bytes_beq_iff owner s).0 same)
                | inr other ↦
                    v.own owner d
                      (ground (arith, more, count-append d (read [] owner q.held) (c ∷ [])))
                    ∙ ap some ((bytes_beq_iff owner s).0 same)
              ]
        ]

    placed-Settled :
        (o : Option Bytes)
        → lookup (dir_of c) q.owner ≡ o
        → 0 < read 0 c q.retry_count
        → Settled q (placed c o q)
    unfolding placed
    placed-Settled none e tried = waits-Settled tried
    placed-Settled (some owner) e tried = elim (Bool-cases (read false owner q.departed)) [
      | inl gone ↦ rw gone (waits-Settled tried)
      | inr stays ↦ rw stays (record {
        owned = changed-IsOwned q _ v refl refl refl refl (kept_own owner e) v.swept;
        same_owner = refl;
        counted = counted;
      })
    ]

    forget-Settled : count c q.retry_queue ≡ 0 → Settled q (forget c q)
    unfolding forget
    forget-Settled gone = record {
      owned = changed-IsOwned q _ v refl refl refl refl v.own v.swept;
      same_owner = refl;
      counted = λ a p.
          ground (arith, gone, counted a, lookup-delete c a q.retry_count, bytes_beq_iff c a);
    }

  recorded-IsCounted :
      (c : Bytes) (retry : ℕ) (q : Queue Machine)
      → IsCounted q
      → 0 < retry
      → (a : Bytes) → 0 < count a q.retry_queue
      → 0 < read 0 a (insert c retry q.retry_count)
  recorded-IsCounted c retry q counted positive a p =
      ground (arith, counted a p, lookup-insert c a retry q.retry_count)

  enqueue-Settled :
      (c : Bytes) (retry : ℕ) (q : Queue Machine)
      → q.lanes ≡ true
      → 0 < retry
      → IsOwned q
      → IsCounted q
      → Settled q (enqueue c retry q)
  unfolding enqueue
  enqueue-Settled c retry q laned positive v counted =
      let recorded = record q { retry_count = insert c retry q.retry_count } in
      let marked = record recorded { queued = insert c true q.queued } in
      let still = recorded-IsCounted c retry q counted positive in
      elim (Bool-cases (ltb q.max_retry retry)) [
        | inl over' ↦ simp over' (record { owned = v; same_owner = refl; counted = counted })
        | inr below ↦ elim (Bool-cases (read false c q.queued)) [
          | inl waits ↦
              simp (below, waits)
                (record {
                  owned = changed-IsOwned q recorded v refl refl refl refl v.own v.swept;
                  same_owner = refl;
                  counted = still;
                })
          | inr fresh ↦
              let owner = if q.lanes then lookup (dir_of c) q.owner else none in
              let s : Settled marked (placed c owner marked) =
                placed-Settled c marked
                  (changed-IsOwned q marked v refl refl refl refl v.own v.swept) still owner
                  (simp laned refl)
                  (ground (arith, lookup-insert c c retry q.retry_count, bytes_beq_iff c c)) in
              simp (below, fresh)
                (record { owned = s.owned; same_owner = s.same_owner; counted = s.counted })
        ]
      ]

  pub complete-Settled :
      (t : Ticket) (success has_core : Bool) (q : Queue Machine)
      → q.lanes ≡ true
      → count t.test_case q.retry_queue ≡ 0
      → IsOwned q
      → IsCounted q
      → Settled q (complete t success has_core q).0
  unfolding complete stop_case
  complete-Settled t success has_core q laned gone v counted =
      let left = stop_case t.test_case (record q { in_flight = q.in_flight - 1 }) in
      let v' : IsOwned left = changed-IsOwned q left v refl refl refl refl v.own v.swept in
      elim (Bool-cases (retrying t success has_core q)) [
        | inl same' ↦
            let s = enqueue-Settled t.test_case (t.retry + 1) left laned (omega arith) v' counted in
            simp same' (record { owned = s.owned; same_owner = s.same_owner; counted = s.counted })
        | inr done ↦
            let s = forget-Settled t.test_case left v' counted gone in
            simp done (record { owned = s.owned; same_owner = s.same_owner; counted = s.counted })
      ]
