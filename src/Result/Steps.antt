-- ===== src/Result/Steps.antt =====
-- The table as a map: what its operations keep, and what they change.
use cubrid_testkit.Prelude.{
  ℕ, zero, suc, ◌+◌, ◌*◌, ◌≤◌, ◌<◌, ◌≡◌, refl, ap, ◌∙◌, [], none, some, arith, nat_eq,
  if◌then◌else◌, ◌==◌, Bytes, bytes_eq, bytes_beq_iff, length, get_or, count, replicate,
  length-replicate,
}
use cubrid_testkit.Prelude.Dict.{Dict, lookup}
use cubrid_testkit.Result.Jtable.{
  Jtable, new_jtable, walk, index_of, push, push_all, rehash, added, get, keys,
}
use cubrid_testkit.Result.Buckets.{names, first_of-none, first_of, names-none, lookup-walk}
use cubrid_testkit.Result.Growth.{
  IsPlaced, Pushed, push_all-Pushed, push-lookup, push-IsPlaced, push-names, push-length,
  length-push,
}

module _ {V : Type 0} where
  pub empty_bucket : (n i : ℕ) → get_or (replicate {A = Dict Bytes V} n []) i [] ≡ []
  empty_bucket zero i = refl
  empty_bucket (suc n) zero = refl
  empty_bucket (suc n) (suc i) = empty_bucket n i

  empty_walk : (n : ℕ) → walk (replicate {A = Dict Bytes V} n []) ≡ []
  unfolding walk
  empty_walk zero = refl
  empty_walk (suc n) = rw (empty_walk n) refl

  pub record IsTable (t : Jtable V) : Type 0 where
    pub room : 0 < length t.buckets
    pub placed : IsPlaced (length t.buckets) t.buckets
    pub once : (k : Bytes) → count k (keys t) ≤ 1
    pub sized : t.count ≡ length (walk t.buckets)
    pub below : t.count ≤ t.threshold
    pub load : 4 * t.threshold ≤ 3 * length t.buckets

  pub new_jtable-IsTable : IsTable new_jtable
  unfolding new_jtable keys count lookup walk
  new_jtable-IsTable = record {
    room = omega arith;
    placed = λ k i other. ap (lookup k) (empty_bucket 11 i);
    once = λ k. omega arith;
    sized = refl;
    below = omega arith;
    load = omega arith;
  }

  pub get-keys : (k : Bytes) (t : Jtable V) → IsTable t → lookup k (walk t.buckets) ≡ get k t
  unfolding get
  get-keys k t v =
      lookup-walk k t.buckets (index_of k (length t.buckets)) (λ i other. v.placed k i other)

  module _ (t : Jtable V) (v : IsTable t) where
    abbrev grown : ℕ
    grown = length t.buckets * 2 + 1

    positive : 0 < grown
    positive = omega arith

    pushed :
        Pushed grown positive
          (walk t.buckets)
          (replicate grown [])
          (push_all grown (walk t.buckets) (replicate grown []))
    unfolding keys
    pushed =
        push_all-Pushed grown positive (walk t.buckets) (replicate grown [])
          (length-replicate grown []) v.once

    pub rehash-IsTable : IsTable (rehash t)
    unfolding rehash keys count lookup
    rehash-IsTable = record {
      room = omega (arith, pushed.size);
      placed = rw pushed.size (pushed.place (λ k i other. ap (lookup k) (empty_bucket grown i)));
      once = λ k.
          omega
            (arith, pushed.names_of k, v.once k, ap (λ z. count k (names z)) (empty_walk grown));
      sized = omega (arith, pushed.amount, v.sized, ap length (empty_walk grown));
      below = omega (arith, v.below, v.load, v.room);
      load = omega (arith, pushed.size);
    }

    pub rehash-room : (rehash t).count < (rehash t).threshold
    unfolding rehash
    rehash-room = omega (arith, v.below, v.load, v.room)

    pub rehash-get : (k : Bytes) → get k (rehash t) ≡ get k t
    unfolding rehash get lookup
    rehash-get k =
        ap
          (λ z.
            lookup k
              (get_or (push_all grown (walk t.buckets) (replicate grown [])) (index_of k z) []))
          pushed.size
        ∙ pushed.finds k
        ∙ ap (λ z. first_of (lookup k (walk t.buckets)) (lookup k z))
            (empty_bucket grown (index_of k grown))
        ∙ first_of-none (lookup k (walk t.buckets))
        ∙ get-keys k t v

    module _ (key : Bytes) (value : V) where
      -- A new key at the head of its bucket.
      module _ (missing : get key t ≡ none) where
        pub added-get :
            (k : Bytes) → get k (added key value t) ≡ (if key == k then some value else get k t)
        unfolding added get
        added-get k =
            ap
              (λ z.
                lookup k
                  (get_or (push (length t.buckets) (key, value) t.buckets) (index_of k z) []))
              (length-push (length t.buckets) v.room (key, value) t.buckets refl)
            ∙ push-lookup (length t.buckets) v.room (key, value) t.buckets refl k

        pub added-IsTable : t.count < t.threshold → IsTable (added key value t)
        unfolding added keys count
        added-IsTable free =
            let n = length t.buckets in
            let size = length-push n v.room (key, value) t.buckets refl in
            record {
              room = omega (arith, size, v.room);
              placed = rw size (push-IsPlaced n v.room (key, value) t.buckets refl v.placed);
              once = λ k. ground (
                arith,
                push-names n v.room (key, value) t.buckets refl k,
                v.once k,
                names-none k (walk t.buckets),
                get-keys k t v,
                missing,
                bytes_beq_iff key k,
              );
              sized = omega (arith, push-length n v.room (key, value) t.buckets refl, v.sized);
              below = omega (arith, free);
              load = omega (arith, size, v.load);
            }
