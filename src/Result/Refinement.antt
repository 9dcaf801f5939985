-- ===== src/Result/Refinement.antt =====
-- The table is a map: whatever is put into it, across every rehash.
use cubrid_testkit.Prelude.{
  ◌*◌, ◌≤◌, ◌<◌, ◌≡◌, refl, sym, ap, ◌∙◌, true, false, [], ◌∷◌, Option, none, some, arith, nat_eq,
  if◌then◌else◌, ◌==◌, Bytes, bytes_eq, bytes_beq_iff, Bool-cases, inl, inr, length, length-map,
  set, get_or, count, leb,
}
use mathlib.Core.Path.{subst}
use cubrid_testkit.Prelude.Dict.{Dict, lookup, insert, lookup-insert, is_some}
use cubrid_testkit.Result.Jtable.{
  Jtable, new_jtable, first_buckets, walk, index_of, rehash, added, put, get, keys, bucket,
}
use cubrid_testkit.Result.Buckets.{
  names, length-set, get_or-set, names-none, names-some, names-insert, walk-set-count,
  walk-set-length,
}
use cubrid_testkit.Result.Growth.{index_lt}
use cubrid_testkit.Result.Steps.{
  IsTable, empty_bucket, new_jtable-IsTable, get-keys, rehash-IsTable, rehash-room, rehash-get,
  added-get, added-IsTable,
}

module _ {V : Type 0} where
  none_of : (o : Option V) → is_some o ≡ false → o ≡ none
  none_of none h = refl
  none_of (some v) h = absurd cc

  -- What a put does: the invariant is kept, and one key reads differently.
  record Put (key : Bytes) (value : V) (t u : Jtable V) : Type 0 where
    table : IsTable u
    reads : (k : Bytes) → get k u ≡ (if key == k then some value else get k t)

  module _ (t : Jtable V) (v : IsTable t) (key : Bytes) (value : V) where
    -- The table with the value of a key that it has overwritten.
    overwritten : Jtable V
    overwritten = record t {
      buckets =
          set t.buckets (index_of key (length t.buckets)) (insert key value (bucket key t.buckets));
    }

    overwritten-Put :
        is_some (lookup key (bucket key t.buckets)) ≡ true → Put key value t overwritten
    unfolding overwritten get keys
    overwritten-Put present =
        let n = length t.buckets in
        let i = index_of key n in
        let b = insert key value (bucket key t.buckets) in
        let inside : i < n = index_lt key n v.room in
        let same : names b ≡ names (bucket key t.buckets) =
          names-insert key value (bucket key t.buckets) present in
        let keeps_length : length b ≡ length (bucket key t.buckets) =
          sym (length-map b _) ∙ ap length same ∙ length-map (bucket key t.buckets) _ in
        let size = length-set t.buckets i b in
        record {
          table = record {
            room = omega (arith, size, v.room);
            placed = rw size (λ k j other. ground (
              arith,
              get_or-set t.buckets i j b [] inside,
              lookup-insert key k value (bucket key t.buckets),
              bytes_beq_iff key k,
              v.placed k j other,
            ));
            once = λ k.
                omega (arith, walk-set-count k t.buckets i b inside, ap (count k) same, v.once k);
            sized = omega (arith, walk-set-length t.buckets i b inside, keeps_length, v.sized);
            below = v.below;
            load = omega (arith, size, v.load);
          };
          reads = λ k.
              ap (λ z. lookup k (get_or (set t.buckets i b) (index_of k z) [])) size
              ∙ ground (
                arith,
                get_or-set t.buckets i (index_of k n) b [] inside,
                lookup-insert key k value (bucket key t.buckets),
                bytes_beq_iff key k,
              );
        }

    added-Put : get key t ≡ none → t.count < t.threshold → Put key value t (added key value t)
    added-Put missing free = record {
      table = added-IsTable t v key value missing free;
      reads = added-get t v key value missing;
    }

    grown-Put : get key t ≡ none → Put key value t (added key value (rehash t))
    grown-Put missing =
        let u = rehash t in
        let w : IsTable u = rehash-IsTable t v in
        let still : get key u ≡ none = rehash-get t v key ∙ missing in
        record {
          table = added-IsTable u w key value still (rehash-room t v);
          reads = λ k.
              added-get u w key value still k
              ∙ ap (λ z. if key == k then some value else z) (rehash-get t v k);
        }

    put-Put : Put key value t (put key value t)
    unfolding put
    put-Put = elim (Bool-cases (is_some (lookup key (bucket key t.buckets)))) [
      | inl present ↦ rw present (unfold overwritten in overwritten-Put present)
      | inr absent ↦
          let missing : get key t ≡ none =
            unfold get in none_of (lookup key (bucket key t.buckets)) absent in
          rw absent (elim (Bool-cases (leb t.threshold t.count)) [
            | inl full ↦ rw full (grown-Put missing)
            | inr free ↦ rw free (added-Put missing (ground arith))
          ])
    ]

module _ {V : Type 0} where
  -- The puts of a list of entries, in order, and the same writes to a map.
  abbrev pub put_all : Dict Bytes V → Jtable V → Jtable V
  put_all [] t = t
  put_all ((k, v) ∷ rest) t = put_all rest (put k v t)

  abbrev pub write_all : Dict Bytes V → Dict Bytes V → Dict Bytes V
  write_all [] m = m
  write_all ((k, v) ∷ rest) m = write_all rest (insert k v m)

  new_reads : (k : Bytes) → get k (new_jtable {V = V}) ≡ lookup k []
  unfolding new_jtable get
  new_reads k = ap (lookup k) (empty_bucket first_buckets (index_of k first_buckets))

  put_all-IsTable :
      (entries m : Dict Bytes V) (t : Jtable V)
      → IsTable t
      → ((k : Bytes) → get k t ≡ lookup k m)
      → IsTable (put_all entries t)
        × ((k : Bytes) → get k (put_all entries t) ≡ lookup k (write_all entries m))
  put_all-IsTable [] m t v same = (v, same)
  put_all-IsTable ((key, value) ∷ rest) m t v same =
      let p = put-Put t v key value in
      put_all-IsTable rest (insert key value m) (put key value t) p.table (λ k.
        p.reads k
        ∙ ap (λ z. if key == k then some value else z) (same k)
        ∙ sym (lookup-insert key k value m))

  -- A table that was filled by any puts reads, at every key, as a map after the same writes.
  pub put_all-lookup :
      (entries : Dict Bytes V) (k : Bytes)
      → get k (put_all entries new_jtable) ≡ lookup k (write_all entries [])
  put_all-lookup entries k =
      (put_all-IsTable entries [] new_jtable new_jtable-IsTable new_reads).1 k

  -- The keys of a table that was filled by any puts are those that were put, each once, and the
  -- table has at least four buckets for three of them.
  pub put_all-keys :
      (entries : Dict Bytes V)
      → let t = put_all entries new_jtable in
        ((k : Bytes)
          → count k (keys t) ≡ (if is_some (lookup k (write_all entries [])) then 1 else 0))
        × (t.count ≡ length (keys t))
        × (4 * length (keys t) ≤ 3 * length t.buckets)
  unfolding keys
  put_all-keys entries =
      let t = put_all entries new_jtable in
      let (v, reads) = put_all-IsTable entries [] new_jtable new_jtable-IsTable new_reads in
      let amount : t.count ≡ length (keys t) =
        v.sized ∙ sym (length-map (walk t.buckets) (λ (e : Bytes × V). e.0)) in
      (
        λ k.
            let found : lookup k (walk t.buckets) ≡ lookup k (write_all entries []) =
              get-keys k t v ∙ reads k in
            subst (λ z. count k (keys t) ≡ (if is_some z then 1 else 0)) found
              (elim (Bool-cases (is_some (lookup k (walk t.buckets)))) [
                | inl there ↦
                    rw there (omega (arith, v.once k, names-some k (walk t.buckets) there))
                | inr absent ↦
                    rw absent
                      (names-none k (walk t.buckets) (none_of (lookup k (walk t.buckets)) absent))
              ]),
        amount,
        omega (arith, amount, v.below, v.load),
      )
