-- ===== src/Statistics/Snapshot/Sums.antt =====
-- A snapshot loses no count and takes none twice.
use curl_loader.Base.{
  ℕ, zero, suc, ◌+◌, ◌≤◌, ◌<◌, ◌≡◌, refl, ap, ◌∙◌, arith, Yields, yields, Yields-bind, ltb, update,
  true, sym, inl, inr, eq-or-ne, update_ne,
}
use curl_loader.Statistics.Snapshot.Counters.{
  Counter, read, Scheme, http, https, delta, total, read-add, read-reset, counted,
}
use curl_loader.Statistics.{wrap, stat_point_add, stat_point_reset}
use curl_loader.Setup.Subbatches.{batches_max_num}
use curl_loader.Statistics.Snapshot.{
  BatchArray, collect, collect_operations, collect_counters, advance_operations, advance_counters,
  dump_snapshot_interval_and_advance_total_statistics,
}

-- One batch: what happens to the first, to that batch, and to the others.
collected_first :
    (s : Scheme) (a : BatchArray) (i : ℕ)
    → 0 < i
    → (delta s (collect_counters a i 0) ≡ stat_point_add (delta s (a 0)) (delta s (a i)))
      × (total s (collect_counters a i 0) ≡ total s (a 0))
collected_first http a i p = (ground arith, ground arith)
collected_first https a i p = (ground arith, ground arith)

collected_self :
    (s : Scheme) (a : BatchArray) (i : ℕ)
    → 0 < i
    → delta s (collect_counters a i i) ≡ stat_point_reset (delta s (a i))
collected_self http a i p = ground arith
collected_self https a i p = ground arith

collected_other : (a : BatchArray) (i k : ℕ) → 0 < k → (i ≡ k → ⊥) → collect_counters a i k ≡ a k
collected_other a i k p q = ground (arith, q)

-- `a'` is `a` once the counters of the batches up to `n` are with the first one.
record AreCollected (s : Scheme) (c : Counter) (n : ℕ) (a a' : BatchArray) : Type 0 where
  sum : wrap (read c (delta s (a' 0))) ≡ wrap (counted s c a n)
  nulled : (i : ℕ) → 0 < i → i ≤ n → read c (delta s (a' i)) ≡ 0
  later : (i : ℕ) → n < i → a' i ≡ a i
  totals : total s (a' 0) ≡ total s (a 0)

collect-more :
    (s : Scheme) (c : Counter) (n : ℕ) {a a1 : BatchArray}
    → AreCollected s c n a a1
    → AreCollected s c (suc n) a (collect_counters a1 (suc n))
unfolding counted
collect-more s c n {a} {a1} k =
    let (first, same) = collected_first s a1 (suc n) (omega arith) in
    let self = collected_self s a1 (suc n) (omega arith) in
    let own : read c (delta s (a1 (suc n))) ≡ read c (delta s (a (suc n))) =
      ap (λ b. read c (delta s b)) (k.later (suc n) (omega arith)) in
    let added = ap (read c) first ∙ read-add c (delta s (a1 0)) (delta s (a1 (suc n))) in
    record {
      sum = omega (arith, added, k.sum, own);
      nulled = λ i p q. elim (eq-or-ne (suc n) i) [
        | inl r ↦
            ap (λ x. read c (delta s (collect_counters a1 (suc n) x))) (sym r)
            ∙ ap (read c) self
            ∙ read-reset c (delta s (a1 (suc n)))
        | inr r ↦
            ap (λ b. read c (delta s b)) (collected_other a1 (suc n) i p r)
            ∙ k.nulled i p (omega (arith, q, r))
      ];
      later = λ i p.
          collected_other a1 (suc n) i (omega arith) (λ e. omega (arith, e, p))
          ∙ k.later i (omega arith);
      totals = same ∙ k.totals;
    }

collect-AreCollected :
    (s : Scheme) (c : Counter) (n : ℕ)
    → n < 64
    → (a : BatchArray) → Yields (AreCollected s c n a) (collect collect_counters n a)
unfolding collect counted
collect-AreCollected s c zero p a = yields (record {
  sum = refl;
  nulled = λ i q r. absurd (omega arith);
  later = λ i q. refl;
  totals = refl;
})
collect-AreCollected s c (suc n) p a =
    Yields-bind (collect-AreCollected s c n (omega arith) a) λ a1 k.
      let inside : ltb (suc n) batches_max_num ≡ true = ground arith in
      rw inside (yields (collect-more s c n k))

-- The loop over the operations leaves the counters.
abbrev AreKept : Scheme → BatchArray → BatchArray → Type 0
AreKept s a a' = (i : ℕ) → (delta s (a' i) ≡ delta s (a i)) × (total s (a' i) ≡ total s (a i))

operations-AreKept : (s : Scheme) (a : BatchArray) (k : ℕ) → AreKept s a (collect_operations a k)
operations-AreKept http a k i = (ground arith, ground arith)
operations-AreKept https a k i = (ground arith, ground arith)

collect-AreKept :
    (s : Scheme) (n : ℕ)
    → n < 64
    → (a : BatchArray) → Yields (AreKept s a) (collect collect_operations n a)
unfolding collect
collect-AreKept s zero p a = yields (λ i. (refl, refl))
collect-AreKept s (suc n) p a = Yields-bind (collect-AreKept s n (omega arith) a) λ a1 k.
    let inside : ltb (suc n) batches_max_num ≡ true = ground arith in
    rw inside (
      yields
        (λ i. let more = operations-AreKept s a1 (suc n) i in (more.0 ∙ (k i).0, more.1 ∙ (k i).1)))

advanced-AreKept :
    (s : Scheme) (a : BatchArray) → AreKept s a (update a 0 (advance_operations (a 0)))
advanced-AreKept http a i = (ground arith, ground arith)
advanced-AreKept https a i = (ground arith, ground arith)

counted-kept :
    (s : Scheme) (c : Counter) (n : ℕ) (a a' : BatchArray)
    → AreKept s a a'
    → counted s c a' n ≡ counted s c a n
unfolding counted
counted-kept s c zero a a' k = ap (read c) (k 0).0
counted-kept s c (suc n) a a' k =
    let before = counted-kept s c n a a' k in
    let own = ap (read c) (k (suc n)).0 in omega (arith, before, own)

-- The counter of the first batch's total has advanced by the counts of all, and they begin anew.
pub record IsAdvanced (s : Scheme) (c : Counter) (n : ℕ) (a a' : BatchArray) : Type 0 where
  pub advanced : read c (total s (a' 0)) ≡ wrap (read c (total s (a 0)) + counted s c a n)
  pub nulled : (i : ℕ) → i ≤ n → read c (delta s (a' i)) ≡ 0

finish_first :
    (s : Scheme) (a : BatchArray) (now_time : ℕ)
    → let a' = update a 0 (advance_counters (a 0) now_time) in
      (total s (a' 0) ≡ stat_point_add (total s (a 0)) (delta s (a 0)))
      × (delta s (a' 0) ≡ stat_point_reset (delta s (a 0)))
finish_first http a now_time = (ground arith, ground arith)
finish_first https a now_time = (ground arith, ground arith)

finish-IsAdvanced :
    (s : Scheme) (c : Counter) (n now_time : ℕ) {a a' : BatchArray}
    → AreCollected s c n a a'
    → IsAdvanced s c n a (update a' 0 (advance_counters (a' 0) now_time))
finish-IsAdvanced s c n now_time {a} {a'} k =
    let (sum, fresh) = finish_first s a' now_time in
    let added = ap (read c) sum ∙ read-add c (total s (a' 0)) (delta s (a' 0)) in
    let before = ap (read c) k.totals in
    record {
      advanced = omega (arith, added, before, k.sum);
      nulled = λ i p. elim (eq-or-ne 0 i) [
        | inl r ↦
            ap (λ x. read c (delta s (update a' 0 (advance_counters (a' 0) now_time) x))) (sym r)
            ∙ ap (read c) fresh
            ∙ read-reset c (delta s (a' 0))
        | inr r ↦
            ap (λ b. read c (delta s b)) (update_ne a' 0 (advance_counters (a' 0) now_time) i r)
            ∙ k.nulled i (omega (arith, r)) p
      ];
    }

-- With fewer than 64 sub-batches, a snapshot ends. Of every counter that is a sum, of http and of
-- https, the total of the first batch is advanced by the counts of this batch and of the others
-- since their last snapshot, modulo 2 ^ 64, and the counts of all of them are 0 then: none is lost
-- and none taken twice.
pub dump_snapshot_interval_and_advance_total_statistics-IsAdvanced :
    (s : Scheme) (c : Counter) (n now_time : ℕ)
    → n < 64
    → (a : BatchArray)
    → Yields (IsAdvanced s c n a) (dump_snapshot_interval_and_advance_total_statistics n a now_time)
unfolding dump_snapshot_interval_and_advance_total_statistics
dump_snapshot_interval_and_advance_total_statistics-IsAdvanced s c n now_time p a =
    Yields-bind (collect-AreKept s n p a) λ a1 kept.
      let a2 = update a1 0 (advance_operations (a1 0)) in
      let kept2 : AreKept s a a2 =
        λ i. let more = advanced-AreKept s a1 i in (more.0 ∙ (kept i).0, more.1 ∙ (kept i).1) in
      Yields-bind (collect-AreCollected s c n p a2) λ a3 k.
        let done = finish-IsAdvanced s c n now_time k in
        let same = counted-kept s c n a a2 kept2 in
        let before = ap (read c) (kept2 0).1 in
        yields (record {
          advanced = done.advanced ∙ ap wrap (omega (arith, same, before));
          nulled = done.nulled;
        })
