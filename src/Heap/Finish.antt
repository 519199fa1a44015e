-- ===== src/Heap/Finish.antt =====
-- From a filter that has ended to the invariant of the whole heap.
use curl_loader.Base.{
  ℕ, ◌<◌, ◌≡◌, ◌≢◌, sym, ap, ◌∙◌, ◌⊎◌, inl, inr, Bool, arith, Option, none, some,
}
use curl_loader.Memory.{Hnode, Store}
use curl_loader.Heap.{Heap, less}
use curl_loader.Heap.Slots.{IsMapped, Settled}
use curl_loader.Heap.Order.{IsOrdered}
use curl_loader.Heap.Ids.{TracksIds}
use curl_loader.Heap.Valid.{IsHeap, node_at, node_at_slot, node_at_away, in_heap}

-- No pointer of the first `n` in `v` has the id `k`.
abbrev pub IsAway : Store → ℕ → (ℕ → ℕ) → ℕ → Type 0
IsAway mem n v k = (i : ℕ) → i < n → (mem (v i)).node_id ≢ k

module _ (fcomp : Hnode → Hnode → Bool) (mem : Store) (n : ℕ) (v : ℕ → ℕ) (h h' : Heap)
    (s : Settled mem n v h h') where
  -- The heap with its final size.
  abbrev pub sized : Heap
  sized = record h' { curr_heap_size = n }

  pub sized-IsMapped : IsMapped mem n sized
  sized-IsMapped = record { room = s.mapped.room; mapped = s.mapped.mapped; named = s.mapped.named }

  pub IsAway-found : (k : ℕ) → IsAway mem n h'.heap k → IsAway mem n v k
  IsAway-found k away i p = let (j, q, e) = s.same.found i p in rw (← e) (away j q)

  pub IsAway-origin : (k : ℕ) → IsAway mem n v k → IsAway mem n h'.heap k
  IsAway-origin k away j q = let (i, p, e) = s.same.origin j q in rw (← e) (away i p)

  pub free-IsAway : (k : ℕ) → h'.ids_arr k ≡ none → IsAway mem n h'.heap k
  free-IsAway k e i p d = ground (arith, s.mapped.mapped i p)

  pub free-before : (k : ℕ) → h'.ids_arr k ≡ none → h.ids_arr k ≡ none
  free-before k e = sym (s.others k (IsAway-found k (free-IsAway k e))) ∙ e

  -- The nodes of `v` stand under their ids, and no other node does.
  pub node_at-held : (i : ℕ) → i < n → node_at mem sized (mem (v i)).node_id ≡ some (v i)
  node_at-held i p =
      let (j, q, e) = s.same.found i p in rw (← e) (node_at_slot mem sized sized-IsMapped j q)

  pub node_at-IsAway : (k : ℕ) → IsAway mem n v k → node_at mem sized k ≡ none
  node_at-IsAway k away = node_at_away mem sized k (IsAway-origin k away)

  max_same : h'.max_heap_size ≡ h.max_heap_size
  max_same = ap (λ x. x.max_heap_size) s.rest

  pub settled-tracks : TracksIds (record h { ids_arr = h'.ids_arr }) → TracksIds h'
  settled-tracks t =
      let last = ap (λ x. x.ids_last) s.rest in
      let low = ap (λ x. x.ids_min_free) s.rest in
      record {
        last_inside = omega (arith, last, max_same, t.last_inside);
        lowest = λ k p e. omega (arith, low, t.lowest k (omega (arith, last)) e);
        min_free = λ p. rw low (t.min_free (omega (arith, low, max_same)));
        min_passed = λ p. omega (arith, low, last, max_same, t.min_passed);
        min_upto = omega (arith, low, max_same, t.min_upto);
      }

  module _ (held : Option ℕ) (ordered : IsOrdered (less fcomp mem) n h'.heap)
      (solid : (i : ℕ) → i < n → v i ≢ 0)
      (live : (k t : ℕ)
        → k < h.max_heap_size
        → h.ids_arr k ≡ some t
        → IsAway mem n v k
        → held ≡ some k)
      (kept : (k : ℕ)
        → held ≡ some k
        → (k < h.max_heap_size) × (h.ids_arr k ≢ none) × IsAway mem n v k)
      (tracks : TracksIds (record h { ids_arr = h'.ids_arr })) where
    sized-live :
        (k t : ℕ)
        → k < h'.max_heap_size
        → h'.ids_arr k ≡ some t
        → (held ≡ some k) ⊎ ((t < n) × ((mem (h'.heap t)).node_id ≡ k))
    sized-live k t p e = elim (in_heap mem sized k sized-IsMapped) [
      | inl (i, q, d) ↦ inr (ground (arith, s.mapped.mapped i q))
      | inr away ↦
          let before = IsAway-found k away in
          inl (live k t (omega (arith, max_same)) (sym (s.others k before) ∙ e) before)
    ]

    pub sized-IsHeap : IsHeap fcomp mem held sized
    sized-IsHeap =
        let after = settled-tracks tracks in
        record {
          mapped = sized-IsMapped;
          ordered = ordered;
          solid = λ j q. let (i, p, e) = s.same.origin j q in rw (← e) (solid i p);
          live = sized-live;
          held_taken = λ k e.
              let (p, d, away) = kept k e in (omega (arith, max_same), rw (s.others k away) d);
          held_apart = λ k j e q. IsAway-origin k ((kept k e).2) j q;
          tracks = record {
            last_inside = after.last_inside;
            lowest = after.lowest;
            min_free = after.min_free;
            min_passed = after.min_passed;
            min_upto = after.min_upto;
          };
        }
