-- ===== src/Heap/Removed.antt =====
-- The heap that heap_remove_node leaves, with the id of the removed node kept or freed.
use curl_loader.Base.{
  ℕ, ◌+◌, ◌-◌, ◌<◌, ◌≡◌, ◌≢◌, sym, ap, ◌∙◌, ◌↔◌, inl, inr, Bool, arith, ◌==◌, if◌then◌else◌, Option,
  none, some, update, eq-or-ne,
}
use curl_loader.Memory.{Hnode, Store}
use curl_loader.Heap.{Heap, less}
use curl_loader.Heap.Slots.{Settled}
use curl_loader.Heap.Order.{IsOrdered}
use curl_loader.Heap.Ids.{TracksIds, TracksIds-status}
use curl_loader.Heap.Valid.{IsHeap, node_at, node_at_slot, node_at_away, in_heap, slots_distinct}
use curl_loader.Heap.Finish.{
  IsAway, free-before, settled-tracks, sized-IsHeap, node_at-held, node_at-IsAway,
}
use curl_loader.Heap.Gap.{IsRest}

-- What heap_remove_node of `slot` does on success. `held` are the ids kept afterwards.
pub record IsRemoved (fcomp : Hnode → Hnode → Bool) (mem : Store) (held : Option ℕ) (h : Heap)
    (slot : ℕ) (h' : Heap) : Type 0 where
  pub valid : IsHeap fcomp mem held h'
  pub size : h'.curr_heap_size + 1 ≡ h.curr_heap_size
  pub room : h'.max_heap_size ≡ h.max_heap_size
  pub nodes : h'.nodes_mpool ≡ h.nodes_mpool
  pub view :
      (k : ℕ)
      → node_at mem h' k ≡ (if k == (mem (h.heap slot)).node_id then none else node_at mem h k)

module _ (fcomp : Hnode → Hnode → Bool) (mem : Store) (old : Heap) (slot : ℕ) (held : Option ℕ)
    (valid : IsHeap fcomp mem held old) (inside : slot < old.curr_heap_size) where
  abbrev pub fewer : ℕ
  fewer = old.curr_heap_size - 1

  -- The heap after `h->curr_heap_size--`.
  abbrev pub shrunk : Heap
  shrunk = record old { curr_heap_size = fewer }

  abbrev pub removed_id : ℕ
  removed_id = (mem (old.heap slot)).node_id

  module _ (v : ℕ → ℕ) (r : IsRest fewer slot old.heap v) where
    IsAway-removed : IsAway mem fewer v removed_id
    IsAway-removed i p e =
        let (j, q, d, c) = r.from i p in
        d (slots_distinct mem old valid.mapped j slot (omega arith) inside (ground arith))

    IsAway-rest : (k : ℕ) → IsAway mem old.curr_heap_size old.heap k → IsAway mem fewer v k
    IsAway-rest k away i p = let (j, q, d, c) = r.from i p in rw c (away j (omega arith))

    IsAway-all :
        (k : ℕ) → IsAway mem fewer v k → k ≢ removed_id → IsAway mem old.curr_heap_size old.heap k
    IsAway-all k away d j p = elim (eq-or-ne j slot) [
      | inl e ↦ λ c. d (ground arith)
      | inr e ↦ let (i, q, c) = r.into j (omega arith) e in rw (← c) (away i q)
    ]

    removed-view :
        (h h' : Heap) (s : Settled mem fewer v h h') (k : ℕ)
        → node_at mem (record h' { curr_heap_size = fewer }) k
          ≡ (if k == removed_id then none else node_at mem old k)
    removed-view h h' s k = elim (eq-or-ne k removed_id) [
      | inl e ↦ ground (arith, node_at-IsAway fcomp mem fewer v h h' s k (rw e IsAway-removed))
      | inr d ↦ elim (in_heap mem old k valid.mapped) [
        | inl (j, q, e) ↦
            let (i, p, c) = r.into j (omega arith) (λ b. d (ground arith)) in
            rw (← e) (
              ground (
                arith,
                node_at-held fcomp mem fewer v h h' s i p,
                node_at_slot mem old valid.mapped j q,
              ))
        | inr away ↦ ground (
          arith,
          node_at_away mem old k away,
          node_at-IsAway fcomp mem fewer v h h' s k (IsAway-rest k away),
        )
      ]
    ]

    module _ (h3 : Heap) (s : Settled mem fewer v shrunk h3)
        (o : IsOrdered (less fcomp mem) fewer h3.heap) where
      status : (k : ℕ) → (h3.ids_arr k ≡ none) ↔ (old.ids_arr k ≡ none)
      status k = (
        free-before fcomp mem fewer v shrunk h3 s k,
        λ e. s.others k (IsAway-rest k (λ i p c. ground (arith, valid.mapped.mapped i p))) ∙ e,
      )

      shrunk-tracks : TracksIds (record shrunk { ids_arr = h3.ids_arr })
      shrunk-tracks =
          let t = TracksIds-status old h3.ids_arr status valid.tracks in
          record {
            last_inside = t.last_inside;
            lowest = t.lowest;
            min_free = t.min_free;
            min_passed = t.min_passed;
            min_upto = t.min_upto;
          }

      pub removed-tracks : TracksIds h3
      removed-tracks = settled-tracks fcomp mem fewer v shrunk h3 s shrunk-tracks

      size_kept : h3.curr_heap_size ≡ fewer
      size_kept = ap (λ x. x.curr_heap_size) s.rest

      own_size : (h : Heap) → h.curr_heap_size ≡ fewer → record h { curr_heap_size = fewer } ≡ h
      own_size h e = λ i. record h { curr_heap_size = sym e i }

      solid-rest : (i : ℕ) → i < fewer → v i ≢ 0
      solid-rest i p = let (j, q, d, c) = r.from i p in rw c (valid.solid j (omega arith))

      removed-live :
          (k t : ℕ)
          → k < old.max_heap_size
          → old.ids_arr k ≡ some t
          → IsAway mem fewer v k
          → k ≢ removed_id
          → held ≡ some k
      removed-live k t p e away d = elim (valid.live k t p e) [
        | inl c ↦ c
        | inr (q, c) ↦ absurd (IsAway-all k away d t q c)
      ]

      -- The id stays taken.
      pub IsRemoved-keeping : held ≡ none → IsRemoved fcomp mem (some removed_id) old slot h3
      IsRemoved-keeping no_held =
          let kept_heap =
            sized-IsHeap fcomp mem fewer v shrunk h3 s (some removed_id) o solid-rest
              (λ k t p e away. elim (eq-or-ne k removed_id) [
                | inl c ↦ ap some (sym c)
                | inr d ↦ absurd (cc (removed-live k t p e away d))
              ])
              (λ k e.
                let c : removed_id ≡ k = ground arith in
                rw (← c) (
                  valid.mapped.named slot inside,
                  (λ d. ground (arith, valid.mapped.mapped slot inside)),
                  IsAway-removed,
                ))
              shrunk-tracks in
          record {
            valid = rw (own_size h3 size_kept) at kept_heap;
            size = omega (arith, size_kept);
            room = ap (λ x. x.max_heap_size) s.rest;
            nodes = ap (λ (x : Heap). x.nodes_mpool) s.rest;
            view = rw (own_size h3 size_kept) at (removed-view shrunk h3 s);
          }

      -- The id is freed.
      module _ (low restore : ℕ) where
        abbrev freed : Heap → Heap
        freed h = record h {
          ids_arr = update h.ids_arr removed_id none;
          ids_min_free = low;
          ids_min_free_restore = restore;
        }

        freed-Settled : Settled mem fewer v (freed shrunk) (freed h3)
        freed-Settled = record {
          mapped = record {
            room = s.mapped.room;
            mapped = λ i p. ground (arith, s.mapped.mapped i p, away-h3 i p);
            named = s.mapped.named;
          };
          same = s.same;
          others = λ k away. ground (arith, s.others k away);
          beyond = s.beyond;
          rest = λ i. freed (s.rest i);
        }
          where
            away-h3 : (i : ℕ) → i < fewer → (mem (h3.heap i)).node_id ≢ removed_id
            away-h3 i p = let (j, q, c) = s.same.origin i p in rw (← c) (IsAway-removed j q)

        pub IsRemoved-freeing : TracksIds (freed h3) → IsRemoved fcomp mem held old slot (freed h3)
        IsRemoved-freeing t =
            let freed_heap =
              sized-IsHeap fcomp mem fewer v (freed shrunk) (freed h3) freed-Settled held o
                solid-rest (λ k u p e away. removed-live k u p (ground arith) away (ground arith))
                (λ k e. (
                  (valid.held_taken k e).0,
                  (ground (arith, (valid.held_taken k e).1, valid.held_apart k slot e inside)),
                  IsAway-rest k (λ i p. valid.held_apart k i e p),
                ))
                (record {
                  last_inside = omega (arith, t.last_inside, same_last, same_max);
                  lowest = λ k p e. t.lowest k (omega (arith, same_last)) e;
                  min_free = λ p. t.min_free (omega (arith, same_max));
                  min_passed = λ p. omega (arith, t.min_passed, same_last, same_max);
                  min_upto = omega (arith, t.min_upto, same_max);
                }) in
            record {
              valid = rw (own_size (freed h3) size_kept) at freed_heap;
              size = omega (arith, size_kept);
              room = same_max;
              nodes = ap (λ (x : Heap). x.nodes_mpool) s.rest;
              view =
                  rw (own_size (freed h3) size_kept) at
                    (removed-view (freed shrunk) (freed h3) freed-Settled);
            }
          where
            same_max : h3.max_heap_size ≡ old.max_heap_size
            same_max = ap (λ x. x.max_heap_size) s.rest

            same_last : h3.ids_last ≡ old.ids_last
            same_last = ap (λ x. x.ids_last) s.rest
