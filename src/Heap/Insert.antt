-- ===== src/Heap/Insert.antt =====
-- A node put behind the last slot and filtered up: the core of heap_push.
use curl_loader.Base.{ℕ, suc, ◌<◌, ◌≢◌, Bool, arith, update, update_self, Yields, Yields-imp, ◌>>=◌}
use curl_loader.Memory.{Hnode, Store}
use curl_loader.Heap.{Heap, place, heap_put_node_to_slot, less, filter_up}
use curl_loader.Heap.Slots.{IsMapped, IsVacant, put-ok, Settled-put}
use curl_loader.Heap.Order.{IsStrictWeak, IsOrdered, IsOrderedButAbove, Filtered}
use curl_loader.Heap.Up.{filter_up_restores}

module _ (fcomp : Hnode → Hnode → Bool) (mem : Store) (sw : IsStrictWeak (less fcomp mem))
    (h : Heap) (nd : ℕ) (mapped : IsMapped mem h.curr_heap_size h)
    (ordered : IsOrdered (less fcomp mem) h.curr_heap_size h.heap)
    (space : h.curr_heap_size < h.max_heap_size) (named : (mem nd).node_id < h.max_heap_size)
    (own : (i : ℕ) → i < h.curr_heap_size → (mem (h.heap i)).node_id ≢ (mem nd).node_id) where
  abbrev n : ℕ
  n = h.curr_heap_size

  appended-IsVacant : IsVacant mem (suc n) n nd (place mem h n nd)
  appended-IsVacant = record {
    room = space;
    inside = omega arith;
    mapped = λ i p d. ground (arith, mapped.mapped i, own i);
    named = λ i p d. ground (arith, mapped.named i);
    own = λ i p d. ground (arith, own i);
    target_named = named;
  }

  appended-order :
      IsOrderedButAbove (less fcomp mem) (suc n) (update (place mem h n nd).heap n nd) n
  appended-order = record {
    edges = λ c p q d. ground (arith, ordered c p);
    bridged = λ c p q e r. absurd (omega arith);
  }

  pub insert_restores :
      Yields
        (Filtered fcomp mem (suc n) n nd h)
        (heap_put_node_to_slot mem h n nd >>= λ h2. filter_up fcomp mem h2 h2.curr_heap_size)
  insert_restores = rw (put-ok mem h n nd space named) (
      Yields-imp
        (filter_up_restores fcomp mem sw (suc n) (place mem h n nd) n nd (update_self h.heap n nd)
          appended-IsVacant appended-order)
        λ h' s. (Settled-put mem (suc n) n nd h h' (omega arith) s.0, s.1))
