-- ===== src/Heap/Remove.antt =====
-- heap_remove_node and heap_pop: the node of a slot leaves the heap, and its id is freed or kept.
use curl_loader.Base.{
  ℕ, suc, ◌-◌, ◌<◌, ◌≡◌, refl, ap, Bool, true, false, arith, ltb, ◌==◌, if◌then◌else◌, Option, none,
  some, ok, Yields, yields, Yields-bind,
}
use curl_loader.Memory.{Hnode, Store}
use curl_loader.Heap.{Heap, less}
use curl_loader.Heap.Operations.{refill_slot, heap_remove_node, heap_pop, heap_top_node}
use curl_loader.Heap.Slots.{load-ok}
use curl_loader.Heap.Order.{IsStrictWeak, less-IsStrictWeak, root_least}
use curl_loader.Heap.Ids.{release_node_id_lem}
use curl_loader.Heap.Valid.{IsHeap}
use curl_loader.Heap.Gap.{Rests, closes_gap, size_t_dec_lem}
use curl_loader.Heap.Removed.{
  IsRemoved, shrunk, removed-tracks, IsRemoved-keeping, IsRemoved-freeing,
}

-- The node of `slot` was removed, and `held` is kept then.
abbrev pub RemovedAs :
    (Hnode → Hnode → Bool) → Store → Option ℕ → Heap → ℕ → Option ℕ × Heap → Type 0
RemovedAs fcomp mem held h slot (r, h') =
    (r ≡ some (h.heap slot)) × IsRemoved fcomp mem held h slot h'

module _ (fcomp : Hnode → Hnode → Bool) (sw : IsStrictWeak fcomp) (mem : Store) (h : Heap)
    (slot : ℕ) (held : Option ℕ) (v : IsHeap fcomp mem held h)
    (inside : slot < h.curr_heap_size) where
  shrinks : Yields (Rests fcomp mem (shrunk fcomp mem h slot held v inside) slot) (
      if ltb slot (h.curr_heap_size - 1)
      then refill_slot fcomp mem (record h { curr_heap_size = h.curr_heap_size - 1 }) slot
      else ok (record h { curr_heap_size = h.curr_heap_size - 1 }))
  shrinks =
      let whole : suc (h.curr_heap_size - 1) ≡ h.curr_heap_size = omega arith in
      let m = v.mapped in
      closes_gap fcomp mem sw (record h { curr_heap_size = h.curr_heap_size - 1 }) slot
        (rw whole (record { room = m.room; mapped = m.mapped; named = m.named }))
        (rw whole v.ordered) (omega arith)

  nonnull : (h.heap slot == 0) ≡ false
  nonnull = ground (arith, v.solid slot inside)

  in_array : slot < h.max_heap_size
  in_array = omega (arith, v.mapped.room)

  -- On a valid heap, heap_remove_node of a slot in use gives the node of the slot. The heap is
  -- valid then, has one node less, and maps the id of the node to nothing and every other id to
  -- what it was.
  pub heap_remove_node_frees :
      Yields (RemovedAs fcomp mem held h slot) (heap_remove_node fcomp mem h slot false)
  unfolding heap_remove_node
  heap_remove_node_frees =
      rw (load-ok h slot in_array, size_t_dec_lem h.curr_heap_size (omega arith), nonnull)
        (Yields-bind shrinks λ h3 (w, s, o, r).
          Yields-bind
            (release_node_id_lem h3 (mem (h.heap slot)).node_id
              (removed-tracks fcomp mem h slot held v inside w r h3 s o)
              (omega
                (arith, v.mapped.named slot inside, ap (λ (x : Heap). x.max_heap_size) s.rest)))
            λ h4 (low, restore, e, t). yields (
              refl,
              rw e (
                  IsRemoved-freeing fcomp mem h slot held v inside w r h3 s o low restore
                    (rw e at t)),
            ))

  -- On a valid heap that keeps no id, heap_remove_node with the slot reserved does the same, and
  -- keeps the id of the node, so that no other node can get it.
  pub heap_remove_node_keeps :
      held ≡ none
      → Yields
          (RemovedAs fcomp mem (some (mem (h.heap slot)).node_id) h slot)
          (heap_remove_node fcomp mem h slot true)
  unfolding heap_remove_node
  heap_remove_node_keeps no_held =
      rw (load-ok h slot in_array, size_t_dec_lem h.curr_heap_size (omega arith), nonnull)
        (Yields-bind shrinks λ h3 (w, s, o, r).
          yields (refl, IsRemoved-keeping fcomp mem h slot held v inside w r h3 s o no_held))

-- On a valid heap with a node in slot i, heap_top_node gives the node of slot 0, and the node of
-- slot i is not less than it.
pub heap_top_node_least :
    (fcomp : Hnode → Hnode → Bool) (mem : Store) (held : Option ℕ) (h : Heap)
    → IsStrictWeak fcomp
    → IsHeap fcomp mem held h
    → (i : ℕ) → i < h.curr_heap_size
    → (heap_top_node h ≡ ok (some (h.heap 0))) × (less fcomp mem (h.heap i) (h.heap 0) ≡ false)
unfolding heap_top_node
heap_top_node_least fcomp mem held h sw v i p =
    let some_node : (h.curr_heap_size == 0) ≡ false = ground arith in
    (
      rw (some_node, load-ok h 0 (omega (arith, v.mapped.room))),
      root_least _ (less-IsStrictWeak fcomp mem sw) h.curr_heap_size h.heap i v.ordered p,
    )

pub heap_pop_empty :
    (fcomp : Hnode → Hnode → Bool) (mem : Store) (h : Heap) (keep : Bool)
    → h.curr_heap_size ≡ 0
    → heap_pop fcomp mem h keep ≡ ok (none, h)
unfolding heap_pop
heap_pop_empty fcomp mem h keep e = ground arith

pub heap_pop_lem :
    (fcomp : Hnode → Hnode → Bool) (mem : Store) (h : Heap) (keep : Bool)
    → 0 < h.curr_heap_size
    → heap_pop fcomp mem h keep ≡ heap_remove_node fcomp mem h 0 keep
unfolding heap_pop
heap_pop_lem fcomp mem h keep p = ground arith
