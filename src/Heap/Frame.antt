-- ===== src/Heap/Frame.antt =====
-- Writes to nodes outside a heap leave the heap as it is.
use curl_loader.Base.{ℕ, ◌-◌, ◌/◌, ◌<◌, ◌≡◌, sym, ◌∙◌, inl, inr, Bool, arith, Option}
use curl_loader.Memory.{Hnode, Store}
use curl_loader.Heap.{Heap, less}
use curl_loader.Heap.Slots.{IsMapped}
use curl_loader.Heap.Order.{IsOrdered}
use curl_loader.Heap.Valid.{IsHeap, node_at, node_at_slot, node_at_away, in_heap}

-- Two memories agree on the nodes in the first `n` slots.
abbrev pub SameNodes : Store → Store → Heap → Type 0
SameNodes mem mem' h = (i : ℕ) → i < h.curr_heap_size → mem' (h.heap i) ≡ mem (h.heap i)

module _ (mem mem' : Store) (h : Heap) (same : SameNodes mem mem' h) where
  pub SameNodes-IsMapped : IsMapped mem h.curr_heap_size h → IsMapped mem' h.curr_heap_size h
  SameNodes-IsMapped m = record {
    room = m.room;
    mapped = λ i p. rw (same i p) (m.mapped i p);
    named = λ i p. rw (same i p) (m.named i p);
  }

  pub SameNodes-IsOrdered :
      (fcomp : Hnode → Hnode → Bool)
      → IsOrdered (less fcomp mem) h.curr_heap_size h.heap
      → IsOrdered (less fcomp mem') h.curr_heap_size h.heap
  SameNodes-IsOrdered fcomp o c p q = rw (same c q, same ((c - 1) / 2) (omega arith)) (o c p q)

  pub SameNodes-IsHeap :
      (fcomp : Hnode → Hnode → Bool) (held : Option ℕ)
      → IsHeap fcomp mem held h
      → IsHeap fcomp mem' held h
  SameNodes-IsHeap fcomp held v = record {
    mapped = SameNodes-IsMapped v.mapped;
    ordered = SameNodes-IsOrdered fcomp v.ordered;
    solid = v.solid;
    live =
        λ k s p e. elim (v.live k s p e) [ inl d ↦ inl d | inr (q, d) ↦ inr (q, rw (same s q) d) ];
    held_taken = v.held_taken;
    held_apart = λ k i e p. rw (same i p) (v.held_apart k i e p);
    tracks = v.tracks;
  }

  pub SameNodes-node_at :
      IsMapped mem h.curr_heap_size h → (k : ℕ) → node_at mem' h k ≡ node_at mem h k
  SameNodes-node_at m k = elim (in_heap mem h k m) [
    | inl (i, p, e) ↦ rw (← e) (
        (rw (same i p) at (node_at_slot mem' h (SameNodes-IsMapped m) i p))
        ∙ sym (node_at_slot mem h m i p))
    | inr away ↦
        node_at_away mem' h k (λ i p. rw (same i p) (away i p)) ∙ sym (node_at_away mem h k away)
  ]
