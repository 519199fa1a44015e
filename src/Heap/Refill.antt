-- ===== src/Heap/Refill.antt =====
-- The end node takes the slot of a removed node: the core of heap_remove_node.
use curl_loader.Base.{
  ℕ, suc, ◌<◌, ◌≡◌, refl, Bool, true, false, arith, update, update_self, Yields, Yields-imp,
  Yields-branch,
}
use curl_loader.Memory.{Hnode, Store}
use curl_loader.Heap.{Heap, place, less}
use curl_loader.Heap.Operations.{refill_slot}
use curl_loader.Heap.Slots.{IsMapped, IsVacant, load-ok, put-ok, put_twice, Settled-put}
use curl_loader.Heap.Order.{
  IsStrictWeak, IsOrdered, IsOrderedButAbove, IsOrderedButBelow, Filtered, parent, heap_parent_lem,
  irrefl,
}
use curl_loader.Heap.Up.{filter_up_restores}
use curl_loader.Heap.Down.{filter_down_restores}

module _ (below : ℕ → ℕ → Bool) (sw : IsStrictWeak below) (n : ℕ) (hp : ℕ → ℕ) (slot moved : ℕ)
    (inside : slot < n) (o : IsOrdered below n hp) where
  bridge :
      (c : ℕ) → 0 < c → c < n → parent c ≡ slot → 0 < slot → below (hp c) (hp (parent slot)) ≡ false
  bridge c p q e pos =
      ground
        (arith, o c p q, o slot pos inside, sw.not_less_trans (hp c) (hp slot) (hp (parent slot)))

  rises :
      0 < slot
      → below moved (hp (parent slot)) ≡ true
      → IsOrderedButAbove below n (update hp slot moved) slot
  rises pos up = record {
    edges = λ c p q d. ground (
      arith,
      o c p q,
      bridge c p q,
      sw.asym moved (hp (parent slot)) up,
      sw.not_less_trans (hp c) (hp (parent slot)) moved,
    );
    bridged = λ c p q e r. ground (arith, bridge c p q e r);
  }

  falls :
      (0 < slot → below moved (hp (parent slot)) ≡ false)
      → IsOrderedButBelow below n (update hp slot moved) slot
  falls down = record {
    edges = λ c p q d. ground (arith, o c p q, down);
    bridged = λ c p q e r. ground (arith, bridge c p q e r);
  }

module _ (fcomp : Hnode → Hnode → Bool) (mem : Store) (sw : IsStrictWeak (less fcomp mem))
    (h : Heap) (slot : ℕ) (m : IsMapped mem (suc h.curr_heap_size) h)
    (o : IsOrdered (less fcomp mem) (suc h.curr_heap_size) h.heap)
    (inside : slot < h.curr_heap_size) where
  abbrev n : ℕ
  n = h.curr_heap_size

  abbrev moved : ℕ
  moved = h.heap n

  abbrev h1 : Heap
  h1 = place mem h slot moved

  vacant : IsVacant mem n slot moved h1
  vacant = record {
    room = omega (arith, m.room);
    inside = inside;
    mapped = λ i p d. ground (arith, m.mapped i, m.mapped n);
    named = λ i p d. ground (arith, m.named i);
    own = λ i p d. ground (arith, m.mapped i, m.mapped n);
    target_named = m.named n (omega arith);
  }

  order : IsOrdered (less fcomp mem) n h.heap
  order c p q = o c p (omega arith)

  goes_up :
      less fcomp mem moved (h1.heap (parent slot)) ≡ true
      → (0 < slot) × (less fcomp mem moved (h.heap (parent slot)) ≡ true)
  goes_up up = ground (arith, irrefl _ sw n moved)

  goes_down :
      less fcomp mem moved (h1.heap (parent slot)) ≡ false
      → 0 < slot
      → less fcomp mem moved (h.heap (parent slot)) ≡ false
  goes_down down p = ground arith

  pub refill_restores : Yields (Filtered fcomp mem n slot moved h) (refill_slot fcomp mem h slot)
  unfolding refill_slot
  refill_restores =
      let up_inside : parent slot < h.max_heap_size = omega (arith, m.room) in
      rw
        (
          load-ok h n (omega (arith, m.room)),
          put-ok mem h slot moved (omega (arith, m.room)) (m.named n (omega arith)),
          heap_parent_lem,
          load-ok h1 (parent slot) up_inside,
        )
        (Yields-imp
          (Yields-branch (less fcomp mem moved (h1.heap (parent slot)))
            (λ up.
              filter_up_restores fcomp mem sw n h1 slot moved (update_self h.heap slot moved) vacant
                (rw (put_twice h.heap slot moved)
                  (rises _ sw n h.heap slot moved inside order (goes_up up).0 (goes_up up).1)))
            (λ down.
              filter_down_restores fcomp mem sw n h1 slot moved (update_self h.heap slot moved) refl
                vacant
                (rw (put_twice h.heap slot moved)
                  (falls _ sw n h.heap slot moved inside order (goes_down down)))))
          λ h' s. (Settled-put mem n slot moved h h' inside s.0, s.1))
