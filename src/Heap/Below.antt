-- ===== src/Heap/Below.antt =====
-- heap_remove_node and the slots below the removed one: they hold nodes of these slots, or the end node.
use curl_loader.Base.{
  ℕ, zero, suc, ◌+◌, ◌-◌, ◌/◌, ◌≤◌, ◌<◌, ◌≡◌, refl, Bool, true, false, ◌&&◌, arith, ltb, ◌==◌,
  update, Holds, Holds-bind, Holds-branch, Holds-within, holds, spent, update_ne, update_self,
  eq-or-ne, inl, inr,
}
use curl_loader.Memory.{Hnode, Store}
use curl_loader.Heap.{
  Heap, load, place, heap_put_node_to_slot, less, heap_parent, heap_lchild, filter_up_loop,
  filter_up, select_child, filter_down_loop, filter_down,
}
use curl_loader.Heap.Operations.{size_t_dec, refill_slot, release_node_id, heap_remove_node}

-- The nodes of the slots below `bound` satisfy `P`.
abbrev pub AreBelow {ℓ} : (ℕ → Type ℓ) → ℕ → Heap → Type ℓ
AreBelow P bound h = (i : ℕ) → i < bound → P (h.heap i)

load-value : (h : Heap) (slot : ℕ) → Holds (λ node. node ≡ h.heap slot) (load h slot)
unfolding load
load-value h slot = Holds-within (ltb slot h.max_heap_size) _ refl

put-value :
    (mem : Store) (h : Heap) (slot node : ℕ)
    → Holds (λ h'. h' ≡ place mem h slot node) (heap_put_node_to_slot mem h slot node)
unfolding heap_put_node_to_slot
put-value mem h slot node =
    Holds-within (ltb slot h.max_heap_size && ltb (mem node).node_id h.max_heap_size) _ refl

parent-before : (slot : ℕ) → 0 < slot → heap_parent slot < slot
unfolding heap_parent
parent-before slot pos = ground arith

less_one : (n : ℕ) → 0 < n → size_t_dec n ≡ n - 1
unfolding size_t_dec
less_one n pos = ground (arith, pos)

module _ {ℓ} (P : ℕ → Type ℓ) (bound : ℕ) where
  put-kept :
      (mem : Store) (h : Heap) (slot node : ℕ)
      → AreBelow P bound h
      → (slot < bound → P node)
      → Holds (AreBelow P bound) (heap_put_node_to_slot mem h slot node)
  unfolding heap_put_node_to_slot
  put-kept mem h slot node kept fits =
      Holds-within (ltb slot h.max_heap_size && ltb (mem node).node_id h.max_heap_size) _ λ i p.
        elim (eq-or-ne slot i) [
          | inl e ↦ rw (← e, update_self h.heap slot node) (fits (rw e p))
          | inr d ↦ rw (update_ne h.heap slot node i d) (kept i p)
        ]

module _ {ℓ} (P : ℕ → Type ℓ) (bound : ℕ) (fcomp : Hnode → Hnode → Bool) (mem : Store) where
  -- A node that satisfies `P` rises, and others sink along its path.
  up_loop-kept :
      (fuel : ℕ) (h : Heap) (cur above target : ℕ)
      → AreBelow P bound h
      → (0 < cur → above < bound)
      → P target
      → Holds (AreBelow P bound) (filter_up_loop fcomp mem fuel h cur above target)
  unfolding filter_up_loop
  up_loop-kept zero h cur above target kept higher p = spent
  up_loop-kept (suc fuel) h cur above target kept higher p =
      Holds-branch (ltb 0 cur)
        (λ pos. Holds-bind (load-value h above) λ node e.
          Holds-branch (less fcomp mem node target)
            (λ _. put-kept P bound mem h cur target kept (λ _. p))
            (λ _. Holds-bind (load-value h above) λ again e'.
              Holds-bind
                (put-kept P bound mem h cur again kept
                  (λ _. rw e' (kept above (higher (ground (arith, pos))))))
                λ h' kept'.
                  up_loop-kept fuel h' above ((above - 1) / 2) target kept'
                    (λ q. omega (arith, higher (ground (arith, pos)))) p))
        (λ _. put-kept P bound mem h cur target kept (λ _. p))

  select_child-after :
      (h : Heap) (child : ℕ)
      → bound ≤ child
      → Holds (λ c. bound ≤ c) (select_child fcomp mem h child)
  unfolding select_child
  select_child-after h child after =
      Holds-branch (ltb (child + 1) h.curr_heap_size)
        (λ _.
          Holds-bind (load-value h (child + 1))
            λ right _. Holds-bind (load-value h child) λ left _. holds (ground (arith, after)))
        (λ _. holds after)

  -- A node that sinks leaves the slots above it.
  down_loop-kept :
      (fuel : ℕ) (h : Heap) (cur child target : ℕ)
      → AreBelow P bound h
      → bound ≤ cur
      → bound ≤ child
      → Holds (AreBelow P bound) (filter_down_loop fcomp mem fuel h cur child target)
  unfolding filter_down_loop
  down_loop-kept zero h cur child target kept at after = spent
  down_loop-kept (suc fuel) h cur child target kept at after =
      let settles = put-kept P bound mem h cur target kept (λ q. absurd (omega (arith, q, at))) in
      Holds-branch (ltb child h.curr_heap_size)
        (λ _. Holds-bind (select_child-after h child after) λ c after'.
          Holds-bind (load-value h c) λ below _.
            Holds-branch (less fcomp mem target below) (λ _. settles)
              (λ _.
                Holds-bind
                  (put-kept P bound mem h cur below kept (λ q. absurd (omega (arith, q, at))))
                  λ h' kept'.
                    down_loop-kept fuel h' c (heap_lchild c) target kept' after'
                      (omega (arith, after'))))
        (λ _. settles)

  refill-kept :
      (h : Heap)
      → AreBelow P bound h
      → (less fcomp mem
              (h.heap h.curr_heap_size)
              (update h.heap bound (h.heap h.curr_heap_size) (heap_parent bound))
            ≡ true
          → P (h.heap h.curr_heap_size))
      → Holds (AreBelow P bound) (refill_slot fcomp mem h bound)
  unfolding refill_slot filter_up filter_down
  refill-kept h kept fits = Holds-bind (load-value h h.curr_heap_size) λ moved e.
      Holds-bind (put-value mem h bound moved) λ h1 e1.
        let kept1 : AreBelow P bound h1 =
          λ i p. rw (e1, update_ne h.heap bound moved i (omega (arith, p))) (kept i p) in
        Holds-bind (load-value h1 (heap_parent bound)) λ above e2.
          Holds-branch (less fcomp mem moved above)
            (λ up.
              let own : P moved = rw e (fits (rw (← e) (rw (e2, e1) at up))) in
              Holds-bind (load-value h1 bound) λ target e3.
                up_loop-kept (suc bound) h1 bound (heap_parent bound) target kept1
                  (parent-before bound) (rw (e3, e1, update_self h.heap bound moved) own))
            (λ _. Holds-bind (load-value h1 bound) λ target e3.
              down_loop-kept (suc h1.curr_heap_size) h1 bound (heap_lchild bound) target kept1
                (omega arith) (omega arith))

  release-kept :
      (h : Heap) (id : ℕ) → AreBelow P bound h → Holds (AreBelow P bound) (release_node_id h id)
  unfolding release_node_id
  release-kept h id kept = Holds-within (ltb id h.max_heap_size) _ (ground (arith, kept))

  -- heap_remove_node of a slot leaves nodes that satisfy `P` below it, if the end node does whenever it
  -- comes before the parent of the slot.
  pub heap_remove_node-AreBelow :
      (h : Heap)
      → 0 < h.curr_heap_size
      → AreBelow P bound h
      → (less fcomp mem
              (h.heap (h.curr_heap_size - 1))
              (update h.heap bound (h.heap (h.curr_heap_size - 1)) (heap_parent bound))
            ≡ true
          → P (h.heap (h.curr_heap_size - 1)))
      → Holds (λ (r, h'). AreBelow P bound h') (heap_remove_node fcomp mem h bound false)
  unfolding heap_remove_node
  heap_remove_node-AreBelow h pos kept fits =
      let size : size_t_dec h.curr_heap_size ≡ h.curr_heap_size - 1 =
        less_one h.curr_heap_size pos in
      Holds-bind (load-value h bound) λ removed _.
        Holds-branch (removed == 0) (λ _. holds kept)
          λ _.
            Holds-bind
              (Holds-branch (ltb bound (size_t_dec h.curr_heap_size))
                (λ _.
                  refill-kept (record h { curr_heap_size = size_t_dec h.curr_heap_size }) kept
                    (rw size fits))
                (λ _. holds kept))
              λ h2 kept2.
                Holds-bind (release-kept h2 (mem removed).node_id kept2) λ h3 kept3. holds kept3
