-- ===== src/Heap/Down.antt =====
-- filter_down restores the order below one node, and keeps the two arrays in agreement.
use curl_loader.Base.{
  ℕ, zero, suc, ◌+◌, ◌≤◌, ◌<◌, ◌≡◌, ◌≢◌, Bool, arith, ltb, update, Yields, yields, Yields-imp,
  Yields-branch, Yields-bind,
}
use curl_loader.Memory.{Hnode, Store}
use curl_loader.Heap.{Heap, place, less, heap_lchild, select_child, filter_down_loop, filter_down}
use curl_loader.Heap.Slots.{IsVacant, load-ok, put-ok, place-IsVacant, place-Settled, Settled-move}
use curl_loader.Heap.Order.{
  IsStrictWeak, Filtered, IsOrderedButBelow, IsLeastChild, sink_below, settle_below, both_children,
  left_child,
}

module _ (fcomp : Hnode → Hnode → Bool) (mem : Store) (sw : IsStrictWeak (less fcomp mem))
    (n : ℕ) where
  select_child-IsLeastChild :
      (h : Heap) (cur : ℕ)
      → n ≤ h.max_heap_size
      → h.curr_heap_size ≡ n
      → heap_lchild cur < n
      → Yields
          (IsLeastChild (less fcomp mem) n h.heap cur)
          (select_child fcomp mem h (heap_lchild cur))
  unfolding select_child
  select_child-IsLeastChild h cur room size p =
      Yields-branch (ltb (heap_lchild cur + 1) h.curr_heap_size)
        (λ both.
          let q : heap_lchild cur + 1 < n = ground arith in
          rw
            (
              load-ok h (heap_lchild cur + 1) (omega (arith, room)),
              load-ok h (heap_lchild cur) (omega (arith, room)),
            )
            (yields (both_children _ sw n h.heap cur q)))
        (λ single. yields (left_child _ sw n h.heap cur p (ground arith)))

  filter_down_loop_restores :
      (fuel : ℕ) (h : Heap) (cur target : ℕ)
      → n ≤ cur + fuel
      → h.curr_heap_size ≡ n
      → IsVacant mem n cur target h
      → IsOrderedButBelow (less fcomp mem) n (update h.heap cur target) cur
      → Yields
          (Filtered fcomp mem n cur target h)
          (filter_down_loop fcomp mem fuel h cur (heap_lchild cur) target)
  unfolding filter_down_loop
  filter_down_loop_restores zero h cur target f size v o = absurd (omega (arith, v.inside))
  filter_down_loop_restores (suc fuel) h cur target f size v o =
      let dst : cur < h.max_heap_size = omega (arith, v.room, v.inside) in
      rw (put-ok mem h cur target dst v.target_named) (
        Yields-branch (ltb (heap_lchild cur) h.curr_heap_size)
          (λ more. Yields-bind (select_child-IsLeastChild h cur v.room size (ground arith)) λ m l.
            rw (load-ok h m (omega (arith, v.room, l.inside))) (
              Yields-branch (less fcomp mem target (h.heap m))
                (λ stop. yields (
                  place-Settled mem n cur target h v,
                  settle_below _ sw n h.heap cur target o
                      λ c p q e. sw.not_less_trans _ _ _ (l.least c p q e) (sw.asym _ _ stop),
                ))
                (λ go.
                  let apart : m ≢ cur = omega (arith, l.child, l.positive) in
                  rw (put-ok mem h cur (h.heap m) dst (v.named m l.inside apart)) (
                    Yields-imp
                      (filter_down_loop_restores fuel (place mem h cur (h.heap m)) m target
                        (omega (arith, l.child, l.positive)) size
                        (place-IsVacant mem n cur target h v _ l.inside apart)
                        (sink_below _ sw n h.heap cur target m o l go))
                      λ h' s. (Settled-move mem n cur target h v _ l.inside apart h' s.0, s.1)))))
          (λ leaf. yields (
            place-Settled mem n cur target h v,
            settle_below _ sw n h.heap cur target o λ c p q e. absurd (ground arith),
          )))

  -- After `target` was put in slot `index`, filter_down restores the heap.
  pub filter_down_restores :
      (h : Heap) (index target : ℕ)
      → h.heap index ≡ target
      → h.curr_heap_size ≡ n
      → IsVacant mem n index target h
      → IsOrderedButBelow (less fcomp mem) n (update h.heap index target) index
      → Yields (Filtered fcomp mem n index target h) (filter_down fcomp mem h index)
  unfolding filter_down
  filter_down_restores h index target e size v o =
      rw (load-ok h index (omega (arith, v.room, v.inside)), e)
        (filter_down_loop_restores (suc h.curr_heap_size) h index target (omega arith) size v o)
