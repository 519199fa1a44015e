-- ===== src/Heap/Up.antt =====
-- filter_up restores the order above one node, and keeps the two arrays in agreement.
use curl_loader.Base.{
  ℕ, zero, suc, ◌<◌, ◌≡◌, ◌≢◌, Bool, arith, ltb, update, lt→ltb, Yields, yields, Yields-imp,
  Yields-branch,
}
use curl_loader.Memory.{Hnode, Store}
use curl_loader.Heap.{Heap, place, less, filter_up_loop, filter_up}
use curl_loader.Heap.Slots.{IsVacant, load-ok, put-ok, place-IsVacant, place-Settled, Settled-move}
use curl_loader.Heap.Order.{
  IsStrictWeak, Filtered, IsOrderedButAbove, parent, heap_parent_lem, climb_above, settle_above,
}

module _ (fcomp : Hnode → Hnode → Bool) (mem : Store) (sw : IsStrictWeak (less fcomp mem))
    (n : ℕ) where
  filter_up_loop_restores :
      (fuel : ℕ) (h : Heap) (cur target : ℕ)
      → cur < fuel
      → IsVacant mem n cur target h
      → IsOrderedButAbove (less fcomp mem) n (update h.heap cur target) cur
      → Yields
          (Filtered fcomp mem n cur target h)
          (filter_up_loop fcomp mem fuel h cur (parent cur) target)
  unfolding filter_up_loop
  filter_up_loop_restores zero h cur target f v o = elim f [ ]
  filter_up_loop_restores (suc fuel) h cur target f v o =
      let up : parent cur < n = omega (arith, v.inside) in
      let src : parent cur < h.max_heap_size = omega (arith, v.room) in
      let dst : cur < h.max_heap_size = omega (arith, v.room, v.inside) in
      rw (load-ok h (parent cur) src, put-ok mem h cur target dst v.target_named)
        (Yields-branch (ltb 0 cur)
          (λ pos.
            Yields-branch (less fcomp mem (h.heap (parent cur)) target)
              (λ stop. yields (
                place-Settled mem n cur target h v,
                settle_above _ sw n h.heap cur target o λ p. sw.asym _ _ stop,
              ))
              (λ go.
                let apart : parent cur ≢ cur = ground arith in
                rw (put-ok mem h cur (h.heap (parent cur)) dst (v.named _ up apart)) (
                  Yields-imp
                    (filter_up_loop_restores fuel (place mem h cur (h.heap (parent cur)))
                      (parent cur) target (ground arith)
                      (place-IsVacant mem n cur target h v _ up apart)
                      (climb_above _ sw n h.heap cur target (ground arith) v.inside o go))
                    λ h' s. (Settled-move mem n cur target h v _ up apart h' s.0, s.1))))
          (λ root. yields (
            place-Settled mem n cur target h v,
            settle_above _ sw n h.heap cur target o λ p. cc (lt→ltb 0 cur p),
          )))

  -- After `target` was put in slot `index`, filter_up restores the heap.
  pub filter_up_restores :
      (h : Heap) (index target : ℕ)
      → h.heap index ≡ target
      → IsVacant mem n index target h
      → IsOrderedButAbove (less fcomp mem) n (update h.heap index target) index
      → Yields (Filtered fcomp mem n index target h) (filter_up fcomp mem h index)
  unfolding filter_up
  filter_up_restores h index target e v o =
      rw (load-ok h index (omega (arith, v.room, v.inside)), heap_parent_lem, e)
        (filter_up_loop_restores (suc index) h index target (omega arith) v o)
