-- ===== src/TimerQueue/Dispatch.antt =====
-- tq_dispatch_nearest_timer: the nearest timer leaves the queue for its handler, and a periodic timer
-- that the handler accepts comes back under its old id.
use curl_loader.Base.{
  ℕ, ◌+◌, ◌%◌, ◌^◌, ◌<◌, ◌≡◌, ◌≢◌, refl, ap, ◌∙◌, inl, inr, true, false, ◌&&◌, not, arith, ◌==◌,
  if◌then◌else◌, Option, none, some, List, eq-or-ne, Yields, Yields-bind, Yields-imp, Bool-cases,
}
use curl_loader.Memory.{Hnode}
use curl_loader.Mpool.{Mpool}
use curl_loader.Heap.{Heap}
use curl_loader.Heap.Operations.{heap_pop}
use curl_loader.Heap.Removed.{IsRemoved}
use curl_loader.Heap.Remove.{
  heap_remove_node_frees, heap_remove_node_keeps, heap_pop_lem, heap_top_node_least,
}
use curl_loader.TimerQueue.{
  TimerQueue, TimerNode, Handler, Rval, is_zero, timer_node_comparator, after_handler,
  tq_dispatch_nearest_timer,
}
use curl_loader.TimerQueue.Valid.{IsQueue, timer_at, timer_node_comparator-IsStrictWeak}
use curl_loader.TimerQueue.Nodes.{IsLoose, removed-IsQueue}
use curl_loader.TimerQueue.Served.{
  IsServed, return_one_shot, return_periodic, push_again, after_one_shot, after_refused, zero_code,
}

-- The state in which the handler of the root is called, given the heap after the pop.
abbrev pub popped : TimerQueue → Heap → TimerQueue
popped q h = record q { queue = h }

-- What the handler of a timer has done: it leaves the timers of the queue and its own as they are, but
-- may use the memory and the pool.
pub record IsHandled (held : Option ℕ) (q : TimerQueue) (nd tnode : ℕ) (expected : Rval)
    (r : Rval × TimerQueue) : Type 0 where
  pub rval : r.0 ≡ expected
  pub valid : (p : Mpool) × (frees : List ℕ) × IsQueue held r.1 p frees × IsLoose r.1 frees nd
  pub node : r.1.machine.mem nd ≡ q.machine.mem nd
  pub timer : r.1.timers tnode ≡ q.timers tnode
  pub absent :
      (i : ℕ) → i < r.1.queue.curr_heap_size → (r.1.machine.mem (r.1.queue.heap i)).ctx ≢ tnode
  pub room : r.1.queue.curr_heap_size < r.1.queue.max_heap_size
  pub view : (k : ℕ) → timer_at r.1 k ≡ timer_at q k

-- The id that is kept while the handler of the timer runs.
abbrev pub kept_id : TimerNode → ℕ → Option ℕ
kept_id timer id = if timer.period == 0 then none else some id

-- The result of the dispatch is that of the handler. The timer of the root is back under its id, one period
-- after `now`, modulo 2 ^ 64, if it is periodic and the result is 0, and gone otherwise. The other timers are as before.
abbrev pub DispatchedAs : TimerQueue → ℕ → Rval → Rval × TimerQueue → Type 0
DispatchedAs q now result (r, q') =
    let root = q.machine.mem (q.queue.heap 0) in
    let timer = q.timers root.ctx in
    let back = is_zero result && not (timer.period == 0) in
    (r ≡ result)
    × IsServed
        (λ k. if k == root.node_id then (if back then some root.ctx else none) else timer_at q k) q'
    × ((q'.timers root.ctx).next_timer
        ≡ (if back then (now + timer.period) % 2 ^ 64 else timer.next_timer))

module _ (handle : Handler) {q : TimerQueue} {p : Mpool} {frees : List ℕ}
    (v : IsQueue none q p frees) (pos : 0 < q.queue.curr_heap_size) (now : ℕ) (result : Rval) where
  abbrev nd : ℕ
  nd = q.queue.heap 0

  abbrev id : ℕ
  id = (q.machine.mem nd).node_id

  abbrev tnode : ℕ
  tnode = (q.machine.mem nd).ctx

  abbrev timer : TimerNode
  timer = q.timers tnode

  module _ (named : timer.timer_id ≡ some id)
      (handles : (h : Heap) (p0 : Mpool) (frees0 : List ℕ)
        → IsQueue (kept_id timer id) (popped q h) p0 frees0
        → IsLoose (popped q h) frees0 nd
        → h.curr_heap_size < h.max_heap_size
        → Yields
            (IsHandled (kept_id timer id) (popped q h) nd tnode result)
            (handle timer.func_timer tnode now (popped q h))) where
    -- The timers after the dispatch.
    abbrev after : ℕ → Option ℕ
    after k =
        if k == id
        then (if is_zero result && not (timer.period == 0) then some tnode else none)
        else timer_at q k

    abbrev Dispatched : Rval × TimerQueue → Type 0
    Dispatched (r, q') =
        (r ≡ result)
        × IsServed after q'
        × ((q'.timers tnode).next_timer ≡ (
            if is_zero result && not (timer.period == 0)
            then (now + timer.period) % 2 ^ 64
            else timer.next_timer))

    pops :
        Yields
          (λ (r, h).
            (r ≡ some nd)
            × IsRemoved
                (timer_node_comparator q.timers)
                q.machine.mem
                (kept_id timer id)
                q.queue
                0
                h)
          (heap_pop
            (timer_node_comparator q.timers)
            q.machine.mem
            q.queue
            (not (timer.period == 0)))
    pops =
        rw
          (heap_pop_lem (timer_node_comparator q.timers) q.machine.mem q.queue
            (not (timer.period == 0)) pos)
          (elim (Bool-cases (timer.period == 0)) [
            | inl e ↦ rw e (
                heap_remove_node_frees (timer_node_comparator q.timers)
                  (timer_node_comparator-IsStrictWeak q.timers) q.machine.mem q.queue 0 none v.heap
                  pos)
            | inr e ↦ rw e (
                heap_remove_node_keeps (timer_node_comparator q.timers)
                  (timer_node_comparator-IsStrictWeak q.timers) q.machine.mem q.queue 0 none v.heap
                  pos refl)
          ])

    module _ (h : Heap) (rval : Rval) (q1 : TimerQueue)
        (view : (k : ℕ) → timer_at (popped q h) k ≡ (if k == id then none else timer_at q k)) where
      one_shot_after :
          timer.period ≡ 0 → (k : ℕ) → (if k == id then none else timer_at q k) ≡ after k
      one_shot_after once k = ground arith

      handled_one_shot :
          timer.period ≡ 0
          → IsHandled none (popped q h) nd tnode result (rval, q1)
          → Yields Dispatched (after_handler q1 nd tnode now rval)
      handled_one_shot once s =
          let (p1, frees1, v1, l1) = s.valid in
          let once1 : (q1.timers tnode).period ≡ 0 = rw s.timer once in
          rw (after_one_shot q1 nd tnode now rval once1) (
            Yields-imp (return_one_shot nd tnode rval v1 l1 once1) λ (r, q') (e, served, t). (
              e ∙ s.rval,
              record {
                valid = served.valid;
                view = λ k. served.view k ∙ s.view k ∙ view k ∙ one_shot_after once k;
              },
              rw (t, s.timer) (ground (arith, once)),
            ))

      handled_refused :
          timer.period ≢ 0
          → is_zero result ≡ false
          → IsHandled (some id) (popped q h) nd tnode result (rval, q1)
          → Yields Dispatched (after_handler q1 nd tnode now rval)
      handled_refused periodic refused s =
          let (p1, frees1, v1, l1) = s.valid in
          rw (s.rval, after_refused q1 nd tnode now result refused)
            (Yields-imp
              (return_periodic nd tnode id result v1 l1 (rw s.timer periodic) (rw s.timer named))
              λ (r, q') (e, served, t). (
                e,
                record {
                  valid = served.valid;
                  view = λ k. served.view k ∙ s.view k ∙ view k ∙ ground (arith, refused);
                },
                rw (t, s.timer) (ground (arith, refused)),
              ))

      handled_accepted :
          timer.period ≢ 0
          → is_zero result ≡ true
          → IsHandled (some id) (popped q h) nd tnode result (rval, q1)
          → Yields Dispatched (after_handler q1 nd tnode now rval)
      handled_accepted periodic accepted s =
          let (p1, frees1, v1, l1) = s.valid in
          let same_id : (q1.machine.mem nd).node_id ≡ id = ap (λ (n : Hnode). n.node_id) s.node in
          let same_ctx : (q1.machine.mem nd).ctx ≡ tnode = ap (λ (n : Hnode). n.ctx) s.node in
          let period1 : (q1.timers tnode).period ≡ timer.period =
            ap (λ (t : TimerNode). t.period) s.timer in
          rw (s.rval, zero_code result accepted)
            (Yields-imp
              (push_again {q = q1} {p = p1} {frees = frees1} nd tnode now (rw same_id v1) l1
                s.absent s.room (rw period1 periodic))
              λ (r, q') (e, served, t). (
                e,
                record {
                  valid = served.valid;
                  view = λ k.
                      served.view k ∙ ground (arith, same_id, same_ctx, s.view k, view k, periodic);
                },
                t ∙ ap (λ n. (now + n) % 2 ^ 64) period1 ∙ ground (arith, periodic, accepted),
              ))

    handled_next :
        (h : Heap) (r : Rval × TimerQueue)
        → ((k : ℕ) → timer_at (popped q h) k ≡ (if k == id then none else timer_at q k))
        → IsHandled (kept_id timer id) (popped q h) nd tnode result r
        → Yields Dispatched (after_handler r.1 nd tnode now r.0)
    handled_next h (rval, q1) view s = elim (eq-or-ne timer.period 0) [
      | inl once ↦ handled_one_shot h rval q1 view once (rw (no_period once) at s)
      | inr periodic ↦ elim (Bool-cases (is_zero result)) [
        | inl e ↦ handled_accepted h rval q1 view periodic e (rw (some_period periodic) at s)
        | inr e ↦ handled_refused h rval q1 view periodic e (rw (some_period periodic) at s)
      ]
    ]
      where
        no_period : timer.period ≡ 0 → kept_id timer id ≡ none
        no_period e = ground arith

        some_period : timer.period ≢ 0 → kept_id timer id ≡ some id
        some_period e = ground arith

    -- On a valid queue that is not empty, whose nearest timer knows its id,
    -- tq_dispatch_nearest_timer ends and gives the result of the handler, if the handler, called
    -- once the timer is taken out of the queue, ends with this result, keeps the queue valid with
    -- room and with the same timers under all ids, and leaves the node and the timer as they are,
    -- which no other node of the queue refers to. A periodic timer whose handler gives 0 is back
    -- under its id then, due one period after the time of the call, modulo 2^64; any other is gone
    -- and its id has no timer. Every other id is as before, no id is kept, and the queue is valid.
    pub tq_dispatch_nearest_timer_lem :
        Yields (DispatchedAs q now result) (tq_dispatch_nearest_timer handle q now)
    unfolding tq_dispatch_nearest_timer
    tq_dispatch_nearest_timer_lem =
        rw
          (heap_top_node_least (timer_node_comparator q.timers) q.machine.mem none q.queue
            (timer_node_comparator-IsStrictWeak q.timers) v.heap 0 pos).0
          (Yields-bind pops λ (r, h) (e, s). rw e (
            let (v1, l1, view) = removed-IsQueue v (kept_id timer id) 0 h pos s in
            Yields-bind
              (handles h p frees v1 l1 (omega (arith, s.size, s.room, v.heap.mapped.room)))
              λ (r, q1) s1. handled_next h (r, q1) view s1))
