-- ===== src/TimerQueue/Cancel.antt =====
-- tq_cancel_timer and tq_remove_nearest_timer: a timer leaves the queue, and its node goes back to the pool.
use curl_loader.Base.{
  Bool, ℕ, ◌+◌, ◌≤◌, ◌<◌, ◌≡◌, refl, ◌∙◌, inl, inr, true, false, arith, ltb, ◌==◌, if◌then◌else◌,
  Option, none, some, List, Run, ok, fault, Yields, yields, Yields-bind, ◌>>=◌,
}
use curl_loader.Mpool.{Mpool}
use curl_loader.Heap.{Heap}
use curl_loader.Heap.Slots.{load-ok}
use curl_loader.Heap.Order.{less-IsStrictWeak, root_least}
use curl_loader.Heap.Valid.{node_at, node_at_slot, node_at-slot}
use curl_loader.Heap.Removed.{IsRemoved}
use curl_loader.Heap.Operations.{heap_remove_node}
use curl_loader.Heap.Remove.{heap_remove_node_frees, heap_pop_lem}
use curl_loader.TimerQueue.{
  TimerQueue, timer_node_comparator, give_back, tq_cancel_timer, tq_remove_nearest_timer,
  tq_time_to_nearest_timer,
}
use curl_loader.TimerQueue.Valid.{IsQueue, timer_at, timer_node_comparator-IsStrictWeak}
use curl_loader.TimerQueue.Nodes.{removed-IsQueue, returned-IsQueue}

-- The timer under `id` left the queue.
pub record IsCancelled (held : Option ℕ) (q : TimerQueue) (id : ℕ) (q' : TimerQueue) : Type 0 where
  pub valid : (p' : Mpool) × (frees' : List ℕ) × IsQueue held q' p' frees'
  pub view : (k : ℕ) → timer_at q' k ≡ (if k == id then none else timer_at q k)
  pub timers : q'.timers ≡ q.timers
  pub size : q'.queue.curr_heap_size + 1 ≡ q.queue.curr_heap_size
  pub room : q'.queue.max_heap_size ≡ q.queue.max_heap_size

-- A call with the result 0 took the timer under `id` away.
abbrev pub CancelledAs : Option ℕ → TimerQueue → ℕ → Bool × TimerQueue → Type 0
CancelledAs held q id (r, q') = (r ≡ true) × IsCancelled held q id q'

-- The timer of the root was taken away, and given as the result.
abbrev pub NearestRemoved : Option ℕ → TimerQueue → Option ℕ × TimerQueue → Type 0
NearestRemoved held q (r, q') =
    let root = q.machine.mem (q.queue.heap 0) in
    (r ≡ some root.ctx) × IsCancelled held q root.node_id q'

pub timer_at-node :
    (q : TimerQueue) (k tnode : ℕ)
    → timer_at q k ≡ some tnode
    → (nd : ℕ) × (node_at q.machine.mem q.queue k ≡ some nd) × ((q.machine.mem nd).ctx ≡ tnode)
unfolding timer_at
timer_at-node q k tnode e = at (node_at q.machine.mem q.queue k) refl e
  where
    at :
        (o : Option ℕ)
        → node_at q.machine.mem q.queue k ≡ o
        → (elim o as (λ _. Option ℕ) [ none ↦ none | some nd ↦ some (q.machine.mem nd).ctx ])
          ≡ some tnode
        → (nd : ℕ) × (node_at q.machine.mem q.queue k ≡ some nd) × ((q.machine.mem nd).ctx ≡ tnode)
    at none d c = absurd (ground (arith, c))
    at (some nd) d c = (nd, d, ground (arith, c))

module _ {held : Option ℕ} {q : TimerQueue} {p : Mpool} {frees : List ℕ}
    (v : IsQueue held q p frees) where
  -- A removal and the return of the node.
  pub removed_returned :
      (held' : Option ℕ) (slot : ℕ) (h' : Heap)
      → slot < q.queue.curr_heap_size
      → IsRemoved (timer_node_comparator q.timers) q.machine.mem held' q.queue slot h'
      → let (done, q') = give_back (record q { queue = h' }) (q.queue.heap slot) in
        (done ≡ true) × IsCancelled held' q (q.machine.mem (q.queue.heap slot)).node_id q'
  removed_returned held' slot h' inside s =
      let (v1, loose, view) = removed-IsQueue v held' slot h' inside s in
      let (done, p', v2, same, timers, queue) = returned-IsQueue v1 (q.queue.heap slot) loose in
      (
        done,
        record {
          valid = (p', _, v2);
          view = λ k. same k ∙ view k;
          timers = timers;
          size = rw queue s.size;
          room = rw queue s.room;
        },
      )

  -- What follows a removal is run on the heap without the node.
  pub after_removal {κ} :
      {B : Type 0} {Q : B → Type κ} (slot : ℕ) (next : Option ℕ × Heap → Run B)
      → slot < q.queue.curr_heap_size
      → ((h' : Heap)
          → IsRemoved (timer_node_comparator q.timers) q.machine.mem held q.queue slot h'
          → Yields Q (next (some (q.queue.heap slot), h')))
      → Yields Q (
          heap_remove_node (timer_node_comparator q.timers) q.machine.mem q.queue slot false
          >>= next)
  after_removal slot next inside then_next =
      Yields-bind
        (heap_remove_node_frees (timer_node_comparator q.timers)
          (timer_node_comparator-IsStrictWeak q.timers) q.machine.mem q.queue slot held v.heap
          inside)
        λ (r, h') (e, s). rw e (then_next h' s)

  -- On a valid queue, tq_cancel_timer of an id of a timer ends with success: the id has no timer
  -- then, every other id is as before, the queue has one timer less and is valid.
  pub tq_cancel_timer_lem :
      (id tnode : ℕ)
      → timer_at q id ≡ some tnode
      → Yields (CancelledAs held q id) (tq_cancel_timer q (some id))
  unfolding tq_cancel_timer
  tq_cancel_timer_lem id tnode e =
      let (nd, at, ctx) = timer_at-node q id tnode e in
      let (slot, inside, here, named, mapped) = node_at-slot q.machine.mem q.queue id nd at in
      let named' : (q.machine.mem (q.queue.heap slot)).node_id ≡ id = ground arith in
      let id_inside : id < q.queue.max_heap_size =
        ground (arith, v.heap.mapped.named slot inside) in
      let not_over : ltb q.queue.max_heap_size id ≡ false = ground arith in
      let not_over' : ltb id q.queue.max_heap_size ≡ true = ground arith in
      let same_id : (id == (q.machine.mem (q.queue.heap slot)).node_id) ≡ true = ground arith in
      rw
        (
          not_over,
          not_over',
          mapped,
          load-ok q.queue slot (omega (arith, inside, v.heap.mapped.room)),
          same_id,
        )
        (after_removal slot _ inside λ h' s.
          let (done, cancelled) = removed_returned held slot h' inside s in
          yields (refl, rw named' at cancelled))

  -- An id below the size of the arrays that no timer has is free.
  unknown_id :
      (id : ℕ)
      → held ≡ none
      → id < q.queue.max_heap_size
      → timer_at q id ≡ none
      → q.queue.ids_arr id ≡ none
  unfolding timer_at
  unknown_id id none_held inside e = at (q.queue.ids_arr id) refl
    where
      at : (o : Option ℕ) → q.queue.ids_arr id ≡ o → o ≡ none
      at none d = refl
      at (some s) d = elim (v.heap.live id s inside d) [
        | inl c ↦ absurd (ground (arith, none_held, c))
        | inr (r, c) ↦
            absurd (ground (arith, e, c, node_at_slot q.machine.mem q.queue v.heap.mapped s r))
      ]

  -- On a valid queue that keeps no id, tq_cancel_timer of an id below the size that no timer has
  -- ends with -1 and changes nothing.
  pub tq_cancel_timer_unknown :
      (id : ℕ)
      → held ≡ none
      → id < q.queue.max_heap_size
      → timer_at q id ≡ none
      → tq_cancel_timer q (some id) ≡ ok (false, q)
  unfolding tq_cancel_timer
  tq_cancel_timer_unknown id none_held inside e =
      let free = unknown_id id none_held inside e in
      let not_over : ltb q.queue.max_heap_size id ≡ false = ground arith in
      let not_over' : ltb id q.queue.max_heap_size ≡ true = ground arith in
      rw (not_over, not_over', free) refl

  module _ (pos : 0 < q.queue.curr_heap_size) where
    abbrev nearest : ℕ
    nearest = (q.machine.mem (q.queue.heap 0)).ctx

    -- On a valid queue that is not empty, tq_time_to_nearest_timer gives the time of a timer in the
    -- queue, and no timer of the queue is due before.
    pub tq_time_to_nearest_timer_lem :
        (k tnode : ℕ)
        → timer_at q k ≡ some tnode
        → (tq_time_to_nearest_timer q ≡ ok (q.timers nearest).next_timer)
          × (timer_at q (q.machine.mem (q.queue.heap 0)).node_id ≡ some nearest)
          × ((q.timers nearest).next_timer ≤ (q.timers tnode).next_timer)
    unfolding tq_time_to_nearest_timer timer_node_comparator timer_at
    tq_time_to_nearest_timer_lem k tnode e =
        let some_timer : (q.queue.curr_heap_size == 0) ≡ false = ground arith in
        let root = load-ok q.queue 0 (omega (arith, pos, v.heap.mapped.room)) in
        let (nd, at, ctx) = timer_at-node q k tnode e in
        let (slot, inside, here, named, mapped) = node_at-slot q.machine.mem q.queue k nd at in
        (rw (some_timer, root) refl, at_root, ground (arith, least slot inside, here, ctx))
      where
        at_root : timer_at q (q.machine.mem (q.queue.heap 0)).node_id ≡ some nearest
        at_root = rw (timer_at, node_at_slot q.machine.mem q.queue v.heap.mapped 0 pos) refl

        least :
            (i : ℕ)
            → i < q.queue.curr_heap_size
            → (q.timers nearest).next_timer
              ≤ (q.timers (q.machine.mem (q.queue.heap i)).ctx).next_timer
        least i r =
            let order =
              root_least _
                (less-IsStrictWeak (timer_node_comparator q.timers) q.machine.mem
                  (timer_node_comparator-IsStrictWeak q.timers))
                q.queue.curr_heap_size q.queue.heap i v.heap.ordered r in
            ground (arith, order)

    -- On a valid queue that is not empty, tq_remove_nearest_timer gives the timer whose time
    -- tq_time_to_nearest_timer tells. Its id has no timer then, every other id is as before, the
    -- queue has one timer less and is valid.
    pub tq_remove_nearest_timer_lem : Yields (NearestRemoved held q) (tq_remove_nearest_timer q)
    unfolding tq_remove_nearest_timer
    tq_remove_nearest_timer_lem =
        rw (heap_pop_lem (timer_node_comparator q.timers) q.machine.mem q.queue false pos) (
          after_removal 0 _ pos λ h' s.
            let (done, cancelled) = removed_returned held 0 h' pos s in
            rw done (yields (refl, cancelled)))

-- tq_cancel_timer of the id that is equal to the size of ids_arr passes the test of its argument,
-- and reads behind the end of ids_arr.
pub tq_cancel_timer_past : (q : TimerQueue) → tq_cancel_timer q (some q.queue.max_heap_size) ≡ fault
unfolding tq_cancel_timer
tq_cancel_timer_past q = ground arith
