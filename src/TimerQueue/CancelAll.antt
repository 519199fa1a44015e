-- ===== src/TimerQueue/CancelAll.antt =====
-- tq_cancel_timers: the timers of one context leave the queue.
use curl_loader.Base.{
  ℕ, zero, suc, ◌+◌, ◌≤◌, ◌<◌, ◌≡◌, ◌≢◌, refl, sym, ap, ◌∙◌, ◌⊎◌, inl, inr, false, arith, ltb, ◌==◌,
  Option, none, some, List, Yields, yields, Yields-imp, Yields-branch, Yields-bind, Yields-Holds,
  Run, ◌>>=◌, eq-or-ne, update, update_ne, ◌-◌, true,
}
use curl_loader.Mpool.{Mpool, mpool_return_obj, mpool_add}
use curl_loader.Heap.Slots.{load-ok}
use curl_loader.Heap.Valid.{node_at_slot, node_at-slot}
use curl_loader.Heap.Removed.{IsRemoved}
use curl_loader.Heap.Remove.{heap_remove_node_frees}
use curl_loader.Heap.{Heap, less, heap_parent}
use curl_loader.Heap.Order.{parent, heap_parent_lem}
use curl_loader.Heap.Operations.{node_reset, heap_remove_node}
use curl_loader.Heap.Below.{heap_remove_node-AreBelow}
use curl_loader.TimerQueue.{
  TimerQueue, timer_node_comparator, give_back, cancel_timers_loop, tq_cancel_timers,
}
use curl_loader.TimerQueue.Valid.{IsQueue, timer_at, timer_node_comparator-IsStrictWeak}
use curl_loader.TimerQueue.Cancel.{timer_at-node, IsCancelled, removed_returned}

-- Ids keep their timers, but for those of `tnode`, which have none.
pub record IsThinned (held : Option ℕ) (q : TimerQueue) (tnode n : ℕ) (q' : TimerQueue)
    : Type 0 where
  pub valid : (p' : Mpool) × (frees' : List ℕ) × IsQueue held q' p' frees'
  pub view :
      (k : ℕ)
      → (timer_at q' k ≡ timer_at q k) ⊎ ((timer_at q k ≡ some tnode) × (timer_at q' k ≡ none))
  pub gone : (k : ℕ) → timer_at q' k ≢ some tnode
  pub timers : q'.timers ≡ q.timers
  pub size : q'.queue.curr_heap_size + n ≡ q.queue.curr_heap_size

-- The call counts the timers that left the queue.
abbrev pub ThinnedAs : Option ℕ → TimerQueue → ℕ → ℕ → Option ℕ × TimerQueue → Type 0
ThinnedAs held q tnode counter (r, q') =
    (n : ℕ) × (r ≡ some (counter + n)) × IsThinned held q tnode n q'

-- A timer of `tnode` that left first counts as one more.
thinned_more :
    (held : Option ℕ) (q q1 : TimerQueue) (tnode id counter : ℕ) (r : Option ℕ × TimerQueue)
    → timer_at q id ≡ some tnode
    → IsCancelled held q id q1
    → ThinnedAs held q1 tnode (counter + 1) r
    → ThinnedAs held q tnode counter r
thinned_more held q q1 tnode id counter (r, q') own c (n, e, t) = (
  n + 1,
  e ∙ ap some (omega arith),
  record {
    valid = t.valid;
    view = λ k. elim (eq-or-ne k id) [
      | inl d ↦ elim (t.view k) [
        | inl e1 ↦ inr (rw d own, e1 ∙ c.view k ∙ rw d (ground arith))
        | inr (e1, e2) ↦ inr (rw d own, e2)
      ]
      | inr d ↦ elim (t.view k) [
        | inl e1 ↦ inl (e1 ∙ kept k d)
        | inr (e1, e2) ↦ inr (sym (kept k d) ∙ e1, e2)
      ]
    ];
    gone = t.gone;
    timers = t.timers ∙ c.timers;
    size = omega (arith, t.size, c.size);
  },
)
  where
    kept : (k : ℕ) → k ≢ id → timer_at q1 k ≡ timer_at q k
    kept k d = c.view k ∙ ground arith

timer_at-slot :
    {held : Option ℕ} {q : TimerQueue} {p : Mpool} {frees : List ℕ} (v : IsQueue held q p frees)
    (i : ℕ)
    → i < q.queue.curr_heap_size
    → timer_at q (q.machine.mem (q.queue.heap i)).node_id
      ≡ some (q.machine.mem (q.queue.heap i)).ctx
unfolding timer_at
timer_at-slot {q = q} v i inside =
    ground (arith, node_at_slot q.machine.mem q.queue v.heap.mapped i inside)

-- No slot below `index` has a timer of `tnode`.
abbrev IsPassed : TimerQueue → ℕ → ℕ → Type 0
IsPassed q tnode index = (i : ℕ) → i < index → (q.machine.mem (q.queue.heap i)).ctx ≢ tnode

-- Once all slots are passed, no id has a timer of `tnode`.
IsPassed-gone :
    (q : TimerQueue) (tnode : ℕ)
    → IsPassed q tnode q.queue.curr_heap_size
    → (k : ℕ) → timer_at q k ≢ some tnode
IsPassed-gone q tnode passed k e =
    let (nd, at, ctx) = timer_at-node q k tnode e in
    let (slot, inside, here, named, mapped) = node_at-slot q.machine.mem q.queue k nd at in
    passed slot inside (ap (λ a. (q.machine.mem a).ctx) here ∙ ctx)

-- The end node comes before the parent of a slot of `tnode` only if it is none of `tnode` itself.
end_node_other :
    {held : Option ℕ} {q : TimerQueue} {p : Mpool} {frees : List ℕ} (v : IsQueue held q p frees)
    (tnode index : ℕ)
    → index < q.queue.curr_heap_size
    → (q.machine.mem (q.queue.heap index)).ctx ≡ tnode
    → let moved = q.queue.heap (q.queue.curr_heap_size - 1) in
      less
          (timer_node_comparator q.timers)
          q.machine.mem
          moved
          (update q.queue.heap index moved (heap_parent index))
        ≡ true
      → (q.machine.mem moved).ctx ≢ tnode
unfolding timer_node_comparator
end_node_other {q = q} v tnode index inside own up same = elim (eq-or-ne index 0) [
  | inl root ↦ absurd (ground (arith, rw (heap_parent_lem, root) at up))
  | inr d ↦
      let pos : 0 < index = omega (arith, d) in
      let apart : index ≢ parent index = λ e. omega (arith, e, pos) in
      let moved = q.queue.heap (q.queue.curr_heap_size - 1) in
      let before =
        rw (heap_parent_lem, update_ne q.queue.heap index moved (parent index) apart, same) at up in
      let after = rw own at (v.heap.ordered index pos inside) in
      absurd (ground (arith, before, after))
]

-- The node that goes back loses its context, and no other does.
give_back-ctx :
    (q : TimerQueue) (node a : ℕ)
    → let q' = (give_back q node).1 in
      (q'.queue.heap ≡ q.queue.heap)
      × (((q'.machine.mem a).ctx ≡ (q.machine.mem a).ctx) ⊎ ((q'.machine.mem a).ctx ≡ 0))
unfolding give_back node_reset mpool_return_obj mpool_add
give_back-ctx q node a = (ground arith, ground arith)

give_back-IsPassed :
    (q : TimerQueue) (node tnode index : ℕ)
    → tnode ≢ 0
    → IsPassed q tnode index
    → IsPassed (give_back q node).1 tnode index
give_back-IsPassed q node tnode index nonnull passed i p e =
    let (same, kept) = give_back-ctx q node (q.queue.heap i) in
    elim kept [
      | inl d ↦
          passed i p (sym d ∙ ap (λ f. ((give_back q node).1.machine.mem (f i)).ctx) (sym same) ∙ e)
      | inr d ↦ nonnull (sym e ∙ ap (λ f. ((give_back q node).1.machine.mem (f i)).ctx) same ∙ d)
    ]

-- A timer of `tnode` leaves its slot, and the slots before it still have none.
after_own_removal {κ} :
    {held : Option ℕ} {q : TimerQueue} {p : Mpool} {frees : List ℕ} (v : IsQueue held q p frees)
    {B : Type 0} {Q : B → Type κ} (tnode index : ℕ) (next : Option ℕ × Heap → Run B)
    → index < q.queue.curr_heap_size
    → (q.machine.mem (q.queue.heap index)).ctx ≡ tnode
    → IsPassed q tnode index
    → ((h' : Heap)
        → IsRemoved (timer_node_comparator q.timers) q.machine.mem held q.queue index h'
        → IsPassed (record q { queue = h' }) tnode index
        → Yields Q (next (some (q.queue.heap index), h')))
    → Yields Q (
        heap_remove_node (timer_node_comparator q.timers) q.machine.mem q.queue index false
        >>= next)
after_own_removal {held} {q} v tnode index next inside own passed then_next =
    Yields-bind
      (Yields-Holds
        (heap_remove_node_frees (timer_node_comparator q.timers)
          (timer_node_comparator-IsStrictWeak q.timers) q.machine.mem q.queue index held v.heap
          inside)
        (heap_remove_node-AreBelow (λ node. (q.machine.mem node).ctx ≢ tnode) index
          (timer_node_comparator q.timers) q.machine.mem q.queue (omega (arith, inside)) passed
          (end_node_other v tnode index inside own)))
      λ (r, h') ((e, s), b). rw e (then_next h' s b)

cancel_timers_loop-ThinnedAs :
    (fuel : ℕ) {held : Option ℕ} {q : TimerQueue} {p : Mpool} {frees : List ℕ}
    (v : IsQueue held q p frees) (tnode index counter : ℕ)
    → tnode ≢ 0
    → q.queue.curr_heap_size < index + fuel
    → index ≤ q.queue.curr_heap_size
    → IsPassed q tnode index
    → Yields (ThinnedAs held q tnode counter) (cancel_timers_loop fuel q tnode index counter)
unfolding cancel_timers_loop
cancel_timers_loop-ThinnedAs zero v tnode index counter nonnull enough inside passed =
    absurd (omega arith)
cancel_timers_loop-ThinnedAs (suc fuel) {q = q} v tnode index counter nonnull enough inside passed =
    Yields-branch (ltb index q.queue.curr_heap_size)
      (λ more.
        let inside' : index < q.queue.curr_heap_size = ground arith in
        rw (load-ok q.queue index (omega (arith, inside', v.heap.mapped.room))) (
          Yields-branch ((q.machine.mem (q.queue.heap index)).ctx == tnode)
            (λ own. after_own_removal v tnode index _ inside' (ground (arith, own)) passed λ h' s b.
              let (done, c) = removed_returned v _ index h' inside' s in
              let (p', frees', v') = c.valid in
              rw done (
                Yields-imp
                  (cancel_timers_loop-ThinnedAs fuel v' tnode index (counter + 1) nonnull
                    (omega (arith, c.size, enough)) (omega (arith, c.size, inside'))
                    (give_back-IsPassed (record q { queue = h' }) (q.queue.heap index) tnode index
                      nonnull b))
                  λ r t.
                    thinned_more _ q _ tnode _ counter r
                      (timer_at-slot v index inside' ∙ ground arith) c t))
            (λ other.
              cancel_timers_loop-ThinnedAs fuel v tnode (index + 1) counter nonnull (omega arith)
                (omega arith)
                (λ i p. elim (eq-or-ne i index) [
                  | inl e ↦ rw e (ground (arith, other))
                  | inr d ↦ passed i (omega (arith, p, d))
                ]))))
      (λ done. yields (
        0,
        ap some (omega arith),
        record {
          valid = (_, _, v);
          view = λ k. inl refl;
          gone = IsPassed-gone q tnode (λ i p. passed i (ground (arith, p, done, inside)));
          timers = refl;
          size = omega arith;
        },
      ))

-- On a valid queue, tq_cancel_timers for a context that is not NULL ends and gives the number of
-- timers that left the queue. All timers of this context leave it, so that no id has one of them
-- then, and no other timer does: every id keeps its timer otherwise, and the queue is valid.
pub tq_cancel_timers_lem :
    {held : Option ℕ} {q : TimerQueue} {p : Mpool} {frees : List ℕ} (v : IsQueue held q p frees)
    (tnode : ℕ)
    → tnode ≢ 0
    → Yields (ThinnedAs held q tnode 0) (tq_cancel_timers q tnode)
unfolding tq_cancel_timers
tq_cancel_timers_lem {q = q} v tnode nonnull =
    let some_tnode : (tnode == 0) ≡ false = ground (arith, nonnull) in
    rw some_tnode (
      cancel_timers_loop-ThinnedAs (suc q.queue.curr_heap_size) v tnode 0 0 nonnull (omega arith)
        (omega arith) (λ i p. absurd (omega (arith, p))))
