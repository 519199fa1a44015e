-- ===== src/TimerQueue/Served.antt =====
-- What tq_dispatch_nearest_timer does with the node of the timer after its handler.
use curl_loader.Base.{
  ℕ, ◌+◌, ◌%◌, ◌^◌, ◌<◌, ◌≡◌, ◌≢◌, refl, ap, ◌∙◌, inl, inr, true, false, arith, ◌==◌, if◌then◌else◌,
  Option, none, some, List, update, Yields, yields, Yields-bind, Bool-cases,
}
use curl_loader.Mpool.{Mpool}
use curl_loader.Heap.Push.{heap_push_kept}
use curl_loader.TimerQueue.{
  TimerQueue, Rval, failed, code, is_zero, timer_node_comparator, node_return, after_handler,
  push_timer,
}
use curl_loader.TimerQueue.Valid.{IsQueue, timer_at, timer_node_comparator-IsStrictWeak}
use curl_loader.TimerQueue.Nodes.{IsLoose, returned-IsQueue, pushed-IsQueue}
use curl_loader.TimerQueue.Kept.{release_kept_timer_id_lem, changed-IsQueue}

-- The queue is valid, no id is held, and its timers are `expected`.
pub record IsServed (expected : ℕ → Option ℕ) (q' : TimerQueue) : Type 0 where
  pub valid : (p' : Mpool) × (frees' : List ℕ) × IsQueue none q' p' frees'
  pub view : (k : ℕ) → timer_at q' k ≡ expected k

-- The timer is due again one period after `now`.
abbrev again : TimerQueue → ℕ → ℕ → TimerQueue
again q tnode now = record q {
  timers =
      update q.timers tnode
        (record (q.timers tnode) { next_timer = (now + (q.timers tnode).period) % 2 ^ 64 });
}

abbrev pub with_timer : TimerQueue → ℕ → ℕ → Option ℕ
with_timer q nd k =
    if k == (q.machine.mem nd).node_id then some (q.machine.mem nd).ctx else timer_at q k

module _ {q : TimerQueue} {p : Mpool} {frees : List ℕ} (nd tnode : ℕ) where
  -- A one-shot timer is done.
  pub return_one_shot :
      (rval : Rval)
      → IsQueue none q p frees
      → IsLoose q frees nd
      → (q.timers tnode).period ≡ 0
      → Yields
          (λ (r, q'). (r ≡ rval) × IsServed (timer_at q) q' × (q'.timers ≡ q.timers))
          (node_return q nd tnode rval)
  unfolding node_return
  return_one_shot rval v l once =
      let (done, p', v', view, timers, queue) = returned-IsQueue v nd l in
      let no_period : ((q.timers tnode).period == 0) ≡ true = ground arith in
      rw (no_period, done) (yields (refl, record { valid = (p', _, v'); view = view }, timers))

  -- A periodic timer is dropped.
  pub return_periodic :
      (id : ℕ) (rval : Rval)
      → IsQueue (some id) q p frees
      → IsLoose q frees nd
      → (q.timers tnode).period ≢ 0
      → (q.timers tnode).timer_id ≡ some id
      → Yields
          (λ (r, q'). (r ≡ rval) × IsServed (timer_at q) q' × (q'.timers ≡ q.timers))
          (node_return q nd tnode rval)
  unfolding node_return
  return_periodic id rval v l periodic named =
      let period : ((q.timers tnode).period == 0) ≡ false = ground (arith, periodic) in
      rw (period, named)
        (Yields-bind (release_kept_timer_id_lem id nd v l)
          λ (r, q1) (e, v1, l1, view1, timers1, free).
            let (done, p', v', view, timers, queue) = returned-IsQueue v1 nd l1 in
            rw done (
              yields (
                refl,
                record { valid = (p', _, v'); view = λ k. view k ∙ view1 k },
                timers ∙ timers1,
              )))

  module _ (now : ℕ) (v : IsQueue (some (q.machine.mem nd).node_id) q p frees)
      (l : IsLoose q frees nd)
      (absent : (i : ℕ) → i < q.queue.curr_heap_size → (q.machine.mem (q.queue.heap i)).ctx ≢ tnode)
      (space : q.queue.curr_heap_size < q.queue.max_heap_size) where
    push_kept :
        Yields
          (λ (id, q').
            (id ≡ some (q.machine.mem nd).node_id)
            × IsServed (with_timer q nd) q'
            × (q'.timers ≡ (again q tnode now).timers))
          (push_timer (again q tnode now) nd true)
    unfolding timer_at
    push_kept =
        let v1 = changed-IsQueue tnode _ v absent in
        let l1 : IsLoose (again q tnode now) frees nd = record {
          nonnull = l.nonnull;
          below = l.below;
          off = l.off;
          clear = l.clear;
          apart = l.apart;
        } in
        Yields-bind
          (heap_push_kept (timer_node_comparator (again q tnode now).timers)
            (timer_node_comparator-IsStrictWeak (again q tnode now).timers) q.machine q.queue nd
            l.nonnull l.apart v1.heap space)
          λ (id, m', h') (e, pushed).
            let (v2, view) = pushed-IsQueue v1 none nd _ m' h' l1 pushed in
            yields (e, record { valid = (p, frees, v2); view = view }, refl)

    -- A periodic timer comes back.
    pub push_again :
        (q.timers tnode).period ≢ 0
        → Yields
            (λ (r, q').
              (r ≡ code 0)
              × IsServed (with_timer q nd) q'
              × ((q'.timers tnode).next_timer ≡ (now + (q.timers tnode).period) % 2 ^ 64))
            (after_handler q nd tnode now (code 0))
    unfolding after_handler
    push_again periodic =
        let period : ((q.timers tnode).period == 0) ≡ false = ground (arith, periodic) in
        rw period (
          Yields-bind push_kept
            λ (id, q') (e, served, t). rw e (yields (refl, served, rw t (ground arith))))

pub after_one_shot :
    (q : TimerQueue) (nd tnode now : ℕ) (rval : Rval)
    → (q.timers tnode).period ≡ 0
    → after_handler q nd tnode now rval ≡ node_return q nd tnode rval
unfolding after_handler
after_one_shot q nd tnode now rval e =
    let no_period : ((q.timers tnode).period == 0) ≡ true = ground arith in
    elim (Bool-cases (is_zero rval)) [ inl c ↦ rw (c, no_period) refl | inr c ↦ rw c refl ]

pub after_refused :
    (q : TimerQueue) (nd tnode now : ℕ) (rval : Rval)
    → is_zero rval ≡ false
    → after_handler q nd tnode now rval ≡ node_return q nd tnode rval
unfolding after_handler
after_refused q nd tnode now rval e = rw e refl

pub zero_code : (rval : Rval) → is_zero rval ≡ true → rval ≡ code 0
zero_code failed e = absurd (ground (arith, e))
zero_code (code n) e = ap code (ground arith)
