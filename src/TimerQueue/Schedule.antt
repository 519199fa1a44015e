-- ===== src/TimerQueue/Schedule.antt =====
-- tq_schedule_timer: a new timer gets an id of its own, and the others stay as they are.
use mathlib.Core.Path.{fun_ext}
use curl_loader.Base.{
  ℕ, ◌+◌, ◌≤◌, ◌<◌, ◌≡◌, ◌≢◌, refl, ◌⊎◌, false, ◌&&◌, not, arith, ltb, ◌==◌, if◌then◌else◌, Option,
  none, some, update, List, [], ok, Yields, yields, Yields-ok, ◌>>=◌,
}
use curl_loader.Memory.{Machine}
use curl_loader.Mpool.{Mpool, mpool_take_obj}
use curl_loader.Mpool.Take.{mpool_take_obj_lem}
use curl_loader.Heap.Push.{heap_push_fresh}
use curl_loader.Heap.Valid.{held_count}
use curl_loader.TimerQueue.{
  TimerQueue, timer_node_comparator, set_timer_id, take_hnode, tq_schedule_timer, push_timer,
}
use curl_loader.TimerQueue.Valid.{
  IsQueue, timer_at, timer_node_comparator-IsStrictWeak, comparator_set_timer_id,
}
use curl_loader.TimerQueue.Nodes.{pushed-IsQueue}
use curl_loader.TimerQueue.Taken.{filled, filled-IsQueue}

-- The timer `tnode` was added to `q` under `id`.
pub record IsScheduled (held : Option ℕ) (q : TimerQueue) (tnode id : ℕ) (q' : TimerQueue)
    : Type 0 where
  pub valid : (p' : Mpool) × (frees' : List ℕ) × IsQueue held q' p' frees'
  pub fresh : q.queue.ids_arr id ≡ none
  pub view : (k : ℕ) → timer_at q' k ≡ (if k == id then some tnode else timer_at q k)
  pub timers : q'.timers ≡ update q.timers tnode (record (q.timers tnode) { timer_id = some id })
  pub size : q'.queue.curr_heap_size ≡ q.queue.curr_heap_size + 1

-- The call gave the id of the new timer.
abbrev pub ScheduledAs : Option ℕ → TimerQueue → ℕ → Option ℕ × TimerQueue → Type 0
ScheduledAs held q tnode (r, q') = (id : ℕ) × (r ≡ some id) × IsScheduled held q tnode id q'

-- A change of a timer-id leaves the queue valid.
pub renamed-IsQueue :
    {held : Option ℕ} {q : TimerQueue} {p : Mpool} {frees : List ℕ} (tnode : ℕ) (id : Option ℕ)
    → IsQueue held q p frees
    → IsQueue held (set_timer_id q tnode id) p frees
renamed-IsQueue {held} {q} tnode id v = record {
  heap = rw (comparator_set_timer_id q tnode id) v.heap;
  given = v.given;
  pool = v.pool;
  below = v.below;
  brk_pos = v.brk_pos;
  size_pos = v.size_pos;
  step_pos = v.step_pos;
  used = v.used;
}

take_runs :
    (q : TimerQueue) (p : Mpool) (obj : ℕ) (m' : Machine) (p' : Mpool)
    → q.queue.nodes_mpool ≡ some p
    → mpool_take_obj q.machine p ≡ (some obj, m', p')
    → take_hnode q
      ≡ (some obj, record q { machine = m'; queue = record (q.queue) { nodes_mpool = some p' } })
unfolding take_hnode
take_runs q p obj m' p' given taken = ground (arith, given, taken)

-- tq_schedule_timer of a timer that it accepts, once the pool has given a node.
schedule_runs :
    (q : TimerQueue) (p : Mpool) (tnode obj : ℕ) (m' : Machine) (p' : Mpool)
    → tnode ≢ 0
    → ((q.timers tnode).period ≡ 0) ⊎ (9 ≤ (q.timers tnode).period)
    → q.queue.nodes_mpool ≡ some p
    → mpool_take_obj q.machine p ≡ (some obj, m', p')
    → tq_schedule_timer q tnode ≡ (
        push_timer
          (record (set_timer_id q tnode none) {
            machine = record m' { mem = update m'.mem obj (record (m'.mem obj) { ctx = tnode }) };
            queue = record (q.queue) { nodes_mpool = some p' };
          })
          obj
          false
        >>= λ (id, q2). ok (id, set_timer_id q2 tnode id))
unfolding tq_schedule_timer
schedule_runs q p tnode obj m' p' nonnull period given taken =
    let some_tnode : (tnode == 0) ≡ false = ground (arith, nonnull) in
    let accepted : (not ((q.timers tnode).period == 0) && ltb (q.timers tnode).period 9) ≡ false =
      ground (arith, period) in
    simp (some_tnode, accepted, take_runs (set_timer_id q tnode none) p obj m' p' given taken)

module _ {held : Option ℕ} {q : TimerQueue} {p : Mpool} {frees : List ℕ}
    (v : IsQueue held q p frees) (tnode : ℕ) (nonnull : tnode ≢ 0)
    (period : ((q.timers tnode).period ≡ 0) ⊎ (9 ≤ (q.timers tnode).period))
    (space : q.queue.curr_heap_size + held_count held < q.queue.max_heap_size)
    (memory : (frees ≢ []) ⊎ (q.machine.os.denies q.machine.os.calls ≡ false)) where
  -- On a valid queue with a slot and an id to spare, and with memory for a node, tq_schedule_timer
  -- of a timer that is one-shot or has a period of 9 ms at least ends and gives an id that was
  -- free. The id is the timer's then, every other id is as before, the timer_id of the node is set
  -- and nothing else of the timers, the queue has one timer more and is valid.
  pub tq_schedule_timer_lem : Yields (ScheduledAs held q tnode) (tq_schedule_timer q tnode)
  unfolding timer_at
  tq_schedule_timer_lem =
      let marked = set_timer_id q tnode none in
      let v1 = renamed-IsQueue tnode none v in
      let (obj, ys, m', p', taken, t) =
        mpool_take_obj_lem q.machine p frees v.pool v.brk_pos v.size_pos v.step_pos v.below
          memory in
      let (v2, loose, same) = filled-IsQueue v1 tnode obj ys m' p' t in
      let at_push =
        heap_push_fresh (timer_node_comparator marked.timers)
          (timer_node_comparator-IsStrictWeak marked.timers)
          (filled v1 tnode obj ys m' p' t).machine (filled v1 tnode obj ys m' p' t).queue obj
          loose.nonnull loose.apart held v2.heap space in
      let ((r, m2, h2), runs, (id, free, (named, pushed))) = Yields-ok at_push in
      let (v3, view) = pushed-IsQueue v2 held obj id m2 h2 loose pushed in
      rw (schedule_runs q p tnode obj m' p' nonnull period v.given taken, runs, named)
        (yields (
          id,
          refl,
          record {
            valid = (p', ys, renamed-IsQueue tnode (some id) v3);
            fresh = free;
            view = λ k. ground (arith, view k, same k);
            timers = fun_ext λ a. ground arith;
            size = pushed.size;
          },
        ))
