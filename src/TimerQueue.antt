-- ===== src/TimerQueue.antt =====
-- timer_queue.c and timer_node.h: a heap of timers, ordered by their next shot.
pub mod Valid
pub mod Nodes
pub mod Taken
pub mod Schedule
pub mod Cancel
pub mod CancelAll
pub mod RoundTrip
pub mod Kept
pub mod Served
pub mod Dispatch
pub mod Init
use curl_loader.Base.{
  ℕ, zero, suc, ◌+◌, ◌-◌, ◌%◌, ◌^◌, Bool, true, false, ◌&&◌, ◌||◌, not, Option, none, some, Run, ok,
  fault, out_of_fuel, ◌>>=◌, within, ltb, leb, ◌==◌, if◌then◌else◌, update, List,
}
use curl_loader.Memory.{Hnode, Store, Machine}
use curl_loader.Mpool.{Mpool, mpool_take_obj, mpool_return_obj}
use curl_loader.Heap.{Heap, load}
use curl_loader.Heap.Operations.{
  node_reset, heap_init, heap_reset, heap_push, heap_pop, heap_remove_node, heap_top_node,
  heap_empty, heap_size, release_node_id,
}

-- `timer_id` is `none` for -1. The function pointer `func_timer` is a number, which the handlers of the
-- client code resolve.
pub record TimerNode : Type 0 where
  pub next_timer : ℕ
  pub period : ℕ
  pub func_timer : ℕ
  pub timer_id : Option ℕ

-- The state that the functions work on: the memory with its allocator, the timer nodes of the users, by
-- their addresses, and the queue.
pub record TimerQueue : Type 0 where
  pub machine : Machine
  pub timers : ℕ → TimerNode
  pub queue : Heap

-- TQ_RESOLUTION, in milliseconds
abbrev pub tq_resolution : ℕ
tq_resolution = 9

unfoldable pub timer_node_comparator : (ℕ → TimerNode) → Hnode → Hnode → Bool
timer_node_comparator timers left right =
    ltb (timers left.ctx).next_timer (timers right.ctx).next_timer

-- `old` is the queue before the call.
unfoldable pub tq_init : ℕ → Machine → Heap → ℕ → ℕ → ℕ → Bool × Machine × Heap
tq_init pagesize m old initial_size increase_step nodes_prealloc =
    if initial_size == 0
    then (false, m, old)
    else heap_init pagesize m initial_size increase_step true nodes_prealloc

-- `tnode->timer_id = id`
abbrev pub set_timer_id : TimerQueue → ℕ → Option ℕ → TimerQueue
set_timer_id q tnode id = record q {
  timers = update q.timers tnode (record (q.timers tnode) { timer_id = id });
}

-- The object that the pool of nodes gives; `none` is NULL.
unfoldable pub take_hnode : TimerQueue → Option ℕ × TimerQueue
take_hnode q = elim q.queue.nodes_mpool [
  | none ↦ (none, q)
  | some p ↦
      let (obj, m, p') = mpool_take_obj q.machine p in
      (obj, record q { machine = m; queue = record (q.queue) { nodes_mpool = some p' } })
]

-- node_reset and mpool_return_obj, with the result of the latter.
unfoldable pub give_back : TimerQueue → ℕ → Bool × TimerQueue
give_back q node =
    let mem = node_reset q.machine.mem node in
    let reset = record q { machine = record (q.machine) { mem = mem } } in
    elim q.queue.nodes_mpool [
      | none ↦ (false, reset)
      | some p ↦
          let (done, mem', p') = mpool_return_obj mem p node in
          (
            done,
            record q {
              machine = record (q.machine) { mem = mem' };
              queue = record (q.queue) { nodes_mpool = some p' };
            },
          )
    ]

-- heap_push on the queue, which compares by the timers.
abbrev pub push_timer : TimerQueue → ℕ → Bool → Run (Option ℕ × TimerQueue)
push_timer q nd keep =
    heap_push (timer_node_comparator q.timers) q.machine q.queue nd keep >>= λ (id, m, h).
    ok (id, record q { machine = m; queue = h })

-- `none` is the result -1.
unfoldable pub tq_schedule_timer : TimerQueue → ℕ → Run (Option ℕ × TimerQueue)
unfolding take_hnode
tq_schedule_timer q tnode =
    let marked = set_timer_id q tnode none in
    let (obj, q1) = take_hnode marked in
    let period = (q.timers tnode).period in
    let schedule : Run (Option ℕ × TimerQueue) = elim obj [
      | none ↦ ok (none, q1)
      | some new_hnode ↦
          let mem =
            update q1.machine.mem new_hnode (record (q1.machine.mem new_hnode) { ctx = tnode }) in
          push_timer (record q1 { machine = record (q1.machine) { mem = mem } }) new_hnode false
          >>= λ (id, q2). ok (id, set_timer_id q2 tnode id)
    ] in
    if tnode == 0
    then ok (none, q)
    else if not (period == 0) && ltb period tq_resolution
    then ok (none, marked)
    else schedule

-- `timer_id` is `none` for a negative number. `true` is the result 0 and `false` is -1.
unfoldable pub tq_cancel_timer : TimerQueue → Option ℕ → Run (Bool × TimerQueue)
tq_cancel_timer q none = ok (false, q)
tq_cancel_timer q (some timer_id) =
    let h = q.queue in
    let remove : ℕ → Run (Bool × TimerQueue) = λ node_slot. do
      (removed, h') ←
          heap_remove_node (timer_node_comparator q.timers) q.machine.mem h node_slot false
      elim removed [
        | none ↦ ok (false, record q { queue = h' })
        | some nd ↦ ok (true, (give_back (record q { queue = h' }) nd).1)
      ]
    in let cancel : ℕ → Run (Bool × TimerQueue) = λ node_slot. do
      node ← load h node_slot
      if timer_id == (q.machine.mem node).node_id then remove node_slot else ok (false, q)
      in let read : Run (Bool × TimerQueue) = do
        slot ← within (ltb timer_id h.max_heap_size) (h.ids_arr timer_id)
        elim slot [ none ↦ ok (false, q) | some node_slot ↦ cancel node_slot ]
        in if ltb h.max_heap_size timer_id then ok (false, q) else read

-- The for loop of tq_cancel_timers. Each round removes a node or goes to the next slot. `none` is the
-- result -1.
unfoldable pub cancel_timers_loop : ℕ → TimerQueue → ℕ → ℕ → ℕ → Run (Option ℕ × TimerQueue)
cancel_timers_loop zero q tnode index counter = out_of_fuel
cancel_timers_loop (suc fuel) q tnode index counter =
    let h = q.queue in
    let skip = cancel_timers_loop fuel q tnode (index + 1) counter in
    let cancel : Run (Option ℕ × TimerQueue) = do
      (removed, h') ← heap_remove_node (timer_node_comparator q.timers) q.machine.mem h index false
      elim removed [
        | none ↦ ok (none, record q { queue = h' })
        | some nd ↦
            let (done, q') = give_back (record q { queue = h' }) nd in
            let rest = cancel_timers_loop fuel q' tnode index (counter + 1) in
            if done then rest else ok (none, q')
      ]
    in let test : Run (Option ℕ × TimerQueue) = do
      node ← load h index
      if (q.machine.mem node).ctx == tnode then cancel else skip
      in if ltb index h.curr_heap_size then test else ok (some counter, q)

-- Each round lowers the number of slots from the index on, so this fuel is enough.
unfoldable pub tq_cancel_timers : TimerQueue → ℕ → Run (Option ℕ × TimerQueue)
unfolding cancel_timers_loop
tq_cancel_timers q tnode =
    let run = cancel_timers_loop (suc q.queue.curr_heap_size) q tnode 0 0 in
    if tnode == 0 then ok (none, q) else run

-- ULONG_MAX
abbrev pub ulong_max : ℕ
ulong_max = 2 ^ 64 - 1

unfoldable pub tq_time_to_nearest_timer : TimerQueue → Run ℕ
tq_time_to_nearest_timer q =
    if q.queue.curr_heap_size == 0
    then ok ulong_max
    else (load q.queue 0 >>= λ node. ok (q.timers (q.machine.mem node).ctx).next_timer)

-- `none` is the result -1, and `some tnode` the result 0 with `*tnode` filled.
unfoldable pub tq_remove_nearest_timer : TimerQueue → Run (Option ℕ × TimerQueue)
tq_remove_nearest_timer q = do
  (popped, h) ← heap_pop (timer_node_comparator q.timers) q.machine.mem q.queue false
  elim popped [
    | none ↦ ok (none, record q { queue = h })
    | some node ↦
        let (done, q') = give_back (record q { queue = h }) node in
        ok (if done then some (q.machine.mem node).ctx else none, q')
  ]

unfoldable pub release_kept_timer_id : TimerQueue → Option ℕ → Run (Bool × TimerQueue)
release_kept_timer_id q none = ok (false, q)
release_kept_timer_id q (some timer_id) =
    let release : Run (Bool × TimerQueue) =
      release_node_id q.queue timer_id >>= λ h. ok (true, record q { queue = h }) in
    if ltb q.queue.max_heap_size timer_id then ok (false, q) else release

-- The result of a handler: -1, or a number from 0 on.
pub data Rval : Type 0 where
  failed : Rval
  code : ℕ → Rval

abbrev pub is_zero : Rval → Bool
is_zero failed = false
is_zero (code n) = n == 0

-- The handlers behind `func_timer`: they take the timer and the time, and may change the queue.
abbrev pub Handler : Type 0
Handler = ℕ → ℕ → ℕ → TimerQueue → Run (Rval × TimerQueue)

-- From the label node_return on.
unfoldable pub node_return : TimerQueue → ℕ → ℕ → Rval → Run (Rval × TimerQueue)
node_return q node tnode rval = do
  let timer = q.timers tnode
  (kept, q1) ← if timer.period == 0 then ok (true, q) else release_kept_timer_id q timer.timer_id
  let (done, q2) = give_back q1 node
  ok (if done then rval else failed, q2)

-- After the handler: a periodic timer that it accepts is pushed again.
unfoldable pub after_handler : TimerQueue → ℕ → ℕ → ℕ → Rval → Run (Rval × TimerQueue)
unfolding node_return
after_handler q node tnode now_time rval =
    let timer = q.timers tnode in
    let again = record q {
      timers =
          update q.timers tnode (record timer { next_timer = (now_time + timer.period) % 2 ^ 64 });
    } in
    let push_again : Run (Rval × TimerQueue) = do
      (id, q') ← push_timer again node true
      elim id [ none ↦ node_return q' node tnode failed | some _ ↦ ok (code 0, q') ]
    in if not (is_zero rval)
      then node_return q node tnode rval
      else if timer.period == 0
      then node_return q node tnode rval
      else push_again

-- NULL, where the queue is empty, is dereferenced.
unfoldable pub tq_dispatch_nearest_timer : Handler → TimerQueue → ℕ → Run (Rval × TimerQueue)
unfolding after_handler
tq_dispatch_nearest_timer handle q now_time = do
  top ← heap_top_node q.queue
  top_node ← elim top [ none ↦ fault | some node ↦ ok node ]
  let keep = not ((q.timers (q.machine.mem top_node).ctx).period == 0)
  (popped, h) ← heap_pop (timer_node_comparator q.timers) q.machine.mem q.queue keep
  node ← elim popped [ none ↦ fault | some nd ↦ ok nd ]
  let tnode = (q.machine.mem node).ctx
  (rval, q1) ← handle (q.timers tnode).func_timer tnode now_time (record q { queue = h })
  after_handler q1 node tnode now_time rval

unfoldable pub tq_empty : TimerQueue → Bool
tq_empty q = heap_empty q.queue

unfoldable pub tq_size : TimerQueue → ℕ
tq_size q = heap_size q.queue

unfoldable pub tq_release : Machine → Heap → Run (List ℕ × Machine × Heap)
tq_release m tq = heap_reset m tq
