-- ===== src/Loader/Periodic/Fresh.antt =====
-- alloc_init_timer_waiting_queue: the queue that a batch begins with.
use curl_loader.Base.{ℕ, ◌≤◌, ◌<◌, ◌≡◌, true, arith, some}
use curl_loader.Memory.{Machine, cl_calloc}
use curl_loader.Heap.{Heap}
use curl_loader.Heap.Operations.{zero_heap}
use curl_loader.TimerQueue.{TimerNode, tq_init}
use curl_loader.TimerQueue.Init.{IsFresh, calloc-grows, tq_init-IsFresh}
use curl_loader.Loader.Periodic.{alloc_init_timer_waiting_queue}

cl_calloc-grows : (m : Machine) → m.os.brk ≤ (cl_calloc m 1 88).1.os.brk
unfolding cl_calloc
cl_calloc-grows m = calloc-grows m 1 88

alloc_ran :
    (pagesize : ℕ) (m : Machine) (size : ℕ) {m' : Machine} {queue : Heap}
    → alloc_init_timer_waiting_queue pagesize m size ≡ (some queue, m')
    → tq_init pagesize (cl_calloc m 1 88).1 zero_heap size 10 size ≡ (true, m', queue)
unfolding alloc_init_timer_waiting_queue
alloc_ran pagesize m size e = ground arith

-- A waiting queue that alloc_init_timer_waiting_queue gives has the size asked for, is valid with
-- every content of the timer nodes, has no timers, and has nodes to take.
pub alloc_init_timer_waiting_queue-IsFresh :
    (pagesize : ℕ) (m : Machine) (size : ℕ) (timers : ℕ → TimerNode) {m' : Machine} {queue : Heap}
    → 0 < m.os.brk
    → alloc_init_timer_waiting_queue pagesize m size ≡ (some queue, m')
    → IsFresh (record { machine = m'; timers = timers; queue = queue }) size
alloc_init_timer_waiting_queue-IsFresh pagesize m size timers pos e =
    tq_init-IsFresh pagesize (cl_calloc m 1 88).1 zero_heap size 10 size timers
      (omega (arith, pos, cl_calloc-grows m)) (alloc_ran pagesize m size e)
