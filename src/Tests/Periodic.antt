-- ===== src/Tests/Periodic.antt =====
-- The waiting queue of a batch: its beginning, and the end of its periodic timers.
use curl_loader.Base.{ℕ, ◌≡◌, refl, arith, Option, none, some, Yields, false, ◌==◌}
use curl_loader.Memory.{Machine, calloc, cl_calloc}
use curl_loader.Mpool.{mpool_init}
use curl_loader.Heap.{Heap}
use curl_loader.Heap.Operations.{zero_heap, heap_init}
use curl_loader.Heap.Valid.{node_at}
use curl_loader.TimerQueue.{TimerQueue, tq_init}
use curl_loader.TimerQueue.Valid.{timer_at}
use curl_loader.TimerQueue.Init.{IsFresh}
use curl_loader.Loader.Periodic.{
  PeriodicTimers, alloc_init_timer_waiting_queue, periodic_nodes, cancel_periodic_timers,
}
use curl_loader.Loader.Periodic.Fresh.{alloc_init_timer_waiting_queue-IsFresh}
use curl_loader.Loader.Periodic.Cancel.{among, IsOwn, AreCleared, cancel_periodic_timers-AreCleared}
use curl_loader.Tests.{test_os, test_timers, one_mem, one_heap, queue_of, one_timer-IsQueue}

abbrev fresh_machine : Machine
fresh_machine = record { os = test_os; mem = one_mem }

-- The results for six timers, on a page of 4096 bytes.
abbrev allocated : Option Heap × Machine
allocated = alloc_init_timer_waiting_queue 4096 fresh_machine 6

abbrev allocated_queue : Heap
allocated_queue = elim allocated.0 [ none ↦ zero_heap | some h ↦ h ]

alloc_runs : allocated ≡ (some allocated_queue, allocated.1)
unfolding alloc_init_timer_waiting_queue cl_calloc tq_init heap_init calloc mpool_init
alloc_runs = refl

alloc_init_timer_waiting_queue-IsFresh_example :
    IsFresh (record { machine = allocated.1; timers = test_timers; queue = allocated_queue }) 6
alloc_init_timer_waiting_queue-IsFresh_example =
    alloc_init_timer_waiting_queue-IsFresh 4096 fresh_machine 6 test_timers (omega arith) alloc_runs

-- The logfile timer is the node 7, and the others are not scheduled.
abbrev test_nodes : PeriodicTimers
test_nodes = record {
  logfile_timer_node = 7;
  clients_num_inc_timer_node = 8;
  screen_input_timer_node = 9;
  req_rate_timer_node = 10;
}

abbrev periodic_queue : TimerQueue
periodic_queue = queue_of one_mem one_heap

seven-IsOwn : IsOwn (periodic_nodes test_nodes) periodic_queue 7
unfolding timer_at node_at among
seven-IsOwn k = (λ e. ground (arith, e), λ e. (ground (arith, e), λ u c. ground (arith, e, c)))

others-IsOwn :
    (t : ℕ)
    → test_timers t ≡ record { next_timer = 30; period = 0; func_timer = 4; timer_id = none }
    → (t == 7) ≡ false
    → IsOwn (periodic_nodes test_nodes) periodic_queue t
unfolding timer_at node_at among
others-IsOwn t s d k = (λ e. ground (arith, e, d), λ e. absurd (ground (arith, s, e)))

cancel_periodic_timers-AreCleared_example :
    Yields
      (AreCleared (periodic_nodes test_nodes) periodic_queue)
      (cancel_periodic_timers test_nodes periodic_queue)
cancel_periodic_timers-AreCleared_example =
    cancel_periodic_timers-AreCleared test_nodes one_timer-IsQueue (
      seven-IsOwn,
      (others-IsOwn 8 refl refl, (others-IsOwn 9 refl refl, (others-IsOwn 10 refl refl, tt))),
    )
