-- ===== src/Tests.antt =====
-- Concrete heaps and queues, at which the theorems are applied.
use curl_loader.Base.{
  ℕ, ◌+◌, ◌<◌, ◌≡◌, ◌≢◌, refl, true, false, arith, none, some, ◌==◌, if◌then◌else◌, [], Bool,
}
use curl_loader.Memory.{Hnode, Store, Os, Machine, zero_node}
use curl_loader.Mpool.{Mpool, zero_pool}
use curl_loader.Mpool.Chain.{IsPool}
use curl_loader.Heap.{Heap}
use curl_loader.Heap.Operations.{zero_heap}
use curl_loader.Heap.Valid.{IsHeap, node_at}
use curl_loader.Heap.Init.{empty-IsHeap}
use curl_loader.TimerQueue.{TimerNode, TimerQueue, timer_node_comparator}
use curl_loader.TimerQueue.Valid.{IsQueue}
mod Heaps
mod Queues
mod Loading
mod Parsing
mod Configs
mod Periodic
mod Counting
mod Options

abbrev pub test_os : Os
test_os = record { brk = 100; calls = 0; denies = λ _. false }

abbrev pub test_pool : Mpool
test_pool = record zero_pool { increase_step = 2; obj_size = 32 }

-- Room for four nodes, and none in it.
abbrev pub empty_heap : Heap
empty_heap = record zero_heap {
  max_heap_size = 4;
  heap_increase_step = 4;
  nodes_mpool = some test_pool;
}

-- The node 50 of the timer 7, under the id 1.
abbrev pub one_mem : Store
one_mem a = if a == 50 then record zero_node { node_id = 1; ctx = 7 } else zero_node

abbrev pub one_heap : Heap
one_heap = record empty_heap {
  heap = λ i. if i == 0 then 50 else 0;
  curr_heap_size = 1;
  ids_arr = λ k. if k == 1 then some 0 else none;
  ids_last = 1;
}

-- The heap after the pop of the node 50, whose id is kept.
abbrev pub held_heap : Heap
held_heap = record one_heap { curr_heap_size = 0 }

pub one_heap-IsHeap : (fcomp : Hnode → Hnode → Bool) → IsHeap fcomp one_mem none one_heap
one_heap-IsHeap fcomp = record {
  mapped = record { room = omega arith; mapped = λ i p. ground arith; named = λ i p. ground arith };
  ordered = λ c p q. absurd (omega arith);
  solid = λ i p. ground arith;
  live = λ k s p e. ground arith;
  held_taken = λ k e. absurd (ground arith);
  held_apart = λ k i e p. absurd (ground arith);
  tracks = record {
    last_inside = omega arith;
    lowest = λ k p e. omega arith;
    min_free = λ p. refl;
    min_passed = λ p. omega arith;
    min_upto = omega arith;
  };
}

pub held_heap-IsHeap : (fcomp : Hnode → Hnode → Bool) → IsHeap fcomp one_mem (some 1) held_heap
held_heap-IsHeap fcomp = record {
  mapped = record {
    room = omega arith;
    mapped = λ i p. absurd (omega arith);
    named = λ i p. absurd (omega arith);
  };
  ordered = λ c p q. absurd (omega arith);
  solid = λ i p. absurd (omega arith);
  live = λ k s p e. ground arith;
  held_taken = λ k e. (ground arith, ground arith);
  held_apart = λ k i e p. absurd (omega arith);
  tracks = record {
    last_inside = omega arith;
    lowest = λ k p e. omega arith;
    min_free = λ p. refl;
    min_passed = λ p. omega arith;
    min_upto = omega arith;
  };
}

-- The timer 7 is a periodic one, with the id 1, and all others are one-shot.
abbrev pub test_timers : ℕ → TimerNode
test_timers a =
    if a == 7
    then record { next_timer = 20; period = 10; func_timer = 3; timer_id = some 1 }
    else record { next_timer = 30; period = 0; func_timer = 4; timer_id = none }

abbrev pub queue_of : Store → Heap → TimerQueue
queue_of mem h = record {
  machine = record { os = test_os; mem = mem };
  timers = test_timers;
  queue = h;
}

no_chain : (mem : Store) → IsPool mem test_pool []
no_chain mem = record { chain = refl; distinct = tt; size = refl }

pub no_timer-IsQueue : IsQueue none (queue_of one_mem empty_heap) test_pool []
unfolding node_at
no_timer-IsQueue = record {
  heap = empty-IsHeap _ one_mem 4 4 (some test_pool) (omega arith);
  given = refl;
  pool = no_chain one_mem;
  below = tt;
  brk_pos = omega arith;
  size_pos = omega arith;
  step_pos = omega arith;
  used = λ k nd e. absurd (ground (arith, e));
}

pub one_timer-IsQueue : IsQueue none (queue_of one_mem one_heap) test_pool []
unfolding node_at
one_timer-IsQueue = record {
  heap = one_heap-IsHeap _;
  given = refl;
  pool = no_chain one_mem;
  below = tt;
  brk_pos = omega arith;
  size_pos = omega arith;
  step_pos = omega arith;
  used = λ k nd e. (ground (arith, e), tt, ground arith);
}

pub held_timer-IsQueue : IsQueue (some 1) (queue_of one_mem held_heap) test_pool []
unfolding node_at
held_timer-IsQueue = record {
  heap = held_heap-IsHeap _;
  given = refl;
  pool = no_chain one_mem;
  below = tt;
  brk_pos = omega arith;
  size_pos = omega arith;
  step_pos = omega arith;
  used = λ k nd e. absurd (ground (arith, e));
}
