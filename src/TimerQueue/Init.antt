-- ===== src/TimerQueue/Init.antt =====
-- tq_init: the queue that it makes is valid and empty.
use curl_loader.Base.{ℕ, ◌≤◌, ◌<◌, ◌≡◌, true, arith, none, some, List, length, Bool-cases, inl, inr}
use curl_loader.Memory.{Machine, calloc, calloc_denied, calloc_ok}
use curl_loader.Mpool.{Mpool, zero_pool, mpool_init}
use curl_loader.Mpool.Init.{mpool_init-IsPool}
use curl_loader.Heap.{Heap}
use curl_loader.Heap.Operations.{heap_init, heap_empty}
use curl_loader.Heap.Init.{heap_init-IsHeap}
use curl_loader.TimerQueue.{TimerNode, TimerQueue, timer_node_comparator, tq_init}
use curl_loader.TimerQueue.Valid.{IsQueue, timer_at}

pub calloc-grows : (m : Machine) (num size : ℕ) → m.os.brk ≤ (calloc m num size).1.os.brk
calloc-grows m num size = elim (Bool-cases (m.os.denies m.os.calls)) [
  | inl e ↦ rw (calloc_denied m num size e) (omega arith)
  | inr e ↦ rw (calloc_ok m num size e) (omega arith)
]

-- The machine after the two arrays of a heap and the struct of its pool are allocated.
abbrev before_pool : Machine → ℕ → Machine
before_pool m size = (calloc (calloc (calloc m size 8).1 size 8).1 1 32).1

before_pool-grows : (m : Machine) (size : ℕ) → m.os.brk ≤ (before_pool m size).os.brk
before_pool-grows m size =
    let m1 = (calloc m size 8).1 in
    let m2 = (calloc m1 size 8).1 in
    omega (arith, calloc-grows m size 8, calloc-grows m1 size 8, calloc-grows m2 1 32)

heap_init_ran :
    (pagesize : ℕ) (m : Machine) (size step prealloc : ℕ) {m' : Machine} {h : Heap}
    → heap_init pagesize m size step true prealloc ≡ (true, m', h)
    → (p : Mpool) × (h.nodes_mpool ≡ some p)
      × (mpool_init pagesize (before_pool m size) zero_pool 32 prealloc ≡ (true, m', p))
unfolding heap_init
heap_init_ran pagesize m size step prealloc e =
    ((mpool_init pagesize (before_pool m size) zero_pool 32 prealloc).2, ground arith, ground arith)

tq_init_ran :
    (pagesize : ℕ) (m : Machine) (old : Heap) (size step prealloc : ℕ) {m' : Machine} {h : Heap}
    → tq_init pagesize m old size step prealloc ≡ (true, m', h)
    → (0 < size) × (heap_init pagesize m size step true prealloc ≡ (true, m', h))
unfolding tq_init
tq_init_ran pagesize m old size step prealloc e = ground arith

heap_empty_size : (h : Heap) → heap_empty h ≡ true → h.curr_heap_size ≡ 0
unfolding heap_empty
heap_empty_size h e = ground arith

-- A fresh queue: valid, without timers, and with nodes to take.
pub record IsFresh (q : TimerQueue) (size : ℕ) : Type 0 where
  pub valid : (p : Mpool) × (frees : List ℕ) × (0 < length frees) × IsQueue none q p frees
  pub empty : q.queue.curr_heap_size ≡ 0
  pub room : q.queue.max_heap_size ≡ size
  pub absent : (k : ℕ) → timer_at q k ≡ none

-- A tq_init that succeeds gives a queue of the size asked for that is valid, has no timers, and has
-- nodes to take.
pub tq_init-IsFresh :
    (pagesize : ℕ) (m : Machine) (old : Heap) (size step prealloc : ℕ) (timers : ℕ → TimerNode)
    {m' : Machine} {h : Heap}
    → 0 < m.os.brk
    → tq_init pagesize m old size step prealloc ≡ (true, m', h)
    → IsFresh (record { machine = m'; timers = timers; queue = h }) size
unfolding timer_at
tq_init-IsFresh pagesize m old size step prealloc timers {m'} {h} pos e =
    let (nonempty, made) = tq_init_ran pagesize m old size step prealloc e in
    let (p, given, ready) = heap_init_ran pagesize m size step prealloc made in
    let brk : 0 < (before_pool m size).os.brk = omega (arith, pos, before_pool-grows m size) in
    let (frees, count, pool, below, up, at_size, at_step) =
      mpool_init-IsPool pagesize (before_pool m size) prealloc brk ready in
    let (heap, empty, room, none_at) =
      heap_init-IsHeap (timer_node_comparator timers) pagesize m size step true prealloc nonempty
        made in
    record {
      valid = (
        p,
        frees,
        count,
        record {
          heap = heap;
          given = given;
          pool = pool;
          below = below;
          brk_pos = omega (arith, brk, up);
          size_pos = omega (arith, at_size);
          step_pos = at_step;
          used = λ k nd d. absurd (ground (arith, none_at k, d));
        },
      );
      empty = heap_empty_size h empty;
      room = room;
      absent = λ k. ground (arith, none_at k);
    }
