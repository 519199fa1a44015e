-- ===== src/Tests/Heaps.antt =====
-- Heaps and pools: the theorems at concrete heaps.
use curl_loader.Base.{
  ℕ, ◌<◌, ◌≡◌, refl, Bool, true, false, arith, none, some, ltb, [], ◌∷◌, Yields, inr, List, ok,
  fault, ◌==◌, if◌then◌else◌,
}
use curl_loader.Memory.{Hnode, Store, Machine, zero_node, calloc}
use curl_loader.Mpool.{Mpool, mpool_take_obj, mpool_add}
use curl_loader.Mpool.Chain.{IsPool}
use curl_loader.Mpool.Take.{IsTaken, mpool_take_obj_lem}
use curl_loader.Mpool.Free.{mpool_mem_release, mpool_mem_release_interior}
use curl_loader.Heap.{Heap, less}
use curl_loader.Heap.Operations.{
  heap_push, heap_remove_node, heap_top_node, heap_increase, zero_heap,
}
use curl_loader.Heap.Order.{IsStrictWeak}
use curl_loader.Heap.Ids.{TracksIds}
use curl_loader.Heap.Placed.{PushedAs}
use curl_loader.Heap.Push.{PushedFresh, heap_push_fresh, heap_push_kept}
use curl_loader.Heap.Remove.{
  RemovedAs, heap_remove_node_frees, heap_remove_node_keeps, heap_top_node_least,
}
use curl_loader.Heap.Exhausted.{heap_increase-TracksIds, heap_push_exhausted}
use curl_loader.Tests.{
  test_os, test_pool, one_mem, one_heap, held_heap, one_heap-IsHeap, held_heap-IsHeap,
}

abbrev by_ctx : Hnode → Hnode → Bool
by_ctx a b = ltb a.ctx b.ctx

by_ctx-IsStrictWeak : IsStrictWeak by_ctx
by_ctx-IsStrictWeak = record {
  asym = λ a b e. ground arith;
  not_less_trans = λ a b c d e. ground arith;
}

abbrev one_machine : Machine
one_machine = record { os = test_os; mem = one_mem }

heap_push_fresh_example :
    Yields
      (PushedFresh by_ctx none one_machine one_heap 60)
      (heap_push by_ctx one_machine one_heap 60 false)
heap_push_fresh_example =
    heap_push_fresh by_ctx by_ctx-IsStrictWeak one_machine one_heap 60 (omega arith)
      (λ i p. ground arith) none (one_heap-IsHeap by_ctx) (omega arith)

heap_push_kept_example :
    Yields
      (PushedAs by_ctx none one_machine held_heap 50 1)
      (heap_push by_ctx one_machine held_heap 50 true)
heap_push_kept_example =
    heap_push_kept by_ctx by_ctx-IsStrictWeak one_machine held_heap 50 (omega arith)
      (λ i p. absurd (omega arith)) (held_heap-IsHeap by_ctx) (omega arith)

heap_remove_node_frees_example :
    Yields
      (RemovedAs by_ctx one_mem none one_heap 0)
      (heap_remove_node by_ctx one_mem one_heap 0 false)
heap_remove_node_frees_example =
    heap_remove_node_frees by_ctx by_ctx-IsStrictWeak one_mem one_heap 0 none
      (one_heap-IsHeap by_ctx) (omega arith)

heap_remove_node_keeps_example :
    Yields
      (RemovedAs by_ctx one_mem (some 1) one_heap 0)
      (heap_remove_node by_ctx one_mem one_heap 0 true)
heap_remove_node_keeps_example =
    heap_remove_node_keeps by_ctx by_ctx-IsStrictWeak one_mem one_heap 0 none
      (one_heap-IsHeap by_ctx) (omega arith) refl

heap_top_node_least_example :
    (heap_top_node one_heap ≡ ok (some 50)) × (less by_ctx one_mem 50 50 ≡ false)
heap_top_node_least_example =
    heap_top_node_least by_ctx one_mem none one_heap by_ctx-IsStrictWeak (one_heap-IsHeap by_ctx) 0
      (omega arith)

-- Two slots with all ids in use, before and after an increase.
abbrev full_heap : Heap
full_heap = record zero_heap {
  max_heap_size = 2;
  curr_heap_size = 2;
  heap_increase_step = 2;
  ids_arr = λ k. if k == 0 then some 1 else some 0;
  ids_last = 0;
  ids_min_free = 2;
}

full_heap-TracksIds : TracksIds full_heap
full_heap-TracksIds = record {
  last_inside = omega arith;
  lowest = λ k p e. absurd (ground arith);
  min_free = λ p. absurd (omega arith);
  min_passed = λ p. absurd (omega arith);
  min_upto = omega arith;
}

abbrev increased : Bool × Machine × Heap
increased = heap_increase one_machine full_heap

heap_increase_runs : increased ≡ (true, increased.1, increased.2)
unfolding heap_increase calloc
heap_increase_runs = refl

heap_increase-TracksIds_example :
    (increased.2.ids_last < increased.2.ids_min_free)
    × (increased.2.ids_min_free < increased.2.max_heap_size)
    × (¬ TracksIds increased.2)
heap_increase-TracksIds_example =
    heap_increase-TracksIds one_machine full_heap full_heap-TracksIds (λ k p e. ground (arith, e))
      heap_increase_runs

-- Four ids in use of four, but the lowest free one is taken to be 2.
abbrev blind_heap : Heap
blind_heap = record zero_heap {
  max_heap_size = 4;
  curr_heap_size = 3;
  ids_arr = λ k. some k;
  ids_last = 1;
  ids_min_free = 2;
}

-- One slot is free, but no id.
abbrev exhausted_heap : Heap
exhausted_heap = record blind_heap { ids_min_free = 4 }

heap_push_exhausted_example : heap_push by_ctx one_machine exhausted_heap 60 false ≡ fault
heap_push_exhausted_example =
    heap_push_exhausted by_ctx one_machine exhausted_heap 60 (omega arith) (omega arith)
      (omega arith) (omega arith) (λ k p q e. ground (arith, e))

-- The pool has no object, so two are allocated and one is taken.
mpool_take_obj_lem_example :
    (obj : ℕ) × (ys : List ℕ) × (m' : Machine) × (p' : Mpool) × (mpool_take_obj one_machine
        test_pool
      ≡ (some obj, m', p'))
    × IsTaken one_machine test_pool [] obj ys m' p'
mpool_take_obj_lem_example =
    mpool_take_obj_lem one_machine test_pool []
      (record { chain = refl; distinct = tt; size = refl }) (omega arith) (omega arith)
      (omega arith) tt (inr refl)

-- The pool with the objects 40 and 48.
abbrev two_mem : Store
two_mem a = if a == 40 then record zero_node { next = 48; mem_block_start = true } else zero_node

abbrev two_pool : Mpool
two_pool = record test_pool { free_list_head = 40; free_list_size = 2; obj_alloc_num = 2 }

two_pool-IsPool : IsPool two_mem two_pool (40 ∷ 48 ∷ [])
two_pool-IsPool = record {
  chain = (refl, (λ e. omega (arith, e)), (refl, (λ e. omega (arith, e)), refl));
  distinct = (((λ e. omega (arith, e)), tt), (tt, tt));
  size = refl;
}

-- The object 48 is behind the start of the block of 40.
mpool_mem_release_interior_example : mpool_mem_release two_mem two_pool 2 ≡ fault
mpool_mem_release_interior_example =
    mpool_mem_release_interior two_mem two_pool 2 (40 ∷ []) 48 [] two_pool-IsPool refl (omega arith)

abbrev added : Store × Mpool
added = mpool_add two_mem two_pool 56
