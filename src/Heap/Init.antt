-- ===== src/Heap/Init.antt =====
-- heap_init gives an empty heap, and reports failure otherwise.
use curl_loader.Base.{ℕ, ◌<◌, ◌≡◌, ◌≢◌, refl, Bool, true, arith, Option, none}
use curl_loader.Memory.{Hnode, Store, Machine}
use curl_loader.Mpool.{Mpool}
use curl_loader.Heap.{Heap}
use curl_loader.Heap.Operations.{heap_init, zero_heap, heap_empty}
use curl_loader.Heap.Valid.{IsHeap, node_at}

heap_init_ok :
    (pagesize : ℕ) (m : Machine) (size step : ℕ) (comparator : Bool) (prealloc : ℕ) {m' : Machine}
    {h : Heap}
    → heap_init pagesize m size step comparator prealloc ≡ (true, m', h)
    → (comparator ≡ true)
      × (h ≡ record zero_heap {
        max_heap_size = size;
        heap_increase_step = step;
        nodes_mpool = h.nodes_mpool;
      })
      × (h.nodes_mpool ≢ none)
unfolding heap_init
heap_init_ok pagesize m size step comparator prealloc e = ground arith

pub empty-IsHeap :
    (fcomp : Hnode → Hnode → Bool) (mem : Store) (size step : ℕ) (pool : Option Mpool)
    → 0 < size
    → IsHeap fcomp mem none
        (record zero_heap { max_heap_size = size; heap_increase_step = step; nodes_mpool = pool })
empty-IsHeap fcomp mem size step pool p = record {
  mapped = record {
    room = omega arith;
    mapped = λ i q. absurd (omega arith);
    named = λ i q. absurd (omega arith);
  };
  ordered = λ c q r. absurd (omega arith);
  solid = λ i q. absurd (omega arith);
  live = λ k s q e. absurd (ground arith);
  held_taken = λ k e. absurd (ground arith);
  held_apart = λ k i e q. absurd (omega arith);
  tracks = record {
    last_inside = p;
    lowest = λ k q e. omega arith;
    min_free = λ q. refl;
    min_passed = λ q. omega arith;
    min_upto = omega arith;
  };
}

-- A heap_init of a positive size that succeeds gives a valid heap of this size, which is empty and
-- maps every id to nothing.
pub heap_init-IsHeap :
    (fcomp : Hnode → Hnode → Bool) (pagesize : ℕ) (m : Machine) (size step : ℕ) (comparator : Bool)
    (prealloc : ℕ) {m' : Machine} {h : Heap}
    → 0 < size
    → heap_init pagesize m size step comparator prealloc ≡ (true, m', h)
    → IsHeap fcomp m'.mem none h
      × (heap_empty h ≡ true)
      × (h.max_heap_size ≡ size)
      × ((k : ℕ) → node_at m'.mem h k ≡ none)
unfolding heap_empty node_at
heap_init-IsHeap fcomp pagesize m size step comparator prealloc {m'} {h} p e =
    let (c, d, q) = heap_init_ok pagesize m size step comparator prealloc e in
    rw d (empty-IsHeap fcomp m'.mem size step h.nodes_mpool p, refl, refl, λ k. refl)
