-- ===== src/TimerQueue/Valid.antt =====
-- The invariant of a timer queue between two calls, and the view of its users: a partial map from timer-ids
-- to timers.
use mathlib.Core.Path.{fun_ext}
use curl_loader.Base.{ℕ, ◌<◌, ◌≡◌, arith, Option, none, some, List, All, IsOff}
use curl_loader.Mpool.{Mpool}
use curl_loader.Mpool.Chain.{IsPool}
use curl_loader.Heap.Order.{IsStrictWeak}
use curl_loader.Heap.Valid.{IsHeap, node_at, node_at_slot}
use curl_loader.TimerQueue.{TimerNode, TimerQueue, timer_node_comparator, set_timer_id}

-- The timer of a timer-id.
unfoldable pub timer_at : TimerQueue → ℕ → Option ℕ
timer_at q k = elim (node_at q.machine.mem q.queue k) [
  | none ↦ none
  | some nd ↦ some (q.machine.mem nd).ctx
]

-- `frees` are the free nodes of the pool `p`. Those of the queue are others.
pub record IsQueue (held : Option ℕ) (q : TimerQueue) (p : Mpool) (frees : List ℕ) : Type 0 where
  pub heap : IsHeap (timer_node_comparator q.timers) q.machine.mem held q.queue
  pub given : q.queue.nodes_mpool ≡ some p
  pub pool : IsPool q.machine.mem p frees
  pub below : All (λ x. x < q.machine.os.brk) frees
  pub brk_pos : 0 < q.machine.os.brk
  pub size_pos : 0 < p.obj_size
  pub step_pos : 0 < p.increase_step
  pub used :
      (k nd : ℕ)
      → node_at q.machine.mem q.queue k ≡ some nd
      → (nd < q.machine.os.brk) × IsOff nd frees × ((q.machine.mem nd).next ≡ 0)

pub timer_node_comparator-IsStrictWeak :
    (timers : ℕ → TimerNode) → IsStrictWeak (timer_node_comparator timers)
unfolding timer_node_comparator
timer_node_comparator-IsStrictWeak timers = record {
  asym = λ a b e. ground arith;
  not_less_trans = λ a b c d e. ground arith;
}

-- The order does not look at timer-ids.
pub comparator_set_timer_id :
    (q : TimerQueue) (tnode : ℕ) (id : Option ℕ)
    → timer_node_comparator (set_timer_id q tnode id).timers ≡ timer_node_comparator q.timers
unfolding timer_node_comparator
comparator_set_timer_id q tnode id = fun_ext λ a. fun_ext λ b. ground arith

-- A node that is off the free list and new to the queue is in no slot.
pub slot-used :
    {held : Option ℕ} {q : TimerQueue} {p : Mpool} {frees : List ℕ} (v : IsQueue held q p frees)
    (i : ℕ)
    → i < q.queue.curr_heap_size
    → (q.queue.heap i < q.machine.os.brk)
      × IsOff (q.queue.heap i) frees
      × ((q.machine.mem (q.queue.heap i)).next ≡ 0)
slot-used {held} {q} v i p =
    v.used (q.machine.mem (q.queue.heap i)).node_id (q.queue.heap i)
      (node_at_slot q.machine.mem q.queue v.heap.mapped i p)
