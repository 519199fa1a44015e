-- ===== src/Tests/Queues.antt =====
-- Timer queues: the theorems at a queue with a periodic timer, and at an empty one.
use curl_loader.Base.{
  ℕ, ◌≤◌, ◌<◌, ◌≡◌, refl, false, arith, none, some, [], List, Yields, yields, inl, inr, ok, fault,
  ◌>>=◌,
}
use curl_loader.Mpool.{Mpool}
use curl_loader.Heap.{Heap}
use curl_loader.TimerQueue.{
  tq_cancel_timers, TimerQueue, Handler, code, tq_schedule_timer, tq_cancel_timer,
  tq_remove_nearest_timer, tq_time_to_nearest_timer, tq_dispatch_nearest_timer,
  release_kept_timer_id,
}
use curl_loader.TimerQueue.Valid.{IsQueue, timer_at}
use curl_loader.TimerQueue.Nodes.{IsLoose}
use curl_loader.TimerQueue.Schedule.{ScheduledAs, tq_schedule_timer_lem}
use curl_loader.TimerQueue.Cancel.{
  CancelledAs, NearestRemoved, tq_cancel_timer_lem, tq_cancel_timer_unknown, tq_cancel_timer_past,
  tq_remove_nearest_timer_lem, tq_time_to_nearest_timer_lem,
}
use curl_loader.TimerQueue.RoundTrip.{Restored, tq_cancel_timer-tq_schedule_timer}
use curl_loader.TimerQueue.CancelAll.{ThinnedAs, tq_cancel_timers_lem}
use curl_loader.TimerQueue.Kept.{Released, release_kept_timer_id_lem}
use curl_loader.TimerQueue.Dispatch.{DispatchedAs, IsHandled, tq_dispatch_nearest_timer_lem, popped}
use curl_loader.Heap.Valid.{node_at}
use curl_loader.Tests.{
  test_pool, one_mem, one_heap, held_heap, queue_of, one_timer-IsQueue, held_timer-IsQueue,
}

abbrev one_queue : TimerQueue
one_queue = queue_of one_mem one_heap

timer_at_one : timer_at one_queue 1 ≡ some 7
unfolding timer_at node_at
timer_at_one = refl

timer_at_two : timer_at one_queue 2 ≡ none
unfolding timer_at node_at
timer_at_two = refl

tq_schedule_timer_lem_example :
    Yields (ScheduledAs none one_queue 8) (tq_schedule_timer one_queue 8)
tq_schedule_timer_lem_example =
    tq_schedule_timer_lem one_timer-IsQueue 8 (omega arith) (inl refl) (omega arith) (inr refl)

tq_cancel_timer_lem_example :
    Yields (CancelledAs none one_queue 1) (tq_cancel_timer one_queue (some 1))
tq_cancel_timer_lem_example = tq_cancel_timer_lem one_timer-IsQueue 1 7 timer_at_one

tq_cancel_timer-tq_schedule_timer_example :
    Yields
      (Restored none one_queue)
      (tq_schedule_timer one_queue 8 >>= λ (id, q1). tq_cancel_timer q1 id)
tq_cancel_timer-tq_schedule_timer_example =
    tq_cancel_timer-tq_schedule_timer one_timer-IsQueue 8 (omega arith) (inl refl) (omega arith)
      (inr refl)

tq_cancel_timer_unknown_example : tq_cancel_timer one_queue (some 2) ≡ ok (false, one_queue)
tq_cancel_timer_unknown_example =
    tq_cancel_timer_unknown one_timer-IsQueue 2 refl (omega arith) timer_at_two

tq_cancel_timer_past_example : tq_cancel_timer one_queue (some 4) ≡ fault
tq_cancel_timer_past_example = tq_cancel_timer_past one_queue

tq_time_to_nearest_timer_lem_example :
    (tq_time_to_nearest_timer one_queue ≡ ok 20) × (timer_at one_queue 1 ≡ some 7) × (20 ≤ 20)
tq_time_to_nearest_timer_lem_example =
    tq_time_to_nearest_timer_lem one_timer-IsQueue (omega arith) 1 7 timer_at_one

tq_remove_nearest_timer_lem_example :
    Yields (NearestRemoved none one_queue) (tq_remove_nearest_timer one_queue)
tq_remove_nearest_timer_lem_example = tq_remove_nearest_timer_lem one_timer-IsQueue (omega arith)

-- The handler of screen input and the like: it leaves the queue alone.
abbrev idle : Handler
idle func tnode now q = ok (code 0, q)

-- The node that is popped is loose, and nothing else is in the queue.
idle_handles :
    (h : Heap) (p0 : Mpool) (frees0 : List ℕ)
    → IsQueue (some 1) (popped one_queue h) p0 frees0
    → IsLoose (popped one_queue h) frees0 50
    → h.curr_heap_size < h.max_heap_size
    → Yields
        (IsHandled (some 1) (popped one_queue h) 50 7 (code 0))
        (idle 3 7 25 (popped one_queue h))
idle_handles h p0 frees0 v l room = yields (record {
  rval = refl;
  valid = (p0, frees0, v, l);
  node = refl;
  timer = refl;
  absent = λ i p. ground (arith, l.apart i p);
  room = room;
  view = λ k. refl;
})

tq_dispatch_nearest_timer_lem_example :
    Yields (DispatchedAs one_queue 25 (code 0)) (tq_dispatch_nearest_timer idle one_queue 25)
tq_dispatch_nearest_timer_lem_example =
    tq_dispatch_nearest_timer_lem idle one_timer-IsQueue (omega arith) 25 (code 0) refl idle_handles

held-IsLoose : IsLoose (queue_of one_mem held_heap) [] 50
held-IsLoose = record {
  nonnull = λ e. omega (arith, e);
  below = omega arith;
  off = tt;
  clear = refl;
  apart = λ i p. absurd (omega arith);
}

release_kept_timer_id_lem_example :
    Yields
      (Released (queue_of one_mem held_heap) test_pool [] 1 50)
      (release_kept_timer_id (queue_of one_mem held_heap) (some 1))
release_kept_timer_id_lem_example = release_kept_timer_id_lem 1 50 held_timer-IsQueue held-IsLoose

tq_cancel_timers_lem_example : Yields (ThinnedAs none one_queue 7 0) (tq_cancel_timers one_queue 7)
tq_cancel_timers_lem_example = tq_cancel_timers_lem one_timer-IsQueue 7 (omega arith)
