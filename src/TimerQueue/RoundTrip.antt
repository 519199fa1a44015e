-- ===== src/TimerQueue/RoundTrip.antt =====
-- tq_schedule_timer followed by tq_cancel_timer.
use curl_loader.Base.{
  Bool, ℕ, ◌+◌, ◌≤◌, ◌<◌, ◌≡◌, ◌≢◌, ◌∙◌, ◌⊎◌, true, false, arith, Option, none, List, [], Yields,
  Yields-bind, Yields-imp, ◌>>=◌,
}
use curl_loader.Mpool.{Mpool}
use curl_loader.Heap.Valid.{held_count, node_at}
use curl_loader.TimerQueue.{TimerQueue, tq_schedule_timer, tq_cancel_timer}
use curl_loader.TimerQueue.Valid.{IsQueue, timer_at}
use curl_loader.TimerQueue.Schedule.{tq_schedule_timer_lem}
use curl_loader.TimerQueue.Cancel.{tq_cancel_timer_lem}

free_timer : (q : TimerQueue) (k : ℕ) → q.queue.ids_arr k ≡ none → timer_at q k ≡ none
unfolding timer_at node_at
free_timer q k e = ground (arith, e)

-- The call succeeds, and the queue has the timers that it had.
abbrev pub Restored : Option ℕ → TimerQueue → Bool × TimerQueue → Type 0
Restored held q (r, q') =
    (r ≡ true)
    × ((p' : Mpool) × (frees' : List ℕ) × IsQueue held q' p' frees')
    × (q'.queue.curr_heap_size ≡ q.queue.curr_heap_size)
    × ((k : ℕ) → timer_at q' k ≡ timer_at q k)

-- Where tq_schedule_timer can be called, a tq_cancel_timer with the id that it gave succeeds. The
-- queue is valid then, and has as many timers as before and the same ones under all ids.
pub tq_cancel_timer-tq_schedule_timer :
    {held : Option ℕ} {q : TimerQueue} {p : Mpool} {frees : List ℕ} (v : IsQueue held q p frees)
    (tnode : ℕ)
    → tnode ≢ 0
    → ((q.timers tnode).period ≡ 0) ⊎ (9 ≤ (q.timers tnode).period)
    → q.queue.curr_heap_size + held_count held < q.queue.max_heap_size
    → (frees ≢ []) ⊎ (q.machine.os.denies q.machine.os.calls ≡ false)
    → Yields (Restored held q) (tq_schedule_timer q tnode >>= λ (id, q1). tq_cancel_timer q1 id)
tq_cancel_timer-tq_schedule_timer {q = q} v tnode nonnull period space memory =
    Yields-bind (tq_schedule_timer_lem v tnode nonnull period space memory) λ (r, q1) (id, e, s).
      rw e (
        let (p1, frees1, v1) = s.valid in
        Yields-imp (tq_cancel_timer_lem v1 id tnode (s.view id ∙ ground arith)) λ (done, q') (d, c).
          (
            d,
            c.valid,
            omega (arith, c.size, s.size),
            λ k. c.view k ∙ ground (arith, s.view k, free_timer q id s.fresh),
          ))
