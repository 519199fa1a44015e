-- ===== src/TimerQueue/Kept.antt =====
-- The id that a popped periodic timer keeps, and its release.
use curl_loader.Base.{
  ℕ, ◌-◌, ◌/◌, ◌<◌, ◌≡◌, ◌≢◌, refl, sym, ◌∙◌, inl, inr, Bool, true, false, arith, ltb, Option, none,
  some, List, update, eq-or-ne, Yields, yields, Yields-bind,
}
use curl_loader.Memory.{Hnode, Store}
use curl_loader.Mpool.{Mpool}
use curl_loader.Heap.{Heap}
use curl_loader.Heap.Ids.{TracksIds, release_node_id_lem}
use curl_loader.Heap.Valid.{IsHeap, node_at, node_at_away}
use curl_loader.TimerQueue.{TimerQueue, TimerNode, timer_node_comparator, release_kept_timer_id}
use curl_loader.TimerQueue.Valid.{IsQueue, timer_at}
use curl_loader.TimerQueue.Nodes.{IsLoose}

module _ (fcomp : Hnode → Hnode → Bool) (mem : Store) (h : Heap) (k low restore : ℕ)
    (v : IsHeap fcomp mem (some k) h) where
  abbrev let_go : Heap
  let_go = record h {
    ids_arr = update h.ids_arr k none;
    ids_min_free = low;
    ids_min_free_restore = restore;
  }

  let_go-IsHeap : TracksIds let_go → IsHeap fcomp mem none let_go
  let_go-IsHeap t = record {
    mapped = record {
      room = v.mapped.room;
      mapped = λ i p. ground (arith, v.mapped.mapped i p, v.held_apart k i refl p);
      named = v.mapped.named;
    };
    ordered = v.ordered;
    solid = v.solid;
    live = λ j s p e. ground (arith, e, v.live j s p);
    held_taken = λ j e. absurd (ground (arith, e));
    held_apart = λ j i e p. absurd (ground (arith, e));
    tracks = t;
  }

  let_go-node_at : (j : ℕ) → node_at mem let_go j ≡ node_at mem h j
  unfolding node_at
  let_go-node_at j = elim (eq-or-ne k j) [
    | inl e ↦ rw (← e) (ground (arith, node_at_away mem h k (λ i. v.held_apart k i refl)))
    | inr d ↦ ground arith
  ]

-- The id is free again, and nothing else has changed.
abbrev pub Released : TimerQueue → Mpool → List ℕ → ℕ → ℕ → Bool × TimerQueue → Type 0
Released q p frees id nd (r, q') =
    (r ≡ true)
    × IsQueue none q' p frees
    × IsLoose q' frees nd
    × ((k : ℕ) → timer_at q' k ≡ timer_at q k)
    × (q'.timers ≡ q.timers)
    × (q'.queue.ids_arr id ≡ none)

-- On a valid queue that keeps the id of a popped timer, release_kept_timer_id frees this id, and
-- the queue is valid with the same timers.
pub release_kept_timer_id_lem :
    {q : TimerQueue} {p : Mpool} {frees : List ℕ} (id nd : ℕ)
    → IsQueue (some id) q p frees
    → IsLoose q frees nd
    → Yields (Released q p frees id nd) (release_kept_timer_id q (some id))
unfolding release_kept_timer_id timer_at
release_kept_timer_id_lem {q} {p} id nd v l =
    let inside = (v.heap.held_taken id refl).0 in
    let not_over : ltb q.queue.max_heap_size id ≡ false = ground arith in
    rw not_over (
      Yields-bind (release_node_id_lem q.queue id v.heap.tracks inside) λ h' (low, restore, e, t).
        rw e (
          yields (
            refl,
            record {
              heap = let_go-IsHeap _ q.machine.mem q.queue id low restore v.heap (rw e at t);
              given = v.given;
              pool = v.pool;
              below = v.below;
              brk_pos = v.brk_pos;
              size_pos = v.size_pos;
              step_pos = v.step_pos;
              used = λ k a d.
                  v.used k a
                    (sym (let_go-node_at _ q.machine.mem q.queue id low restore v.heap k) ∙ d);
            },
            record {
              nonnull = l.nonnull;
              below = l.below;
              off = l.off;
              clear = l.clear;
              apart = l.apart;
            },
            (λ k. ground (arith, let_go-node_at _ q.machine.mem q.queue id low restore v.heap k)),
            refl,
            ground arith,
          )))

-- A change of a timer that is not in the queue leaves the queue valid.
pub changed-IsQueue :
    {held : Option ℕ} {q : TimerQueue} {p : Mpool} {frees : List ℕ} (tnode : ℕ) (timer : TimerNode)
    → IsQueue held q p frees
    → ((i : ℕ) → i < q.queue.curr_heap_size → (q.machine.mem (q.queue.heap i)).ctx ≢ tnode)
    → IsQueue held (record q { timers = update q.timers tnode timer }) p frees
unfolding timer_node_comparator
changed-IsQueue {held} {q} tnode timer v absent = record {
  heap = record {
    mapped = v.heap.mapped;
    ordered = λ c r s.
        ground (arith, v.heap.ordered c r s, absent c s, absent ((c - 1) / 2) (omega arith));
    solid = v.heap.solid;
    live = v.heap.live;
    held_taken = v.heap.held_taken;
    held_apart = v.heap.held_apart;
    tracks = v.heap.tracks;
  };
  given = v.given;
  pool = v.pool;
  below = v.below;
  brk_pos = v.brk_pos;
  size_pos = v.size_pos;
  step_pos = v.step_pos;
  used = v.used;
}
