-- ===== src/TimerQueue/Taken.antt =====
-- A node that the pool of a timer queue gives is loose.
use curl_loader.Base.{ℕ, ◌<◌, ◌≡◌, refl, sym, ◌∙◌, arith, Option, none, some, update, List, IsOff}
use curl_loader.Memory.{Machine}
use curl_loader.Mpool.{Mpool}
use curl_loader.Mpool.Chain.{IsPool-update}
use curl_loader.Mpool.Take.{IsTaken}
use curl_loader.Heap.Valid.{node_at}
use curl_loader.Heap.Frame.{SameNodes, SameNodes-IsHeap}
use curl_loader.TimerQueue.{TimerQueue}
use curl_loader.TimerQueue.Valid.{IsQueue, timer_at, slot-used}
use curl_loader.TimerQueue.Nodes.{IsLoose, IsHeap-nodes, same-view, same-node, same-timer}

module _ {held : Option ℕ} {q : TimerQueue} {p : Mpool} {frees : List ℕ}
    (v : IsQueue held q p frees) (ctx obj : ℕ) (ys : List ℕ) (m' : Machine) (p' : Mpool)
    (t : IsTaken q.machine p frees obj ys m' p') where
  -- The queue after `new_hnode->ctx = ctx`.
  abbrev pub filled : TimerQueue
  filled = record q {
    machine = record m' { mem = update m'.mem obj (record (m'.mem obj) { ctx = ctx }) };
    queue = record (q.queue) { nodes_mpool = some p' };
  }

  same : SameNodes q.machine.mem filled.machine.mem q.queue
  same i r =
      let (below, off, clear) = slot-used v i r in
      let (apart, off', kept) = t.used (q.queue.heap i) below off in ground (arith, apart, kept)

  filled-used :
      (k a : ℕ)
      → node_at filled.machine.mem filled.queue k ≡ some a
      → (a < m'.os.brk) × IsOff a ys × ((filled.machine.mem a).next ≡ 0)
  filled-used k a e =
      let old = sym (same-view v filled.machine.mem same (some p') k) ∙ e in
      let (below, off, clear) = v.used k a old in
      let (apart, off', kept) = t.used a below off in
      let (alike, slot) = same-node v filled.machine.mem same none k a old in
      (omega (arith, t.grows, below), off', rw alike clear)

  pub filled-IsQueue :
      IsQueue held filled p' ys
      × IsLoose filled ys obj
      × ((k : ℕ) → timer_at filled k ≡ timer_at q k)
  filled-IsQueue = (
    record {
      heap =
          IsHeap-nodes _ _ held _ _
            (SameNodes-IsHeap q.machine.mem filled.machine.mem q.queue same _ held v.heap);
      given = refl;
      pool = IsPool-update m'.mem p' ys obj _ t.off t.pool;
      below = t.below.1;
      brk_pos = omega (arith, t.grows, v.brk_pos);
      size_pos = rw t.size_kept v.size_pos;
      step_pos = rw t.step_kept v.step_pos;
      used = filled-used;
    },
    record {
      nonnull = t.nonnull;
      below = t.below.0;
      off = t.off;
      clear = ground (arith, t.clear);
      apart = λ i r e.
          let (below, off, clear) = slot-used v i r in
          (t.used (q.queue.heap i) below off).0 (sym e);
    },
    same-timer v filled.machine.mem same (some p') filled refl refl,
  )
