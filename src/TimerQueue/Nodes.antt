-- ===== src/TimerQueue/Nodes.antt =====
-- How the nodes of a timer queue come from its pool, enter the heap, leave it and go back.
use curl_loader.Base.{
  ℕ, ◌+◌, ◌<◌, ◌≡◌, ◌≢◌, refl, sym, ◌∙◌, ◌⊎◌, inl, inr, Bool, true, false, arith, ◌==◌,
  if◌then◌else◌, Option, none, some, update, eq-or-ne, List, ◌∷◌, IsOff,
}
use curl_loader.Memory.{Hnode, Store, Machine}
use curl_loader.Mpool.{Mpool, mpool_add, mpool_return_obj}
use curl_loader.Mpool.Chain.{IsPool, IsPool-update, mpool_add-IsPool}
use curl_loader.Heap.{Heap}
use curl_loader.Heap.Operations.{node_reset}
use curl_loader.Heap.Valid.{IsHeap, node_at, node_at-slot, node_at_slot}
use curl_loader.Heap.Frame.{SameNodes, SameNodes-IsHeap, SameNodes-node_at}
use curl_loader.Heap.Placed.{IsPushed}
use curl_loader.Heap.Removed.{IsRemoved}
use curl_loader.TimerQueue.{TimerQueue, timer_node_comparator, give_back}
use curl_loader.TimerQueue.Valid.{IsQueue, timer_at, slot-used}

-- `nd` belongs neither to the heap nor to the free list.
pub record IsLoose (q : TimerQueue) (frees : List ℕ) (nd : ℕ) : Type 0 where
  pub nonnull : nd ≢ 0
  pub below : nd < q.machine.os.brk
  pub off : IsOff nd frees
  pub clear : (q.machine.mem nd).next ≡ 0
  pub apart : (i : ℕ) → i < q.queue.curr_heap_size → q.queue.heap i ≢ nd

-- The heap does not depend on its pool.
pub IsHeap-nodes :
    (fcomp : Hnode → Hnode → Bool) (mem : Store) (held : Option ℕ) (h : Heap) (pool : Option Mpool)
    → IsHeap fcomp mem held h
    → IsHeap fcomp mem held (record h { nodes_mpool = pool })
IsHeap-nodes fcomp mem held h pool v = record {
  mapped = record { room = v.mapped.room; mapped = v.mapped.mapped; named = v.mapped.named };
  ordered = v.ordered;
  solid = v.solid;
  live = v.live;
  held_taken = v.held_taken;
  held_apart = v.held_apart;
  tracks = record {
    last_inside = v.tracks.last_inside;
    lowest = v.tracks.lowest;
    min_free = v.tracks.min_free;
    min_passed = v.tracks.min_passed;
    min_upto = v.tracks.min_upto;
  };
}

module _ {held : Option ℕ} {q : TimerQueue} {p : Mpool} {frees : List ℕ}
    (v : IsQueue held q p frees) where
  -- The view through the timers' nodes, where one more id is in use.
  old-used :
      (k a id nd : ℕ)
      → (if k == id then some nd else node_at q.machine.mem q.queue k) ≡ some a
      → ((k ≡ id) × (nd ≡ a)) ⊎ ((k ≢ id) × (node_at q.machine.mem q.queue k ≡ some a))
  old-used k a id nd e = elim (eq-or-ne k id) [
    | inl d ↦ inl (d, ground (arith, e, d))
    | inr d ↦ inr (d, ground (arith, e, d))
  ]

  module _ (held' : Option ℕ) (nd id : ℕ) (m' : Machine) (h' : Heap) (l : IsLoose q frees nd)
      (s : IsPushed (timer_node_comparator q.timers) held' q.machine q.queue nd id m' h') where
    pushed-used :
        (k a : ℕ)
        → node_at m'.mem h' k ≡ some a
        → (a < m'.os.brk) × IsOff a frees × ((m'.mem a).next ≡ 0)
    pushed-used k a e = elim (old-used k a id nd (sym (s.view k) ∙ e)) [
      | inl (d, c) ↦ rw (s.memory, ← c) (l.below, l.off, ground (arith, l.clear))
      | inr (d, c) ↦
          let (below, off, clear) = v.used k a c in rw s.memory (below, off, ground (arith, clear))
    ]

    pushed-ctx :
        (k : ℕ) (nd' : ℕ)
        → node_at q.machine.mem q.queue k ≡ some nd'
        → (m'.mem nd').ctx ≡ (q.machine.mem nd').ctx
    pushed-ctx k nd' e = rw s.memory (ground arith)

    -- The queue with `nd` pushed under `id`.
    pub pushed-IsQueue :
        IsQueue held' (record q { machine = m'; queue = h' }) p frees
        × ((k : ℕ)
            → timer_at (record q { machine = m'; queue = h' }) k
              ≡ (if k == id then some (q.machine.mem nd).ctx else timer_at q k))
    unfolding timer_at
    pushed-IsQueue = (
      record {
        heap = s.valid;
        given = s.nodes ∙ v.given;
        pool = rw s.memory (IsPool-update q.machine.mem p frees nd _ l.off v.pool);
        below = rw s.memory v.below;
        brk_pos = rw s.memory v.brk_pos;
        size_pos = v.size_pos;
        step_pos = v.step_pos;
        used = pushed-used;
      },
      λ k. ground (arith, s.view k, s.memory),
    )

  module _ (held' : Option ℕ) (slot : ℕ) (h' : Heap) (inside : slot < q.queue.curr_heap_size)
      (s : IsRemoved (timer_node_comparator q.timers) q.machine.mem held' q.queue slot h') where
    -- The queue without the node of a slot.
    pub removed-IsQueue :
        IsQueue held' (record q { queue = h' }) p frees
        × IsLoose (record q { queue = h' }) frees (q.queue.heap slot)
        × ((k : ℕ)
            → timer_at (record q { queue = h' }) k
              ≡ (if k == (q.machine.mem (q.queue.heap slot)).node_id then none else timer_at q k))
    unfolding timer_at
    removed-IsQueue =
        let (below, off, clear) = slot-used v slot inside in
        (
          record {
            heap = s.valid;
            given = s.nodes ∙ v.given;
            pool = v.pool;
            below = v.below;
            brk_pos = v.brk_pos;
            size_pos = v.size_pos;
            step_pos = v.step_pos;
            used = λ k a e. v.used k a (ground (arith, s.view k, e));
          },
          record {
            nonnull = v.heap.solid slot inside;
            below = below;
            off = off;
            clear = clear;
            apart = λ i r e. ground (
              arith,
              e,
              s.view (q.machine.mem (h'.heap i)).node_id,
              node_at_slot q.machine.mem h' s.valid.mapped i r,
            );
          },
          λ k. ground (arith, s.view k),
        )

  -- Memory may change outside the slots, and the pool.
  module _ (mem' : Store) (same : SameNodes q.machine.mem mem' q.queue) (pool : Option Mpool) where
    pub same-view :
        (k : ℕ)
        → node_at mem' (record (q.queue) { nodes_mpool = pool }) k ≡ node_at q.machine.mem q.queue k
    unfolding node_at
    same-view k = SameNodes-node_at q.machine.mem mem' q.queue same v.heap.mapped k

    pub same-node :
        (k a : ℕ)
        → node_at q.machine.mem q.queue k ≡ some a
        → (mem' a ≡ q.machine.mem a)
          × ((i : ℕ) × (i < q.queue.curr_heap_size) × (q.queue.heap i ≡ a))
    same-node k a e =
        let (i, r, at, d, c) = node_at-slot q.machine.mem q.queue k a e in
        (rw (← at) (same i r), (i, r, at))

    pub same-timer :
        (q' : TimerQueue)
        → q'.machine.mem ≡ mem'
        → q'.queue ≡ record (q.queue) { nodes_mpool = pool }
        → (k : ℕ) → timer_at q' k ≡ timer_at q k
    unfolding timer_at
    same-timer q' e d k = at (node_at q.machine.mem q.queue k) refl
      where
        at : (o : Option ℕ) → node_at q.machine.mem q.queue k ≡ o → timer_at q' k ≡ timer_at q k
        at none c = rw (timer_at, e, d, same-view k, c) refl
        at (some a) c = rw (timer_at, e, d, same-view k, c) (ground (arith, same-node k a c))

  module _ (nd : ℕ) (l : IsLoose q frees nd) where
    abbrev reset : Store
    reset = update q.machine.mem nd (record (q.machine.mem nd) { node_id = 0; ctx = 0; next = 0 })

    abbrev linked : Store
    linked = update reset nd (record (reset nd) { next = p.free_list_head })

    abbrev returned : TimerQueue
    returned = record q {
      machine = record (q.machine) { mem = linked };
      queue = record (q.queue) {
        nodes_mpool =
            some (record p { free_list_head = nd; free_list_size = p.free_list_size + 1 });
      };
    }

    added :
        IsPool linked
          (record p { free_list_head = nd; free_list_size = p.free_list_size + 1 })
          (nd ∷ frees)
        × ((mpool_add reset p nd).0 ≡ linked)
    unfolding mpool_add
    added =
        let (pool, memory) =
          mpool_add-IsPool reset p nd frees (IsPool-update q.machine.mem p frees nd _ l.off v.pool)
            l.nonnull l.off (ground arith) in
        (rw memory at pool, memory)

    give_back_runs : give_back q nd ≡ (true, returned)
    unfolding give_back node_reset mpool_return_obj mpool_add
    give_back_runs =
        let some_nd : (nd == 0) ≡ false = ground (arith, l.nonnull) in
        rw (v.given, some_nd, added.1) refl

    returned-same : SameNodes q.machine.mem linked q.queue
    returned-same i r = ground (arith, l.apart i r)

    returned-used :
        (k a : ℕ)
        → node_at linked returned.queue k ≡ some a
        → (a < q.machine.os.brk) × IsOff a (nd ∷ frees) × ((linked a).next ≡ 0)
    returned-used k a e =
        let old = sym (same-view linked returned-same returned.queue.nodes_mpool k) ∙ e in
        let (below, off, clear) = v.used k a old in
        let (same, (i, r, at)) = same-node linked returned-same none k a old in
        (below, ((λ c. l.apart i r (at ∙ sym c)), off), rw same clear)

    -- The queue after the node went back to the pool.
    pub returned-IsQueue :
        let (done, q') = give_back q nd in
        (done ≡ true)
        × (p' : Mpool) × IsQueue held q' p' (nd ∷ frees)
        × ((k : ℕ) → timer_at q' k ≡ timer_at q k)
        × (q'.timers ≡ q.timers)
        × (q'.queue ≡ record (q.queue) { nodes_mpool = some p' })
    unfolding timer_at
    returned-IsQueue = rw give_back_runs (
      refl,
      _,
      record {
        heap =
            IsHeap-nodes _ _ held _ _
              (SameNodes-IsHeap q.machine.mem linked q.queue returned-same _ held v.heap);
        given = refl;
        pool = added.0;
        below = (l.below, v.below);
        brk_pos = v.brk_pos;
        size_pos = v.size_pos;
        step_pos = v.step_pos;
        used = returned-used;
      },
      same-timer linked returned-same _ returned refl refl,
      refl,
      refl,
    )
