-- ===== src/Heap/Placed.antt =====
-- The steps of heap_push once the id of the node is chosen.
use curl_loader.Base.{
  ℕ, suc, ◌+◌, ◌<◌, ◌≡◌, ◌≢◌, refl, ap, ◌∙◌, ◌↔◌, inl, inr, Bool, arith, ◌==◌, if◌then◌else◌,
  Option, none, some, update, update_self, update_ne, eq-or-ne, Yields, yields, Yields-bind,
}
use curl_loader.Memory.{Hnode, Store, Machine}
use curl_loader.Heap.{Heap, less}
use curl_loader.Heap.Operations.{place_node}
use curl_loader.Heap.Slots.{IsMapped, Settled}
use curl_loader.Heap.Order.{IsStrictWeak, less-IsStrictWeak, IsOrdered}
use curl_loader.Heap.Insert.{insert_restores}
use curl_loader.Heap.Ids.{TracksIds}
use curl_loader.Heap.Valid.{IsHeap, node_at, node_at_slot, node_at_away, in_heap}
use curl_loader.Heap.Frame.{SameNodes, SameNodes-IsMapped, SameNodes-IsOrdered}
use curl_loader.Heap.Finish.{
  IsAway, free-before, free-IsAway, IsAway-found, sized-IsHeap, node_at-held, node_at-IsAway,
}

-- What heap_push of `nd` under `id` does on success.
pub record IsPushed (fcomp : Hnode → Hnode → Bool) (held : Option ℕ) (m : Machine) (h : Heap)
    (nd id : ℕ) (m' : Machine) (h' : Heap) : Type 0 where
  pub memory : m' ≡ record m { mem = update m.mem nd (record (m.mem nd) { node_id = id }) }
  pub valid : IsHeap fcomp m'.mem held h'
  pub size : h'.curr_heap_size ≡ h.curr_heap_size + 1
  pub room : h'.max_heap_size ≡ h.max_heap_size
  pub nodes : h'.nodes_mpool ≡ h.nodes_mpool
  pub view : (k : ℕ) → node_at m'.mem h' k ≡ (if k == id then some nd else node_at m.mem h k)

-- The result of heap_push is `id`, and the heap is as IsPushed says.
abbrev pub PushedAs :
    (Hnode → Hnode → Bool) → Option ℕ → Machine → Heap → ℕ → ℕ → Option ℕ × Machine × Heap → Type 0
PushedAs fcomp held m h nd id (r, m', h') = (r ≡ some id) × IsPushed fcomp held m h nd id m' h'

module _ (fcomp : Hnode → Hnode → Bool) (sw : IsStrictWeak fcomp) (m : Machine) (h : Heap)
    (held : Option ℕ) (nd id last low : ℕ) (mapped : IsMapped m.mem h.curr_heap_size h)
    (ordered : IsOrdered (less fcomp m.mem) h.curr_heap_size h.heap)
    (solid : (i : ℕ) → i < h.curr_heap_size → h.heap i ≢ 0) (nonnull : nd ≢ 0)
    (apart : (i : ℕ) → i < h.curr_heap_size → h.heap i ≢ nd)
    (space : h.curr_heap_size < h.max_heap_size) (named : id < h.max_heap_size)
    (own : IsAway m.mem h.curr_heap_size h.heap id)
    (live : (k t : ℕ)
      → k < h.max_heap_size
      → h.ids_arr k ≡ some t
      → IsAway m.mem h.curr_heap_size h.heap k
      → k ≢ id
      → held ≡ some k)
    (kept : (k : ℕ)
      → held ≡ some k
      → (k < h.max_heap_size)
        × (h.ids_arr k ≢ none)
        × IsAway m.mem h.curr_heap_size h.heap k
        × (k ≢ id))
    (tracks : (ids : ℕ → Option ℕ)
      → ids id ≢ none
      → ((k : ℕ) → k ≢ id → (ids k ≡ none) ↔ (h.ids_arr k ≡ none))
      → TracksIds (record h { ids_last = last; ids_min_free = low; ids_arr = ids })) where
  abbrev n : ℕ
  n = h.curr_heap_size

  abbrev h1 : Heap
  h1 = record h { ids_last = last; ids_min_free = low }

  abbrev mem : Store
  mem = update m.mem nd (record (m.mem nd) { node_id = id })

  abbrev v : ℕ → ℕ
  v = update h.heap n nd

  same : SameNodes m.mem mem h
  same i p = ground (arith, apart i p)

  id_of_nd : (mem nd).node_id ≡ id
  id_of_nd = ground arith

  IsAway-v : (k : ℕ) → IsAway m.mem n h.heap k → k ≢ id → IsAway mem (suc n) v k
  IsAway-v k away d i p = ground (arith, away i, same i, id_of_nd)

  IsAway-heap : (k : ℕ) → IsAway mem (suc n) v k → IsAway m.mem n h.heap k
  IsAway-heap k away i p = ground (arith, away i, same i p)

  away-id : (k : ℕ) → IsAway mem (suc n) v k → k ≢ id
  away-id k away e = ground (arith, away n (omega arith), id_of_nd)

  module _ (h3 : Heap) (s : Settled mem (suc n) v h1 h3)
      (o : IsOrdered (less fcomp mem) (suc n) h3.heap) where
    status : (k : ℕ) → k ≢ id → (h3.ids_arr k ≡ none) ↔ (h.ids_arr k ≡ none)
    status k d = (
      free-before fcomp mem (suc n) v h1 h3 s k,
      λ e. s.others k (IsAway-v k (λ i p c. ground (arith, mapped.mapped i p)) d) ∙ e,
    )

    id_taken : h3.ids_arr id ≢ none
    id_taken e =
        away-id id
          (IsAway-found fcomp mem (suc n) v h1 h3 s id
            (free-IsAway fcomp mem (suc n) v h1 h3 s id e))
          refl

    pushed-IsHeap : IsHeap fcomp mem held (record h3 { curr_heap_size = suc n })
    pushed-IsHeap =
        sized-IsHeap fcomp mem (suc n) v h1 h3 s held o (λ i p. ground (arith, nonnull, solid i))
          (λ k t p e away. live k t p e (IsAway-heap k away) (away-id k away))
          (λ k e. let (p, d, away, c) = kept k e in (p, d, IsAway-v k away c))
          (tracks h3.ids_arr id_taken status)

    abbrev after : Heap
    after = record h3 { curr_heap_size = suc n }

    view_id : node_at mem after id ≡ some nd
    view_id =
        let at_end = node_at-held fcomp mem (suc n) v h1 h3 s n (omega arith) in
        rw (update_self h.heap n nd, id_of_nd) at at_end

    view_old : (i : ℕ) → i < n → node_at mem after (m.mem (h.heap i)).node_id ≡ some (h.heap i)
    view_old i p =
        let at = node_at-held fcomp mem (suc n) v h1 h3 s i (omega arith) in
        rw (update_ne h.heap n nd i (omega arith), same i p) at at

    pushed-view : (k : ℕ) → node_at mem after k ≡ (if k == id then some nd else node_at m.mem h k)
    pushed-view k = elim (eq-or-ne k id) [
      | inl e ↦ rw e (ground (arith, view_id))
      | inr d ↦ elim (in_heap m.mem h k mapped) [
        | inl (i, p, e) ↦ rw (← e) (ground (arith, view_old i p, node_at_slot m.mem h mapped i p))
        | inr away ↦ ground (
          arith,
          node_at_away m.mem h k away,
          node_at-IsAway fcomp mem (suc n) v h1 h3 s k (IsAway-v k away d),
        )
      ]
    ]

    pushed :
        IsPushed fcomp held m h nd id
          (record m { mem = mem })
          (record h3 { curr_heap_size = h3.curr_heap_size + 1 })
    pushed =
        let same_size : h3.curr_heap_size ≡ n = ap (λ x. x.curr_heap_size) s.rest in
        let grown : h3.curr_heap_size + 1 ≡ suc n = omega (arith, same_size) in
        rw grown (record {
          memory = refl;
          valid = pushed-IsHeap;
          size = omega arith;
          room = ap (λ x. x.max_heap_size) s.rest;
          nodes = ap (λ x. x.nodes_mpool) s.rest;
          view = pushed-view;
        })

  pub place_node_restores : Yields (PushedAs fcomp held m h nd id) (place_node fcomp m h1 nd id)
  unfolding place_node
  place_node_restores =
      let still = SameNodes-IsMapped m.mem mem h same mapped in
      Yields-bind
        (insert_restores fcomp mem (less-IsStrictWeak fcomp mem sw) h1 nd
          (record { room = still.room; mapped = still.mapped; named = still.named })
          (SameNodes-IsOrdered m.mem mem h same fcomp ordered) space (rw id_of_nd named)
          (λ i p. rw (same i p, id_of_nd) (own i p)))
        λ h3 (s, o). yields (refl, pushed h3 s o)
