-- ===== src/Heap/Push.antt =====
-- heap_push on a heap with room.
use curl_loader.Base.{
  ℕ, ◌+◌, ◌<◌, ◌≡◌, ◌≢◌, refl, ◌↔◌, inl, inr, Bool, true, false, arith, Option, none, some, Yields,
  Yields-bind, Yields-imp, eq-or-ne,
}
use curl_loader.Memory.{Hnode, Machine}
use curl_loader.Heap.{Heap}
use curl_loader.Heap.Operations.{push_node, heap_push}
use curl_loader.Heap.Order.{IsStrictWeak}
use curl_loader.Heap.Ids.{TracksIds-status, heap_get_node_id_finds}
use curl_loader.Heap.Valid.{IsHeap, held_count, free_id}
use curl_loader.Heap.Placed.{PushedAs, place_node_restores}

pub enough_room :
    (fcomp : Hnode → Hnode → Bool) (m : Machine) (h : Heap) (nd : ℕ)
    → nd ≢ 0
    → (keep : Bool) → h.curr_heap_size < h.max_heap_size
    → heap_push fcomp m h nd keep ≡ push_node fcomp m h nd keep
unfolding heap_push
enough_room fcomp m h nd nonnull keep space = ground arith

-- A new node was pushed under an id that was free.
abbrev pub PushedFresh :
    (Hnode → Hnode → Bool) → Option ℕ → Machine → Heap → ℕ → Option ℕ × Machine × Heap → Type 0
PushedFresh fcomp held m h nd r = (id : ℕ) × (h.ids_arr id ≡ none) × PushedAs fcomp held m h nd id r

module _ (fcomp : Hnode → Hnode → Bool) (sw : IsStrictWeak fcomp) (m : Machine) (h : Heap) (nd : ℕ)
    (nonnull : nd ≢ 0) (apart : (i : ℕ) → i < h.curr_heap_size → h.heap i ≢ nd) where
  -- On a valid heap with a slot and an id to spare, heap_push of a node that is not in it ends, and
  -- gives an id that was free. The heap is valid then, has one node more, and maps this id to the
  -- node and every other id to what it was.
  pub heap_push_fresh :
      (held : Option ℕ)
      → IsHeap fcomp m.mem held h
      → h.curr_heap_size + held_count held < h.max_heap_size
      → Yields (PushedFresh fcomp held m h nd) (heap_push fcomp m h nd false)
  unfolding push_node
  heap_push_fresh held v space =
      let (k, p, e) = free_id fcomp m.mem held h v space in
      rw (enough_room fcomp m h nd nonnull false (omega arith)) (
        Yields-bind (heap_get_node_id_finds h k v.tracks p e) λ x (last, low, d, t). rw d (
          Yields-imp
            (place_node_restores fcomp sw m h held nd (x.0) last low v.mapped v.ordered v.solid
              nonnull apart (omega arith) t.inside
              (λ i q c. ground (arith, v.mapped.mapped i q, t.free))
              (λ j s q f away c. elim (v.live j s q f) [
                | inl g ↦ g
                | inr (i, g) ↦ absurd (away s i g)
              ])
              (λ j f. (
                (v.held_taken j f).0,
                (v.held_taken j f).1,
                (λ i. v.held_apart j i f),
                λ c. (v.held_taken j f).1 (rw c t.free),
              ))
              t.tracks)
            λ r pushed. (x.0, t.free, pushed)))

  -- On a valid heap that keeps the id of a popped node, with room, heap_push of this node with its
  -- id kept ends with that id: the heap is valid, keeps no id any more, and maps the id to the node
  -- and every other id to what it was.
  pub heap_push_kept :
      IsHeap fcomp m.mem (some (m.mem nd).node_id) h
      → h.curr_heap_size < h.max_heap_size
      → Yields (PushedAs fcomp none m h nd (m.mem nd).node_id) (heap_push fcomp m h nd true)
  unfolding push_node
  heap_push_kept v space = rw (enough_room fcomp m h nd nonnull true space) (
      place_node_restores fcomp sw m h none nd (m.mem nd).node_id h.ids_last h.ids_min_free v.mapped
        v.ordered v.solid nonnull apart space (v.held_taken _ refl).0 (λ i. v.held_apart _ i refl)
        (λ j s q f away c. elim (v.live j s q f) [
          | inl g ↦ absurd (c (ground arith))
          | inr (i, g) ↦ absurd (away s i g)
        ])
        (λ j f. cc)
        (λ ids taken same. TracksIds-status h ids (same_status ids taken same) v.tracks))
    where
      same_status :
          (ids : ℕ → Option ℕ)
          → ids (m.mem nd).node_id ≢ none
          → ((k : ℕ) → k ≢ (m.mem nd).node_id → (ids k ≡ none) ↔ (h.ids_arr k ≡ none))
          → (k : ℕ) → (ids k ≡ none) ↔ (h.ids_arr k ≡ none)
      same_status ids taken same k = elim (eq-or-ne k (m.mem nd).node_id) [
        | inl e ↦ rw e ((λ c. absurd (taken c)), λ c. absurd ((v.held_taken _ refl).1 c))
        | inr d ↦ same k d
      ]
